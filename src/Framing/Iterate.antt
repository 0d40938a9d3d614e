-- ===== src/Framing/Iterate.antt =====
-- iter_frames: the frames of a buffer, offset by offset.
pub mod Encode
use mathlib.Core.Path.{ap₂}
use native.Mathlib.Decide.{dec_lt}
use pyspark_client_wasm.Prelude.{
  ℕ, zero, suc, ◌+◌, ◌-◌, ◌≤◌, ◌<◌, ◌≡◌, refl, sym, ap, ◌∙◌, not, [], ◌∷◌, ◌++◌, append_assoc,
  arith, ltb, if◌then◌else◌, length, take, drop, length-append, length-take, length-drop,
  take-append-drop, drop-append_left, drop-drop, All, Bytes, truncated_header, truncated_body, ok,
  Gen, stop, raise, emit, ◌>>=◌,
}
use pyspark_client_wasm.Framing.{
  header_len, Frame, pack, unpack_from, encode_message, Round, finished, failed, got, round,
  after_round, iter_frames_from, iter_frames,
}
use pyspark_client_wasm.Framing.Header.{
  encode_message_of_pack, length-encode_message, encode_message_parts, pack_parts, unpack_from-pack,
  unpack_from-drop, IsByte, pack-unpack_from,
}

-- What iter_frames promises for the bytes `bs` from offset `off` on: whole frames, each with the
-- header that encodes it, and then the end of the data or the error for what is left.
pub data Reads : ℕ → Bytes → Gen Frame → Type 0 where
  done : {off : ℕ} → Reads off [] stop
  short_header :
      {off : ℕ} {bs : Bytes}
      → 0 < length bs
      → length bs < header_len
      → Reads off bs (raise (truncated_header off (length bs)))
  short_body :
      {off : ℕ} {bs : Bytes} (flags size : ℕ)
      → pack flags size ≡ ok (take header_len bs)
      → header_len ≤ length bs
      → length bs < header_len + size
      → Reads off bs (raise (truncated_body off size (length bs - header_len)))
  whole :
      {off : ℕ} {bs head rest : Bytes} {g : Gen Frame} (f : Frame)
      → encode_message f.payload f.flags ≡ ok head
      → bs ≡ head ++ rest
      → Reads (off + length head) rest g
      → Reads off bs (emit f g)

-- A round on what is left of the data, which stands at offset `off`.
round_front : ℕ → Bytes → Round
round_front off bs =
    let n = length bs in
    let (flags, size) = unpack_from bs 0 in
    if not (ltb 0 n)
    then finished
    else if ltb n header_len
    then failed (truncated_header off n)
    else if ltb n (header_len + size)
    then failed (truncated_body off size (n - header_len))
    else got (record { flags = flags; payload = take size (drop header_len bs) })
        (off + header_len + size)

round-drop : (bs : Bytes) (off : ℕ) → off ≤ length bs → round bs off ≡ round_front off (drop off bs)
unfolding round round_front
round-drop bs off h =
    rw (unpack_from-drop bs off)
      (rw (← drop-drop off header_len bs) (ground (arith, length-drop off bs)))

-- The outcomes of a round, and what each says of the data.
data Front (off : ℕ) (bs : Bytes) : Round → Type 0 where
  at_end : bs ≡ [] → Front off bs finished
  in_header :
      0 < length bs
      → length bs < header_len
      → Front off bs (failed (truncated_header off (length bs)))
  in_body :
      (flags size : ℕ)
      → pack flags size ≡ ok (take header_len bs)
      → header_len ≤ length bs
      → length bs < header_len + size
      → Front off bs (failed (truncated_body off size (length bs - header_len)))
  at_frame :
      (f : Frame) (head rest : Bytes) (end : ℕ)
      → encode_message f.payload f.flags ≡ ok head
      → bs ≡ head ++ rest
      → end ≡ off + length head
      → Front off bs (got f end)

module _ (off : ℕ) (bs : Bytes) where
  abbrev front_size : ℕ
  front_size = (unpack_from bs 0).1

  abbrev front_frame : Frame
  front_frame = record {
    flags = (unpack_from bs 0).0;
    payload = take front_size (drop header_len bs);
  }

  round_front_short :
      0 < length bs
      → length bs < header_len
      → round_front off bs ≡ failed (truncated_header off (length bs))
  unfolding round_front
  round_front_short h k = ground arith

  round_front_cut :
      header_len ≤ length bs
      → length bs < header_len + front_size
      → round_front off bs ≡ failed (truncated_body off front_size (length bs - header_len))
  unfolding round_front
  round_front_cut h k = ground arith

  round_front_whole :
      header_len + front_size ≤ length bs
      → round_front off bs ≡ got front_frame (off + header_len + front_size)
  unfolding round_front
  round_front_whole h = ground arith

  -- The bytes of a whole frame are what encode_message gives for it.
  front_frame-Front :
      All IsByte bs
      → header_len + front_size ≤ length bs
      → Front off bs (got front_frame (off + header_len + front_size))
  front_frame-Front b h =
      let (packed, small) = pack-unpack_from bs b (omega arith) in
      let sized : length front_frame.payload ≡ front_size =
        omega (arith, length-take front_size (drop header_len bs), length-drop header_len bs) in
      at_frame front_frame (take header_len bs ++ front_frame.payload)
        (drop front_size (drop header_len bs)) _
        (encode_message_of_pack front_frame.payload front_frame.flags front_size small sized packed)
        (sym (
          append_assoc (take header_len bs) front_frame.payload
            (drop front_size (drop header_len bs))
          ∙ ap (◌++◌ (take header_len bs)) (take-append-drop front_size (drop header_len bs))
          ∙ take-append-drop header_len bs))
        (omega (
          arith,
          sized,
          length-append (take header_len bs) front_frame.payload,
          length-take header_len bs,
        ))

round_front-Front : (off : ℕ) (bs : Bytes) → All IsByte bs → Front off bs (round_front off bs)
round_front-Front off [] b = unfold round_front in at_end refl
round_front-Front off (x ∷ xs) b =
    let bs : Bytes = x ∷ xs in
    elim (dec_lt (length bs) header_len) [
      | yes short ↦
          rw (round_front_short off bs (omega arith) short) (in_header (omega arith) short)
      | no long ↦ elim (dec_lt (length bs) (header_len + front_size off bs)) [
        | yes cut ↦ rw (round_front_cut off bs (omega arith) cut) (
            in_body (unpack_from bs 0).0 (front_size off bs) (pack-unpack_from bs b (omega arith)).0
              (omega arith) cut)
        | no fits ↦
            rw (round_front_whole off bs (omega arith)) (front_frame-Front off bs b (omega arith))
      ]
    ]

-- One round and what comes behind it.
after_round-Reads :
    {off : ℕ} {bs : Bytes} {r : Round} (next : ℕ → Gen Frame)
    → Front off bs r
    → ((head rest : Bytes)
        → bs ≡ head ++ rest
        → header_len ≤ length head
        → Reads (off + length head) rest (next (off + length head)))
    → Reads off bs (after_round next r)
unfolding after_round
after_round-Reads next (at_end e) h = rw e done
after_round-Reads next (in_header l m) h = short_header l m
after_round-Reads next (in_body flags size p l m) h = short_body flags size p l m
after_round-Reads next (at_frame f head rest end e s t) h =
    rw t (whole f e s (h head rest s (omega (arith, length-encode_message f.payload f.flags e))))

IsByte-right : (xs ys : Bytes) → All IsByte (xs ++ ys) → All IsByte ys
IsByte-right [] ys h = h
IsByte-right (x ∷ xs) ys h = IsByte-right xs ys h.1

drop-add :
    (off : ℕ) (bs head rest : Bytes)
    → drop off bs ≡ head ++ rest
    → drop (off + length head) bs ≡ rest
drop-add off bs head rest e =
    sym (drop-drop off (length head) bs) ∙ ap (drop (length head)) e ∙ drop-append_left head rest

iter_frames_from-Reads :
    (fuel : ℕ) (bs : Bytes) (off : ℕ)
    → off ≤ length bs
    → length bs - off < fuel
    → All IsByte (drop off bs)
    → Reads off (drop off bs) (iter_frames_from fuel bs off)
unfolding iter_frames_from
iter_frames_from-Reads zero bs off h k b = absurd (omega arith)
iter_frames_from-Reads (suc fuel) bs off h k b = rw (round-drop bs off h) (
    after_round-Reads (iter_frames_from fuel bs) (round_front-Front off (drop off bs) b)
      λ head rest s five.
        let sized : length (drop off bs) ≡ length head + length rest =
          ap length s ∙ length-append head rest in
        let behind = drop-add off bs head rest s in
        rw behind at (
          iter_frames_from-Reads fuel bs (off + length head)
            (omega (arith, sized, length-drop off bs)) (omega (arith, sized, length-drop off bs))
            (rw behind (IsByte-right head rest (rw s at b)))))

-- iter_frames reads any data: it yields the whole frames in front, each the decoding of the bytes
-- that it stands for, and then stops at the end of the data or raises the error for the frame that
-- is cut.
pub iter_frames-Reads : (bs : Bytes) → All IsByte bs → Reads 0 bs (iter_frames bs)
unfolding iter_frames
iter_frames-Reads bs b = iter_frames_from-Reads (suc (length bs)) bs 0 (omega arith) (omega arith) b
