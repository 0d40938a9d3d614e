-- ===== src/Framing/Iterate/Encode.antt =====
-- iter_frames on frames that encode_message produced.
use mathlib.Core.Path.{ap₂}
use pyspark_client_wasm.Prelude.{
  ℕ, zero, suc, ◌+◌, ◌%◌, ◌<◌, ◌≡◌, refl, sym, ap, ◌∙◌, List, [], ◌∷◌, ◌++◌, append-nil,
  append_assoc, arith, length, length-append, take-append_left, drop-append_left, drop-append_of_eq,
  All, Bytes, Result, ok, stop, emit, emits, ◌>>=◌, >>=-eq-ok,
}
use pyspark_client_wasm.Framing.{
  header_len, Frame, pack, encode_message, got, round, after_round, iter_frames_from, iter_frames,
}
use pyspark_client_wasm.Framing.Header.{
  encode_message_parts, length-encode_message, pack_parts, unpack_from-pack,
}
use pyspark_client_wasm.Framing.Iterate.{round_front, round-drop}

-- Frames encoded one behind the other.
abbrev pub encode_frames : List Frame → Result Bytes
encode_frames [] = ok []
encode_frames (f ∷ fs) = do
  head ← encode_message f.payload f.flags
  rest ← encode_frames fs
  ok (head ++ rest)

pub encode_frames-one :
    (f : Frame) {bs : Bytes}
    → encode_message f.payload f.flags ≡ ok bs
    → encode_frames (f ∷ []) ≡ ok bs
encode_frames-one f {bs} e = rw e (ap ok (append-nil bs))

pub encode_frames-append :
    (fs gs : List Frame) {a b : Bytes}
    → encode_frames fs ≡ ok a
    → encode_frames gs ≡ ok b
    → encode_frames (fs ++ gs) ≡ ok (a ++ b)
encode_frames-append [] gs {a} {b} e h =
    h ∙ ap (λ (x : Bytes). ok (x ++ b)) (let e' : [] ≡ a = cc e in e')
encode_frames-append (f ∷ fs) gs {a} {b} e h =
    let (head, eh, e') = >>=-eq-ok (encode_message f.payload f.flags) _ e in
    let (rest, er, e'') = >>=-eq-ok (encode_frames fs) _ e' in
    let joined : head ++ rest ≡ a = cc e'' in
    rw (eh, encode_frames-append fs gs er h)
      (ap ok (sym (append_assoc head rest b) ∙ ap (λ (x : Bytes). x ++ b) joined))

abbrev pub IsFlags : Frame → Type 0
IsFlags f = f.flags < 256

-- A round on a header and a payload that stand in front.
round_front-parts :
    (off flags : ℕ) (h payload rest : Bytes)
    → pack flags (length payload) ≡ ok h
    → round_front off (h ++ (payload ++ rest))
      ≡ got (record { flags = flags; payload = payload }) (off + header_len + length payload)
unfolding round_front
round_front-parts off flags h payload rest p =
    let bs = h ++ (payload ++ rest) in
    let five = (pack_parts flags (length payload) p).0 in
    let behind = drop-append_of_eq header_len h (payload ++ rest) (sym five) in
    let cut = take-append_left payload rest in
    rw (unpack_from-pack flags (length payload) (payload ++ rest) p) (
      rw (behind, cut)
        (ground (arith, five, length-append h (payload ++ rest), length-append payload rest)))

round_front-encode :
    (off : ℕ) (f : Frame) (head rest : Bytes)
    → IsFlags f
    → encode_message f.payload f.flags ≡ ok head
    → round_front off (head ++ rest) ≡ got f (off + length head)
round_front-encode off f head rest small e =
    let (h, p, q) = encode_message_parts f.payload f.flags e in
    let same : f.flags % 256 ≡ f.flags = omega arith in
    let end : off + header_len + length f.payload ≡ off + length head =
      omega (arith, length-encode_message f.payload f.flags e) in
    ap (λ (x : Bytes). round_front off (x ++ rest)) q
    ∙ ap (round_front off) (append_assoc h f.payload rest)
    ∙ round_front-parts off f.flags h f.payload rest (rw same at p)
    ∙ ap (got f) end

round-append : (pre bs : Bytes) → round (pre ++ bs) (length pre) ≡ round_front (length pre) bs
round-append pre bs =
    round-drop (pre ++ bs) (length pre) (omega (arith, length-append pre bs))
    ∙ ap (round_front (length pre)) (drop-append_left pre bs)

iter_frames_from-encode :
    (fs : List Frame) (fuel : ℕ) (pre bs : Bytes)
    → All IsFlags fs
    → encode_frames fs ≡ ok bs
    → length bs < fuel
    → iter_frames_from fuel (pre ++ bs) (length pre) ≡ emits fs stop
unfolding iter_frames_from after_round
iter_frames_from-encode fs zero pre bs small e h = absurd (omega arith)
iter_frames_from-encode [] (suc fuel) pre bs small e h =
    let nothing : [] ≡ bs = cc e in
    rw (round-append pre bs) (rw (← nothing) (unfold round_front in refl))
iter_frames_from-encode (f ∷ fs) (suc fuel) pre bs small e h =
    let (head, eh, e') = >>=-eq-ok (encode_message f.payload f.flags) _ e in
    let (rest, er, e'') = >>=-eq-ok (encode_frames fs) _ e' in
    let joined : head ++ rest ≡ bs = cc e'' in
    let sized = length-encode_message f.payload f.flags eh in
    let again =
      iter_frames_from-encode fs fuel (pre ++ head) rest small.1 er
        (omega (arith, sized, ap length joined, length-append head rest)) in
    let regrouped = append_assoc pre head rest ∙ ap (◌++◌ pre) joined in
    rw (round-append pre bs) (
      rw (← joined) (
        rw (round_front-encode (length pre) f head rest small.0 eh) (
          ap (emit f) (
            rw joined (
              ap₂ (iter_frames_from fuel) (sym regrouped) (sym (length-append pre head))
              ∙ again)))))

-- Frames that were encoded one behind the other are read back.
pub iter_frames-encode :
    (fs : List Frame) (bs : Bytes)
    → All IsFlags fs
    → encode_frames fs ≡ ok bs
    → iter_frames bs ≡ emits fs stop
unfolding iter_frames
iter_frames-encode fs bs small e =
    iter_frames_from-encode fs (suc (length bs)) [] bs small e (omega arith)
