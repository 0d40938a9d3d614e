-- ===== src/Stub/Stream/Served.antt =====
-- A streamed response from a server: what the client gets for the frames and the trailer sent.
use pyspark_client_wasm.Prelude.{
  ℕ, zero, suc, ◌+◌, ◌-◌, ◌%◌, ◌<◌, ◌≡◌, refl, sym, ap, ◌∙◌, Bool, true, false, Option, none, some,
  List, [], ◌∷◌, ◌++◌, map, append-nil, append_assoc, arith, length, join, length-append,
  take-append_left, drop-append_of_eq, All, Bytes, Text, Exn, Result, ok, Gen, stop, raise, emit,
  emits, ◌>>=◌, >>=-eq-ok,
}
use pyspark_client_wasm.Framing.{
  header_len, trailer_flag, pack, Frame, is_trailer, is_compressed, encode_message, encode_trailers,
  parse_trailers,
}
use pyspark_client_wasm.Dict.{Dict}
use pyspark_client_wasm.Framing.Header.{
  length-encode_message, encode_message_parts, pack_parts, unpack_from-pack,
}
use pyspark_client_wasm.Framing.Iterate.Encode.{IsFlags, encode_frames}
use pyspark_client_wasm.Framing.Trailers.{IsMessage, trailers_parts}
use pyspark_client_wasm.Stub.{
  end_of, take_frame, StreamState, handle, on_message, on_frame, drain, finish, extend, stream_from,
  stream_responses,
}
use pyspark_client_wasm.Stub.Status.{status_result, raise_for_trailers-trailers_of}
use pyspark_client_wasm.Stub.Stream.{stream_responses-join, drain_fuel}
use pyspark_client_wasm.Text.{Unicode}

take_frame-parts :
    (flags : ℕ) (h payload rest : Bytes)
    → pack flags (length payload) ≡ ok h
    → take_frame (h ++ (payload ++ rest)) ≡ some (record { flags = flags; payload = payload }, rest)
unfolding take_frame
take_frame-parts flags h payload rest p =
    let five = (pack_parts flags (length payload) p).0 in
    let all_length = length-append h payload in
    rw (unpack_from-pack flags (length payload) (payload ++ rest) p) (
      rw (drop-append_of_eq header_len h (payload ++ rest) (sym five)) (
        let size : header_len + length payload - header_len ≡ length payload = omega arith in
        rw size (
          rw (take-append_left payload rest) (
            rw (← append_assoc h payload rest) (
              rw
                (drop-append_of_eq (header_len + length payload) (h ++ payload) rest
                  (omega (arith, five, all_length)))
                (ground (arith, five, all_length, length-append (h ++ payload) rest)))))))

-- take_frame takes a frame that encode_message wrote.
pub take_frame-encode :
    (f : Frame) (head rest : Bytes)
    → IsFlags f
    → encode_message f.payload f.flags ≡ ok head
    → take_frame (head ++ rest) ≡ some (f, rest)
take_frame-encode f head rest small e =
    let (h, p, q) = encode_message_parts f.payload f.flags e in
    let same : f.flags % 256 ≡ f.flags = omega arith in
    ap (λ (x : Bytes). take_frame (x ++ rest)) q
    ∙ ap take_frame (append_assoc h f.payload rest)
    ∙ take_frame-parts f.flags h f.payload rest (rw same at p)

abbrev pub message_frame : Bytes → Frame
message_frame m = record { flags = 0; payload = m }

pub message_frames-IsFlags : (ms : List Bytes) → All IsFlags (map message_frame ms)
message_frames-IsFlags [] = tt
message_frames-IsFlags (m ∷ ms) = (omega arith, message_frames-IsFlags ms)

module _ {R : Type 0} (from_string : Bytes → Result R) where
  abbrev pub decode_all : List Bytes → Result (List R)
  decode_all [] = ok []
  decode_all (m ∷ ms) = do r ← from_string m; rs ← decode_all ms; ok (r ∷ rs)

module _ (u : Unicode) {R : Type 0} (from_string : Bytes → Result R) (path : Text) where
  abbrev drains : ℕ → (StreamState → Gen R) → StreamState → Gen R
  drains = drain u from_string path

  -- One message frame in front of the buffer.
  drain_message :
      (n : ℕ) (k : StreamState → Gen R) (st : StreamState) (m head rest : Bytes) (r : R)
      → encode_message m 0 ≡ ok head
      → from_string m ≡ ok r
      → st.buffer ≡ head ++ rest
      → drains (suc n) k st ≡ emit r (drains n k (record st { buffer = rest }))
  unfolding drain on_frame on_message
  drain_message n k st m head rest r e d b =
      let front = ap take_frame b ∙ take_frame-encode (message_frame m) head rest (omega arith) e in
      rw front (rw d (unfold is_compressed is_trailer in refl))

  -- The message frames in front of the buffer, whatever stands behind them.
  drain_messages :
      (ms : List Bytes) (rs : List R) (k : StreamState → Gen R) (saw : Bool)
      (trailers : Option (Dict Text)) (bs rest : Bytes)
      → encode_frames (map message_frame ms) ≡ ok bs
      → decode_all from_string ms ≡ ok rs
      → (n : ℕ) → length (bs ++ rest) < n
      → drains n k (record { buffer = bs ++ rest; saw_trailer = saw; trailers = trailers })
        ≡ emits rs (
            drains
              (suc (length rest))
              k
              (record { buffer = rest; saw_trailer = saw; trailers = trailers }))
  drain_messages [] rs k saw trailers bs rest e d n h =
      let no_bytes : [] ≡ bs = cc e in
      let no_responses : [] ≡ rs = cc d in
      rw (← no_responses) (
        rw (← no_bytes) (
          drain_fuel u from_string path n (suc (length rest)) k
            (record { buffer = rest; saw_trailer = saw; trailers = trailers })
            (omega (arith, ap (λ (x : Bytes). length (x ++ rest)) no_bytes)) (omega arith)))
  drain_messages (m ∷ ms) rs k saw trailers bs rest e d zero h = absurd (omega arith)
  drain_messages (m ∷ ms) rs k saw trailers bs rest e d (suc n) h =
      let (head, eh, e') = >>=-eq-ok (encode_message m 0) _ e in
      let (later, el, e'') = >>=-eq-ok (encode_frames (map message_frame ms)) _ e' in
      let (r, dr, d') = >>=-eq-ok (from_string m) _ d in
      let (rs', ds, d'') = >>=-eq-ok (decode_all from_string ms) _ d' in
      let joined : head ++ later ≡ bs = cc e'' in
      let responses : r ∷ rs' ≡ rs = cc d'' in
      let regrouped = sym (ap (λ (x : Bytes). x ++ rest) joined) ∙ append_assoc head later rest in
      rw (← responses) (
        drain_message n k _ m head (later ++ rest) r eh dr regrouped
        ∙ ap (emit r) (
            drain_messages ms rs' k saw trailers later rest el ds n (
              omega (
                arith,
                ap (λ (x : Bytes). length x) regrouped,
                length-append head (later ++ rest),
                length-encode_message m 0 eh,
              ))))

  extend-initial :
      (k : StreamState → Gen R) (c : Bytes)
      → extend u from_string path k (record { buffer = []; saw_trailer = false; trailers = none }) c
        ≡ drains (suc (length c)) k (record { buffer = c; saw_trailer = false; trailers = none })
  unfolding extend drain take_frame
  extend-initial k [] = refl
  extend-initial k (b ∷ c) = refl

  -- The messages in front of all the bytes, and then what stands behind them.
  stream-messages :
      (ms : List Bytes) (rs : List R) (cs : List Bytes) (g : Gen Bytes) (bs rest : Bytes)
      → encode_frames (map message_frame ms) ≡ ok bs
      → decode_all from_string ms ≡ ok rs
      → join cs ≡ bs ++ rest
      → stream_responses u from_string path (emits cs g)
        ≡ emits rs (
            drains
              (suc (length rest))
              (stream_from u from_string path g)
              (record { buffer = rest; saw_trailer = false; trailers = none }))
  stream-messages ms rs cs g bs rest e d j =
      let k = stream_from u from_string path g in
      stream_responses-join u from_string path cs g
      ∙ unfold stream_responses stream_from in
        (extend-initial k (join cs))
        ∙ ap
            (λ (x : Bytes).
              drains (suc (length x)) k
                (record { buffer = x; saw_trailer = false; trailers = none }))
            j
        ∙ drain_messages ms rs k false none bs rest e d (suc (length (bs ++ rest))) (omega arith)

  -- A stream that is cut within a frame, before any trailer: the responses of the whole frames are
  -- yielded, and then the iterator stops where the chunks end, and raises the handled exception
  -- where the transport raises `e`.
  pub stream_responses_cut :
      (ms : List Bytes) (rs : List R) (cs : List Bytes) (bs part : Bytes) (e : Exn)
      → encode_frames (map message_frame ms) ≡ ok bs
      → decode_all from_string ms ≡ ok rs
      → take_frame part ≡ none
      → join cs ≡ bs ++ part
      → (stream_responses u from_string path (emits cs stop) ≡ emits rs stop)
        × (stream_responses u from_string path (emits cs (raise e))
            ≡ emits rs (raise (handle path e)))
  stream_responses_cut ms rs cs bs part e eb d none_left j = (
    stream-messages ms rs cs stop bs part eb d j
        ∙ ap (emits rs) (unfold drain stream_from in rw none_left (unfold finish in refl)),
    stream-messages ms rs cs (raise e) bs part eb d j
        ∙ ap (emits rs) (unfold drain stream_from in rw none_left),
  )

  -- A buffer that holds one trailer frame.
  drain_trailer :
      (k : StreamState → Gen R) (saw : Bool) (trailers : Option (Dict Text)) (body tb : Bytes)
      → encode_message body trailer_flag ≡ ok tb
      → drains (suc (length tb)) k (record { buffer = tb; saw_trailer = saw; trailers = trailers })
        ≡ k (record { buffer = []; saw_trailer = true; trailers = some (parse_trailers u body) })
  drain_trailer k saw trailers body tb e =
      let f : Frame = record { flags = trailer_flag; payload = body } in
      let front : take_frame tb ≡ some (f, []) =
        ap take_frame (sym (append-nil tb)) ∙ take_frame-encode f tb [] (omega arith) e in
      let st : StreamState = record {
        buffer = [];
        saw_trailer = true;
        trailers = some (parse_trailers u body);
      } in
      unfold drain on_frame in
      (rw front (unfold is_compressed is_trailer in refl)
        ∙ drain_fuel u from_string path (length tb) 1 k st
            (omega (arith, length-encode_message body trailer_flag e)) (omega arith)
        ∙ unfold take_frame in refl)

  -- A stream that a server ends with a trailer for status `n` and message `m`, cut into chunks in
  -- any way, where the message has no newline in it and no white space around it: all responses are
  -- yielded in order, and the iterator then stops if the status is 0, and raises
  -- SparkConnectGrpcException with the status and the message if it is not.
  pub stream_responses_served :
      (ms : List Bytes) (rs : List R) (n : ℕ) (m : Text) (cs : List Bytes) (bs tb : Bytes)
      → IsMessage m
      → encode_frames (map message_frame ms) ≡ ok bs
      → decode_all from_string ms ≡ ok rs
      → encode_trailers n m ≡ ok tb
      → join cs ≡ bs ++ tb
      → stream_responses u from_string path (emits cs stop) ≡ emits rs (end_of (status_result n m))
  stream_responses_served ms rs n m cs bs tb ok_m eb d et j =
      let (body, framed, read) = trailers_parts u n m ok_m et in
      let k = stream_from u from_string path stop in
      stream-messages ms rs cs stop bs tb eb d j
      ∙ ap (emits rs) (
          drain_trailer k false none body tb framed
          ∙ unfold stream_from finish in
            (rw read (ap end_of (raise_for_trailers-trailers_of n m none path))))
