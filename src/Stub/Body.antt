-- ===== src/Stub/Body.antt =====
-- _decode_body on what a server sends.
use pyspark_client_wasm.Prelude.{
  ℕ, ◌≡◌, refl, sym, ap, ◌∙◌, Option, none, some, List, [], ◌∷◌, ◌++◌, map, append-nil,
  append_assoc, arith, All-append, Bytes, Text, ok, Gen, stop, emit, emits, emits-append,
}
use pyspark_client_wasm.Dict.{Dict}
use pyspark_client_wasm.Framing.{Frame, is_trailer, is_compressed, encode_trailers, trailer_flag}
use pyspark_client_wasm.Framing.Iterate.Encode.{
  IsFlags, encode_frames, encode_frames-one, encode_frames-append, iter_frames-encode,
}
use pyspark_client_wasm.Framing.Trailers.{IsMessage, trailers_parts, trailers_of}
use pyspark_client_wasm.Stub.{decode_frames, decode_body}
use pyspark_client_wasm.Stub.Stream.Served.{message_frame, message_frames-IsFlags}
use pyspark_client_wasm.Text.{Unicode}

module _ (u : Unicode) (path : Text) where
  decode_frames-messages :
      (ms : List Bytes) (messages : List Bytes) (trailers : Option (Dict Text)) (g : Gen Frame)
      → decode_frames u path messages trailers (emits (map message_frame ms) g)
        ≡ decode_frames u path (messages ++ ms) trailers g
  unfolding decode_frames is_compressed is_trailer
  decode_frames-messages [] messages trailers g =
      ap (λ (x : List Bytes). decode_frames u path x trailers g) (sym (append-nil messages))
  decode_frames-messages (m ∷ ms) messages trailers g =
      decode_frames-messages ms (messages ++ m ∷ []) trailers g
      ∙ ap (λ (x : List Bytes). decode_frames u path x trailers g)
          (append_assoc messages (m ∷ []) ms)

  -- A body of message frames and a trailer is decoded into the messages and the trailer's fields.
  pub decode_body_served :
      (ms : List Bytes) (n : ℕ) (m : Text) (bs tb : Bytes)
      → IsMessage m
      → encode_frames (map message_frame ms) ≡ ok bs
      → encode_trailers n m ≡ ok tb
      → decode_body u (bs ++ tb) path ≡ ok (ms, some (trailers_of n m))
  unfolding decode_body
  decode_body_served ms n m bs tb ok_m eb et =
      let (body, framed, read) = trailers_parts u n m ok_m et in
      let f : Frame = record { flags = trailer_flag; payload = body } in
      let all =
        encode_frames-append (map message_frame ms) (f ∷ []) eb (encode_frames-one f framed) in
      let flags =
        All-append IsFlags (map message_frame ms) (f ∷ []) (message_frames-IsFlags ms)
          (omega arith) in
      ap (decode_frames u path [] none) (
        iter_frames-encode (map message_frame ms ++ f ∷ []) (bs ++ tb) flags all
        ∙ emits-append (map message_frame ms) (f ∷ []) stop)
      ∙ decode_frames-messages ms [] none (emit f stop)
      ∙ unfold decode_frames is_compressed is_trailer in rw read refl
