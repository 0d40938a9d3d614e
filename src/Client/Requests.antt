-- ===== src/Client/Requests.antt =====
-- The body of a client-streaming call: the request frames one behind the other.
use pyspark_client_wasm.Prelude.{
  ◌≡◌, refl, List, [], ◌∷◌, map, Bytes, Result, ok, stop, emits, ◌>>=◌, >>=-eq-ok,
}
use pyspark_client_wasm.Client.{encode_requests}
use pyspark_client_wasm.Framing.{encode_message, iter_frames}
use pyspark_client_wasm.Framing.Iterate.Encode.{encode_frames, iter_frames-encode}
use pyspark_client_wasm.Stub.Stream.Served.{message_frame, message_frames-IsFlags}

module _ {Req : Type 0} (serialize : Req → Result Bytes) where
  -- The payloads, in order.
  abbrev pub serialize_all : List Req → Result (List Bytes)
  serialize_all [] = ok []
  serialize_all (r ∷ rs) = do p ← serialize r; ps ← serialize_all rs; ok (p ∷ ps)

  encode_requests-encode_frames :
      (rs : List Req) (body : Bytes)
      → encode_requests serialize (emits rs stop) ≡ ok body
      → (ps : List Bytes) × (serialize_all rs ≡ ok ps)
        × (encode_frames (map message_frame ps) ≡ ok body)
  unfolding encode_requests
  encode_requests-encode_frames [] body e = ([], refl, e)
  encode_requests-encode_frames (r ∷ rs) body e =
      let (p, ep, e') = >>=-eq-ok (serialize r) _ e in
      let (frame, ef, e'') = >>=-eq-ok (encode_message p 0) _ e' in
      let (later, el, e''') = >>=-eq-ok (encode_requests serialize (emits rs stop)) _ e'' in
      let (ps, eps, framed) = encode_requests-encode_frames rs later el in
      (p ∷ ps, rw (ep, eps), rw (ef, framed) e''')

  -- A body that could be built holds the payload of every request, in order and unchanged: reading
  -- its frames gives them back.
  pub iter_frames-encode_requests :
      (rs : List Req) (body : Bytes)
      → encode_requests serialize (emits rs stop) ≡ ok body
      → (ps : List Bytes) × (serialize_all rs ≡ ok ps)
        × (iter_frames body ≡ emits (map message_frame ps) stop)
  iter_frames-encode_requests rs body e =
      let (ps, eps, framed) = encode_requests-encode_frames rs body e in
      (ps, eps, iter_frames-encode (map message_frame ps) body (message_frames-IsFlags ps) framed)
