-- ===== src/Client/Unary.antt =====
-- A unary response: what the caller gets for the frames and the trailer that the server sent.
use pyspark_client_wasm.Prelude.{
  ℕ, ◌≡◌, refl, ap, Option, some, List, ◌++◌, map, Bytes, Text, Result, ok, ◌>>=◌,
}
use pyspark_client_wasm.Client.{GrpcWebStub, Codec, first_message, unary_response, call_unary}
use pyspark_client_wasm.Contract.{HttpResponse, SyncChannel}
use pyspark_client_wasm.Framing.{encode_message, encode_trailers}
use pyspark_client_wasm.Framing.Iterate.Encode.{encode_frames}
use pyspark_client_wasm.Framing.Trailers.{IsMessage}
use pyspark_client_wasm.Stub.{Metadata, headers_from_metadata}
use pyspark_client_wasm.Stub.Body.{decode_body_served}
use pyspark_client_wasm.Stub.Status.{status_result, raise_for_trailers-trailers_of}
use pyspark_client_wasm.Stub.Stream.Served.{message_frame}
use pyspark_client_wasm.Text.{Unicode}

module _ (u : Unicode) {Req Resp : Type 0} (codec : Codec Req Resp) where
  -- What a unary call makes of the messages and the status that a server sends: the first message
  -- where the status is 0, whatever the HTTP status and headers; otherwise the server's error.
  unary_response_served :
      (path : Text) (ms : List Bytes) (n : ℕ) (m : Text) (resp : HttpResponse) (bs tb : Bytes)
      → IsMessage m
      → encode_frames (map message_frame ms) ≡ ok bs
      → encode_trailers n m ≡ ok tb
      → resp.body ≡ bs ++ tb
      → unary_response u codec path resp
        ≡ (status_result n m >>= λ _. first_message u codec path ms)
  unfolding unary_response
  unary_response_served path ms n m resp bs tb ok_m eb et e = rw e (
      rw (decode_body_served u path ms n m bs tb ok_m eb et)
        (rw (raise_for_trailers-trailers_of n m (some resp.status) path) refl))

module _ (u : Unicode) {Time S Req Resp : Type 0} (chan : SyncChannel Time S)
    (codec : Codec Req Resp) where
  -- A unary call over a channel that answers with the messages `ms` and a trailer for status `n`
  -- and message `m`: the channel is called once, with the framed request and the merged headers,
  -- and the caller gets the first message where the status is 0 (an error if there is none), and
  -- SparkConnectGrpcException with the status and the message otherwise.
  pub call_unary_served :
      (stub : GrpcWebStub) (path : Text) (request : Req) (md : Metadata) (timeout : Option Time)
      (payload frame : Bytes) (resp : HttpResponse) (s s' : S) (ms : List Bytes) (n : ℕ) (m : Text)
      (bs tb : Bytes)
      → codec.serialize request ≡ ok payload
      → encode_message payload 0 ≡ ok frame
      → chan.unary path frame (headers_from_metadata u (stub.default_metadata ++ md)) timeout s
        ≡ (ok resp, s')
      → IsMessage m
      → encode_frames (map message_frame ms) ≡ ok bs
      → encode_trailers n m ≡ ok tb
      → resp.body ≡ bs ++ tb
      → call_unary u chan codec stub path request (some md) timeout s
        ≡ (status_result n m >>= (λ _. first_message u codec path ms), s')
  unfolding call_unary
  call_unary_served stub path request md timeout payload frame resp s s' ms n m bs tb es ef ec ok_m
        eb et e =
      rw es (
        rw ef (
          rw ec (
            ap (λ (r : Result Resp). (r, s'))
              (unary_response_served u codec path ms n m resp bs tb ok_m eb et e))))
