-- ===== src/Sab/EndToEnd.antt =====
-- A call of PySpark's client all the way: from the stub through the channel, the shared memory and
-- the bridge, and back.
use pyspark_client_wasm.Prelude.{
  ℕ, ◌^◌, ◌<◌, ◌≡◌, refl, ◌∙◌, Bool, false, Option, some, List, ◌++◌, map, All, Bytes, Text, ok,
  ◌>>=◌,
}
use pyspark_client_wasm.Text.{Unicode}
use pyspark_client_wasm.Contract.{HttpResponse, grpc_path}
use pyspark_client_wasm.Framing.{encode_message, encode_trailers}
use pyspark_client_wasm.Framing.Iterate.Encode.{encode_frames}
use pyspark_client_wasm.Framing.Trailers.{IsMessage}
use pyspark_client_wasm.Stub.{Metadata, headers_from_metadata}
use pyspark_client_wasm.Stub.Status.{status_result}
use pyspark_client_wasm.Stub.Stream.Served.{message_frame}
use pyspark_client_wasm.Client.{GrpcWebStub, Codec, first_message, call_unary}
use pyspark_client_wasm.Client.Unary.{call_unary_served}
use pyspark_client_wasm.Sab.{RequestKind, Request, SyncBackend, sync_channel}
use pyspark_client_wasm.Sab.Calls.{channel_at, sync_channel-Calls}
use pyspark_client_wasm.Sab.Calls as Calls
use pyspark_client_wasm.Sab.Window.{Meta, no_meta, Json}
use pyspark_client_wasm.Sab.Machine.{Event, World, returned}
use pyspark_client_wasm.Sab.Atomics.{Transport, headers_or_empty, new_call, unary}
use pyspark_client_wasm.Sab.Atomics.Requests.{IsAttached, needed}
use pyspark_client_wasm.Sab.Bridge.{payload_capacity, emit_message}
use pyspark_client_wasm.Sab.Transfer.{AreCarried}
use pyspark_client_wasm.Sab.Transfer.Stale.{IsStale}
use pyspark_client_wasm.Sab.Transfer.Unary.{IsBounded, written, Done, unary-emit_message}

-- A backend that answers as the Atomics backend does, wherever that one returns.
pub record IsAtomics {Time : Type 0} (json : Json Time) (transport : Transport) (hook : Bool)
    (backend : SyncBackend Time World) : Type 0 where
  pub returns :
      (request : Request Time) (w w' : World) (resp : HttpResponse)
      → unary json transport hook request w ≡ (returned resp, w')
      → backend.unary request w ≡ (ok resp, w')

-- The HTTP response of a server: its status and headers, and the body.
abbrev http_response : ℕ → Meta → Bytes → HttpResponse
http_response status meta body = record {
  status = status;
  headers = headers_or_empty meta.headers;
  body = body;
}

module _ (u : Unicode) {Time : Type 0} (backend : SyncBackend Time World) (origin name : Text) where
  -- The request that reaches the backend.
  abbrev pub sent : GrpcWebStub → Metadata → Option Time → Bytes → Request Time
  sent stub md timeout frame =
      Calls.request backend pyspark_client_wasm.Sab.unary (origin ++ grpc_path name)
        (grpc_path name) frame (headers_from_metadata u (stub.default_metadata ++ md)) timeout

module _ (u : Unicode) {Time Req Resp : Type 0} (json : Json Time) (transport : Transport)
    (hook : Bool) (backend : SyncBackend Time World) (codec : Codec Req Resp)
    (origin name : Text) where
  -- A unary call of the client, in the browser: the server answers the request with the messages
  -- `ms` and a trailer for status `n` and message `m`, under any HTTP status and headers, and the
  -- body comes back in any number of windows. The caller gets the first message where the status is
  -- 0 (an error if there is none), and SparkConnectGrpcException with the status and the message
  -- otherwise; the channel is idle again. The message of the trailer has no newline in it and no
  -- white space around it, the backend is one that answers as the Atomics backend does, the bridge
  -- writes to the worker's own region, the numbers fit into the control words, the metas fit into
  -- their zone, and the region is larger than that.
  pub call_unary_delivered :
      (stub : GrpcWebStub) (request : Req) (md : Metadata) (timeout : Option Time)
      (payload frame : Bytes) (status : ℕ) (meta : Meta) (ms : List Bytes) (n : ℕ) (m : Text)
      (bs tb : Bytes) (stale windows rest : List Event) (w : World)
      → IsAtomics json transport hook backend
      → codec.serialize request ≡ ok payload
      → encode_message payload 0 ≡ ok frame
      → IsMessage m
      → encode_frames (map message_frame ms) ≡ ok bs
      → encode_trailers n m ≡ ok tb
      → IsAttached w
      → IsBounded
          (needed json transport hook
            (sent u backend origin name stub md timeout frame)
            (new_call w))
          w
      → status < 2 ^ 31
      → AreCarried json meta
      → AreCarried json no_meta
      → All IsStale stale
      → emit_message json false
          (payload_capacity
            (written json transport hook
              (sent u backend origin name stub md timeout frame)
              w).mem.region)
          status
          meta
          (bs ++ tb)
        ≡ some windows
      → w.script ≡ stale ++ (windows ++ rest)
      → (w' : World) × (call_unary u
            (sync_channel (channel_at backend origin))
            codec
            stub
            (grpc_path name)
            request
            (some md)
            timeout
            w
          ≡ (status_result n m >>= (λ _. first_message u codec (grpc_path name) ms), w'))
        × Done rest w'
  call_unary_delivered stub request md timeout payload frame status meta ms n m bs tb stale windows
        rest w is_atomics es ef ok_m eb et a b st cm cn is e script =
      let (w', run, over) =
        unary-emit_message json transport hook (sent u backend origin name stub md timeout frame)
          status meta (bs ++ tb) stale windows rest w a b st cm cn is e script in
      let answered =
        (sync_channel-Calls backend origin name frame
          (headers_from_metadata u (stub.default_metadata ++ md)) timeout w).0
        ∙ is_atomics.returns (sent u backend origin name stub md timeout frame) w w'
            (http_response status meta (bs ++ tb)) run in
      (
        w',
        call_unary_served u (sync_channel (channel_at backend origin)) codec stub (grpc_path name)
            request md timeout payload frame (http_response status meta (bs ++ tb)) w w' ms n m bs
            tb es ef answered ok_m eb et refl,
        over,
      )
