-- ===== src/Sab/Calls.antt =====
-- The calls of a stub over the channel.
use pyspark_client_wasm.Prelude.{ℕ, ◌≡◌, refl, ap, ◌∙◌, Option, some, ◌++◌, Bytes, Text, Result, ok}
use pyspark_client_wasm.Text.{starts_with, strip_right}
use pyspark_client_wasm.Text.Slashes.{is_slash, slashes, strip_right-append_slashes}
use pyspark_client_wasm.Dict.{Dict}
use pyspark_client_wasm.Contract.{SyncChannel, grpc_path}
use pyspark_client_wasm.Sab.{
  RequestKind, unary, server_stream, Request, SyncBackend, SabSyncChannel, make_channel, request_of,
  send, sync_channel,
}

module _ {Time S : Type 0} (backend : SyncBackend Time S) where
  abbrev pub request : RequestKind → Text → Text → Bytes → Dict Text → Option Time → Request Time
  request kind url path body headers timeout = record {
    kind = kind;
    url = url;
    path = path;
    body = body;
    headers = headers;
    timeout = timeout;
  }

  abbrev pub channel_at : Text → SabSyncChannel Time S
  channel_at base_url = record { base_url = base_url; backend = backend }

  make_channel-slashes :
      (atomics : Option (Text → Result (SyncBackend Time S))) (origin : Text) (n : ℕ)
      → strip_right is_slash origin ≡ origin
      → make_channel atomics (origin ++ slashes n) (some backend) ≡ ok (channel_at origin)
  unfolding make_channel
  make_channel-slashes atomics origin n kept =
      ap (λ (url : Text). ok (channel_at url)) (strip_right-append_slashes origin n ∙ kept)

  -- What a channel promises to a stub at `origin`: every method is one call of the backend, to the
  -- origin and the method's path.
  abbrev pub Calls : Text → SyncChannel Time S → Type 0
  Calls origin chan =
      (name : Text) (body : Bytes) (headers : Dict Text) (timeout : Option Time) (s : S)
      → (chan.unary (grpc_path name) body headers timeout s
          ≡ backend.unary
              (request unary (origin ++ grpc_path name) (grpc_path name) body headers timeout) s)
        × (chan.server_stream (grpc_path name) body headers timeout s
            ≡ backend.server_stream
                (request server_stream (origin ++ grpc_path name) (grpc_path name) body headers
                  timeout)
                s)

  pub sync_channel-Calls : (origin : Text) → Calls origin (sync_channel (channel_at origin))
  unfolding sync_channel request_of send grpc_path starts_with
  sync_channel-Calls origin name body headers timeout s = (refl, refl)

  -- A channel with a given backend, made for an origin with any number of slashes behind it, makes
  -- one call of the backend of a call of any gRPC method: to the origin and the method's path, with
  -- one slash between, the body, the headers and the timeout unchanged.
  pub make_channel-Calls :
      (atomics : Option (Text → Result (SyncBackend Time S))) (origin : Text) (n : ℕ)
      → strip_right is_slash origin ≡ origin
      → (chan : SabSyncChannel Time S) × (make_channel atomics (origin ++ slashes n) (some backend)
          ≡ ok chan)
        × Calls origin (sync_channel chan)
  make_channel-Calls atomics origin n kept =
      (channel_at origin, make_channel-slashes atomics origin n kept, sync_channel-Calls origin)
