-- ===== src/Client/Tests.antt =====
-- The calls at a concrete channel and concrete requests.
use pyspark_client_wasm.Prelude.{ℕ, suc, ◌≡◌, refl, List, [], ◌∷◌, ◌++◌, Bytes, ok, stop, emits}
use pyspark_client_wasm.Client.{GrpcWebStub, Codec, encode_requests}
use pyspark_client_wasm.Contract.{HttpResponse, SyncChannel}
use pyspark_client_wasm.Dict.{empty}
use pyspark_client_wasm.Framing.{encode_message}
use pyspark_client_wasm.Framing.Iterate.Encode.{encode_frames}
use pyspark_client_wasm.Framing.Tests.{trailer_0}
use pyspark_client_wasm.Stub.Stream.Served.{message_frame}
use pyspark_client_wasm.Text.{codes}

abbrev pub raw : Codec Bytes Bytes
raw = record { serialize = λ b. ok b; from_string = λ b. ok b }

abbrev pub answer_frame : Bytes
answer_frame = 0 ∷ 0 ∷ 0 ∷ 0 ∷ 1 ∷ b'y' ∷ []

abbrev answer : HttpResponse
answer = record { status = 200; headers = empty; body = answer_frame ++ trailer_0 }

-- A channel that counts its calls and always gives the same answer.
abbrev counting : SyncChannel ℕ ℕ
counting = record {
  unary = λ path body headers timeout s. (ok answer, suc s);
  server_stream = λ path body headers timeout s. (ok stop, suc s);
}

abbrev pub stub : GrpcWebStub
stub = record { base_url = []; default_metadata = [] }

pub encoded_answer : encode_frames (message_frame (b'y' ∷ []) ∷ []) ≡ ok answer_frame
unfolding encode_message
encoded_answer = refl

pub encoded_request : encode_message (b'x' ∷ []) 0 ≡ ok (0 ∷ 0 ∷ 0 ∷ 0 ∷ 1 ∷ b'x' ∷ [])
unfolding encode_message
encoded_request = refl

abbrev requests : List Bytes
requests = codes "a" ∷ codes "" ∷ []

abbrev requests_body : Bytes
requests_body = 0 ∷ 0 ∷ 0 ∷ 0 ∷ 1 ∷ b'a' ∷ 0 ∷ 0 ∷ 0 ∷ 0 ∷ 0 ∷ []

encoded_requests : encode_requests (raw.serialize) (emits requests stop) ≡ ok requests_body
unfolding encode_requests encode_message
encoded_requests = refl
