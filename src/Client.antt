-- ===== src/Client.antt =====
-- transport/grpcweb.py, class GrpcWebStub: the constructor, the methods, and the three kinds of
-- call. The channel is a parameter (`SyncChannel`), and so are protobuf's parser and serializer.
pub mod Unary
pub mod Requests
pub mod Tests
use pyspark_client_wasm.Prelude.{
  Option, none, some, List, [], ◌∷◌, ◌++◌, Bytes, Text, no_message, grpc_fault, Result, ok, err,
  Gen, stop, raise, emit, ◌>>=◌,
}
use pyspark_client_wasm.Contract.{HttpResponse, SyncChannel, grpc_path}
use pyspark_client_wasm.Dict.{Dict, or_else}
use pyspark_client_wasm.Framing.{encode_message}
use pyspark_client_wasm.Stub.{
  Metadata, headers_from_metadata, raise_for_trailers, decode_body, trailers_from_headers,
  stream_responses,
}
use pyspark_client_wasm.Text.Slashes.{is_slash}
use pyspark_client_wasm.Text.{Unicode, codes, strip_right}

-- The methods that the constructor binds.
pub data Method : Type 0 where
  execute_plan reattach_execute release_execute analyze_plan config : Method
  interrupt add_artifacts artifact_status release_session fetch_error_details : Method

pub data Kind : Type 0 where
  unary server_stream client_stream : Kind

method_name : Method → Text
method_name execute_plan = codes "ExecutePlan"
method_name reattach_execute = codes "ReattachExecute"
method_name release_execute = codes "ReleaseExecute"
method_name analyze_plan = codes "AnalyzePlan"
method_name config = codes "Config"
method_name interrupt = codes "Interrupt"
method_name add_artifacts = codes "AddArtifacts"
method_name artifact_status = codes "ArtifactStatus"
method_name release_session = codes "ReleaseSession"
method_name fetch_error_details = codes "FetchErrorDetails"

method_kind : Method → Kind
method_kind execute_plan = server_stream
method_kind reattach_execute = server_stream
method_kind add_artifacts = client_stream
method_kind _ = unary

pub method_path : Method → Text
unfolding method_name grpc_path
method_path m = grpc_path (method_name m)

pub record GrpcWebStub : Type 0 where
  pub base_url : Text
  pub default_metadata : Metadata

abbrev or_empty_metadata : Option Metadata → Metadata
or_empty_metadata none = []
or_empty_metadata (some md) = md

-- The constructor: `metadata`, or else its alias `default_metadata`.
pub make_stub : Text → Option Metadata → Option Metadata → GrpcWebStub
make_stub base_url metadata default_metadata = record {
  base_url = strip_right is_slash base_url;
  default_metadata = or_empty_metadata (or_else metadata default_metadata);
}

merge_metadata : GrpcWebStub → Option Metadata → Metadata
merge_metadata stub metadata = stub.default_metadata ++ or_empty_metadata metadata

-- A proto class pair: the request's SerializeToString and the response's FromString.
pub record Codec (Req Resp : Type 0) : Type 0 where
  pub serialize : Req → Result Bytes
  pub from_string : Bytes → Result Resp

-- The frames of a client stream's requests, in one body.
pub encode_requests : {Req : Type 0} → (Req → Result Bytes) → Gen Req → Result Bytes
encode_requests serialize stop = ok []
encode_requests serialize (raise e) = err e
encode_requests serialize (emit request rest) = do
  payload ← serialize request
  frame ← encode_message payload 0
  later ← encode_requests serialize rest
  ok (frame ++ later)

encode_request : {Req : Type 0} → (Req → Result Bytes) → Req → Result Bytes
encode_request serialize request = do payload ← serialize request; encode_message payload 0

module _ (u : Unicode) {Req Resp : Type 0} (codec : Codec Req Resp) where
  pub first_message : Text → List Bytes → Result Resp
  first_message path [] = err (grpc_fault (no_message path))
  first_message path (message ∷ _) = codec.from_string message

  -- What _call_unary and _call_client_stream make of the HTTP response.
  pub unary_response : Text → HttpResponse → Result Resp
  unary_response path resp = do
    (messages, trailers) ← decode_body u resp.body path
    _ ←
        raise_for_trailers (or_else trailers (trailers_from_headers u resp.headers))
          (some resp.status) path
    first_message path messages

module _ (u : Unicode) {Time S Req Resp : Type 0} (chan : SyncChannel Time S)
    (codec : Codec Req Resp) where
  -- The channel is called where the body could be built.
  post : Text → Dict Text → Option Time → Result Bytes → S → Result Resp × S
  post path headers timeout (err e) s = (err e, s)
  post path headers timeout (ok body) s =
      let (resp, s') = chan.unary path body headers timeout s in
      (resp >>= unary_response u codec path, s')

  pub call_unary : GrpcWebStub → Text → Req → Option Metadata → Option Time → S → Result Resp × S
  unfolding post encode_request merge_metadata
  call_unary stub path request metadata timeout =
      post path (headers_from_metadata u (merge_metadata stub metadata)) timeout
        (encode_request codec.serialize request)

  pub call_client_stream :
      GrpcWebStub → Text → Gen Req → Option Metadata → Option Time → S → Result Resp × S
  unfolding post encode_requests merge_metadata
  call_client_stream stub path requests metadata timeout =
      post path (headers_from_metadata u (merge_metadata stub metadata)) timeout
        (encode_requests codec.serialize requests)

  stream_result : Text → Result (Gen Bytes) × S → Result (Gen Resp) × S
  stream_result path (chunks, s) =
      (chunks >>= λ c. ok (stream_responses u codec.from_string path c), s)

  open_stream : Text → Dict Text → Option Time → Result Bytes → S → Result (Gen Resp) × S
  unfolding stream_result
  open_stream path headers timeout (err e) s = (err e, s)
  open_stream path headers timeout (ok body) s =
      stream_result path (chan.server_stream path body headers timeout s)

  pub call_server_stream :
      GrpcWebStub → Text → Req → Option Metadata → Option Time → S → Result (Gen Resp) × S
  unfolding open_stream encode_request merge_metadata
  call_server_stream stub path request metadata timeout =
      open_stream path (headers_from_metadata u (merge_metadata stub metadata)) timeout
        (encode_request codec.serialize request)
