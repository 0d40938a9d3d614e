-- ===== src/Stub/Tests.antt =====
-- The theorems on the stub at concrete bytes.
use pyspark_client_wasm.Prelude.{
  ◌≡◌, refl, false, none, List, [], ◌∷◌, ◌++◌, map, take, drop, Bytes, Text, transport_aborted,
  Result, ok, stop, raise, emit, emits,
}
use pyspark_client_wasm.Dict.{get}
use pyspark_client_wasm.Framing.{encode_message}
use pyspark_client_wasm.Framing.Iterate.Encode.{encode_frames}
use pyspark_client_wasm.Framing.Tests.{ascii, fine-IsMessage, trailer_5, trailer_5_encoded}
use pyspark_client_wasm.Dict.{get, empty}
use pyspark_client_wasm.Shim.{loaded, install_grpc_shim}
use pyspark_client_wasm.Stub.Retry.{
  transport_unavailable, retryable, transport_unavailable-install_grpc_shim,
}
use pyspark_client_wasm.Stub.{stream_responses, end_of, take_frame, handle}
use pyspark_client_wasm.Stub.Status.{status_result}
use pyspark_client_wasm.Stub.Stream.{stream_responses-join}
use pyspark_client_wasm.Stub.Stream.Served.{
  message_frame, stream_responses_cut, stream_responses_served,
}
use pyspark_client_wasm.Text.{codes}

-- A response class whose messages are their bytes.
abbrev raw : Bytes → Result Bytes
raw b = ok b

abbrev two_messages : List Bytes
two_messages = codes "ab" ∷ codes "c" ∷ []

abbrev two_frames : Bytes
two_frames = 0 ∷ 0 ∷ 0 ∷ 0 ∷ 2 ∷ codes "ab" ++ 0 ∷ 0 ∷ 0 ∷ 0 ∷ 1 ∷ codes "c"

two_encoded : encode_frames (map message_frame two_messages) ≡ ok two_frames
unfolding encode_message
two_encoded = refl

-- The bytes in chunks that cut the first header and the trailer's body.
abbrev chunks : List Bytes
chunks = take 3 two_frames ∷ (drop 3 two_frames ++ take 9 trailer_5) ∷ drop 9 trailer_5 ∷ []

stream_responses-join_example :
    stream_responses ascii raw (codes "/p") (emits chunks stop)
    ≡ stream_responses ascii raw (codes "/p") (emit (two_frames ++ trailer_5) stop)
stream_responses-join_example = stream_responses-join ascii raw (codes "/p") chunks stop

stream_responses_served_example :
    stream_responses ascii raw (codes "/p") (emits chunks stop)
    ≡ emits two_messages (end_of (status_result 5 (codes "not found")))
stream_responses_served_example =
    stream_responses_served ascii raw (codes "/p") two_messages two_messages 5 (codes "not found")
      chunks two_frames trailer_5 fine-IsMessage two_encoded refl trailer_5_encoded refl

stream_responses_cut_example :
    (stream_responses ascii raw (codes "/p") (emits (two_frames ∷ (0 ∷ 0 ∷ []) ∷ []) stop)
      ≡ emits two_messages stop)
    × (stream_responses ascii raw
          (codes "/p")
          (emits (two_frames ∷ (0 ∷ 0 ∷ []) ∷ []) (raise (transport_aborted [])))
        ≡ emits two_messages (raise (handle (codes "/p") (transport_aborted []))))
stream_responses_cut_example =
    stream_responses_cut ascii raw (codes "/p") two_messages two_messages
      (two_frames ∷ (0 ∷ 0 ∷ []) ∷ []) two_frames (0 ∷ 0 ∷ []) (transport_aborted []) two_encoded
      refl (unfold take_frame in refl) refl

-- No module is loaded, nothing can be found, and no object has an attribute of its own.
transport_unavailable-install_grpc_shim_example :
    transport_unavailable {M = Text}
      (λ _. none)
      (λ _ _. none)
      (λ _ _. none)
      (install_grpc_shim (λ _. false) (λ _ _. ok false) empty).1
      (codes "aborted")
    ≡ retryable {M = Text} (λ _. none) (λ _ _. none) (λ _ _. none) (codes "aborted")
transport_unavailable-install_grpc_shim_example =
    transport_unavailable-install_grpc_shim (λ _. none) (λ _ _. none) (λ _ _. none) (λ _. false)
      (λ _ _. ok false) empty (codes "aborted") (unfold loaded get empty in refl) refl
