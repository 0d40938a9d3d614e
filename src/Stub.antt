-- ===== src/Stub.antt =====
-- transport/grpcweb.py: the headers, the status check and the decoding of responses.
-- `u` is the runtime's Unicode tables, `from_string` the parser of a response class of protobuf.
pub mod Headers
pub mod Body
pub mod Status
pub mod Stream
pub mod Retry
pub mod Tests
use pyspark_client_wasm.Prelude.{
  ℕ, zero, suc, ◌+◌, ◌-◌, Bool, true, false, not, Option, none, some, List, [], ◌∷◌, ◌++◌, ltb,
  if◌then◌else◌, length, take, drop, Bytes, Text, no_trailer, no_status, bad_status, compressed,
  Exn, grpc_fault, unavailable, Result, ok, err, Gen, stop, raise, emit,
}
use pyspark_client_wasm.Dict.{Dict, empty, get, put, put_all}
use pyspark_client_wasm.Framing.{
  header_len, unpack_from, Frame, is_trailer, is_compressed, iter_frames, parse_trailers,
}
use pyspark_client_wasm.Text.{Unicode, codes, text_eq, to_lower}

abbrev pub Metadata : Type 0
Metadata = List (Text × Text)

abbrev pub content_type : Text
content_type = codes "application/grpc-web+proto"

abbrev pub base_headers : Dict Text
base_headers = record {
  entries =
      (codes "content-type", content_type)
      ∷ (codes "x-grpc-web", codes "1")
      ∷ (codes "grpc-accept-encoding", codes "identity")
      ∷ (codes "accept", content_type)
      ∷ [];
}

-- The keys of the metadata in lower case.
pub lower_keys : Unicode → Metadata → Metadata
lower_keys u [] = []
lower_keys u ((key, value) ∷ md) = (to_lower u key, value) ∷ lower_keys u md

pub headers_from_metadata : Unicode → Metadata → Dict Text
headers_from_metadata u metadata =
    let headers = put_all (lower_keys u metadata) base_headers in
    put (codes "x-grpc-web") (codes "1") (put (codes "content-type") content_type headers)

-- trailers.get(key, "")
abbrev or_empty : Option Text → Text
or_empty none = []
or_empty (some v) = v

abbrev get_or_empty : Dict Text → Text → Text
get_or_empty d k = or_empty (get d k)

-- Whether a trailer's status is OK; the status is the text of the field.
raise_for_status : Dict Text → Option Text → Text → Result (Unit {0})
raise_for_status trailers none path = err (grpc_fault (no_status path))
raise_for_status trailers (some status) path =
    if text_eq status (codes "0")
    then ok tt
    else err (grpc_fault (bad_status status (get_or_empty trailers (codes "grpc-message"))))

pub raise_for_trailers : Option (Dict Text) → Option ℕ → Text → Result (Unit {0})
unfolding raise_for_status
raise_for_trailers none http_status path = err (grpc_fault (no_trailer path http_status))
raise_for_trailers (some trailers) http_status path =
    raise_for_status trailers (get trailers (codes "grpc-status")) path

-- The loop of _decode_body over the frames of the body.
decode_frames :
    Unicode
    → Text
    → List Bytes
    → Option (Dict Text)
    → Gen Frame
    → Result (List Bytes × Option (Dict Text))
decode_frames u path messages trailers stop = ok (messages, trailers)
decode_frames u path messages trailers (raise e) = err e
decode_frames u path messages trailers (emit f rest) =
    let at_trailer = decode_frames u path messages (some (parse_trailers u f.payload)) rest in
    let at_message = decode_frames u path (messages ++ f.payload ∷ []) trailers rest in
    if is_compressed f
    then err (grpc_fault (compressed path))
    else if is_trailer f
    then at_trailer
    else at_message

pub decode_body : Unicode → Bytes → Text → Result (List Bytes × Option (Dict Text))
unfolding decode_frames
decode_body u body path = decode_frames u path [] none (iter_frames body)

-- {str(k).lower(): v for k, v in headers.items()}
lowered : Unicode → Dict Text → Dict Text
unfolding lower_keys
lowered u headers = put_all (lower_keys u headers.entries) empty

with_message : Option Text → Dict Text → Dict Text
with_message none out = out
with_message (some message) out = put (codes "grpc-message") message out

status_fields : Dict Text → Option Text → Option (Dict Text)
unfolding with_message
status_fields fields none = none
status_fields fields (some status) =
    some (with_message (get fields (codes "grpc-message")) (put (codes "grpc-status") status empty))

pub trailers_from_headers : Unicode → Dict Text → Option (Dict Text)
unfolding lowered status_fields
trailers_from_headers u headers =
    let fields = lowered u headers in status_fields fields (get fields (codes "grpc-status"))

-- The frame in front of the buffer, and the buffer behind it.
pub take_frame : Bytes → Option (Frame × Bytes)
take_frame buffer =
    let n = length buffer in
    let (flags, size) = unpack_from buffer 0 in
    let end = header_len + size in
    if ltb n header_len
    then none
    else if ltb n end
    then none
    else some (
      record { flags = flags; payload = take (end - header_len) (drop header_len buffer) },
      drop end buffer,
    )

pub record StreamState : Type 0 where
  pub buffer : Bytes
  pub saw_trailer : Bool
  pub trailers : Option (Dict Text)

-- The handlers of the try block: a server's error is raised again, any other exception becomes the
-- retryable UNAVAILABLE.
pub handle : Text → Exn → Exn
handle path (grpc_fault fault) = grpc_fault fault
handle path e = unavailable path e

-- How the run ends by the outcome of the status check.
abbrev pub end_of : {R : Type 0} → Result (Unit {0}) → Gen R
end_of (ok _) = stop
end_of (err e) = raise e

module _ (u : Unicode) {R : Type 0} (from_string : Bytes → Result R) (path : Text) where
  on_message : Result R → Gen R → Gen R
  on_message (ok response) next = emit response next
  on_message (err e) next = raise (handle path e)

  -- One frame of the buffer; `next` is the loop on what is left.
  on_frame : StreamState → Frame → Bytes → (StreamState → Gen R) → Gen R
  unfolding on_message
  on_frame st f rest next =
      if is_compressed f
      then raise (handle path (grpc_fault (compressed path)))
      else if is_trailer f
      then next (record {
        buffer = rest;
        saw_trailer = true;
        trailers = some (parse_trailers u f.payload);
      })
      else on_message (from_string f.payload) (next (record st { buffer = rest }))

  on_front :
      StreamState → Option (Frame × Bytes) → (StreamState → Gen R) → (StreamState → Gen R) → Gen R
  on_front st none next then_read = then_read st
  on_front st (some (f, rest)) next then_read = on_frame st f rest next

  -- The inner loop: the whole frames of the buffer. A frame takes five bytes at least, so that the
  -- buffer's length is fuel enough. `then_read` goes on with the next chunk.
  drain : ℕ → (StreamState → Gen R) → StreamState → Gen R
  unfolding on_front
  drain zero then_read st = then_read st
  drain (suc fuel) then_read st =
      on_front st (take_frame st.buffer) (drain fuel then_read) then_read

  -- What comes behind the chunks.
  finish : StreamState → Gen R
  finish st = if not st.saw_trailer then stop else end_of (raise_for_trailers st.trailers none path)

  -- buffer.extend(chunk), and the inner loop
  extend : (StreamState → Gen R) → StreamState → Bytes → Gen R
  unfolding drain
  extend then_read st [] = then_read st
  extend then_read st (b ∷ bs) =
      let buffer = st.buffer ++ (b ∷ bs) in
      drain (suc (length buffer)) then_read (record st { buffer = buffer })

  stream_from : Gen Bytes → StreamState → Gen R
  unfolding finish extend
  stream_from stop st = finish st
  stream_from (raise e) st = raise (handle path e)
  stream_from (emit chunk rest) st = extend (stream_from rest) st chunk

  pub stream_responses : Gen Bytes → Gen R
  unfolding stream_from
  stream_responses chunks =
      stream_from chunks (record { buffer = []; saw_trailer = false; trailers = none })
