-- ===== src/Framing.antt =====
-- transport/framing.py: frames of the grpc-web wire format and the trailer block.
-- A mask is written as arithmetic: `x & 0xFF` is `x % 256`, and a bit is a quotient's parity.
pub mod Header
pub mod Iterate
pub mod Trailers
pub mod Tests
use pyspark_client_wasm.Prelude.{
  ℕ, zero, suc, ◌+◌, ◌-◌, ◌*◌, ◌/◌, ◌%◌, ◌^◌, Bool, not, Option, none, some, List, [], ◌∷◌, ◌++◌,
  ltb, ◌==◌, if◌then◌else◌, length, take, drop, Bytes, Text, Exn, truncated_header, truncated_body,
  compressed_frame, struct_error, Result, ok, err, Gen, stop, raise, emit, ◌>>=◌,
}
use pyspark_client_wasm.Text.{
  Unicode, codes, to_lower, strip, has_char, partition, to_lf, split, join_with,
}
use pyspark_client_wasm.Text.Utf8
use pyspark_client_wasm.Text.Decimal.{show}
use pyspark_client_wasm.Dict.{Dict, empty, put}

abbrev pub header_len : ℕ
header_len = 5

abbrev pub trailer_flag : ℕ
trailer_flag = 0x80

pub record Frame : Type 0 where
  pub flags : ℕ
  pub payload : Bytes

-- bool(self.flags & TRAILER_FLAG)
unfoldable pub is_trailer : Frame → Bool
is_trailer f = f.flags / 128 % 2 == 1

-- bool(self.flags & COMPRESSED_FLAG)
unfoldable pub is_compressed : Frame → Bool
is_compressed f = f.flags % 2 == 1

-- struct.Struct(">BI").pack: struct.error where the length is no u32
pub pack : ℕ → ℕ → Result Bytes
pack flags n =
    if ltb n (2 ^ 32)
    then ok (flags ∷ (n / 2 ^ 24) ∷ (n / 2 ^ 16 % 256) ∷ (n / 2 ^ 8 % 256) ∷ (n % 256) ∷ [])
    else err struct_error

unpack : Bytes → ℕ × ℕ
unpack (f ∷ a ∷ b ∷ c ∷ d ∷ _) = (f, a * 2 ^ 24 + b * 2 ^ 16 + c * 2 ^ 8 + d)
unpack _ = (0, 0)

-- struct.Struct(">BI").unpack_from(data, off), called where five bytes are left behind off
unfoldable pub unpack_from : Bytes → ℕ → ℕ × ℕ
unfolding unpack
unpack_from bs off = unpack (drop off bs)

unfoldable pub encode_message : Bytes → ℕ → Result Bytes
unfolding pack
encode_message payload flags = do
  header ← pack (flags % 256) (length payload)
  ok (header ++ payload)

-- What a round of the loop of iter_frames does: the loop ends, an exception, or a frame and the
-- next offset.
pub data Round : Type 0 where
  finished : Round
  failed : Exn → Round
  got : Frame → ℕ → Round

round : Bytes → ℕ → Round
unfolding unpack_from
round bs off =
    let n = length bs in
    let (flags, size) = unpack_from bs off in
    let begin = off + header_len in
    let end = begin + size in
    if not (ltb off n)
    then finished
    else if ltb n (off + header_len)
    then failed (truncated_header off (n - off))
    else if ltb n end
    then failed (truncated_body off size (n - begin))
    else got (record { flags = flags; payload = take (end - begin) (drop begin bs) }) end

after_round : (ℕ → Gen Frame) → Round → Gen Frame
after_round next finished = stop
after_round next (failed e) = raise e
after_round next (got f end) = emit f (next end)

-- A frame takes five bytes at least, so that the length of the data is fuel enough.
iter_frames_from : ℕ → Bytes → ℕ → Gen Frame
unfolding round after_round
iter_frames_from zero bs off = stop
iter_frames_from (suc fuel) bs off = after_round (iter_frames_from fuel bs) (round bs off)

pub iter_frames : Bytes → Gen Frame
unfolding iter_frames_from
iter_frames bs = iter_frames_from (suc (length bs)) bs 0

abbrev crlf : Text
crlf = b'\r' ∷ b'\n' ∷ []

-- lines, with the message's line where the message is not empty
trailer_lines : ℕ → Text → List Text
trailer_lines status [] = (codes "grpc-status:" ++ show status) ∷ []
trailer_lines status message =
    (codes "grpc-status:" ++ show status) ∷ (codes "grpc-message:" ++ message) ∷ []

trailer_text : ℕ → Text → Text
unfolding trailer_lines join_with
trailer_text status message = join_with crlf (trailer_lines status message) ++ crlf

pub encode_trailers : ℕ → Text → Result Bytes
encode_trailers status message = do
  body ← Utf8.encode (trailer_text status message)
  encode_message body trailer_flag

module _ (u : Unicode) where
  -- One line of the block; blank lines and lines with no colon are skipped.
  pub parse_line : Dict Text → Text → Dict Text
  parse_line out raw =
      let line = strip raw in
      let (key, value) = partition b':' line in
      if has_char b':' line then put (to_lower u (strip key)) (strip value) out else out

  pub parse_lines : Dict Text → List Text → Dict Text
  parse_lines out [] = out
  parse_lines out (line ∷ lines) = parse_lines (parse_line out line) lines

  pub parse_trailers : Bytes → Dict Text
  parse_trailers payload = parse_lines empty (split b'\n' (to_lf (Utf8.decode payload)))

  -- The loop of split_messages_and_trailer over the frames.
  split_frames :
      List Bytes → Option (Dict Text) → Gen Frame → Result (List Bytes × Option (Dict Text))
  split_frames messages trailers stop = ok (messages, trailers)
  split_frames messages trailers (raise e) = err e
  split_frames messages trailers (emit f rest) =
      let next = split_frames messages (some (parse_trailers f.payload)) rest in
      let more = split_frames (messages ++ f.payload ∷ []) trailers rest in
      if is_compressed f then err compressed_frame else if is_trailer f then next else more

  pub split_messages_and_trailer : Bytes → Result (List Bytes × Option (Dict Text))
  split_messages_and_trailer bs = split_frames [] none (iter_frames bs)
