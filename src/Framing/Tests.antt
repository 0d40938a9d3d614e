-- ===== src/Framing/Tests.antt =====
-- Runs of the framing at concrete bytes.
use pyspark_client_wasm.Prelude.{
  ◌≡◌, refl, false, none, List, [], ◌∷◌, ◌++◌, arith, Bytes, truncated_body, ok, stop, raise, emit,
  emits,
}
use pyspark_client_wasm.Framing.{
  Frame, trailer_flag, encode_message, encode_trailers, iter_frames, parse_trailers, trailer_text,
}
use pyspark_client_wasm.Framing.Iterate.{Reads, iter_frames-Reads}
use pyspark_client_wasm.Framing.Iterate.Encode.{encode_frames, iter_frames-encode}
use pyspark_client_wasm.Framing.Trailers.{IsMessage, trailers_of, parse_trailers-encode_trailers}
use pyspark_client_wasm.Text.{Unicode, codes, has_char, strip_left, strip_right, is_space}
use pyspark_client_wasm.Text.Decimal.{show}
use pyspark_client_wasm.Text.Utf8

-- Tables for a runtime whose texts are ASCII.
abbrev pub ascii : Unicode
ascii = record { lower = λ s. s; is_word = λ c. false; digit = λ c. none }

abbrev pub sample_frames : List Frame
sample_frames =
    record { flags = 0; payload = codes "abc" }
    ∷ record { flags = 0; payload = [] }
    ∷ record { flags = trailer_flag; payload = codes "grpc-status:0" }
    ∷ []

abbrev sample_bytes : Bytes
sample_bytes =
    0 ∷ 0 ∷ 0 ∷ 0 ∷ 3 ∷ codes "abc"
    ++ 0 ∷ 0 ∷ 0 ∷ 0 ∷ 0 ∷ 128 ∷ 0 ∷ 0 ∷ 0 ∷ 13 ∷ codes "grpc-status:0"

sample_encoded : encode_frames sample_frames ≡ ok sample_bytes
unfolding encode_message
sample_encoded = refl

iter_frames-encode_example : iter_frames sample_bytes ≡ emits sample_frames stop
iter_frames-encode_example =
    iter_frames-encode sample_frames sample_bytes (omega arith) sample_encoded

-- The last byte of the body is missing.
cut_bytes : iter_frames (0 ∷ 0 ∷ 0 ∷ 0 ∷ 2 ∷ 7 ∷ []) ≡ raise (truncated_body 0 2 1)
unfolding iter_frames
cut_bytes = refl

iter_frames-Reads_example : Reads 0 sample_bytes (iter_frames sample_bytes)
iter_frames-Reads_example = iter_frames-Reads sample_bytes (omega arith)

pub fine-IsMessage : IsMessage (codes "not found")
fine-IsMessage = record {
  one_line = unfold has_char in refl;
  trimmed = unfold strip_left strip_right is_space in (refl, refl);
}

pub empty-IsMessage : IsMessage []
empty-IsMessage = record {
  one_line = unfold has_char in refl;
  trimmed = unfold strip_left strip_right in (refl, refl);
}

abbrev pub trailer_5 : Bytes
trailer_5 = 128 ∷ 0 ∷ 0 ∷ 0 ∷ 39 ∷ codes "grpc-status:5\r\ngrpc-message:not found\r\n"

pub trailer_5_encoded : encode_trailers 5 (codes "not found") ≡ ok trailer_5
unfolding encode_trailers trailer_text Utf8.encode Utf8.encode_char encode_message show
trailer_5_encoded = refl

abbrev pub trailer_0 : Bytes
trailer_0 = 128 ∷ 0 ∷ 0 ∷ 0 ∷ 15 ∷ codes "grpc-status:0\r\n"

pub trailer_0_encoded : encode_trailers 0 [] ≡ ok trailer_0
unfolding encode_trailers trailer_text Utf8.encode Utf8.encode_char encode_message show
trailer_0_encoded = refl

parse_trailers-encode_trailers_example :
    (body : Bytes) × (iter_frames trailer_5
      ≡ emit (record { flags = trailer_flag; payload = body }) stop)
    × (parse_trailers ascii body ≡ trailers_of 5 (codes "not found"))
parse_trailers-encode_trailers_example =
    parse_trailers-encode_trailers ascii 5 (codes "not found") fine-IsMessage trailer_5_encoded
