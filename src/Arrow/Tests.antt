-- ===== src/Arrow/Tests.antt =====
-- The reassembly at concrete chunks, over a reader that takes a stream's length as its rows.
use pyspark_client_wasm.Prelude.{
  ℕ, ◌≡◌, refl, sym, ◌∙◌, inl, inr, true, false, none, some, List, [], ◌∷◌, ◌++◌, append-nil,
  append_assoc, arith, length, join, Bytes, Text, truncated_result, ok, err, stop, emits,
}
use pyspark_client_wasm.Arrow.Decode.{
  Frames, session_zone, frame_of, decode_arrow_batches, Localized, occurrences,
  localize_timestamp_columns, localize_timestamp_columns-Localized,
}
use pyspark_client_wasm.Arrow.{PyArrow, reassemble, step, rows_in}
use pyspark_client_wasm.Arrow.Accepted.{Accepted}
use pyspark_client_wasm.Arrow.Rows.{reassemble_cut, step-Accepted}
use pyspark_client_wasm.Arrow.Served.{
  Plan, chunk, chunks_from, messages, all_batches, schema_from, total_rows, reassemble-messages,
  State,
}
use pyspark_client_wasm.Arrow.Local.{
  Writing, write_batches, encode_local_relation, ReadsBack, sent,
  decode_arrow_batches-encode_local_relation,
}
use pyspark_client_wasm.Text.{codes, text_eq}

-- One record batch for each stream, with a row for each byte; the schema is the first stream's.
abbrev reader : PyArrow Bytes Bytes
reader = record {
  open_stream = λ bs. ok (record { schema = bs; batches = bs ∷ [] });
  num_rows = λ bs. length bs;
}

abbrev two_plans : List (Plan Bytes Bytes)
two_plans =
    record {
      first = codes "ab";
      later = codes "c" ∷ [];
      ipc = record { schema = codes "abc"; batches = codes "abc" ∷ [] };
    }
    ∷ record {
      first = codes "de";
      later = [];
      ipc = record { schema = codes "de"; batches = codes "de" ∷ [] };
    }
    ∷ []

reassemble-messages_example :
    reassemble reader (emits (messages reader 0 two_plans) stop)
    ≡ ok (all_batches reader two_plans, schema_from reader none two_plans)
reassemble-messages_example = reassemble-messages reader two_plans (refl, (refl, tt))

reassemble_cut_example :
    reassemble reader (
      emits
        (messages reader 0 two_plans
          ++ chunks_from 0 3 (total_rows reader two_plans) 9 (codes "x" ∷ codes "y" ∷ []))
        stop)
    ≡ err (truncated_result 2)
reassemble_cut_example =
    reassemble_cut reader two_plans (codes "x" ∷ codes "y" ∷ []) 3 9 (refl, (refl, tt))
      (omega arith) (omega arith)

abbrev started : State reader
started = record { batches = []; schema = none; pending = codes "a" ∷ []; num_records = 0 }

abbrev finished : State reader
finished = record {
  batches = codes "ab" ∷ [];
  schema = some (codes "ab");
  pending = [];
  num_records = 2;
}

stepped : step reader started (chunk 1 2 0 2 (codes "b")) ≡ ok finished
unfolding step rows_in
stepped = refl

step-Accepted_example : Accepted reader started (chunk 1 2 0 2 (codes "b")) finished
step-Accepted_example =
    step-Accepted reader started (chunk 1 2 0 2 (codes "b")) finished (unfold rows_in in refl)
      stepped

-- A frame library in which a column is its name, and the columns named with a `z` are zone-aware.
abbrev frames : Frames Bytes Bytes (List Bytes) Bytes
frames = record {
  names = λ schema. schema ∷ [];
  from_batches = λ bs. ok bs;
  table_schema = λ bs. join bs;
  table_rows = λ bs. length (join bs);
  empty_column = [];
  to_pandas = λ _ bs. ok ((codes "c", join bs) ∷ []);
  is_tz_aware = λ c. text_eq c (codes "z");
  to_naive = λ tz c. ok tz;
}

abbrev a_frame : List (Text × Bytes)
a_frame = (codes "t", codes "z") ∷ (codes "n", codes "1") ∷ []

localize_timestamp_columns-Localized_example :
    (out : List (Text × Bytes)) × (localize_timestamp_columns reader frames a_frame (codes "UTC")
      ≡ ok out)
    × Localized reader frames (codes "UTC") a_frame out
localize_timestamp_columns-Localized_example =
    localize_timestamp_columns-Localized reader frames a_frame (codes "UTC") (
      inr (unfold occurrences text_eq in refl, (codes "UTC", refl)),
      (inl (unfold text_eq in refl), tt),
    )

-- A stream of numbers, each a batch of one row.
abbrev numbers : Writing (List ℕ) (Unit {0}) ℕ (List ℕ) (List ℕ)
numbers = record {
  from_pandas = λ pdf. ok pdf;
  schema_of = λ _. tt;
  to_batches = λ table. table;
  new_stream = λ _. [];
  write_batch = λ sink b. ok (sink ++ (b ∷ []));
  finished = λ sink. sink;
}

abbrev number_reader : PyArrow (Unit {0}) ℕ
number_reader = record {
  open_stream = λ bs. ok (record { schema = tt; batches = bs });
  num_rows = λ _. 1;
}

abbrev number_frames : Frames (Unit {0}) ℕ (List ℕ) (List ℕ)
number_frames = record {
  names = λ _. codes "n" ∷ [];
  from_batches = λ bs. ok bs;
  table_schema = λ _. tt;
  table_rows = λ bs. length bs;
  empty_column = [];
  to_pandas = λ _ bs. ok ((codes "n", bs) ∷ []);
  is_tz_aware = λ _. false;
  to_naive = λ _ c. ok c;
}

write_batches-numbers : (sink bs : List ℕ) → write_batches numbers sink bs ≡ ok (sink ++ bs)
unfolding write_batches
write_batches-numbers sink [] = rw (append-nil sink)
write_batches-numbers sink (b ∷ bs) =
    write_batches-numbers (sink ++ (b ∷ [])) bs ∙ rw (append_assoc sink (b ∷ []) bs)

numbers-ReadsBack : ReadsBack numbers number_reader
numbers-ReadsBack schema bs sink h = let k = sym (write_batches-numbers [] bs) ∙ h in cc (k)

decode_arrow_batches-encode_local_relation_example :
    decode_arrow_batches number_reader number_frames true none none (
      emits
        (messages number_reader 0 (sent numbers (1 ∷ 2 ∷ 3 ∷ []) (1 ∷ []) ((2 ∷ 3 ∷ []) ∷ []) ∷ []))
        stop)
    ≡ frame_of number_reader number_frames true (session_zone none none) (1 ∷ 2 ∷ 3 ∷ []) (some tt)
decode_arrow_batches-encode_local_relation_example =
    decode_arrow_batches-encode_local_relation numbers number_reader number_frames true none none
      (1 ∷ 2 ∷ 3 ∷ []) (1 ∷ 2 ∷ 3 ∷ []) (1 ∷ []) ((2 ∷ 3 ∷ []) ∷ []) numbers-ReadsBack refl
      (unfold encode_local_relation write_batches in refl)
