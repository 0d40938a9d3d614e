-- ===== src/Arrow.antt =====
-- arrow/results.py: the reassembly of chunked Arrow batches, and the decoding into a frame.
-- pyarrow and pandas are parameters: `open_stream` reads an IPC stream to its end.
pub mod Served
pub mod Skip
pub mod Accepted
pub mod Rows
pub mod Decode
pub mod Local
pub mod Tests
use pyspark_client_wasm.Prelude.{
  ℕ, ◌+◌, Bool, ◌||◌, Option, none, some, List, [], ◌∷◌, ◌++◌, if◌then◌else◌, length, join, Bytes,
  chunk_out_of_order, chunk_not_first, offset_gap, row_mismatch, truncated_result, ℤ, pos, is_nat,
  Result, ok, err, Gen, stop, raise, emit, ◌>>=◌,
}

-- The ArrowBatch message: a field is none where the message has no such field, or where it is an
-- optional field that is not set. chunk_index and row_count are read without HasField.
pub record ArrowBatch : Type 0 where
  pub content : Bytes
  pub chunk_index : Option ℤ
  pub num_chunks_in_batch : Option ℤ
  pub start_offset : Option ℤ
  pub row_count : Option ℤ

-- int(getattr(msg, name, d) or d)
abbrev or_default : Option ℤ → ℕ → ℤ
or_default none d = pos d
or_default (some i) d = if is_nat i 0 then pos d else i

unfoldable pub chunk_index_of : ArrowBatch → ℤ
chunk_index_of ab = or_default ab.chunk_index 0

unfoldable pub num_chunks_of : ArrowBatch → ℤ
num_chunks_of ab = or_default ab.num_chunks_in_batch 0

-- What pyarrow's reader gives for an IPC stream.
pub record Ipc (Schema Batch : Type 0) : Type 0 where
  pub schema : Schema
  pub batches : List Batch

-- pyarrow, as far as the reassembly calls it.
pub record PyArrow (Schema Batch : Type 0) : Type 0 where
  pub open_stream : Bytes → Result (Ipc Schema Batch)
  pub num_rows : Batch → ℕ

-- The variables of the loop of _reassemble.
pub record Reassembly (Schema Batch : Type 0) : Type 0 where
  pub batches : List Batch
  pub schema : Option Schema
  pub pending : List Bytes
  pub num_records : ℕ

-- Whether a batch may start at the row that the server reports.
check_offset : Option ℤ → ℕ → Result (Unit {0})
check_offset none n = ok tt
check_offset (some o) n = if is_nat o n then ok tt else err (offset_gap n o)

-- The position of a chunk: the next one of the batch, or the first one of a new batch.
pub check_chunk : List Bytes → ArrowBatch → ℕ → Result (Unit {0})
unfolding chunk_index_of check_offset
check_chunk [] ab n =
    if is_nat (chunk_index_of ab) 0
    then check_offset ab.start_offset n
    else err (chunk_not_first (chunk_index_of ab))
check_chunk pending ab n =
    if is_nat (chunk_index_of ab) (length pending)
    then ok tt
    else err (chunk_out_of_order (length pending) (chunk_index_of ab))

pub is_complete : ℕ → ℤ → Bool
is_complete n num_chunks = is_nat num_chunks 0 || is_nat num_chunks n

pub ipc_bytes : List Bytes → Bytes
ipc_bytes (bs ∷ []) = bs
ipc_bytes pending = join pending

module _ {Schema Batch : Type 0} (pa : PyArrow Schema Batch) where
  unfoldable pub rows_in : List Batch → ℕ
  rows_in [] = 0
  rows_in (rb ∷ rbs) = pa.num_rows rb + rows_in rbs

  abbrev first_schema : Option Schema → Schema → Option Schema
  first_schema none s = some s
  first_schema (some s) _ = some s

  -- All chunks of a batch are there: decode them, and compare with the declared row count.
  pub complete_batch :
      Reassembly Schema Batch → List Bytes → Option ℤ → Result (Reassembly Schema Batch)
  unfolding ipc_bytes rows_in
  complete_batch st pending row_count = do
    ipc ← pa.open_stream (ipc_bytes pending)
    let rows = rows_in ipc.batches
    let declared = or_default row_count rows
    if is_nat declared rows
        then ok (record {
          batches = st.batches ++ ipc.batches;
          schema = first_schema st.schema ipc.schema;
          pending = [];
          num_records = st.num_records + rows;
        })
        else err (row_mismatch declared rows)

  -- One response that carries an arrow batch.
  pub step : Reassembly Schema Batch → ArrowBatch → Result (Reassembly Schema Batch)
  unfolding check_chunk is_complete num_chunks_of complete_batch
  step st ab = do
    _ ← check_chunk st.pending ab st.num_records
    let pending = st.pending ++ ab.content ∷ []
    if is_complete (length pending) (num_chunks_of ab)
        then complete_batch st pending ab.row_count
        else ok (record st { pending = pending })

  -- Behind the loop: no chunk may be left.
  finish_with : Reassembly Schema Batch → List Bytes → Result (List Batch × Option Schema)
  finish_with st [] = ok (st.batches, st.schema)
  finish_with st pending = err (truncated_result (length pending))

  finish : Reassembly Schema Batch → Result (List Batch × Option Schema)
  unfolding finish_with
  finish st = finish_with st st.pending

  -- A response with no arrow batch is skipped.
  pub run : Gen (Option ArrowBatch) → Reassembly Schema Batch → Result (List Batch × Option Schema)
  unfolding finish
  run stop st = finish st
  run (raise e) st = err e
  run (emit none rest) st = run rest st
  run (emit (some ab) rest) st = step st ab >>= run rest

  abbrev start : Reassembly Schema Batch
  start = record { batches = []; schema = none; pending = []; num_records = 0 }

  pub reassemble : Gen (Option ArrowBatch) → Result (List Batch × Option Schema)
  reassemble responses = run responses start

  pub reassemble_record_batches : Gen (Option ArrowBatch) → Result (List Batch)
  reassemble_record_batches responses = do (batches, _) ← reassemble responses; ok batches
