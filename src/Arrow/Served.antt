-- ===== src/Arrow/Served.antt =====
-- The chunks in which a server sends its batches, and what is made of them.
use mathlib.Core.Path.{ap₂}
use pyspark_client_wasm.Prelude.{
  ℕ, suc, ◌+◌, ◌<◌, ◌≡◌, refl, sym, ap, ◌∙◌, true, Option, none, some, List, [], ◌∷◌, ◌++◌,
  append-nil, append_assoc, arith, length, join, length-append, All, Bytes, pos, is_nat, Result, ok,
  Gen, stop, emits, emits-append, ◌>>=◌,
}
use pyspark_client_wasm.Arrow.{
  or_default, ArrowBatch, Ipc, PyArrow, Reassembly, check_chunk, is_complete, ipc_bytes,
  num_chunks_of, rows_in, first_schema, complete_batch, step, finish, run, reassemble,
}

-- A batch of a result: its IPC stream cut into one chunk or more, and what the stream holds.
pub record Plan (Schema Batch : Type 0) : Type 0 where
  pub first : Bytes
  pub later : List Bytes
  pub ipc : Ipc Schema Batch

abbrev pub chunk : ℕ → ℕ → ℕ → ℕ → Bytes → ArrowBatch
chunk i total off rows content = record {
  content = content;
  chunk_index = some (pos i);
  num_chunks_in_batch = some (pos total);
  start_offset = some (pos off);
  row_count = some (pos rows);
}

-- The messages for the chunks of a batch, from the i-th on.
abbrev pub chunks_from : ℕ → ℕ → ℕ → ℕ → List Bytes → List (Option ArrowBatch)
chunks_from i total off rows [] = []
chunks_from i total off rows (c ∷ cs) =
    some (chunk i total off rows c) ∷ chunks_from (suc i) total off rows cs

ipc_bytes-join : (ps : List Bytes) → ipc_bytes ps ≡ join ps
unfolding ipc_bytes
ipc_bytes-join [] = refl
ipc_bytes-join (c ∷ []) = sym (append-nil c)
ipc_bytes-join (c ∷ d ∷ ps) = refl

check_chunk-chunk :
    (pending : List Bytes) (i total off rows : ℕ) (content : Bytes)
    → i ≡ length pending
    → check_chunk pending (chunk i total off rows content) off ≡ ok tt
unfolding check_chunk
check_chunk-chunk [] i total off rows content e = ground arith
check_chunk-chunk (p ∷ ps) i total off rows content e = ground arith

module _ {Schema Batch : Type 0} (pa : PyArrow Schema Batch) where
  -- The messages for one batch; `off` is its first row.
  abbrev pub batch_messages : ℕ → Plan Schema Batch → List (Option ArrowBatch)
  batch_messages off p =
      chunks_from 0 (suc (length p.later)) off (rows_in pa p.ipc.batches) (p.first ∷ p.later)

  abbrev pub messages : ℕ → List (Plan Schema Batch) → List (Option ArrowBatch)
  messages off [] = []
  messages off (p ∷ ps) = batch_messages off p ++ messages (off + rows_in pa p.ipc.batches) ps

  -- pyarrow reads the whole stream of the batch as what it holds.
  abbrev pub IsWhole : Plan Schema Batch → Type 0
  IsWhole p = pa.open_stream (join (p.first ∷ p.later)) ≡ ok p.ipc

  abbrev pub all_batches : List (Plan Schema Batch) → List Batch
  all_batches [] = []
  all_batches (p ∷ ps) = p.ipc.batches ++ all_batches ps

  abbrev pub schema_from : Option Schema → List (Plan Schema Batch) → Option Schema
  schema_from o [] = o
  schema_from o (p ∷ ps) = schema_from (first_schema pa o p.ipc.schema) ps

  abbrev pub State : Type 0
  State = Reassembly Schema Batch

  -- A chunk that is not the last one is buffered.
  pub step-buffers :
      (st : State) (total off rows : ℕ) (content : Bytes)
      → st.num_records ≡ off
      → suc (length st.pending) < total
      → step pa st (chunk (length st.pending) total off rows content)
        ≡ ok (record st { pending = st.pending ++ content ∷ [] })
  unfolding step
  step-buffers st total off rows content n h = rw n (
      rw (check_chunk-chunk st.pending (length st.pending) total off rows content refl) (
        rw (length-append st.pending (content ∷ []))
          (unfold is_complete num_chunks_of in ground arith)))

  -- The last chunk completes the batch.
  step-completes :
      (st : State) (total off rows : ℕ) (content : Bytes)
      → st.num_records ≡ off
      → suc (length st.pending) ≡ total
      → step pa st (chunk (length st.pending) total off rows content)
        ≡ complete_batch pa st (st.pending ++ content ∷ []) (some (pos rows))
  unfolding step
  step-completes st total off rows content n h = rw n (
      rw (check_chunk-chunk st.pending (length st.pending) total off rows content refl) (
        rw (length-append st.pending (content ∷ []))
          (unfold is_complete num_chunks_of in ground arith)))

  -- The chunks of a batch, from the one that the state waits for on.
  run-chunks :
      (c : Bytes) (cs : List Bytes) (st : State) (total off rows : ℕ) (g : Gen (Option ArrowBatch))
      → st.num_records ≡ off
      → length st.pending + suc (length cs) ≡ total
      → run pa (emits (chunks_from (length st.pending) total off rows (c ∷ cs)) g) st
        ≡ (complete_batch pa st (st.pending ++ (c ∷ cs)) (some (pos rows)) >>= run pa g)
  unfolding run complete_batch
  run-chunks c [] st total off rows g n t =
      ap (λ (r : Result State). r >>= run pa g) (step-completes st total off rows c n (omega arith))
  run-chunks c (d ∷ cs) st total off rows g n t =
      let st' : State = record st { pending = st.pending ++ c ∷ [] } in
      let longer : length st'.pending ≡ suc (length st.pending) =
        omega (arith, length-append st.pending (c ∷ [])) in
      ap
        (λ (r : Result State).
          r >>= run pa (emits (chunks_from (suc (length st.pending)) total off rows (d ∷ cs)) g))
        (step-buffers st total off rows c n (omega arith))
      ∙ ap (λ (i : ℕ). run pa (emits (chunks_from i total off rows (d ∷ cs)) g) st') (sym longer)
      ∙ run-chunks d cs st' total off rows g n (omega (arith, longer))
      ∙ ap (λ (ps : List Bytes). complete_batch pa st ps (some (pos rows)) >>= run pa g)
          (append_assoc st.pending (c ∷ []) (d ∷ cs))

  -- The state between two batches.
  abbrev pub between : List Batch → Option Schema → ℕ → State
  between batches schema n = record {
    batches = batches;
    schema = schema;
    pending = [];
    num_records = n;
  }

  declared-same : (n : ℕ) → is_nat (or_default (some (pos n)) n) n ≡ true
  declared-same n = ground arith

  -- A batch whose stream pyarrow reads, with the row count that the server declares for it.
  complete_batch-whole :
      (st : State) (p : Plan Schema Batch)
      → IsWhole p
      → complete_batch pa st (p.first ∷ p.later) (some (pos (rows_in pa p.ipc.batches)))
        ≡ ok (
            between
              (st.batches ++ p.ipc.batches)
              (first_schema pa st.schema p.ipc.schema)
              (st.num_records + rows_in pa p.ipc.batches))
  unfolding complete_batch
  complete_batch-whole st p w =
      rw (ipc_bytes-join (p.first ∷ p.later)) (rw w (rw (declared-same (rows_in pa p.ipc.batches))))

  abbrev pub total_rows : List (Plan Schema Batch) → ℕ
  total_rows [] = 0
  total_rows (p ∷ ps) = rows_in pa p.ipc.batches + total_rows ps

  -- All messages of the batches, whatever the stream goes on with.
  pub run-messages :
      (ps : List (Plan Schema Batch)) (batches : List Batch) (schema : Option Schema) (n : ℕ)
      (g : Gen (Option ArrowBatch))
      → All IsWhole ps
      → run pa (emits (messages n ps) g) (between batches schema n)
        ≡ run pa g (between (batches ++ all_batches ps) (schema_from schema ps) (n + total_rows ps))
  run-messages [] batches schema n g w =
      let same : n + 0 ≡ n = omega arith in
      ap₂ (λ (b : List Batch) (m : ℕ). run pa g (between b schema m)) (sym (append-nil batches))
        (sym same)
  run-messages (p ∷ ps) batches schema n g w =
      let rows = rows_in pa p.ipc.batches in
      let later = messages (n + rows) ps in
      let st = between batches schema n in
      let grouped : n + rows + total_rows ps ≡ n + (rows + total_rows ps) = omega arith in
      ap (λ (h : Gen (Option ArrowBatch)). run pa h st) (emits-append (batch_messages n p) later g)
      ∙ run-chunks p.first p.later st (suc (length p.later)) n rows (emits later g) refl
          (omega arith)
      ∙ ap (λ (r : Result State). r >>= run pa (emits later g)) (complete_batch-whole st p w.0)
      ∙ run-messages ps (batches ++ p.ipc.batches) (first_schema pa schema p.ipc.schema) (n + rows)
          g w.1
      ∙ ap₂ (λ (b : List Batch) (m : ℕ). run pa g (between b (schema_from schema (p ∷ ps)) m))
          (append_assoc batches p.ipc.batches (all_batches ps)) grouped

  -- Batches that the server cuts into chunks, one or more each, come back whole: all record batches
  -- in order, with the schema of the first stream, as if each stream had been sent in one piece.
  pub reassemble-messages :
      (ps : List (Plan Schema Batch))
      → All IsWhole ps
      → reassemble pa (emits (messages 0 ps) stop) ≡ ok (all_batches ps, schema_from none ps)
  unfolding reassemble
  reassemble-messages ps w = run-messages ps [] none 0 stop w ∙ unfold run finish in refl
