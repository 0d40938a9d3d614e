-- ===== src/Arrow/Rows.antt =====
-- What a chunk that is accepted tells, and streams that end within a batch.
use pyspark_client_wasm.Prelude.{
  ℕ, suc, ◌+◌, ◌<◌, ◌≡◌, refl, sym, ap, ◌∙◌, inl, inr, Option, none, some, List, [], ◌∷◌, ◌++◌,
  arith, Bool-cases, length, length-append, All, Bytes, truncated_result, pos, Result, ok, err, Gen,
  stop, emits, emits-append, ◌>>=◌, >>=-eq-ok,
}
use pyspark_client_wasm.Arrow.{
  ArrowBatch, Ipc, PyArrow, check_chunk, num_chunks_of, is_complete, ipc_bytes, complete_batch,
  step, finish, finish_with, run, reassemble, rows_in, first_schema,
}
use pyspark_client_wasm.Arrow.Served.{
  chunks_from, Plan, messages, IsWhole, State, between, run-messages, step-buffers, all_batches,
  schema_from, total_rows,
}
use pyspark_client_wasm.Arrow.Accepted.{
  IsCounted, Accepted, complete_batch-effect, check_chunk-position, check_chunk-offset,
  complete_IsLast, incomplete_lem,
}

module _ {Schema Batch : Type 0} (pa : PyArrow Schema Batch) where
  -- The chunks of a batch that is not completed.
  run_cut :
      (cs : List Bytes) (st : State pa) (total off rows : ℕ)
      → st.num_records ≡ off
      → length st.pending + length cs < total
      → 0 < length st.pending + length cs
      → run pa (emits (chunks_from (length st.pending) total off rows cs) stop) st
        ≡ err (truncated_result (length st.pending + length cs))
  unfolding run
  run_cut [] st total off rows n h k =
      unfold finish in
      (go st.pending (omega arith) ∙ ap (λ (i : ℕ). err (truncated_result i)) (omega arith))
    where
      go :
          (ps : List Bytes)
          → 0 < length ps
          → finish_with pa st ps ≡ err (truncated_result (length ps))
      go [] l = absurd (omega arith)
      go (p ∷ ps) l = unfold finish_with in refl
  run_cut (c ∷ cs) st total off rows n h k =
      let st' : State pa = record st { pending = st.pending ++ c ∷ [] } in
      let longer : length st'.pending ≡ suc (length st.pending) =
        omega (arith, length-append st.pending (c ∷ [])) in
      let moved : length st'.pending + length cs ≡ length st.pending + suc (length cs) =
        omega (arith, longer) in
      ap
        (λ (r : Result (State pa)).
          r >>= run pa (emits (chunks_from (suc (length st.pending)) total off rows cs) stop))
        (step-buffers pa st total off rows c n (omega arith))
      ∙ ap (λ (i : ℕ). run pa (emits (chunks_from i total off rows cs) stop) st') (sym longer)
      ∙ run_cut cs st' total off rows n (omega (arith, longer)) (omega (arith, longer))
      ∙ ap (λ (i : ℕ). err (truncated_result i)) moved

  -- Whole batches, and then some chunks of a batch of `total` chunks, but not all: the result is
  -- refused as truncated, with the number of chunks that were left over.
  pub reassemble_cut :
      (ps : List (Plan Schema Batch)) (cs : List Bytes) (total rows : ℕ)
      → All (IsWhole pa) ps
      → 0 < length cs
      → length cs < total
      → reassemble pa
          (emits (messages pa 0 ps ++ chunks_from 0 total (total_rows pa ps) rows cs) stop)
        ≡ err (truncated_result (length cs))
  unfolding reassemble
  reassemble_cut ps cs total rows w h k =
      let later = chunks_from 0 total (total_rows pa ps) rows cs in
      let st = between pa (all_batches pa ps) (schema_from pa none ps) (0 + total_rows pa ps) in
      ap (λ (g : Gen (Option ArrowBatch)). run pa g (between pa [] none 0))
        (emits-append (messages pa 0 ps) later stop)
      ∙ run-messages pa ps [] none 0 (emits later stop) w
      ∙ run_cut cs st total (total_rows pa ps) rows (omega arith) (omega arith) (omega arith)
      ∙ ap (λ (i : ℕ). err (truncated_result i)) (omega arith)

  -- From a state whose row counter is that of the batches read, a chunk is accepted only where it
  -- is the next one of its batch, and, where it is the first, starts at the number of rows read or
  -- at no declared row. Where it is not the last one it is buffered and nothing else changes. Where
  -- it is the last one, or the number of chunks is not declared, it completes its batch: then the
  -- joined chunks are one IPC stream, whose record batches are added, with the declared number of
  -- rows if that is declared and not 0, and the first schema is kept. The row counter stays that of
  -- the batches read.
  pub step-Accepted :
      (st : State pa) (ab : ArrowBatch) (st' : State pa)
      → IsCounted pa st
      → step pa st ab ≡ ok st'
      → Accepted pa st ab st'
  unfolding step
  step-Accepted st ab st' c e =
      let (unit, checked, e') = >>=-eq-ok (check_chunk st.pending ab st.num_records) _ e in
      let pending : List Bytes = st.pending ++ ab.content ∷ [] in
      let longer : length pending ≡ suc (length st.pending) =
        omega (arith, length-append st.pending (ab.content ∷ [])) in
      let position = check_chunk-position pa st.pending ab st.num_records checked in
      let offset = rw c at (check_chunk-offset pa st.pending ab st.num_records checked) in
      elim (Bool-cases (is_complete (length pending) (num_chunks_of ab))) [
        | inl whole ↦
            let (ipc, opened, declared, emptied, added, schema, counted) =
              complete_batch-effect pa st st' pending ab.row_count c (rw whole at e') in
            record {
              position = position;
              offset = offset;
              counted = counted;
              effect = inr (
                rw longer at (complete_IsLast pa (length pending) (num_chunks_of ab) whole),
                (ipc, opened, declared, emptied, added, schema),
              );
            }
        | inr part ↦
            let same : ok (record st { pending = pending }) ≡ ok st' = rw part at e' in
            let after : record st { pending = pending } ≡ st' = cc same in
            let (some_declared, more) =
              rw longer at (incomplete_lem pa (length pending) (num_chunks_of ab) part) in
            record {
              position = position;
              offset = offset;
              counted =
                  ap (λ (s : State pa). s.num_records) (sym after)
                  ∙ c
                  ∙ ap (λ (s : State pa). rows_in pa s.batches) after;
              effect = inl (some_declared, more, sym after);
            }
      ]

  -- A batch whose declared row count is 0 is accepted with any number of rows: 0 is read as "not
  -- declared", so the count is not compared.
  pub complete_batch_zero :
      (st : State pa) (pending : List Bytes) (ipc : Ipc Schema Batch)
      → pa.open_stream (ipc_bytes pending) ≡ ok ipc
      → (st' : State pa) × (complete_batch pa st pending (some (pos 0)) ≡ ok st')
        × (st'.batches ≡ st.batches ++ ipc.batches)
  unfolding complete_batch
  complete_batch_zero st pending ipc e = (
    record {
      batches = st.batches ++ ipc.batches;
      schema = first_schema pa st.schema ipc.schema;
      pending = [];
      num_records = st.num_records + rows_in pa ipc.batches;
    },
    rw e (ground arith),
    refl,
  )
