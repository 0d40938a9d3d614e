-- ===== src/Arrow/Accepted.antt =====
-- What the loop of _reassemble tells of a chunk that it accepts.
use pyspark_client_wasm.Prelude.{
  ℕ, suc, ◌+◌, ◌<◌, ◌≡◌, refl, ap, ◌≢◌, ◌⊎◌, inl, inr, true, false, Option, none, some, List, [],
  ◌∷◌, ◌++◌, arith, ==_iff, Bool-cases, length, Bytes, ℤ, pos, negsuc, is_nat, ok, >>=-eq-ok,
}
use pyspark_client_wasm.Arrow.{
  or_default, check_offset, ArrowBatch, Ipc, PyArrow, check_chunk, chunk_index_of, num_chunks_of,
  is_complete, ipc_bytes, complete_batch, rows_in, first_schema,
}
use pyspark_client_wasm.Arrow.Served.{State}

is_nat-pos : (i : ℤ) (n : ℕ) → is_nat i n ≡ true → i ≡ pos n
is_nat-pos (pos m) n h = ap pos ((==_iff m n).0 h)
is_nat-pos (negsuc m) n h = absurd (cc (h))

pos-is_nat : (n : ℕ) → is_nat (pos n) n ≡ true
pos-is_nat n = (==_iff n n).1 refl

module _ {Schema Batch : Type 0} (pa : PyArrow Schema Batch) where
  -- The row counter is the number of rows of the batches read.
  abbrev pub IsCounted : State pa → Type 0
  IsCounted st = st.num_records ≡ rows_in pa st.batches

  pub rows_in-append : (xs ys : List Batch) → rows_in pa (xs ++ ys) ≡ rows_in pa xs + rows_in pa ys
  unfolding rows_in
  rows_in-append [] ys = omega arith
  rows_in-append (x ∷ xs) ys = omega (arith, rows_in-append xs ys)

  -- The chunk is the last one of its batch, or the server does not say how many there are.
  abbrev pub IsLast : State pa → ArrowBatch → Type 0
  IsLast st ab = (num_chunks_of ab ≡ pos 0) ⊎ (num_chunks_of ab ≡ pos (suc (length st.pending)))

  -- The server declares no row count (0 counts as none), or that of the batches read.
  abbrev pub IsDeclared : Option ℤ → ℕ → Type 0
  IsDeclared row_count rows =
      (row_count ≡ none) ⊎ (row_count ≡ some (pos 0)) ⊎ (row_count ≡ some (pos rows))

  -- What is true when a chunk is accepted.
  pub record Accepted (st : State pa) (ab : ArrowBatch) (st' : State pa) : Type 0 where
    pub position : chunk_index_of ab ≡ pos (length st.pending)
    pub offset :
        (0 < length st.pending)
        ⊎ (ab.start_offset ≡ none)
        ⊎ (ab.start_offset ≡ some (pos (rows_in pa st.batches)))
    pub counted : st'.num_records ≡ rows_in pa st'.batches
    pub effect :
        ((num_chunks_of ab ≢ pos 0)
          × (num_chunks_of ab ≢ pos (suc (length st.pending)))
          × (st' ≡ record st { pending = st.pending ++ ab.content ∷ [] }))
        ⊎ (IsLast st ab
            × ((ipc : Ipc Schema Batch) × (pa.open_stream
                    (ipc_bytes (st.pending ++ ab.content ∷ []))
                  ≡ ok ipc)
                × IsDeclared ab.row_count (rows_in pa ipc.batches)
                × (st'.pending ≡ [])
                × (st'.batches ≡ st.batches ++ ipc.batches)
                × (st'.schema ≡ first_schema pa st.schema ipc.schema)))

  or_default-IsDeclared :
      (row_count : Option ℤ) (rows : ℕ)
      → is_nat (or_default row_count rows) rows ≡ true
      → IsDeclared row_count rows
  or_default-IsDeclared none rows h = inl refl
  or_default-IsDeclared (some i) rows h = elim (Bool-cases (is_nat i 0)) [
    | inl zeroed ↦ inr (inl (ap some (is_nat-pos i 0 zeroed)))
    | inr other ↦ inr (inr (ap some (is_nat-pos i rows (rw other at h))))
  ]

  pub complete_batch-effect :
      (st st' : State pa) (pending : List Bytes) (row_count : Option ℤ)
      → IsCounted st
      → complete_batch pa st pending row_count ≡ ok st'
      → (ipc : Ipc Schema Batch) × (pa.open_stream (ipc_bytes pending) ≡ ok ipc)
        × IsDeclared row_count (rows_in pa ipc.batches)
        × (st'.pending ≡ [])
        × (st'.batches ≡ st.batches ++ ipc.batches)
        × (st'.schema ≡ first_schema pa st.schema ipc.schema)
        × IsCounted st'
  unfolding complete_batch
  complete_batch-effect st st' pending row_count c e =
      let (ipc, opened, e') = >>=-eq-ok (pa.open_stream (ipc_bytes pending)) _ e in
      (
        ipc,
        opened,
        or_default-IsDeclared row_count (rows_in pa ipc.batches) (ground arith),
        ground arith,
        ground arith,
        ground arith,
        ground (arith, rows_in-append st.batches ipc.batches),
      )

  pub check_chunk-position :
      (pending : List Bytes) (ab : ArrowBatch) (n : ℕ)
      → check_chunk pending ab n ≡ ok tt
      → chunk_index_of ab ≡ pos (length pending)
  unfolding check_chunk
  check_chunk-position [] ab n h = is_nat-pos (chunk_index_of ab) 0 (ground arith)
  check_chunk-position (p ∷ ps) ab n h =
      is_nat-pos (chunk_index_of ab) (suc (length ps)) (ground arith)

  check_offset_lem :
      (o : Option ℤ) (n : ℕ) → check_offset o n ≡ ok tt → (o ≡ none) ⊎ (o ≡ some (pos n))
  unfolding check_offset
  check_offset_lem none n h = inl refl
  check_offset_lem (some i) n h = inr (ap some (is_nat-pos i n (ground arith)))

  pub check_chunk-offset :
      (pending : List Bytes) (ab : ArrowBatch) (n : ℕ)
      → check_chunk pending ab n ≡ ok tt
      → (0 < length pending) ⊎ (ab.start_offset ≡ none) ⊎ (ab.start_offset ≡ some (pos n))
  unfolding check_chunk
  check_chunk-offset [] ab n h = inr (check_offset_lem ab.start_offset n (ground arith))
  check_chunk-offset (p ∷ ps) ab n h = inl (omega arith)

  pub complete_IsLast : (n : ℕ) (i : ℤ) → is_complete n i ≡ true → (i ≡ pos 0) ⊎ (i ≡ pos n)
  unfolding is_complete
  complete_IsLast n i h = elim (Bool-cases (is_nat i 0)) [
    | inl zeroed ↦ inl (is_nat-pos i 0 zeroed)
    | inr other ↦ inr (is_nat-pos i n (rw other at h))
  ]

  pub incomplete_lem : (n : ℕ) (i : ℤ) → is_complete n i ≡ false → (i ≢ pos 0) × (i ≢ pos n)
  unfolding is_complete
  incomplete_lem n i h =
      let pos_n = pos-is_nat n in
      let pos_zero = pos-is_nat 0 in
      (λ e. ground (arith, pos_zero, e, h), λ e. ground (arith, pos_n, e, h))
