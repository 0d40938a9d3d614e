-- ===== src/Arrow/Skip.antt =====
-- Responses with no arrow batch, and streams that end or go wrong within a batch.
use mathlib.Core.Path.{fun_ext}
use pyspark_client_wasm.Prelude.{
  ◌≡◌, refl, ap, Option, none, some, List, [], ◌∷◌, Result, Gen, emits, ◌>>=◌,
}
use pyspark_client_wasm.Arrow.{ArrowBatch, PyArrow, Reassembly, step, run, reassemble}

-- The responses that carry an arrow batch.
abbrev pub only_batches : List (Option ArrowBatch) → List (Option ArrowBatch)
only_batches [] = []
only_batches (none ∷ rs) = only_batches rs
only_batches (some ab ∷ rs) = some ab ∷ only_batches rs

module _ {Schema Batch : Type 0} (pa : PyArrow Schema Batch) where
  run-only_batches :
      (rs : List (Option ArrowBatch)) (g : Gen (Option ArrowBatch)) (st : Reassembly Schema Batch)
      → run pa (emits rs g) st ≡ run pa (emits (only_batches rs) g) st
  unfolding run
  run-only_batches [] g st = refl
  run-only_batches (none ∷ rs) g st = run-only_batches rs g st
  run-only_batches (some ab ∷ rs) g st =
      ap
        (λ (k : Reassembly Schema Batch → Result (List Batch × Option Schema)). step pa st ab >>= k)
        (fun_ext (run-only_batches rs g))

  -- Responses that carry no arrow batch do not matter, wherever they stand, also between the chunks
  -- of a batch.
  pub reassemble-only_batches :
      (rs : List (Option ArrowBatch)) (g : Gen (Option ArrowBatch))
      → reassemble pa (emits rs g) ≡ reassemble pa (emits (only_batches rs) g)
  unfolding reassemble
  reassemble-only_batches rs g = run-only_batches rs g _
