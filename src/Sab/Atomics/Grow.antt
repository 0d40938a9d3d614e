-- ===== src/Sab/Atomics/Grow.antt =====
-- The growth of the data region.
use pyspark_client_wasm.Prelude.{
  ℕ, zero, suc, ◌+◌, ◌*◌, ◌^◌, ◌≤◌, ◌<◌, ◌≡◌, refl, ap, ◌∙◌, ◌⊎◌, inl, inr, some, arith, ltb,
  ltb_of_le, lt_of_ltb, le_of_ltb, Bool-cases, length,
}
use pyspark_client_wasm.Sab.Atomics.{grown_capacity, zeros}

-- What the loop is to find: the first of capacity, 2 * capacity, 4 * capacity, … that is large
-- enough.
pub record IsGrown (capacity min_bytes c : ℕ) : Type 0 where
  pub doublings : ℕ
  pub power : c ≡ capacity * 2 ^ doublings
  pub enough : min_bytes ≤ c
  pub least : (c ≡ capacity) ⊎ (c < 2 * min_bytes)

pow-suc : (c k : ℕ) → c * 2 * 2 ^ k ≡ c * 2 ^ suc k
pow-suc c k = grind arith

-- The loop that doubles the capacity ends for every capacity that is not 0, in at most as many
-- rounds as there are bytes missing, and finds a doubling of it, capacity * 2 ^ k, that holds the
-- bytes and is below twice what is needed, unless the capacity was enough.
pub grown_capacity-IsGrown :
    (fuel capacity min_bytes : ℕ)
    → 0 < capacity
    → min_bytes ≤ capacity + fuel
    → (c : ℕ) × (grown_capacity fuel capacity min_bytes ≡ some c) × IsGrown capacity min_bytes c
unfolding grown_capacity
grown_capacity-IsGrown zero capacity min_bytes h k = (
  capacity,
  rw (ltb_of_le capacity min_bytes (omega arith)),
  record { doublings = 0; power = omega arith; enough = omega arith; least = inl refl },
)
grown_capacity-IsGrown (suc fuel) capacity min_bytes h k =
    elim (Bool-cases (ltb capacity min_bytes)) [
      | inr l ↦ (
        capacity,
        rw l,
        record { doublings = 0; power = omega arith; enough = le_of_ltb _ _ l; least = inl refl },
      )
      | inl l ↦
          let lt = lt_of_ltb _ _ l in
          let (c, e, g) =
            grown_capacity-IsGrown fuel (capacity * 2) min_bytes (omega arith) (omega arith) in
          (
            c,
            rw l e,
            record {
              doublings = suc g.doublings;
              power = g.power ∙ pow-suc capacity g.doublings;
              enough = g.enough;
              least = inr (ground (arith, g.least, lt));
            },
          )
    ]

pub length-zeros : (n : ℕ) → length (zeros n) ≡ n
unfolding zeros
length-zeros zero = refl
length-zeros (suc n) = ap suc (length-zeros n)
