-- ===== src/Text/Decimal/Value.antt =====
-- The number that a text of digits stands for.
use pyspark_client_wasm.Prelude.{
  ℕ, zero, suc, ◌+◌, ◌-◌, ◌*◌, ◌/◌, ◌%◌, ◌<◌, ◌≡◌, ap, ◌∙◌, inl, inr, [], ◌∷◌, arith, ltb,
  Bool-cases, Text,
}
use pyspark_client_wasm.Text.Decimal.{show_onto, show}

-- The digits of a text behind a number that is read already.
abbrev pub value_onto : ℕ → Text → ℕ
value_onto n [] = n
value_onto n (c ∷ s) = value_onto (n * 10 + (c - b'0')) s

value_onto-show_onto :
    (fuel n : ℕ) (acc : Text) → n < fuel → value_onto 0 (show_onto fuel n acc) ≡ value_onto n acc
unfolding show_onto
value_onto-show_onto zero n acc h = absurd (omega arith)
value_onto-show_onto (suc fuel) n acc h = elim (Bool-cases (ltb n 10)) [
  | inl small ↦ rw small (ap (λ (k : ℕ). value_onto k acc) (ground arith))
  | inr large ↦ rw large (
      value_onto-show_onto fuel (n / 10) ((b'0' + n % 10) ∷ acc) (ground arith)
      ∙ ap (λ (k : ℕ). value_onto k acc) (omega arith))
]

-- A number is what its printed digits stand for.
pub value-show : (n : ℕ) → value_onto 0 (show n) ≡ n
unfolding show
value-show n = value_onto-show_onto (suc n) n [] (omega arith)
