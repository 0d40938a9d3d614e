-- ===== src/Text/Decimal.antt =====
-- str(n) of a natural number, and int() of a text of ASCII digits.
pub mod Value
use pyspark_client_wasm.Prelude.{
  ℕ, zero, suc, ◌+◌, ◌/◌, ◌%◌, ◌≤◌, ◌≡◌, refl, ◌∙◌, ◌≢◌, inl, inr, false, [], ◌∷◌, arith, ltb, ◌==◌,
  if◌then◌else◌, Bool-cases, length, All, Text,
}
use pyspark_client_wasm.Text.{text_eq}

-- The digits of n behind which `acc` stands; a round divides by ten, so that n + 1 is fuel enough.
show_onto : ℕ → ℕ → Text → Text
show_onto zero n acc = acc
show_onto (suc fuel) n acc =
    let digit = b'0' + n % 10 in
    let rest = show_onto fuel (n / 10) (digit ∷ acc) in if ltb n 10 then digit ∷ acc else rest

-- str(n)
unfoldable pub show : ℕ → Text
unfolding show_onto
show n = show_onto (suc n) n []

abbrev pub IsDigit : ℕ → Type 0
IsDigit c = (b'0' ≤ c) × (c ≤ b'9')

show_onto-All : (fuel n : ℕ) (acc : Text) → All IsDigit acc → All IsDigit (show_onto fuel n acc)
unfolding show_onto
show_onto-All zero n acc h = h
show_onto-All (suc fuel) n acc h = elim (Bool-cases (ltb n 10)) [
  | inl small ↦ rw small ((omega arith, omega arith), h)
  | inr large ↦ rw large (show_onto-All fuel (n / 10) _ ((omega arith, omega arith), h))
]

-- Every character of a printed number is an ASCII digit.
pub show-All : (n : ℕ) → All IsDigit (show n)
unfolding show
show-All n = show_onto-All (suc n) n [] tt

show_onto-ne-nil : (fuel n c : ℕ) (acc : Text) → show_onto fuel n (c ∷ acc) ≢ []
unfolding show_onto
show_onto-ne-nil zero n c acc = cc
show_onto-ne-nil (suc fuel) n c acc = elim (Bool-cases (ltb n 10)) [
  | inl small ↦ rw small (cc)
  | inr large ↦ rw large (show_onto-ne-nil fuel (n / 10) (b'0' + n % 10) (c ∷ acc))
]

pub show-ne-nil : (n : ℕ) → show n ≢ []
unfolding show
show-ne-nil n = elim (Bool-cases (ltb n 10)) [
  | inl small ↦ rw small (cc)
  | inr large ↦ rw large (show_onto-ne-nil n (n / 10) (b'0' + n % 10) [])
]

show_onto-length :
    (fuel n c : ℕ) (acc : Text) → length (c ∷ acc) ≤ length (show_onto fuel n (c ∷ acc))
unfolding show_onto
show_onto-length zero n c acc = omega arith
show_onto-length (suc fuel) n c acc = elim (Bool-cases (ltb n 10)) [
  | inl small ↦ rw small (omega arith)
  | inr large ↦ rw large (omega (arith, show_onto-length fuel (n / 10) (b'0' + n % 10) (c ∷ acc)))
]

-- With fuel a digit is put in front at least.
show_onto-longer :
    (fuel n c : ℕ) (acc : Text) → suc (length (c ∷ acc)) ≤ length (show_onto (suc fuel) n (c ∷ acc))
unfolding show_onto
show_onto-longer fuel n c acc = elim (Bool-cases (ltb n 10)) [
  | inl small ↦ rw small (omega arith)
  | inr large ↦ rw large (show_onto-length fuel (n / 10) (b'0' + n % 10) (c ∷ acc))
]

text_eq-longer : (s : Text) (c : ℕ) → 2 ≤ length s → text_eq s (c ∷ []) ≡ false
unfolding text_eq
text_eq-longer (a ∷ b ∷ s) c h = ground arith
text_eq-longer _ c h = absurd (omega arith)

-- Only zero is printed as "0".
pub show-eq-zero : (n : ℕ) → text_eq (show n) (b'0' ∷ []) ≡ (n == 0)
unfolding show
show-eq-zero zero = unfold text_eq in refl
show-eq-zero (suc n) = elim (Bool-cases (ltb (suc n) 10)) [
  | inl small ↦ rw small (unfold text_eq in ground arith)
  | inr large ↦ rw large (
      text_eq-longer (show_onto (suc n) (suc n / 10) ((b'0' + suc n % 10) ∷ [])) b'0'
        (show_onto-longer n (suc n / 10) (b'0' + suc n % 10) [])
      ∙ ground arith)
]
