-- ===== src/Text/Trim.antt =====
-- What str.strip keeps.
use pyspark_client_wasm.Prelude.{ℕ, ◌≡◌, refl, ap, ◌∙◌, ◌≢◌, Bool, false, [], ◌∷◌, ◌++◌, All, Text}
use pyspark_client_wasm.Text.{is_space, keep_right, strip_left, strip_right, strip}

module _ (p : ℕ → Bool) where
  abbrev pub IsKept : ℕ → Type 0
  IsKept c = p c ≡ false

  pub strip_left-kept : (c : ℕ) (s : Text) → IsKept c → strip_left p (c ∷ s) ≡ c ∷ s
  unfolding strip_left
  strip_left-kept c s h = rw h

  pub strip_right-All : (s : Text) → All IsKept s → strip_right p s ≡ s
  unfolding strip_right
  strip_right-All [] h = refl
  strip_right-All (c ∷ []) h = rw h.0
  strip_right-All (c ∷ d ∷ s) h = rw (strip_right-All (d ∷ s) h.1, strip_right)

  keep_right-append :
      (b : ℕ) (a : Text) (c : ℕ) (s : Text) → keep_right p b (a ++ (c ∷ s)) ≡ b ∷ (a ++ (c ∷ s))
  unfolding keep_right
  keep_right-append b [] c s = refl
  keep_right-append b (d ∷ a) c s = refl

  pub strip_right-append :
      (a s : Text) → strip_right p s ≡ s → s ≢ [] → strip_right p (a ++ s) ≡ a ++ s
  unfolding strip_right
  strip_right-append a [] e n = absurd (n refl)
  strip_right-append [] (c ∷ s) e n = e
  strip_right-append (b ∷ a) (c ∷ s) e n =
      ap (keep_right p b) (strip_right-append a (c ∷ s) e n) ∙ keep_right-append b a c s

-- Texts that str.strip leaves as they are.
abbrev pub IsTrimmed : Text → Type 0
IsTrimmed s = (strip_left is_space s ≡ s) × (strip_right is_space s ≡ s)

pub strip-IsTrimmed : (s : Text) → IsTrimmed s → strip s ≡ s
unfolding strip
strip-IsTrimmed s (l, r) = ap (strip_right is_space) l ∙ r
