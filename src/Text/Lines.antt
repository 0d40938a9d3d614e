-- ===== src/Text/Lines.antt =====
-- Lines and fields: how a text with separators is taken apart.
use pyspark_client_wasm.Prelude.{ℕ, ◌≡◌, refl, true, false, [], ◌∷◌, ◌++◌, arith, Text}
use pyspark_client_wasm.Text.{has_char, partition, to_lf, split}

-- A text without the character `c`.
abbrev pub Lacks : ℕ → Text → Type 0
Lacks c s = has_char c s ≡ false

pub split-append :
    (c : ℕ) (s rest : Text) → Lacks c s → split c (s ++ (c ∷ rest)) ≡ s ∷ split c rest
unfolding split has_char
split-append c [] rest h = ground arith
split-append c (d ∷ s) rest h = ground (arith, split-append c s rest)

pub partition-append :
    (c : ℕ) (s rest : Text) → Lacks c s → partition c (s ++ (c ∷ rest)) ≡ (s, rest)
unfolding partition has_char
partition-append c [] rest h = ground arith
partition-append c (d ∷ s) rest h = ground (arith, partition-append c s rest)

pub has_char-append : (c : ℕ) (s rest : Text) → has_char c (s ++ (c ∷ rest)) ≡ true
unfolding has_char
has_char-append c [] rest = ground arith
has_char-append c (d ∷ s) rest = ground (arith, has_char-append c s rest)

pub to_lf-append :
    (s rest : Text)
    → Lacks b'\n' s
    → to_lf (s ++ (b'\r' ∷ b'\n' ∷ rest)) ≡ s ++ (b'\n' ∷ to_lf rest)
unfolding to_lf has_char
to_lf-append [] rest h = refl
to_lf-append (c ∷ []) rest h = ground arith
to_lf-append (c ∷ d ∷ s) rest h = ground (arith, to_lf-append (d ∷ s) rest)

pub Lacks-append : (c : ℕ) (s t : Text) → Lacks c s → Lacks c t → Lacks c (s ++ t)
unfolding has_char
Lacks-append c [] t h k = k
Lacks-append c (d ∷ s) t h k = ground (arith, Lacks-append c s t)
