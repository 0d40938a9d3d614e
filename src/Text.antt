-- ===== src/Text.antt =====
-- What the package uses of Python's str and bytes: a str is the list of its code points.
-- Case folding, word characters and decimal digits beyond ASCII are tables of the Python runtime,
-- the parameter `Unicode`; on ASCII text the operations are written out.
pub mod Equality
pub mod Utf8
pub mod Decimal
pub mod Lines
pub mod Trim
pub mod Slashes
use Prim.Native.Char.{code}
use pyspark_client_wasm.Prelude.{
  ℕ, ◌+◌, ◌++◌, Bool, true, false, ◌&&◌, ◌||◌, List, [], ◌∷◌, map, Option, String, ltb, ◌==◌,
  if◌then◌else◌, within, Text,
}

-- The code points of a literal.
abbrev pub codes : String → Text
codes String.[] = []
codes (String.◌∷◌ c s) = code c ∷ codes s

-- a == b
unfoldable pub text_eq : Text → Text → Bool
text_eq [] [] = true
text_eq (a ∷ s) (b ∷ t) = a == b && text_eq s t
text_eq _ _ = false

pub record Unicode : Type 0 where
  pub lower : Text → Text
  pub is_word : ℕ → Bool
  pub digit : ℕ → Option ℕ

unfoldable pub is_ascii : Text → Bool
is_ascii [] = true
is_ascii (c ∷ s) = ltb c 128 && is_ascii s

unfoldable pub lower_char : ℕ → ℕ
lower_char c = if within b'A' b'Z' c then c + 32 else c

-- s.lower(): the ASCII case, else the runtime's table
unfoldable pub to_lower : Unicode → Text → Text
unfolding is_ascii lower_char
to_lower u s = if is_ascii s then map lower_char s else u.lower s

-- the characters that str.strip() and the regex \s take: those with str.isspace()
unfoldable pub is_space : ℕ → Bool
is_space c =
    within 9 13 c
    || within 28 32 c
    || c == 0x85
    || c == 0xA0
    || c == 0x1680
    || within 0x2000 0x200A c
    || within 0x2028 0x2029 c
    || c == 0x202F
    || c == 0x205F
    || c == 0x3000

-- s.lstrip(), for the characters that `p` takes
unfoldable pub strip_left : (ℕ → Bool) → Text → Text
strip_left p [] = []
strip_left p (c ∷ s) = let rest = strip_left p s in if p c then rest else c ∷ s

-- A character stays if it, or one behind it, is not taken.
keep_right : (ℕ → Bool) → ℕ → Text → Text
keep_right p c [] = if p c then [] else c ∷ []
keep_right p c (d ∷ s) = c ∷ d ∷ s

-- s.rstrip(), for the characters that `p` takes
unfoldable pub strip_right : (ℕ → Bool) → Text → Text
unfolding keep_right
strip_right p [] = []
strip_right p (c ∷ s) = keep_right p c (strip_right p s)

-- s.strip()
unfoldable pub strip : Text → Text
unfolding strip_left strip_right is_space
strip s = strip_right is_space (strip_left is_space s)

-- c in s, for one character
unfoldable pub has_char : ℕ → Text → Bool
has_char c [] = false
has_char c (d ∷ s) = c == d || has_char c s

unfoldable pub starts_with : Text → Text → Bool
starts_with [] s = true
starts_with (c ∷ p) [] = false
starts_with (c ∷ p) (d ∷ s) = c == d && starts_with p s

-- s.partition(c): what stands before the first c, and what stands behind it
unfoldable pub partition : ℕ → Text → Text × Text
partition c [] = ([], [])
partition c (d ∷ s) =
    let (before, behind) = partition c s in if c == d then ([], s) else (d ∷ before, behind)

-- s.replace("\r\n", "\n")
unfoldable pub to_lf : Text → Text
to_lf [] = []
to_lf (c ∷ []) = c ∷ []
to_lf (c ∷ d ∷ s) = elim (c == b'\r' && d == b'\n') [
  | true ↦ b'\n' ∷ to_lf s
  | false ↦ c ∷ to_lf (d ∷ s)
]

onto_first : ℕ → List Text → List Text
onto_first d [] = (d ∷ []) ∷ []
onto_first d (t ∷ ts) = (d ∷ t) ∷ ts

-- s.split(c)
unfoldable pub split : ℕ → Text → List Text
unfolding onto_first
split c [] = [] ∷ []
split c (d ∷ s) = let rest = split c s in if c == d then [] ∷ rest else onto_first d rest

-- sep.join(parts)
unfoldable pub join_with : Text → List Text → Text
join_with sep [] = []
join_with sep (t ∷ []) = t
join_with sep (t ∷ u ∷ ts) = t ++ (sep ++ join_with sep (u ∷ ts))
