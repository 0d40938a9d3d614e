-- ===== src/Patch/Version.antt =====
-- _parse_major_minor and check_pyspark_version.
pub mod Parse
use pyspark_client_wasm.Prelude.{
  ℕ, ◌+◌, ◌-◌, ◌*◌, Bool, ◌&&◌, ◌||◌, Option, none, some, [], ◌∷◌, ltb, ◌==◌, if◌then◌else◌, within,
  Text, unsupported_pyspark, Result, ok, err, ◌>>=◌,
}
use pyspark_client_wasm.Text.{Unicode, codes, is_space, strip_left}

-- The value of a character that the regular expression's \d takes.
unfoldable pub digit_value : Unicode → ℕ → Option ℕ
digit_value u c =
    if within b'0' b'9' c then some (c - b'0') else if ltb c 128 then none else u.digit c

-- The digits in front of a text: the number that they make with those read, and what is left.
digits_onto : Unicode → ℕ → Text → ℕ × Text
digits_onto u n [] = (n, [])
digits_onto u n (c ∷ s) = elim (digit_value u c) [
  | none ↦ (n, c ∷ s)
  | some d ↦ digits_onto u (n * 10 + d) s
]

-- (\d+): one digit at least
digits : Unicode → Text → Option (ℕ × Text)
unfolding digits_onto digit_value
digits u [] = none
digits u (c ∷ s) = elim (digit_value u c) [ none ↦ none | some d ↦ some (digits_onto u d s) ]

after_dot : Unicode → ℕ → Text → Option (ℕ × ℕ)
after_dot u major [] = none
after_dot u major (c ∷ s) =
    if c == b'.'
    then elim (digits u s) [ none ↦ none | some (minor, _) ↦ some (major, minor) ]
    else none

after_major : Unicode → Option (ℕ × Text) → Option (ℕ × ℕ)
unfolding after_dot
after_major u none = none
after_major u (some (major, s)) = after_dot u major s

-- re.match(r"^\s*(\d+)\.(\d+)", version)
pub parse_major_minor : Unicode → Text → Result (ℕ × ℕ)
unfolding after_major
parse_major_minor u version = elim (after_major u (digits u (strip_left is_space version))) [
  | none ↦ err (unsupported_pyspark (some version))
  | some mm ↦ ok mm
]

abbrev pub supported_min : ℕ × ℕ
supported_min = (4, 0)

-- The order of tuples.
pair_lt : ℕ × ℕ → ℕ × ℕ → Bool
pair_lt (a, b) (c, d) = ltb a c || (a == c && ltb b d)

-- `running` is pyspark.__version__, none where pyspark cannot be imported.
pub check_pyspark_version : Unicode → Option Text → Result (ℕ × ℕ)
unfolding pair_lt
check_pyspark_version u none = err (unsupported_pyspark none)
check_pyspark_version u (some version) = do
  mm ← parse_major_minor u version
  if pair_lt mm supported_min then err (unsupported_pyspark (some version)) else ok mm
