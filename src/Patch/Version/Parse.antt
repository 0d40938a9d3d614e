-- ===== src/Patch/Version/Parse.antt =====
-- The guard on version strings that start with two printed numbers.
use pyspark_client_wasm.Prelude.{
  ℕ, ◌+◌, ◌-◌, ◌*◌, ◌≡◌, refl, ap, ◌∙◌, ◌≢◌, Bool, none, some, [], ◌∷◌, ◌++◌, arith, ltb,
  if◌then◌else◌, All, Text, unsupported_pyspark, ok, err,
}
use pyspark_client_wasm.Text.{Unicode, is_space, strip_left}
use pyspark_client_wasm.Text.Decimal.{show, IsDigit, show-All, show-ne-nil}
use pyspark_client_wasm.Text.Decimal.Value.{value_onto, value-show}
use pyspark_client_wasm.Text.Trim.{strip_left-kept}
use pyspark_client_wasm.Patch.Version.{
  digit_value, digits_onto, digits, after_dot, after_major, parse_major_minor, pair_lt,
  check_pyspark_version,
}

module _ (u : Unicode) where
  -- A text that no digit continues.
  abbrev pub Ends : Text → Type 0
  Ends [] = Unit
  Ends (c ∷ s) = digit_value u c ≡ none

  digits_onto-append :
      (n : ℕ) (s rest : Text)
      → All IsDigit s
      → Ends rest
      → digits_onto u n (s ++ rest) ≡ (value_onto n s, rest)
  unfolding digits_onto
  digits_onto-append n [] [] h e = refl
  digits_onto-append n [] (c ∷ rest) h e = rw (e, digits_onto)
  digits_onto-append n (c ∷ s) rest h e =
      let d : digit_value u c ≡ some (c - b'0') = unfold digit_value in ground arith in
      rw (d, digits_onto) (digits_onto-append (n * 10 + (c - b'0')) s rest h.1 e)

  digits-append :
      (s rest : Text)
      → s ≢ []
      → All IsDigit s
      → Ends rest
      → digits u (s ++ rest) ≡ some (value_onto 0 s, rest)
  unfolding digits
  digits-append [] rest n h e = absurd (n refl)
  digits-append (c ∷ s) rest n h e =
      let d : digit_value u c ≡ some (c - b'0') = unfold digit_value in ground arith in
      let onto : value_onto (c - b'0') s ≡ value_onto (0 * 10 + (c - b'0')) s =
        ap (λ (k : ℕ). value_onto k s) (omega arith) in
      rw (d, digits)
        (ap some (digits_onto-append (c - b'0') s rest h.1 e ∙ ap (λ (k : ℕ). (k, rest)) onto))

  digits-show : (n : ℕ) (rest : Text) → Ends rest → digits u (show n ++ rest) ≡ some (n, rest)
  digits-show n rest e =
      digits-append (show n) rest (show-ne-nil n) (show-All n) e
      ∙ ap (λ (k : ℕ). some (k, rest)) (value-show n)

  strip_left-digits :
      (s rest : Text) → s ≢ [] → All IsDigit s → strip_left is_space (s ++ rest) ≡ s ++ rest
  strip_left-digits [] rest n h = absurd (n refl)
  strip_left-digits (c ∷ s) rest n h =
      strip_left-kept is_space c (s ++ rest) (unfold is_space in ground arith)

  abbrev pub version_of : ℕ → ℕ → Text → Text
  version_of a b rest = show a ++ (b'.' ∷ (show b ++ rest))

  after_major-digits :
      (a b : ℕ) (rest : Text)
      → Ends rest
      → after_major u (digits u (version_of a b rest)) ≡ some (a, b)
  unfolding after_major after_dot
  after_major-digits a b rest e =
      let dot : Ends (b'.' ∷ (show b ++ rest)) = unfold digit_value in ground arith in
      ap (after_major u) (digits-show a (b'.' ∷ (show b ++ rest)) dot)
      ∙ rw (digits-show b rest e, after_dot)

  parse_major_minor-of :
      (v : Text) (x : ℕ × ℕ)
      → after_major u (digits u (strip_left is_space v)) ≡ some x
      → parse_major_minor u v ≡ ok x
  unfolding parse_major_minor
  parse_major_minor-of v x e = rw (e, parse_major_minor)

  pub parse_major_minor-version_of :
      (a b : ℕ) (rest : Text) → Ends rest → parse_major_minor u (version_of a b rest) ≡ ok (a, b)
  parse_major_minor-version_of a b rest e =
      let kept : strip_left is_space (version_of a b rest) ≡ version_of a b rest =
        strip_left-digits (show a) (b'.' ∷ (show b ++ rest)) (show-ne-nil a) (show-All a) in
      parse_major_minor-of (version_of a b rest) (a, b)
        (ap (λ (s : Text). after_major u (digits u s)) kept ∙ after_major-digits a b rest e)

  -- A version that starts with the printed numbers a.b, and goes on with anything but a digit, is
  -- accepted if (a, b) is at least (4, 0) and refused with its text if not, so the guard does not
  -- compare digit by digit: 10.0 is above 4.0.
  pub check_pyspark_version-version_of :
      (a b : ℕ) (rest : Text)
      → Ends rest
      → check_pyspark_version u (some (version_of a b rest))
        ≡ (if ltb a 4 then err (unsupported_pyspark (some (version_of a b rest))) else ok (a, b))
  unfolding check_pyspark_version pair_lt
  check_pyspark_version-version_of a b rest e = rw (parse_major_minor-version_of a b rest e) (
      ap
        (λ (t : Bool).
          if t then err (unsupported_pyspark (some (version_of a b rest))) else ok (a, b))
        (ground arith))
