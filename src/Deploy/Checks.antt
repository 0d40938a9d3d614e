-- ===== src/Deploy/Checks.antt =====
-- What the exit code of the check says.
use pyspark_client_wasm.Prelude.{
  ℕ, ◌≡◌, refl, sym, ap, ◌∙◌, ◌↔◌, inl, inr, Bool, true, false, not, ◌||◌, Option, none, some, List,
  [], ◌∷◌, arith, Bool-cases, All, Text, Result, ok, err, ◌>>=◌,
}
use pyspark_client_wasm.Deploy.{
  Opened, found, missing, broken, Line, Report, yaml_files, coi_files, needles, prod_file, wildcard,
  contains, contains_all, header_lines, check_text, check_coi, parsed, check_yaml, check_cors,
  combine, check_each, concluded, checks, main,
}

-- A check that returns a report without a failure.
abbrev Passes : Result Report → Type 0
Passes (err e) = ⊥
Passes (ok report) = report.failed ≡ false

-- A file that is there, and whose text has the property.
abbrev pub Holds : (Text → Type 0) → Opened → Type 0
Holds P (found text) = P text
Holds P missing = ⊥
Holds P (broken e) = ⊥

or_false : (a b : Bool) → ((a || b) ≡ false) ↔ ((a ≡ false) × (b ≡ false))
or_false false b = (λ e. (refl, e), λ e. e.1)
or_false true b = (λ e. absurd (cc), λ e. e.0)

Passes-combine : (a b : Result Report) → Passes (combine a b) ↔ (Passes a × Passes b)
unfolding combine
Passes-combine (err e) b = (λ h. absurd h, λ h. h.0)
Passes-combine (ok r) (err e) = (λ h. absurd h, λ h. h.1)
Passes-combine (ok r) (ok s) = or_false r.failed s.failed

Passes-check_each :
    (check : Text → Result Report) (files : List Text)
    → Passes (check_each check files) ↔ All (λ file. Passes (check file)) files
unfolding check_each
Passes-check_each check [] = (λ h. tt, λ h. refl)
Passes-check_each check (file ∷ files) =
    let both = Passes-combine (check file) (check_each check files) in
    let later = Passes-check_each check files in
    (λ h. ((both.0 h).0, later.0 (both.0 h).1), λ h. both.1 (h.0, later.1 h.1))

All-map :
    {P Q : Text → Type 0}
    → ((file : Text) → P file → Q file)
    → (files : List Text) → All P files
    → All Q files
All-map f [] h = tt
All-map f (file ∷ files) h = (f file h.0, All-map f files h.1)

All-iff :
    {P Q : Text → Type 0}
    → ((file : Text) → P file ↔ Q file)
    → (files : List Text) → All P files ↔ All Q files
All-iff f files = (All-map (λ file. (f file).0) files, All-map (λ file. (f file).1) files)

-- A file of the second loop.
contains_all-All :
    (ns : List Text) (text : Text)
    → (contains_all ns text ≡ true) ↔ All (λ n. contains n text ≡ true) ns
unfolding contains_all
contains_all-All [] text = (λ e. tt, λ h. refl)
contains_all-All (n ∷ ns) text =
    let later = contains_all-All ns text in
    elim (Bool-cases (contains n text)) [
      | inl c ↦ rw c ((λ e. (refl, later.0 e), λ h. later.1 h.1))
      | inr c ↦ rw c ((λ e. absurd (cc), λ h. absurd (cc (h.0))))
    ]

header_lines-failed :
    (file : Text) (ns : List Text) (text : Text)
    → (header_lines file ns text).failed ≡ not (contains_all ns text)
unfolding header_lines contains_all
header_lines-failed file [] text = refl
header_lines-failed file (n ∷ ns) text = elim (Bool-cases (contains n text)) [
  | inl c ↦ rw c (header_lines-failed file ns text)
  | inr c ↦ rw c refl
]

check_text-failed :
    (file text : Text) → (check_text file text).failed ≡ not (contains_all needles text)
unfolding check_text
check_text-failed file text = elim (Bool-cases (contains_all needles text)) [
  | inl c ↦ rw c (header_lines-failed file needles text ∙ ap not c)
  | inr c ↦ rw c (header_lines-failed file needles text ∙ ap not c)
]

not-false : (b : Bool) → (not b ≡ false) ↔ (b ≡ true)
not-false true = (λ e. refl, λ e. refl)
not-false false = (λ e. absurd (cc), λ e. absurd (cc))

abbrev pub HasHeaders : Text → Type 0
HasHeaders text = All (λ n. contains n text ≡ true) needles

Passes-check_text : (file text : Text) → ((check_text file text).failed ≡ false) ↔ HasHeaders text
Passes-check_text file text =
    let failed = check_text-failed file text in
    let all = contains_all-All needles text in
    let flag = not-false (contains_all needles text) in
    (λ e. all.0 (flag.0 (sym failed ∙ e)), λ h. failed ∙ flag.1 (all.1 h))

Passes-check_coi : (file : Text) (o : Opened) → Passes (check_coi file o) ↔ Holds HasHeaders o
unfolding check_coi
Passes-check_coi file (found text) = Passes-check_text file text
Passes-check_coi file missing = (λ e. absurd (cc), λ h. absurd h)
Passes-check_coi file (broken e) = (λ h. h, λ h. h)

-- A file of the first loop.
Passes-parsed : (file : Text) (e : Option Text) → ((parsed file e).failed ≡ false) ↔ (e ≡ none)
unfolding parsed
Passes-parsed file none = (λ e. refl, λ e. refl)
Passes-parsed file (some x) = (λ e. absurd (cc), λ e. absurd (cc))

Passes-check_yaml :
    (load : Text → Option Text) (file : Text) (o : Opened)
    → Passes (check_yaml load file o) ↔ Holds (λ text. load text ≡ none) o
unfolding check_yaml
Passes-check_yaml load file (found text) = Passes-parsed file (load text)
Passes-check_yaml load file missing = (λ e. absurd (cc), λ h. absurd h)
Passes-check_yaml load file (broken e) = (λ h. h, λ h. h)

-- The production file.
Passes-check_cors :
    (o : Opened) → Passes (check_cors o) ↔ Holds (λ text. contains wildcard text ≡ false) o
unfolding check_cors
Passes-check_cors (found text) = elim (Bool-cases (contains wildcard text)) [
  | inl c ↦ rw c ((λ e. absurd (cc), λ e. absurd (cc)))
  | inr c ↦ rw c ((λ e. refl, λ e. refl))
]
Passes-check_cors missing = (λ h. h, λ h. h)
Passes-check_cors (broken e) = (λ h. h, λ h. h)

-- The exit code.
exit_code :
    (r : Result Report)
    → ((lines : List Line) × ((r >>= λ report. ok (concluded report)) ≡ ok (0, lines))) ↔ Passes r
unfolding concluded
exit_code (err e) = (λ x. absurd (cc (x.1)), λ h. absurd h)
exit_code (ok report) = elim (Bool-cases report.failed) [
  | inl c ↦ rw c ((λ x. absurd (omega (arith, ap code_of x.1)), λ h. absurd (cc)))
  | inr c ↦ rw c ((λ x. refl, λ h. (_, refl)))
]
  where
    code_of : Result (ℕ × List Line) → ℕ
    code_of (ok x) = x.0
    code_of (err e) = 0

module _ (read : Text → Opened) (load : Text → Option Text) where
  -- What the deployment has to be.
  pub record IsDeployable : Type 0 where
    pub parse : All (λ file. Holds (λ text. load text ≡ none) (read file)) yaml_files
    pub isolated : All (λ file. Holds HasHeaders (read file)) coi_files
    pub tight : Holds (λ text. contains wildcard text ≡ false) (read prod_file)

  checks-IsDeployable : Passes (checks read load) ↔ IsDeployable
  unfolding checks
  checks-IsDeployable =
      let parses = check_each (λ file. check_yaml load file (read file)) yaml_files in
      let headers = check_each (λ file. check_coi file (read file)) coi_files in
      let outer = Passes-combine (combine parses headers) (check_cors (read prod_file)) in
      let inner = Passes-combine parses headers in
      let yaml = Passes-check_each (λ file. check_yaml load file (read file)) yaml_files in
      let coi = Passes-check_each (λ file. check_coi file (read file)) coi_files in
      let yaml' = All-iff (λ file. Passes-check_yaml load file (read file)) yaml_files in
      let coi' = All-iff (λ file. Passes-check_coi file (read file)) coi_files in
      let cors = Passes-check_cors (read prod_file) in
      (
        λ h. record {
          parse = yaml'.0 (yaml.0 (inner.0 (outer.0 h).0).0);
          isolated = coi'.0 (coi.0 (inner.0 (outer.0 h).0).1);
          tight = cors.0 (outer.0 h).1;
        },
        λ d.
            outer.1 (inner.1 (yaml.1 (yaml'.1 d.parse), coi.1 (coi'.1 d.isolated)), cors.1 d.tight),
      )

  -- The script returns 0 exactly where every deployment file can be read and parses, both Envoy
  -- files hold all four words of the isolation headers, and the production file holds no wildcard
  -- origin.
  pub main-IsDeployable : ((lines : List Line) × (main read load ≡ ok (0, lines))) ↔ IsDeployable
  unfolding main
  main-IsDeployable =
      let code = exit_code (checks read load) in
      (λ x. checks-IsDeployable.0 (code.0 x), λ d. code.1 (checks-IsDeployable.1 d))
