-- ===== src/Deploy.antt =====
-- scripts/validate_deploy.py: the check of the deployment files. What the files hold and what
-- yaml.safe_load says of a text are parameters.
pub mod Checks
pub mod Tests
use pyspark_client_wasm.Prelude.{
  ℕ, Bool, true, false, ◌&&◌, ◌||◌, Option, none, some, List, [], ◌∷◌, ◌++◌, if◌then◌else◌, Text,
  Exn, foreign, Result, ok, err, ◌>>=◌,
}
use pyspark_client_wasm.Text.{codes, starts_with}

-- What open and read give: the text, or a FileNotFoundError, or another exception.
pub data Opened : Type 0 where
  found : Text → Opened
  missing : Opened
  broken : Exn → Opened

-- A line that is printed.
pub data Line : Type 0 where
  ok_parse : Text → Line
  fail_missing : Text → Line
  fail_yaml : Text → Text → Line
  fail_header : Text → Text → Line
  ok_headers : Text → Line
  fail_cors ok_cors : Line
  verdict : Bool → Line

-- Whether a check failed, and what it printed.
pub record Report : Type 0 where
  pub failed : Bool
  pub lines : List Line

abbrev pub yaml_files : List Text
yaml_files =
    codes "deploy/envoy.yaml"
    ∷ codes "deploy/envoy.prod.yaml"
    ∷ codes "deploy/compose.yaml"
    ∷ codes "deploy/compose.prod.yaml"
    ∷ []

abbrev pub coi_files : List Text
coi_files = codes "deploy/envoy.yaml" ∷ codes "deploy/envoy.prod.yaml" ∷ []

abbrev pub needles : List Text
needles =
    codes "Cross-Origin-Opener-Policy"
    ∷ codes "same-origin"
    ∷ codes "Cross-Origin-Embedder-Policy"
    ∷ codes "credentialless"
    ∷ []

abbrev pub prod_file : Text
prod_file = codes "deploy/envoy.prod.yaml"

abbrev pub wildcard : Text
wildcard = codes "regex: \".*\""

-- needle in text
pub contains : Text → Text → Bool
contains needle [] = starts_with needle []
contains needle (c ∷ text) = starts_with needle (c ∷ text) || contains needle text

-- all(n in text for n in needles)
pub contains_all : List Text → Text → Bool
unfolding contains
contains_all [] text = true
contains_all (n ∷ ns) text = contains n text && contains_all ns text

-- The loop over the needles.
pub header_lines : Text → List Text → Text → Report
unfolding contains
header_lines file [] text = record { failed = false; lines = [] }
header_lines file (n ∷ ns) text =
    let rest = header_lines file ns text in
    if contains n text
    then rest
    else record { failed = true; lines = fail_header file n ∷ rest.lines }

pub check_text : Text → Text → Report
unfolding header_lines contains_all
check_text file text =
    let report = header_lines file needles text in
    if contains_all needles text
    then record { failed = report.failed; lines = report.lines ++ (ok_headers file ∷ []) }
    else report

-- One file of the second loop.
pub check_coi : Text → Opened → Result Report
unfolding check_text
check_coi file (found text) = ok (check_text file text)
check_coi file missing = ok (record { failed = true; lines = fail_missing file ∷ [] })
check_coi file (broken e) = err e

-- What safe_load makes of a text: none where it parses, and else the YAMLError.
pub parsed : Text → Option Text → Report
parsed file none = record { failed = false; lines = ok_parse file ∷ [] }
parsed file (some e) = record { failed = true; lines = fail_yaml file e ∷ [] }

-- One file of the first loop.
pub check_yaml : (Text → Option Text) → Text → Opened → Result Report
unfolding parsed
check_yaml load file (found text) = ok (parsed file (load text))
check_yaml load file missing = ok (record { failed = true; lines = fail_missing file ∷ [] })
check_yaml load file (broken e) = err e

-- The check of the production file, whose absence is not caught.
pub check_cors : Opened → Result Report
unfolding contains
check_cors (found text) = ok (
    if contains wildcard text
    then record { failed = true; lines = fail_cors ∷ [] }
    else record { failed = false; lines = ok_cors ∷ [] })
check_cors missing = err (foreign (codes "FileNotFoundError"))
check_cors (broken e) = err e

abbrev pub also : Report → Report → Report
also a b = record { failed = a.failed || b.failed; lines = a.lines ++ b.lines }

-- One part of the check behind another.
pub combine : Result Report → Result Report → Result Report
combine a b = do first ← a; later ← b; ok (also first later)

-- A loop over files.
pub check_each : (Text → Result Report) → List Text → Result Report
unfolding combine
check_each check [] = ok (record { failed = false; lines = [] })
check_each check (file ∷ files) = combine (check file) (check_each check files)

-- The exit code, and what was printed.
pub concluded : Report → ℕ × List Line
concluded report = (if report.failed then 1 else 0, report.lines ++ (verdict report.failed ∷ []))

pub checks : (Text → Opened) → (Text → Option Text) → Result Report
unfolding combine check_each check_yaml check_coi check_cors
checks read load =
    combine
      (combine (check_each (λ file. check_yaml load file (read file)) yaml_files)
        (check_each (λ file. check_coi file (read file)) coi_files))
      (check_cors (read prod_file))

-- An exception that is not caught ends the run; what was printed before it is not kept.
pub main : (Text → Opened) → (Text → Option Text) → Result (ℕ × List Line)
unfolding checks concluded
main read load = do report ← checks read load; ok (concluded report)
