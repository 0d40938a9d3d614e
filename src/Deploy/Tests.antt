-- ===== src/Deploy/Tests.antt =====
-- A deployment whose files all hold the same text.
use pyspark_client_wasm.Prelude.{◌≡◌, ◌↔◌, none, List, Text, ok}
use pyspark_client_wasm.Text.{codes}
use pyspark_client_wasm.Deploy.{Opened, found, Line, main}
use pyspark_client_wasm.Deploy.Checks.{IsDeployable, main-IsDeployable}

abbrev same_text : Text → Opened
same_text file = found (
    codes "Cross-Origin-Opener-Policy: same-origin\nCross-Origin-Embedder-Policy: credentialless\n")

main-IsDeployable_example :
    ((lines : List Line) × (main same_text (λ text. none) ≡ ok (0, lines)))
    ↔ IsDeployable same_text (λ text. none)
main-IsDeployable_example = main-IsDeployable same_text (λ text. none)
