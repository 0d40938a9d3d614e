-- ===== src/Stub/Status.antt =====
-- The status that a trailer reports.
use pyspark_client_wasm.Prelude.{
  ℕ, ◌≡◌, refl, ap, ◌∙◌, Option, some, [], ◌∷◌, ◌==◌, if◌then◌else◌, Text, bad_status, grpc_fault,
  Result, ok, err,
}
use pyspark_client_wasm.Dict.{empty, get, put, get-put_self, get-put_ne, get-empty}
use pyspark_client_wasm.Framing.Trailers.{trailers_of}
use pyspark_client_wasm.Stub.{or_empty, get_or_empty, raise_for_trailers}
use pyspark_client_wasm.Text.{codes, text_eq}
use pyspark_client_wasm.Text.Decimal.{show, show-eq-zero}

get-trailers_of_status :
    (n : ℕ) (m : Text) → get (trailers_of n m) (codes "grpc-status") ≡ some (show n)
get-trailers_of_status n [] = get-put_self empty (codes "grpc-status") (show n)
get-trailers_of_status n (c ∷ m) =
    get-put_ne (put (codes "grpc-status") (show n) empty) (codes "grpc-message")
      (codes "grpc-status") (c ∷ m) (unfold text_eq in refl)
    ∙ get-put_self empty (codes "grpc-status") (show n)

get-trailers_of_message :
    (n : ℕ) (m : Text) → get_or_empty (trailers_of n m) (codes "grpc-message") ≡ m
get-trailers_of_message n [] = ap or_empty (
    get-put_ne empty (codes "grpc-status") (codes "grpc-message") (show n) (unfold text_eq in refl)
    ∙ get-empty (codes "grpc-message"))
get-trailers_of_message n (c ∷ m) =
    ap or_empty
      (get-put_self (put (codes "grpc-status") (show n) empty) (codes "grpc-message") (c ∷ m))

-- The outcome for the trailer that a server sends with status `n` and message `m`.
abbrev pub status_result : ℕ → Text → Result (Unit {0})
status_result n m = if n == 0 then ok tt else err (grpc_fault (bad_status (show n) m))

pub raise_for_trailers-trailers_of :
    (n : ℕ) (m : Text) (http : Option ℕ) (path : Text)
    → raise_for_trailers (some (trailers_of n m)) http path ≡ status_result n m
unfolding raise_for_trailers
raise_for_trailers-trailers_of n m http path =
    rw (get-trailers_of_status n m) (rw (show-eq-zero n) (rw (get-trailers_of_message n m) refl))
