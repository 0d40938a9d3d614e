-- ===== src/Prelude/Results.antt =====
-- Python's exceptions as values: a call's outcome, and a generator's run.
-- `Exn` names the exceptions that the package raises or handles; an exception keeps what its
-- message is made from. `foreign` stands for one that a library call raises.
use Prim.Native.Nat.{ℕ}
use pyspark_client_wasm.Prelude.Int.{ℤ}
use mathlib.Core.Path.{◌≡◌, refl}
use mathlib.Core.Option.{Option}
use mathlib.Core.List.{List, [], ◌∷◌, ◌++◌}

-- bytes, and str as its code points
abbrev pub Bytes : Type 0
Bytes = List ℕ

abbrev pub Text : Type 0
Text = List ℕ

-- The faults for which transport/grpcweb.py raises SparkConnectGrpcException.
pub data GrpcFault : Type 0 where
  no_trailer : Text → Option ℕ → GrpcFault
  no_status : Text → GrpcFault
  bad_status : Text → Text → GrpcFault
  no_message : Text → GrpcFault
  compressed : Text → GrpcFault

pub data Exn : Type 0 where
  truncated_header : ℕ → ℕ → Exn
  truncated_body : ℕ → ℕ → ℕ → Exn
  compressed_frame : Exn
  chunk_out_of_order : ℕ → ℤ → Exn
  chunk_not_first : ℤ → Exn
  offset_gap : ℕ → ℤ → Exn
  row_mismatch : ℤ → ℕ → Exn
  truncated_result : ℕ → Exn
  struct_error : Exn
  unicode_error : ℕ → Exn
  grpc_fault : GrpcFault → Exn
  unavailable : Text → Exn → Exn
  transport_error : Text → Exn
  transport_timeout : Text → Exn
  transport_aborted : Text → Exn
  unsupported_pyspark : Option Text → Exn
  foreign : Text → Exn

pub data Result {ℓ} (A : Type ℓ) : Type ℓ where
  ok : A → Result A
  err : Exn → Result A

-- What a generator does when it is driven to its end: it yields, and stops or raises.
pub data Gen {ℓ} (A : Type ℓ) : Type ℓ where
  stop : Gen A
  raise : Exn → Gen A
  emit : A → Gen A → Gen A

module _ {ℓ κ} {A : Type ℓ} {B : Type κ} where
  -- An exception skips what comes next.
  infixl 5 ◌>>=◌
  abbrev pub ◌>>=◌ : Result A → (A → Result B) → Result B
  err raised >>= next = err raised
  ok value >>= next = next value

  -- Where a block returns, its first step returned, and so did the rest of it.
  pub >>=-eq-ok :
      (first : Result A) (next : A → Result B) {result : B}
      → (first >>= next) ≡ ok result
      → (value : A) × (first ≡ ok value) × (next value ≡ ok result)
  >>=-eq-ok (err raised) next h = cc
  >>=-eq-ok (ok value) next h = (value, refl, h)

pub ok-injective {ℓ} : {A : Type ℓ} {x y : A} → ok x ≡ ok y → x ≡ y
ok-injective h = cc

module _ {ℓ} {A : Type ℓ} where
  -- The values that a generator yields before a further one goes on.
  abbrev pub emits : List A → Gen A → Gen A
  emits [] g = g
  emits (x ∷ xs) g = emit x (emits xs g)

  pub emits-append : (xs ys : List A) (g : Gen A) → emits (xs ++ ys) g ≡ emits xs (emits ys g)
  emits-append [] ys g = refl
  emits-append (x ∷ xs) ys g = λ i. emit x (emits-append xs ys g i)
