-- ===== src/Shim/Lifecycle.antt =====
-- What a call of install_grpc_shim leaves in sys.modules.
use pyspark_client_wasm.Prelude.{
  ◌≡◌, refl, sym, ap, ◌∙◌, ◌⊎◌, inl, inr, Bool, true, false, Option, none, some, Bool-cases,
  Option-cases, Text, Result, ok,
}
use mathlib.Core.Path.{subst}
use pyspark_client_wasm.Text.{codes, text_eq}
use pyspark_client_wasm.Dict.{get, put, get-put_self, get-put_ne}
use pyspark_client_wasm.Shim.{
  Module, grpc, grpc_status, rpc_status, Modules, is_shim, loaded, has_real_grpc, register,
  install_if_absent, install_grpc_shim,
}

module _ {M : Type 0} (marked : M → Bool) (find_spec : Modules M → Text → Result Bool) where
  abbrev install : Modules M → Bool × Modules M
  install = install_grpc_shim marked find_spec

  abbrev finished : Modules M → Option (Module M) → Bool × Modules M
  finished = install_if_absent marked find_spec

  -- Whether sys.modules has the shim, or what counts as one, under the name grpc.
  abbrev pub counts : Option (Module M) → Bool
  counts none = false
  counts (some m) = is_shim marked m

  abbrev pub has_shim : Modules M → Bool
  has_shim modules = counts (loaded modules (codes "grpc"))

  get-register :
      (modules : Modules M) (name : Text)
      → text_eq (codes "grpc") name ≡ false
      → text_eq (codes "grpc_status") name ≡ false
      → text_eq (codes "grpc_status.rpc_status") name ≡ false
      → get (register modules) name ≡ get modules name
  unfolding register
  get-register modules name a b c =
      get-put_ne
        (put (codes "grpc_status") (some grpc_status) (put (codes "grpc") (some grpc) modules))
        (codes "grpc_status.rpc_status") name (some rpc_status) c
      ∙ get-put_ne (put (codes "grpc") (some grpc) modules) (codes "grpc_status") name
          (some grpc_status) b
      ∙ get-put_ne modules (codes "grpc") name (some grpc) a

  get-register_grpc :
      (modules : Modules M) → get (register modules) (codes "grpc") ≡ some (some grpc)
  unfolding register
  get-register_grpc modules =
      get-put_ne
        (put (codes "grpc_status") (some grpc_status) (put (codes "grpc") (some grpc) modules))
        (codes "grpc_status.rpc_status") (codes "grpc") (some rpc_status) (unfold text_eq in refl)
      ∙ get-put_ne (put (codes "grpc") (some grpc) modules) (codes "grpc_status") (codes "grpc")
          (some grpc_status) (unfold text_eq in refl)
      ∙ get-put_self modules (codes "grpc") (some grpc)

  loaded-register : (modules : Modules M) → loaded (register modules) (codes "grpc") ≡ some grpc
  unfolding loaded
  loaded-register modules = rw (get-register_grpc modules, loaded)

  install_lem :
      (modules : Modules M) (o : Option (Module M))
      → loaded modules (codes "grpc") ≡ o
      → install modules ≡ finished modules o
  unfolding install_grpc_shim
  install_lem modules o e = ap (finished modules) e

  install-loaded :
      (modules : Modules M) (m : Module M)
      → loaded modules (codes "grpc") ≡ some m
      → install modules ≡ (is_shim marked m, modules)
  unfolding install_grpc_shim install_if_absent
  install-loaded modules m e = ap (finished modules) e

  -- Without a loaded module for grpc: nothing changes if grpcio is installed, and the stubs are
  -- registered if not.
  install-absent :
      (modules : Modules M)
      → loaded modules (codes "grpc") ≡ none
      → (install modules ≡ (false, modules)) ⊎ (install modules ≡ (true, register modules))
  unfolding install_if_absent
  install-absent modules e = elim (Bool-cases (has_real_grpc (find_spec modules (codes "grpc")))) [
    | inl real ↦ inl (install_lem modules none e ∙ rw real)
    | inr real ↦ inr (install_lem modules none e ∙ rw real)
  ]

  install-registers :
      (modules : Modules M)
      → loaded modules (codes "grpc") ≡ none
      → find_spec modules (codes "grpc") ≡ ok false
      → install modules ≡ (true, register modules)
  unfolding has_real_grpc install_if_absent
  install-registers modules e f = install_lem modules none e ∙ rw (f)

  -- Without grpcio and without a loaded module for grpc the call loads the stub.
  pub loaded-install_grpc_shim :
      (modules : Modules M)
      → loaded modules (codes "grpc") ≡ none
      → find_spec modules (codes "grpc") ≡ ok false
      → loaded (install_grpc_shim marked find_spec modules).1 (codes "grpc") ≡ some grpc
  loaded-install_grpc_shim modules e f =
      ap (λ r. loaded (r.1) (codes "grpc")) (install-registers modules e f)
      ∙ loaded-register modules

  abbrev IsIdempotent : Modules M → Bool × Modules M → Type 0
  IsIdempotent modules r = install r.1 ≡ r

  -- A second call gives the flag of the first one and changes nothing, whatever was loaded and
  -- whatever the finders say.
  pub install_grpc_shim-twice :
      (modules : Modules M)
      → install_grpc_shim marked find_spec (install_grpc_shim marked find_spec modules).1
        ≡ install_grpc_shim marked find_spec modules
  install_grpc_shim-twice modules = elim (Option-cases (loaded modules (codes "grpc"))) [
    | inr (m, e) ↦
        subst (IsIdempotent modules) (sym (install-loaded modules m e)) (install-loaded modules m e)
    | inl e ↦ elim (install-absent modules e) [
      | inl r ↦ subst (IsIdempotent modules) (sym r) r
      | inr r ↦ subst (IsIdempotent modules) (sym r) (
          install-loaded (register modules) grpc (loaded-register modules) ∙ unfold is_shim in refl)
    ]
  ]

  abbrev IsTruthful : Bool × Modules M → Type 0
  IsTruthful r = r.0 ≡ has_shim r.1

  -- The flag says whether the module that is loaded as grpc behind the call is the shim (or one
  -- with its mark), so it is true as well for a shim that an earlier call installed.
  pub install_grpc_shim-has_shim :
      (modules : Modules M)
      → (install_grpc_shim marked find_spec modules).0
        ≡ has_shim (install_grpc_shim marked find_spec modules).1
  install_grpc_shim-has_shim modules = elim (Option-cases (loaded modules (codes "grpc"))) [
    | inr (m, e) ↦ subst IsTruthful (sym (install-loaded modules m e)) (sym (ap counts e))
    | inl e ↦ elim (install-absent modules e) [
      | inl r ↦ subst IsTruthful (sym r) (sym (ap counts e))
      | inr r ↦
          subst IsTruthful (sym r)
            (sym (ap counts (loaded-register modules) ∙ unfold is_shim in refl))
    ]
  ]

  -- No entry of sys.modules but grpc, grpc_status and grpc_status.rpc_status changes.
  pub get-install_grpc_shim :
      (modules : Modules M) (name : Text)
      → (text_eq (codes "grpc") name ≡ false)
      → (text_eq (codes "grpc_status") name ≡ false)
      → (text_eq (codes "grpc_status.rpc_status") name ≡ false)
      → get (install_grpc_shim marked find_spec modules).1 name ≡ get modules name
  get-install_grpc_shim modules name a b c = elim (Option-cases (loaded modules (codes "grpc"))) [
    | inr (m, e) ↦ ap (λ r. get (r.1) name) (install-loaded modules m e)
    | inl e ↦ elim (install-absent modules e) [
      | inl r ↦ ap (λ r. get (r.1) name) r
      | inr r ↦ ap (λ r. get (r.1) name) r ∙ get-register modules name a b c
    ]
  ]
