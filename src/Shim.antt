-- ===== src/Shim.antt =====
-- _grpc_shim.py: the registration of stub modules for grpc and grpc_status. sys.modules is a
-- dictionary whose values may be Python's None; the finders of importlib are a parameter.
pub mod Lifecycle
pub mod Stubs
use pyspark_client_wasm.Prelude.{
  Bool, true, false, Option, none, some, if◌then◌else◌, Text, Result, ok, err,
}
use pyspark_client_wasm.Text.{codes}
use pyspark_client_wasm.Dict.{Dict, get, put}

-- What stands in sys.modules: a stub of this package, or any other module.
pub data Module (M : Type 0) : Type 0 where
  grpc grpc_status rpc_status : Module M
  other_module : M → Module M

abbrev pub Modules : Type 0 → Type 0
Modules M = Dict (Option (Module M))

-- Whether grpcio is installed; a finder that raises counts as no.
has_real_grpc : Result Bool → Bool
has_real_grpc (ok real) = real
has_real_grpc (err _) = false

module _ {M : Type 0} where
  -- bool(getattr(existing, "__pcw_shim__", False)); `marked` tells whether a module that is not of
  -- this package has a true attribute of that name.
  pub is_shim : (M → Bool) → Module M → Bool
  is_shim marked (other_module m) = marked m
  is_shim marked _ = true

  -- sys.modules.get(name), with None for a missing name
  unfoldable pub loaded : Modules M → Text → Option (Module M)
  loaded modules name = elim (get modules name) [ none ↦ none | some entry ↦ entry ]

  register : Modules M → Modules M
  register modules =
      put (codes "grpc_status.rpc_status") (some rpc_status)
        (put (codes "grpc_status") (some grpc_status) (put (codes "grpc") (some grpc) modules))

module _ {M : Type 0} (marked : M → Bool) (find_spec : Modules M → Text → Result Bool) where
  install_if_absent : Modules M → Option (Module M) → Bool × Modules M
  unfolding has_real_grpc register
  install_if_absent modules (some existing) = (is_shim marked existing, modules)
  install_if_absent modules none =
      if has_real_grpc (find_spec modules (codes "grpc"))
      then (false, modules)
      else (true, register modules)

  -- The returned flag, and sys.modules behind the call.
  pub install_grpc_shim : Modules M → Bool × Modules M
  unfolding install_if_absent
  install_grpc_shim modules = install_if_absent modules (loaded modules (codes "grpc"))
