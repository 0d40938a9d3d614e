-- ===== src/Sab/Kernel.antt =====
-- worker/kernel_bootstrap.py: the checks before the kernel's worker uses the channel.
use pyspark_client_wasm.Prelude.{
  ◌≡◌, refl, ap, ◌↔◌, inl, inr, Bool, true, false, not, ◌&&◌, Option, none, some, List,
  if◌then◌else◌, Bool-cases, Option-cases, transport_error, foreign, Result, ok, err,
}
use pyspark_client_wasm.Text.{codes}
use pyspark_client_wasm.Sab.Memory.{Shared}
use pyspark_client_wasm.Sab.Machine.{Event}
use pyspark_client_wasm.Sab.Atomics.{Transport, kernel}
use pyspark_client_wasm.Sab.Atomics.Start.{
  Globals, Runtime, is_pyodide, has_js, choose_transport, AtomicsBackend, backend_of, start_with,
  start,
}

-- The import of js, and the test of the page.
check_globals : Option Globals → Result (Unit {0})
check_globals none = err (foreign (codes "ModuleNotFoundError"))
check_globals (some globals) =
    if not globals.isolated
    then err (transport_error (codes "Page is NOT cross-origin isolated"))
    else ok tt

-- assert_kernel_ready
pub assert_kernel_ready : Runtime → Result (Unit {0})
unfolding check_globals
assert_kernel_ready runtime =
    if not (is_pyodide runtime)
    then err (transport_error (codes "kernel_bootstrap: not running under Pyodide"))
    else check_globals runtime.js

-- The try block of installed.
uses_kernel : Option Globals → Bool
uses_kernel none = false
uses_kernel (some globals) = globals.isolated && not globals.hook

-- installed
pub installed : Runtime → Bool
unfolding uses_kernel
installed runtime = if not (is_pyodide runtime) then false else uses_kernel runtime.js

-- Where js can be imported, Pyodide runs.
is_pyodide-js :
    (runtime : Runtime) (globals : Globals) → runtime.js ≡ some globals → is_pyodide runtime ≡ true
unfolding is_pyodide has_js
is_pyodide-js runtime globals s = elim (Bool-cases runtime.emscripten) [
  | inl y ↦ rw (s, y)
  | inr y ↦ rw (s, y)
]

-- assert_kernel_ready returns exactly where the backend's constructor does, for any transport and
-- buffers.
pub assert_kernel_ready-start :
    (runtime : Runtime) (transport : Option Transport) (sab : Option Shared) (script : List Event)
    → (assert_kernel_ready runtime ≡ ok tt)
      ↔ ((backend : AtomicsBackend) × (start runtime transport sab script ≡ ok backend))
unfolding assert_kernel_ready check_globals start start_with
assert_kernel_ready-start runtime transport sab script = elim (Option-cases runtime.js) [
  | inl n ↦ elim (Bool-cases (is_pyodide runtime)) [
    | inl y ↦ rw (y, n) ((λ e. absurd (cc), λ e. absurd (cc (e.1))))
    | inr y ↦ rw (y, n) ((λ e. absurd (cc), λ e. absurd (cc (e.1))))
  ]
  | inr (globals, s) ↦ elim (Bool-cases globals.isolated) [
    | inl i ↦ rw (is_pyodide-js runtime globals s, s, i) ((λ e. (_, refl), λ e. refl))
    | inr i ↦
        rw (is_pyodide-js runtime globals s, s, i) ((λ e. absurd (cc), λ e. absurd (cc (e.1))))
  ]
]

transport_of : Result AtomicsBackend → Transport
transport_of (err _) = kernel
transport_of (ok backend) = backend.transport

-- installed is true exactly where a backend that is made with the transport "auto" talks to the
-- kernel's page, for any buffers.
pub installed-start :
    (runtime : Runtime) (sab : Option Shared) (script : List Event)
    → (installed runtime ≡ true) ↔ (
        (backend : AtomicsBackend) × (start runtime none sab script ≡ ok backend)
        × (backend.transport ≡ kernel))
unfolding installed uses_kernel start start_with backend_of choose_transport transport_of
installed-start runtime sab script = elim (Option-cases runtime.js) [
  | inl n ↦ elim (Bool-cases (is_pyodide runtime)) [
    | inl y ↦ rw (y, n) ((λ e. absurd (cc), λ e. absurd (cc (e.1))))
    | inr y ↦ rw (y, n) ((λ e. absurd (cc), λ e. absurd (cc (e.1))))
  ]
  | inr (globals, s) ↦ elim (Bool-cases globals.isolated) [
    | inr i ↦
        rw (is_pyodide-js runtime globals s, s, i) ((λ e. absurd (cc), λ e. absurd (cc (e.1))))
    | inl i ↦ elim (Bool-cases globals.hook) [
      | inl h ↦
          rw (is_pyodide-js runtime globals s, s, i, h)
            ((λ e. absurd (cc), λ e. absurd (cc (ap transport_of e.1, e.2))))
      | inr h ↦ rw (is_pyodide-js runtime globals s, s, i, h) ((λ e. (_, refl, refl), λ e. refl))
    ]
  ]
]

-- What the module makes of the check at its import: a TransportError is left for later.
put_off : Result (Unit {0}) → Result (Unit {0})
put_off (err (transport_error message)) = ok tt
put_off r = r

-- The import of the module.
on_import : Runtime → Result (Unit {0})
unfolding put_off assert_kernel_ready
on_import runtime = if is_pyodide runtime then put_off (assert_kernel_ready runtime) else ok tt

-- The import does not fail where js can be imported, whatever the page is.
on_import-js :
    (runtime : Runtime) (globals : Globals) → runtime.js ≡ some globals → on_import runtime ≡ ok tt
unfolding on_import put_off assert_kernel_ready check_globals
on_import-js runtime globals s = elim (Bool-cases globals.isolated) [
  | inl i ↦ rw (is_pyodide-js runtime globals s, s, i)
  | inr i ↦ rw (is_pyodide-js runtime globals s, s, i)
]
