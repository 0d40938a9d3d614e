-- ===== src/Sab/Atomics/Start.antt =====
-- The constructor of _AtomicsBackend.
use pyspark_client_wasm.Prelude.{
  ℕ, ◌+◌, ◌^◌, ◌<◌, ◌≡◌, refl, sym, ap, ◌∙◌, ◌⊎◌, inl, inr, Bool, true, false, not, ◌||◌, Option,
  none, some, List, [], arith, if◌then◌else◌, Bool-cases, Option-cases, Exn, transport_error,
  foreign, Result, ok, err,
}
use pyspark_client_wasm.Text.{codes}
use pyspark_client_wasm.Sab.Memory.{Shared, s_idle, meta_zone}
use pyspark_client_wasm.Sab.Machine.{Event, World}
use pyspark_client_wasm.Sab.Atomics.{Transport, kernel, standalone, zeros, attach_data}
use pyspark_client_wasm.Sab.Atomics.Grow.{length-zeros}
use pyspark_client_wasm.Sab.Atomics.Requests.{IsAttached}

-- What the worker's global object says: whether crossOriginIsolated is there and true, and whether
-- __pcw_register_sab is there.
pub record Globals : Type 0 where
  pub isolated : Bool
  pub hook : Bool

-- Where the code runs: whether the platform is Emscripten, and the module js, none if its import
-- raises.
pub record Runtime : Type 0 where
  pub emscripten : Bool
  pub js : Option Globals

some_injective : (a b : Globals) → some a ≡ some b → a ≡ b
some_injective a b e = cc

unfoldable pub has_js : Option Globals → Bool
has_js none = false
has_js (some _) = true

unfoldable pub is_pyodide : Runtime → Bool
unfolding has_js
is_pyodide runtime = runtime.emscripten || has_js runtime.js

-- The transport that is asked for; none is "auto".
unfoldable pub choose_transport : Globals → Option Transport → Transport
choose_transport globals none = if globals.hook then standalone else kernel
choose_transport globals (some transport) = transport

abbrev pub default_data_bytes : ℕ
default_data_bytes = 16777216

-- The memory behind a pair of buffers, or new ones.
memory_of : Option Shared → Shared
memory_of (some sab) = sab
memory_of none = record {
  region = zeros default_data_bytes;
  state = s_idle;
  size = 0;
  status = 0;
  seq = 0;
  gen = 0;
  cap = 0;
}

pub record AtomicsBackend : Type 0 where
  pub transport : Transport
  pub hook : Bool
  pub world : World

-- Behind the guards, for the script of the main thread.
unfoldable pub backend_of : Globals → Transport → Option Shared → List Event → AtomicsBackend
unfolding attach_data memory_of
backend_of globals transport sab script = record {
  transport = transport;
  hook = globals.hook;
  world =
      attach_data transport globals.hook (memory_of sab).region
        (record { mem = memory_of sab; capacity = 0; gen = 0; posts = []; script = script });
}

-- Behind the import of js, which fails where it is not there.
unfoldable pub start_with :
    Option Globals → Option Transport → Option Shared → List Event → Result AtomicsBackend
unfolding backend_of choose_transport
start_with none transport sab script = err (foreign (codes "ModuleNotFoundError"))
start_with (some globals) transport sab script =
    if not globals.isolated
    then err (transport_error (codes "crossOriginIsolated is false"))
    else ok (backend_of globals (choose_transport globals transport) sab script)

-- __init__
unfoldable pub start :
    Runtime → Option Transport → Option Shared → List Event → Result AtomicsBackend
unfolding start_with
start runtime transport sab script = start_with runtime.js transport sab script

-- What a backend with new buffers is in: it is idle, nothing was said yet but the buffers, and the
-- region is attached, with room for a window.
pub record IsFresh (script : List Event) (w : World) : Type 0 where
  pub idle : w.mem.state ≡ s_idle
  pub first : w.gen ≡ 0
  pub scripted : w.script ≡ script
  pub attached : IsAttached w
  pub room : 4 + meta_zone < w.capacity
  pub small : w.capacity < 2 ^ 31

backend_of-IsFresh :
    (globals : Globals) (transport : Transport) (script : List Event)
    → IsFresh script (backend_of globals transport none script).world
unfolding backend_of attach_data memory_of
backend_of-IsFresh globals transport script =
    let size = length-zeros default_data_bytes in
    record {
      idle = refl;
      first = refl;
      scripted = refl;
      attached = record { attached = refl; published = refl; nonempty = omega (arith, size) };
      room = omega (arith, size);
      small = omega (arith, size);
    }

-- The constructor of the backend returns where the module js is there and the page is isolated:
-- with the transport that was asked for, or for "auto" the one that the hook decides, and with new
-- buffers in a state that is what both kinds of call need. Otherwise it raises.
pub start-IsFresh :
    (runtime : Runtime) (transport : Option Transport) (script : List Event)
    → ((globals : Globals) × (backend : AtomicsBackend) × (runtime.js ≡ some globals)
        × (globals.isolated ≡ true)
        × (start runtime transport none script ≡ ok backend)
        × (backend.transport ≡ choose_transport globals transport)
        × IsFresh script backend.world)
      ⊎ ((e : Exn) × (start runtime transport none script ≡ err e)
          × ((globals : Globals) → runtime.js ≡ some globals → globals.isolated ≡ false))
unfolding start start_with backend_of
start-IsFresh runtime transport script = elim (Option-cases runtime.js) [
  | inl n ↦ inr (foreign (codes "ModuleNotFoundError"), rw n, λ globals e. absurd (cc (n, e)))
  | inr (globals, s) ↦ elim (Bool-cases globals.isolated) [
    | inl i ↦ inl (
      globals,
      backend_of globals (choose_transport globals transport) none script,
      s,
      i,
      rw s (rw i),
      refl,
      backend_of-IsFresh globals (choose_transport globals transport) script,
    )
    | inr i ↦ inr (
      transport_error (codes "crossOriginIsolated is false"),
      rw s (rw i),
      λ g e. ap (λ (x : Globals). x.isolated) (some_injective g globals (sym e ∙ s)) ∙ i,
    )
  ]
]
