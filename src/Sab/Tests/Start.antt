-- ===== src/Sab/Tests/Start.antt =====
-- The kernel's worker: js is there, the page is isolated, and there is no hook.
use pyspark_client_wasm.Prelude.{◌≡◌, ◌⊎◌, true, false, none, some, [], Exn, ok, err}
use pyspark_client_wasm.Sab.Atomics.Start.{
  Globals, Runtime, AtomicsBackend, choose_transport, start, IsFresh, start-IsFresh,
}

abbrev kernel_worker : Runtime
kernel_worker = record { emscripten = true; js = some (record { isolated = true; hook = false }) }

start-IsFresh_example :
    ((globals : Globals) × (backend : AtomicsBackend) × (some
          (record { isolated = true; hook = false })
        ≡ some globals)
      × (globals.isolated ≡ true)
      × (start kernel_worker none none [] ≡ ok backend)
      × (backend.transport ≡ choose_transport globals none)
      × IsFresh [] backend.world)
    ⊎ ((e : Exn) × (start kernel_worker none none [] ≡ err e)
        × ((globals : Globals)
            → some (record { isolated = true; hook = false }) ≡ some globals
            → globals.isolated ≡ false))
start-IsFresh_example = start-IsFresh kernel_worker none []
