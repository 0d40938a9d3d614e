-- ===== src/Sab/Tests/Protocol.antt =====
-- Runs of the worker and the bridge.
use pyspark_client_wasm.Prelude.{◌≡◌, refl, sym, Bool, true, false, [], ◌∷◌, arith}
use pyspark_client_wasm.Sab.{unary, server_stream}
use pyspark_client_wasm.Sab.Protocol.{
  req_ready, resp_chunk, chunk_ack, reading, parked, free, between_windows, System, init, fresh,
  write_request, acknowledge, call, post, Step, bridge, worker, Steps, here, then_step,
}
use pyspark_client_wasm.Sab.Protocol.Progress.{Wakes, Steps-Wakes}
use pyspark_client_wasm.Sab.Memory.{Shared, s_chunk_ack}
use pyspark_client_wasm.Sab.Machine.{World, returned, store_state}
use pyspark_client_wasm.Sab.Atomics
use pyspark_client_wasm.Sab.Atomics.{kernel, reset_idle_if_current, new_call}
use pyspark_client_wasm.Sab.Atomics.Grow.{length-zeros}
use pyspark_client_wasm.Sab.Atomics.Requests.{IsAttached}
use pyspark_client_wasm.Sab.Protocol.Refinement.{Agrees, end_call, worker-Agrees}
use pyspark_client_wasm.Sab.Tests.Toy.{ping, toy, world_of}
use pyspark_client_wasm.Sab.Protocol.Regions.{
  Mail, sab, rpc, Regions, one_buffer, post_request, receive, RegionStep, request, deliver,
  RegionSteps, announces, RegionSteps-attached, finish-stale,
}
use pyspark_client_wasm.Sab.Protocol.Regions
use pyspark_client_wasm.Sab.Protocol.Hazards.{in_fetch, in_fetch-stale, in_fetch-stuck}

-- A first call waits, and its nudge is under way.
abbrev waiting : System
waiting = record init { state = req_ready; gen = 1; nudges = 1; worker = parked req_ready }

waiting_run : {timeouts : Bool} → Steps timeouts init waiting
unfolding write_request
waiting_run = then_step (then_step here (worker (call unary fresh))) (worker (post refl))

-- The worker reads the first of two windows.
abbrev first_window : System
first_window = record {
  state = resp_chunk;
  kind = unary;
  gen = 1;
  shown = 1;
  more = true;
  nudges = 0;
  worker = reading;
  bridge = between_windows unary 1;
}

Steps-Wakes_example : Wakes waiting
Steps-Wakes_example = Steps-Wakes waiting_run refl

in_fetch-stale_example :
    (t : System) × Steps true (in_fetch 1 0 false) t
    × (t.worker ≡ reading)
    × (t.kind ≡ unary)
    × (t.gen ≡ 2)
    × (t.shown ≡ 1)
in_fetch-stale_example = in_fetch-stale unary 1 0 false

in_fetch-stuck_example :
    (m : System) × (t : System) × Steps true (in_fetch 1 0 false) m
    × (m.worker ≡ reading)
    × (m.kind ≡ server_stream)
    × (m.gen ≡ 2)
    × (m.shown ≡ 1)
    × Steps true m t
    × (t.worker ≡ parked chunk_ack)
    × (t.state ≡ chunk_ack)
    × (t.kind ≡ server_stream)
    × (t.gen ≡ 2)
    × (t.shown ≡ 1)
    × (t.bridge ≡ free)
    × (t.nudges ≡ 0)
    × ((u : System) → Step false t u → ⊥)
in_fetch-stuck_example = in_fetch-stuck 1 0 false

-- A fresh memory of six bytes, which is the size of the window below.
abbrev fresh_memory : World
fresh_memory = world_of 6 []

init-Agrees : Agrees init fresh_memory
init-Agrees = record { word = refl; gen = refl; mem_gen = refl; small = omega arith }

fresh_memory-IsAttached : IsAttached fresh_memory
fresh_memory-IsAttached = record {
  attached = sym (length-zeros 6);
  published = refl;
  nonempty = omega arith;
}

worker-Agrees_example :
    ((w' : World) × (Atomics.write_request toy kernel false ping (new_call fresh_memory)
        ≡ (returned tt, w'))
      × Agrees (write_request unary init) w')
    × Agrees (acknowledge init) (store_state s_chunk_ack fresh_memory)
    × Agrees (end_call 0 init) (reset_idle_if_current 0 fresh_memory)
worker-Agrees_example =
    worker-Agrees toy kernel false ping unary init fresh_memory 0 init-Agrees
      fresh_memory-IsAttached (omega arith)

abbrev erase : Shared → Shared
erase mem = record mem { region = [] }

-- A request in a larger buffer, which the bridge has attached.
abbrev attached : Regions
attached = record one_buffer { state = req_ready; owned = 1; attached = 1; mail = rpc ∷ [] }

attached_run : RegionSteps one_buffer attached
unfolding post_request receive
attached_run =
    Regions.then_step (Regions.then_step Regions.here (request true (λ e. cc (e))))
      (deliver (sab 1) (rpc ∷ []) refl)

RegionSteps-attached_example : attached.attached ≡ attached.owned
RegionSteps-attached_example = RegionSteps-attached attached_run refl

finish-stale_example :
    (t : Regions) × RegionSteps (record one_buffer { busy = true }) t × (t.read ≡ (0, 1) ∷ [])
finish-stale_example = finish-stale (record one_buffer { busy = true }) refl refl
