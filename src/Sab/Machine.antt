-- ===== src/Sab/Machine.antt =====
-- The worker's side of the shared memory as a machine: what it has written, what it knows, and what
-- the main thread will do. The worker runs until it parks in Atomics.wait; there the main thread
-- takes over, and the next event of the script says how that wait ends.
pub mod Progress
use pyspark_client_wasm.Prelude.{
  ℕ, List, [], ◌∷◌, ◌==◌, if◌then◌else◌, Text, Exn, transport_timeout, Result, ok, err,
}
use pyspark_client_wasm.Text.{codes}
use pyspark_client_wasm.Sab.Memory.{Shared}

-- The main thread writes to the memory and wakes the worker, or the wait times out.
pub data Event : Type 0 where
  woken : (Shared → Shared) → Event
  timed_out : Event

-- What the worker posts to the main thread, by transport.
pub data Post : Type 0 where
  kernel_sab registered_sab kernel_rpc standalone_rpc : Post

-- `gen` is self._gen, and `capacity` self._capacity.
pub record World : Type 0 where
  pub mem : Shared
  pub capacity : ℕ
  pub gen : ℕ
  pub posts : List Post
  pub script : List Event

-- A call returns, raises, or never comes back: it stays parked, or loops.
pub data Outcome (A : Type 0) : Type 0 where
  returned : A → Outcome A
  raised : Exn → Outcome A
  blocked : Outcome A

abbrev pub Machine : Type 0 → Type 0
Machine A = World → Outcome A × World

module _ {A B : Type 0} where
  -- What follows a call.
  abbrev pub after : (A → Machine B) → Outcome A → World → Outcome B × World
  after next (returned a) w = next a w
  after next (raised e) w = (raised e, w)
  after next blocked w = (blocked, w)

  infixl 5 ◌>>=◌
  abbrev pub ◌>>=◌ : Machine A → (A → Machine B) → Machine B
  ◌>>=◌ call next w = after next (call w).0 (call w).1

module _ {A : Type 0} where
  abbrev pub pure : A → Machine A
  pure a w = (returned a, w)

  abbrev pub throw : Exn → Machine A
  throw e w = (raised e, w)

  -- A computation on the memory that returns or raises.
  abbrev pub of_result : Result A → Outcome A
  of_result (ok a) = returned a
  of_result (err e) = raised e

  abbrev pub lift : (Shared → Result A) → Machine A
  lift f w = (of_result (f w.mem), w)

  -- try: … finally: …, with a `finally` that cannot fail
  abbrev pub at_exit : (World → World) → Outcome A → World → Outcome A × World
  at_exit final (returned a) w = (returned a, final w)
  at_exit final (raised e) w = (raised e, final w)
  at_exit final blocked w = (blocked, w)

  abbrev pub try_finally : Machine A → (World → World) → Machine A
  try_finally body final w = at_exit final (body w).0 (body w).1

-- Atomics.store(ctrl, STATE, v), with the notify
unfoldable pub store_state : ℕ → World → World
store_state v w = record w { mem = record w.mem { state = v } }

abbrev pub on_memory : Shared → List Event → World → World
on_memory mem script w = record w { mem = mem; script = script }

-- The loop of _wait: the events of the script are taken only while STATE is the expected one.
unfoldable pub wait_from : ℕ → Shared → List Event → Outcome ℕ × (Shared × List Event)
wait_from expect mem [] =
    if mem.state == expect then (blocked, (mem, [])) else (returned mem.state, (mem, []))
wait_from expect mem (timed_out ∷ script) =
    if mem.state == expect
    then (raised (transport_timeout (codes "blocking transport timed out")), (mem, script))
    else (returned mem.state, (mem, timed_out ∷ script))
wait_from expect mem (woken act ∷ script) =
    let next = wait_from expect (act mem) script in
    if mem.state == expect then next else (returned mem.state, (mem, woken act ∷ script))

-- _wait
unfoldable pub wait : ℕ → Machine ℕ
unfolding wait_from
wait expect w =
    let (o, rest) = wait_from expect w.mem w.script in
    (o, record w { mem = rest.0; script = rest.1 })
