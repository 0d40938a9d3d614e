-- ===== src/Sab/Machine/Progress.antt =====
-- How a wait ends.
use pyspark_client_wasm.Prelude.{
  Exn, transport_timeout, ℕ, ◌≡◌, refl, ap, ◌∙◌, true, false, List, [], ◌∷◌, ◌==◌,
}
use pyspark_client_wasm.Text.{codes}
use pyspark_client_wasm.Sab.Memory.{Shared}
use pyspark_client_wasm.Sab.Machine.{
  Event, woken, timed_out, World, returned, raised, store_state, wait_from, wait, on_memory,
}

wait_from-moved :
    (expect : ℕ) (mem : Shared) (script : List Event)
    → (mem.state == expect) ≡ false
    → wait_from expect mem script ≡ (returned mem.state, (mem, script))
unfolding wait_from
wait_from-moved expect mem [] e = rw e
wait_from-moved expect mem (timed_out ∷ script) e = rw e
wait_from-moved expect mem (woken act ∷ script) e = rw e

wait_from-woken :
    (expect : ℕ) (mem : Shared) (act : Shared → Shared) (script : List Event)
    → (mem.state == expect) ≡ true
    → ((act mem).state == expect) ≡ false
    → wait_from expect mem (woken act ∷ script) ≡ (returned (act mem).state, (act mem, script))
unfolding wait_from
wait_from-woken expect mem act script e k = rw e (wait_from-moved expect (act mem) script k)

-- Parked at the expected state, the worker sees the memory as the next event leaves it, if that
-- moves the state.
pub wait-woken :
    (expect : ℕ) (w : World) (act : Shared → Shared) (script : List Event)
    → w.script ≡ woken act ∷ script
    → (w.mem.state == expect) ≡ true
    → ((act w.mem).state == expect) ≡ false
    → wait expect w ≡ (returned (act w.mem).state, on_memory (act w.mem) script w)
unfolding wait
wait-woken expect w act script es e k =
    ap (λ r. (r.0, on_memory r.1.0 r.1.1 w))
      (ap (wait_from expect w.mem) es ∙ wait_from-woken expect w.mem act script e k)

-- What a wait that times out raises.
abbrev pub timeout_error : Exn
timeout_error = transport_timeout (codes "blocking transport timed out")

wait_from-timed_out :
    (expect : ℕ) (mem : Shared) (script : List Event)
    → (mem.state == expect) ≡ true
    → wait_from expect mem (timed_out ∷ script) ≡ (raised timeout_error, (mem, script))
unfolding wait_from
wait_from-timed_out expect mem script e = rw e

pub wait-timed_out :
    (expect : ℕ) (w : World) (script : List Event)
    → w.script ≡ timed_out ∷ script
    → (w.mem.state == expect) ≡ true
    → wait expect w ≡ (raised timeout_error, on_memory w.mem script w)
unfolding wait
wait-timed_out expect w script es e =
    ap (λ r. (r.0, on_memory r.1.0 r.1.1 w))
      (ap (wait_from expect w.mem) es ∙ wait_from-timed_out expect w.mem script e)

pub store_state-script : (v : ℕ) (w : World) → (store_state v w).script ≡ w.script
unfolding store_state
store_state-script v w = refl
