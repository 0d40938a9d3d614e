-- ===== src/Sab/Protocol/Refinement.antt =====
-- The memory and the steps of the two threads: what the operations of the worker and of the bridge
-- write to the control words is what the steps of the system say.
use pyspark_client_wasm.Prelude.{
  ℕ, ◌+◌, ◌^◌, ◌<◌, ◌≡◌, refl, ap, ◌∙◌, inl, inr, Bool, false, Option, none, some, ◌==◌,
  if◌then◌else◌, Bool-cases,
}
use pyspark_client_wasm.Sab.{RequestKind, Request}
use pyspark_client_wasm.Sab.Memory.{
  Shared, s_idle, s_req_ready, s_resp_chunk, s_resp_end, s_resp_error, s_chunk_ack, store32, load32,
}
use pyspark_client_wasm.Sab.Window.{Json}
use pyspark_client_wasm.Sab.Machine.{World, returned, store_state}
use pyspark_client_wasm.Sab.Memory.Layout.{load32-store32}
use pyspark_client_wasm.Sab.Atomics
use pyspark_client_wasm.Sab.Atomics.{Transport, reset_idle_if_current, new_call}
use pyspark_client_wasm.Sab.Atomics.Requests.{IsAttached, write_request-Written}
use pyspark_client_wasm.Sab.Protocol.{
  Word, idle, req_ready, resp_chunk, resp_end, resp_error, chunk_ack, System, write_request,
  reset_idle, acknowledge,
}

-- The number of a word.
abbrev pub code : Word → ℕ
code idle = s_idle
code req_ready = s_req_ready
code resp_chunk = s_resp_chunk
code resp_end = s_resp_end
code resp_error = s_resp_error
code chunk_ack = s_chunk_ack

-- The worker's state and the memory are those of the system, whose generations are signed words.
pub record Agrees (s : System) (w : World) : Type 0 where
  pub word : w.mem.state ≡ code s.state
  pub gen : w.gen ≡ s.gen
  pub mem_gen : w.mem.gen ≡ store32 s.gen
  pub small : s.gen < 2 ^ 31

acknowledge-Agrees :
    (s : System) (w : World) → Agrees s w → Agrees (acknowledge s) (store_state s_chunk_ack w)
unfolding acknowledge store_state
acknowledge-Agrees s w a = record { word = refl; gen = a.gen; mem_gen = a.mem_gen; small = a.small }

-- A call that ends: nothing changes where a newer one owns the channel.
abbrev pub end_call : ℕ → System → System
end_call my_gen s = if s.gen == my_gen then reset_idle s else s

end_call-Agrees :
    (s : System) (w : World) (my_gen : ℕ)
    → Agrees s w
    → Agrees (end_call my_gen s) (reset_idle_if_current my_gen w)
unfolding reset_idle reset_idle_if_current store_state
end_call-Agrees s w my_gen a =
    let g = ap load32 a.mem_gen ∙ load32-store32 s.gen a.small in
    elim (Bool-cases (s.gen == my_gen)) [
      | inl e ↦
          rw (g, e) (record { word = refl; gen = a.gen; mem_gen = a.mem_gen; small = a.small })
      | inr e ↦ rw (g, e) a
    ]

write_request-Agrees :
    {Time : Type 0} (json : Json Time) (transport : Transport) (hook : Bool)
    (request : Request Time) (kind : RequestKind) (s : System) (w : World)
    → Agrees s w
    → IsAttached w
    → s.gen + 1 < 2 ^ 31
    → (w' : World) × (Atomics.write_request json transport hook request (new_call w)
        ≡ (returned tt, w'))
      × Agrees (write_request kind s) w'
unfolding write_request new_call
write_request-Agrees json transport hook request kind s w a b h =
    let (w', run, d) = write_request-Written json transport hook request (new_call w) b' in
    (
      w',
      run,
      record {
        word = d.state;
        gen = d.gen ∙ ap (λ n. n + 1) a.gen;
        mem_gen = d.mem_gen ∙ ap (λ n. store32 (n + 1)) a.gen;
        small = h;
      },
    )
  where
    b' : IsAttached (new_call w)
    b' = record { attached = b.attached; published = b.published; nonempty = b.nonempty }

-- What the bridge leaves in the memory.
abbrev pub with_memory : Shared → World → World
with_memory mem w = record w { mem = mem }

-- Whether _awaitWorker returns the acknowledgement.
abbrev pub is_asked : Option Bool → Bool
is_asked none = false
is_asked (some asked) = asked

module _ {Time : Type 0} (json : Json Time) where
  -- The worker's side of the memory implements the steps of the system: a request of any size is
  -- written so that STATE and the generation are those of the step `call`, an acknowledgement makes
  -- the word of `acknowledge`, and the end of a call that of `reset_idle`, or nothing where a newer
  -- call owns the channel. Generations are taken to stay below 2 ^ 31.
  pub worker-Agrees :
      (transport : Transport) (hook : Bool) (request : Request Time) (kind : RequestKind)
      (s : System) (w : World) (my_gen : ℕ)
      → Agrees s w
      → IsAttached w
      → s.gen + 1 < 2 ^ 31
      → ((w' : World) × (Atomics.write_request json transport hook request (new_call w)
            ≡ (returned tt, w'))
          × Agrees (write_request kind s) w')
        × Agrees (acknowledge s) (store_state s_chunk_ack w)
        × Agrees (end_call my_gen s) (reset_idle_if_current my_gen w)
  worker-Agrees transport hook request kind s w my_gen a b h = (
    write_request-Agrees json transport hook request kind s w a b h,
    acknowledge-Agrees s w a,
    end_call-Agrees s w my_gen a,
  )
