-- ===== src/Sab/Transfer/Stale.antt =====
-- What the bridge still has to say for a stream that the worker has left.
use pyspark_client_wasm.Prelude.{
  ℕ, zero, suc, ◌≡◌, refl, ap, ◌∙◌, inl, inr, true, false, some, List, [], ◌∷◌, ◌++◌, arith, ltb,
  ◌==◌, Bool-cases, length, drop, All, All-append, Bytes,
}
use pyspark_client_wasm.Sab.Memory.{Shared, s_chunk_ack}
use pyspark_client_wasm.Sab.Window.{Meta, no_meta, Json}
use pyspark_client_wasm.Sab.Machine.{Event, woken, World, on_memory, wait_from, wait}
use pyspark_client_wasm.Sab.Bridge.{
  turn, ReadEnd, show_window, emit_from, emit_message, emit_chunks,
}
use pyspark_client_wasm.Sab.Bridge.Emission.{
  emit_from-last, emit_from-inv, emit_chunks-inv, emit_chunks-nil, emit_chunks-skip,
}

-- A window that the worker has to ask for.
abbrev pub IsStale : Event → Type 0
IsStale event = (act : Shared → Shared) × (event ≡ woken (turn true act))

turn_refused :
    (act : Shared → Shared) (mem : Shared)
    → (mem.state == s_chunk_ack) ≡ false
    → turn true act mem ≡ mem
turn_refused act mem e = rw e

-- Where the worker waits for something else, such windows are not written, and it waits on.
wait_from-stale :
    (expect : ℕ) (mem : Shared) (stale script : List Event)
    → All IsStale stale
    → (mem.state == expect) ≡ true
    → (s_chunk_ack == expect) ≡ false
    → wait_from expect mem (stale ++ script) ≡ wait_from expect mem script
unfolding wait_from
wait_from-stale expect mem [] script s e k = refl
wait_from-stale expect mem (event ∷ stale) script s e k =
    let (act, is) = s.0 in
    let other : (mem.state == s_chunk_ack) ≡ false = ground (arith, e, k) in
    ap (λ (x : Event). wait_from expect mem (x ∷ (stale ++ script))) is
    ∙ rw e (
        ap (λ (m : Shared). wait_from expect m (stale ++ script)) (turn_refused act mem other)
        ∙ wait_from-stale expect mem stale script s.1 e k)

pub wait-stale :
    (expect : ℕ) (w : World) (stale script : List Event)
    → w.script ≡ stale ++ script
    → All IsStale stale
    → (w.mem.state == expect) ≡ true
    → (s_chunk_ack == expect) ≡ false
    → wait expect w ≡ wait expect (on_memory w.mem script w)
unfolding wait
wait-stale expect w stale script es s e k =
    ap (λ r. (r.0, on_memory r.1.0 r.1.1 w))
      (ap (wait_from expect w.mem) es ∙ wait_from-stale expect w.mem stale script s e k)

module _ {Time : Type 0} (json : Json Time) where
  emit_from-IsStale :
      (fuel limit status : ℕ) (meta : Meta) (bytes : Bytes) (windows : List Event)
      → emit_from json true fuel limit status meta bytes ≡ some windows
      → All IsStale windows
  unfolding emit_from
  emit_from-IsStale zero limit status meta bytes windows e = absurd (cc)
  emit_from-IsStale (suc fuel) limit status meta bytes windows e =
      elim (Bool-cases (ltb limit (length bytes))) [
        | inr l ↦
            let ws : windows
                ≡ woken (turn true (show_window json status (record meta { more = false }) bytes))
                  ∷ [] =
              cc (emit_from-last json true fuel limit status meta bytes l, e) in
            rw ws ((_, refl), tt)
        | inl l ↦
            let (later, el, ws) =
              emit_from-inv json true fuel limit status meta bytes windows l e in
            rw ws
              ((_, refl), emit_from-IsStale fuel limit status no_meta (drop limit bytes) later el)
      ]

  -- So is all that is behind the first message of a stream.
  pub emit_chunks-IsStale :
      (limit status : ℕ) (meta : Meta) (chunks : List Bytes) (end : ReadEnd) (events : List Event)
      → emit_chunks json true limit status meta chunks end ≡ some events
      → All IsStale events
  unfolding emit_message
  emit_chunks-IsStale limit status meta [] end events e =
      rw (emit_chunks-nil json true limit status meta end events e) ((_, refl), tt)
  emit_chunks-IsStale limit status meta ([] ∷ chunks) end events e =
      emit_chunks-IsStale limit status meta chunks end events
        (emit_chunks-skip json true limit status meta chunks end ∙ e)
  emit_chunks-IsStale limit status meta ((b ∷ bs) ∷ chunks) end events e =
      let (first, later, ef, el, ee) =
        emit_chunks-inv json true limit status meta b bs chunks end events e in
      rw ee (
        All-append IsStale first later
          (emit_from-IsStale (suc (length (b ∷ bs))) limit status meta (b ∷ bs) first ef)
          (emit_chunks-IsStale limit status no_meta chunks end later el))
