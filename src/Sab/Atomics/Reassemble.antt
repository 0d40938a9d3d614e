-- ===== src/Sab/Atomics/Reassemble.antt =====
-- The rounds of _reassemble_windows.
use pyspark_client_wasm.Prelude.{
  ℕ, zero, suc, ◌≡◌, refl, ap, ◌∙◌, true, false, List, ◌∷◌, ◌++◌, arith, ◌==◌, length, Bytes, ok,
}
use pyspark_client_wasm.Sab.Memory.{Shared, s_resp_chunk, s_chunk_ack}
use pyspark_client_wasm.Sab.Window.{Meta, Json, read_window}
use pyspark_client_wasm.Sab.Machine.{
  ◌>>=◌, lift, Event, woken, World, returned, on_memory, store_state, after, Machine,
}
use pyspark_client_wasm.Sab.Machine.Progress.{wait-woken}
use pyspark_client_wasm.Sab.Atomics.{next_window, reassemble_from, reassemble_windows}

-- The memory as the worker leaves it when it asks for the next window.
abbrev pub acked : World → Shared
acked w = record w.mem { state = s_chunk_ack }

module _ {Time : Type 0} (json : Json Time) where
  -- What a round does behind its wait.
  abbrev behind : ℕ → Meta → Bytes → ℕ → Machine (Meta × Bytes)
  behind fuel first parts state = do
    _ ← next_window json state
    window ← lift (read_window json)
    reassemble_from json fuel first (parts ++ window.1) window.0.more

  behind-chunk :
      (fuel : ℕ) (first meta : Meta) (parts payload : Bytes) (state : ℕ) (w : World)
      → state ≡ s_resp_chunk
      → read_window json w.mem ≡ ok (meta, payload)
      → behind fuel first parts state w
        ≡ reassemble_from json fuel first (parts ++ payload) meta.more w
  unfolding next_window
  behind-chunk fuel first meta parts payload state w e r = rw e (rw r refl)

  -- A round that meets a readable window appends its payload.
  pub reassemble_from-woken :
      (fuel : ℕ) (first meta : Meta) (parts payload : Bytes) (w : World) (act : Shared → Shared)
      (script : List Event)
      → w.script ≡ woken act ∷ script
      → (act (acked w)).state ≡ s_resp_chunk
      → read_window json (act (acked w)) ≡ ok (meta, payload)
      → reassemble_from json (suc fuel) first parts true w
        ≡ reassemble_from json fuel first
            (parts ++ payload)
            meta.more
            (on_memory (act (acked w)) script w)
  unfolding reassemble_from store_state
  reassemble_from-woken fuel first meta parts payload w act script es st r =
      let moved : ((act (acked w)).state == s_chunk_ack) ≡ false = ground arith in
      ap (λ x. after (behind fuel first parts) x.0 x.1)
        (wait-woken s_chunk_ack (store_state s_chunk_ack w) act script es refl moved)
      ∙ behind-chunk fuel first meta parts payload (act (acked w)).state
          (on_memory (act (acked w)) script w) st r

  pub reassemble_from-done :
      (fuel : ℕ) (first : Meta) (parts : Bytes) (w : World)
      → reassemble_from json fuel first parts false w ≡ (returned (first, parts), w)
  unfolding reassemble_from
  reassemble_from-done zero first parts w = refl
  reassemble_from-done (suc fuel) first parts w = refl

  pub reassemble_windows_lem :
      (w : World) (meta : Meta) (payload : Bytes)
      → read_window json w.mem ≡ ok (meta, payload)
      → reassemble_windows json w
        ≡ reassemble_from json (suc (length w.script)) meta payload meta.more w
  unfolding reassemble_windows
  reassemble_windows_lem w meta payload e = rw e
