-- ===== src/Sab/Transfer.antt =====
-- From the bridge to the worker: payloads that go through the region in windows.
pub mod Message
pub mod Stale
pub mod Unary
use pyspark_client_wasm.Prelude.{
  ℕ, zero, suc, ◌+◌, ◌^◌, ◌≤◌, ◌<◌, ◌≡◌, refl, ap, ◌∙◌, inl, inr, Bool, true, false, Option, some,
  List, [], ◌∷◌, ◌++◌, append_assoc, arith, ltb, le_of_ltb, Bool-cases, length, take, drop,
  length-take, take-append-drop, Bytes,
}
use mathlib.Core.Option
use pyspark_client_wasm.Sab.Memory.{Shared, s_resp_chunk, s_chunk_ack, meta_zone, store32}
use pyspark_client_wasm.Sab.Window.{Meta, no_meta, Json, read_window}
use pyspark_client_wasm.Sab.Machine.{Event, woken, World, Outcome, returned, on_memory, store_state}
use pyspark_client_wasm.Sab.Atomics.{reassemble_from}
use pyspark_client_wasm.Sab.Atomics.Reassemble.{acked, reassemble_from-woken, reassemble_from-done}
use pyspark_client_wasm.Sab.Bridge.{turn, show_window, emit_from, emit_message}
use pyspark_client_wasm.Sab.Bridge.Emission.{
  emit_from-last, emit_from-inv, emit_from-ne_nil, emit_from-total,
}
use pyspark_client_wasm.Sab.Bridge.Windows.{
  IsCarried, window_of, show_window_lem, length-region-window_of, read_window-window_of,
}

-- A region in which a window of `limit` bytes fits behind the meta zone.
pub record HasRoom (limit : ℕ) (w : World) : Type 0 where
  pub room : 4 + meta_zone + limit ≤ length w.mem.region
  pub small : length w.mem.region < 2 ^ 31

-- What a message leaves: `script` is what the main thread does next.
pub record Delivered (status : ℕ) (rest : List Event) (w w' : World) : Type 0 where
  pub script : w'.script ≡ rest
  pub state : w'.mem.state ≡ s_resp_chunk
  pub status_word : w'.mem.status ≡ store32 status
  pub region : length w'.mem.region ≡ length w.mem.region
  pub mem_gen : w'.mem.gen ≡ w.mem.gen
  pub gen : w'.gen ≡ w.gen
  pub mem_cap : w'.mem.cap ≡ w.mem.cap
  pub capacity : w'.capacity ≡ w.capacity

module _ {Time : Type 0} (json : Json Time) where
  abbrev pub AreCarried : Meta → Type 0
  AreCarried meta = (more : Bool) → IsCarried json (record meta { more = more })

  pub fits :
      (limit : ℕ) (meta : Meta) (payload region : Bytes)
      → IsCarried json meta
      → length payload ≤ limit
      → 4 + meta_zone + limit ≤ length region
      → 4 + length (json.dumps_meta meta) + length payload ≤ length region
  fits limit meta payload region c p r = omega (arith, c.fits)

  -- What the worker has behind a further window that fits.
  abbrev pub got : ℕ → Meta → Bytes → List Event → World → World
  got status meta payload script w =
      on_memory (show_window json status meta payload (acked w)) script w

  pub got-Delivered :
      (limit status : ℕ) (meta : Meta) (payload : Bytes) (script : List Event) (w : World)
      → IsCarried json meta
      → length payload ≤ limit
      → HasRoom limit w
      → Delivered status script w (got status meta payload script w)
  got-Delivered limit status meta payload script w c p r =
      let f = fits limit meta payload w.mem.region c p r.room in
      let e = show_window_lem json status meta payload (acked w) f in
      record {
        script = refl;
        state = ap (λ (mem : Shared). mem.state) e;
        status_word = ap (λ (mem : Shared). mem.status) e;
        region =
            ap (λ (mem : Shared). length mem.region) e
            ∙ length-region-window_of json s_resp_chunk status meta payload (acked w) f;
        mem_gen = ap (λ (mem : Shared). mem.gen) e;
        gen = refl;
        mem_cap = ap (λ (mem : Shared). mem.cap) e;
        capacity = refl;
      }

  pub Delivered-trans :
      (status : ℕ) (s s' : List Event) (w w' w'' : World)
      → Delivered status s w w'
      → Delivered status s' w' w''
      → Delivered status s' w w''
  Delivered-trans status s s' w w' w'' d d' = record {
    script = d'.script;
    state = d'.state;
    status_word = d'.status_word;
    region = d'.region ∙ d.region;
    mem_gen = d'.mem_gen ∙ d.mem_gen;
    gen = d'.gen ∙ d.gen;
    mem_cap = d'.mem_cap ∙ d.mem_cap;
    capacity = d'.capacity ∙ d.capacity;
  }

  pub HasRoom-Delivered :
      (limit status : ℕ) (script : List Event) (w w' : World)
      → Delivered status script w w'
      → HasRoom limit w
      → HasRoom limit w'
  HasRoom-Delivered limit status script w w' d r = record {
    room = omega (arith, d.region, r.room);
    small = omega (arith, d.region, r.small);
  }

  -- A round that meets such a window.
  reassemble_from-got :
      (limit status rounds : ℕ) (first meta : Meta) (parts payload : Bytes) (script : List Event)
      (w : World)
      → IsCarried json meta
      → length payload ≤ limit
      → HasRoom limit w
      → w.script ≡ woken (turn true (show_window json status meta payload)) ∷ script
      → reassemble_from json (suc rounds) first parts true w
        ≡ reassemble_from json rounds first
            (parts ++ payload)
            meta.more
            (got status meta payload script w)
  reassemble_from-got limit status rounds first meta parts payload script w c p r e =
      let f = fits limit meta payload w.mem.region c p r.room in
      let shown = show_window_lem json status meta payload (acked w) f in
      reassemble_from-woken json rounds first meta parts payload w
        (turn true (show_window json status meta payload)) script e
        (ap (λ (mem : Shared). mem.state) shown)
        (ap (read_window json) shown
          ∙ read_window-window_of json s_resp_chunk status meta payload (acked w) c f r.small)

  -- Any number of further windows.
  pub reassemble_from-emit_from :
      (fuel limit status : ℕ) (bytes : Bytes) (windows rest : List Event)
      → emit_from json true fuel limit status no_meta bytes ≡ some windows
      → AreCarried no_meta
      → (rounds : ℕ) (first : Meta) (parts : Bytes) (w : World) → length windows ≤ rounds
      → w.script ≡ windows ++ rest
      → HasRoom limit w
      → (w' : World) × (reassemble_from json rounds first parts true w
          ≡ (returned (first, parts ++ bytes), w'))
        × Delivered status rest w w'
  reassemble_from-emit_from zero limit status bytes windows rest e cs rounds first parts w n es r =
      let (_, k, _) = emit_from-ne_nil json true zero limit status no_meta bytes windows e in
      absurd (omega (arith, k))
  reassemble_from-emit_from (suc fuel) limit status bytes windows rest e cs zero first parts w n es
        r =
      let (_, _, k) = emit_from-ne_nil json true (suc fuel) limit status no_meta bytes windows e in
      absurd (omega (arith, k))
  reassemble_from-emit_from (suc fuel) limit status bytes windows rest e cs (suc rounds) first parts
        w n es r =
      elim (Bool-cases (ltb limit (length bytes))) [
        | inr l ↦
            let ws : windows ≡ woken (turn true (show_window json status last bytes)) ∷ [] =
              cc (emit_from-last json true fuel limit status no_meta bytes l, e) in
            let fits = le_of_ltb limit (length bytes) l in
            (
              got status last bytes rest w,
              reassemble_from-got limit status rounds first last parts bytes rest w (cs false) fits
                    r (es ∙ ap (λ (x : List Event). x ++ rest) ws)
                  ∙ reassemble_from-done json rounds first (parts ++ bytes) _,
              got-Delivered limit status last bytes rest w (cs false) fits r,
            )
        | inl l ↦
            let (later, el, ws) =
              emit_from-inv json true fuel limit status no_meta bytes windows l e in
            let part = take limit bytes in
            let fits : length part ≤ limit = omega (arith, length-take limit bytes) in
            let w1 = got status other part (later ++ rest) w in
            let d1 = got-Delivered limit status other part (later ++ rest) w (cs true) fits r in
            let (w', run, d) =
              reassemble_from-emit_from fuel limit status (drop limit bytes) later rest el cs rounds
                first (parts ++ part) w1 (omega (arith, ap length ws)) refl
                (HasRoom-Delivered limit status (later ++ rest) w w1 d1 r) in
            (
              w',
              reassemble_from-got limit status rounds first other parts part (later ++ rest) w
                    (cs true) fits r (es ∙ ap (λ (x : List Event). x ++ rest) ws)
                  ∙ run
                  ∙ ap (λ (bs : Bytes). (returned (first, bs), w'))
                      (append_assoc parts part (drop limit bytes)
                        ∙ ap (◌++◌ parts) (take-append-drop limit bytes)),
              Delivered-trans status (later ++ rest) rest w w1 w' d1 d,
            )
      ]
    where
      last : Meta
      last = record no_meta { more = false }

      other : Meta
      other = record no_meta { more = true }
