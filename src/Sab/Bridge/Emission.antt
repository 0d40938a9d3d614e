-- ===== src/Sab/Bridge/Emission.antt =====
-- The windows of a message, one by one.
use pyspark_client_wasm.Prelude.{
  Bool, true, false, ℕ, zero, suc, ◌+◌, ◌≤◌, ◌<◌, ◌≡◌, refl, sym, ap, ◌∙◌, inl, inr, some, List, [],
  ◌∷◌, ◌++◌, arith, ltb, lt_of_ltb, le_of_ltb, Bool-cases, Option-cases, length, take, drop,
  length-drop, Bytes,
}
use mathlib.Core.Option
use pyspark_client_wasm.Sab.Window.{Meta, no_meta, Json}
use pyspark_client_wasm.Sab.Machine.{Event, woken}
use pyspark_client_wasm.Sab.Bridge.{
  show_window, emit_from, emit_message, turn, ReadEnd, last_window, joined, emit_chunks,
}

some-injective : {xs ys : List Event} → some xs ≡ some ys → xs ≡ ys
some-injective e = cc

take-all : (n : ℕ) (bs : Bytes) → length bs ≤ n → take n bs ≡ bs
take-all zero [] h = refl
take-all zero (b ∷ bs) h = absurd (omega arith)
take-all (suc n) [] h = refl
take-all (suc n) (b ∷ bs) h = ap (◌∷◌ b) (take-all n bs (omega arith))

module _ {Time : Type 0} (json : Json Time) where
  -- The last window of a message.
  pub emit_from-last :
      (asked : Bool) (fuel limit status : ℕ) (meta : Meta) (bytes : Bytes)
      → ltb limit (length bytes) ≡ false
      → emit_from json asked (suc fuel) limit status meta bytes
        ≡ some
            (woken (turn asked (show_window json status (record meta { more = false }) bytes)) ∷ [])
  unfolding emit_from
  emit_from-last asked fuel limit status meta bytes l = rw l (
      ap
        (λ (bs : Bytes).
          some
            (woken (turn asked (show_window json status (record meta { more = false }) bs)) ∷ []))
        (take-all limit bytes (le_of_ltb _ _ l)))

  -- Any other.
  pub emit_from-more :
      (asked : Bool) (fuel limit status : ℕ) (meta : Meta) (bytes : Bytes)
      → ltb limit (length bytes) ≡ true
      → emit_from json asked (suc fuel) limit status meta bytes
        ≡ Option.map
            (λ windows.
              woken (
                turn asked
                  (show_window json status (record meta { more = true }) (take limit bytes)))
              ∷ windows)
            (emit_from json true fuel limit status no_meta (drop limit bytes))
  unfolding emit_from
  emit_from-more asked fuel limit status meta bytes l = rw l

  -- The loop of _emitMessage ends where a window has room for a byte: as many rounds as there are
  -- bytes, and one, are enough, and it makes at most one window for each byte, and one.
  pub emit_from-total :
      (asked : Bool) (fuel limit status : ℕ) (meta : Meta) (bytes : Bytes)
      → 0 < limit
      → length bytes < fuel
      → (windows : List Event) × (emit_from json asked fuel limit status meta bytes ≡ some windows)
        × (length windows ≤ length bytes + 1)
  emit_from-total asked zero limit status meta bytes h k = absurd (omega arith)
  emit_from-total asked (suc fuel) limit status meta bytes h k =
      elim (Bool-cases (ltb limit (length bytes))) [
        | inr l ↦ (_, emit_from-last asked fuel limit status meta bytes l, omega arith)
        | inl l ↦
            let (windows, e, n) =
              emit_from-total true fuel limit status no_meta (drop limit bytes) h
                (omega (arith, length-drop limit bytes, lt_of_ltb _ _ l)) in
            (
              _,
              emit_from-more asked fuel limit status meta bytes l ∙ ap (Option.map _) e,
              omega (arith, n, length-drop limit bytes, lt_of_ltb _ _ l),
            )
      ]

  -- A message of a window, and of more than one.
  pub emit_from-inv :
      (asked : Bool) (fuel limit status : ℕ) (meta : Meta) (bytes : Bytes) (windows : List Event)
      → ltb limit (length bytes) ≡ true
      → emit_from json asked (suc fuel) limit status meta bytes ≡ some windows
      → (later : List Event) × (emit_from json true fuel limit status no_meta (drop limit bytes)
          ≡ some later)
        × (windows
            ≡ woken (
                turn asked
                  (show_window json status (record meta { more = true }) (take limit bytes)))
              ∷ later)
  emit_from-inv asked fuel limit status meta bytes windows l e =
      let step = emit_from-more asked fuel limit status meta bytes l in
      elim (Option-cases (emit_from json true fuel limit status no_meta (drop limit bytes))) [
        | inl n ↦ absurd (cc (step, n, e))
        | inr (later, n) ↦ (later, n, cc (step, n, e))
      ]

  pub emit_from-ne_nil :
      (asked : Bool) (fuel limit status : ℕ) (meta : Meta) (bytes : Bytes) (windows : List Event)
      → emit_from json asked fuel limit status meta bytes ≡ some windows
      → (k : ℕ) × (fuel ≡ suc k) × (0 < length windows)
  unfolding emit_from
  emit_from-ne_nil asked zero limit status meta bytes windows e = absurd (cc)
  emit_from-ne_nil asked (suc fuel) limit status meta bytes windows e =
      elim (Bool-cases (ltb limit (length bytes))) [
        | inr l ↦ (
          fuel,
          refl,
          omega (
            arith,
            ap length
                (some-injective (sym (emit_from-last asked fuel limit status meta bytes l) ∙ e)),
          ),
        )
        | inl l ↦
            let (later, _, k) = emit_from-inv asked fuel limit status meta bytes windows l e in
            (fuel, refl, omega (arith, ap length k))
      ]

  -- The events of a stream that has a chunk are those of a message and of the chunks behind it.
  pub emit_chunks-inv :
      (asked : Bool) (limit status : ℕ) (meta : Meta) (b : ℕ) (bs : Bytes) (chunks : List Bytes)
      (end : ReadEnd) (events : List Event)
      → emit_chunks json asked limit status meta ((b ∷ bs) ∷ chunks) end ≡ some events
      → (first later : List Event) × (emit_message json asked limit status meta (b ∷ bs)
          ≡ some first)
        × (emit_chunks json true limit status no_meta chunks end ≡ some later)
        × (events ≡ first ++ later)
  unfolding emit_chunks joined
  emit_chunks-inv asked limit status meta b bs chunks end events e =
      elim (Option-cases (emit_message json asked limit status meta (b ∷ bs))) [
        | inl n ↦ absurd (cc (n, e))
        | inr (first, f) ↦
            elim (Option-cases (emit_chunks json true limit status no_meta chunks end)) [
              | inl n ↦ absurd (cc (f, n, e))
              | inr (later, l) ↦ (first, later, f, l, cc (f, l, e))
            ]
      ]

  pub emit_chunks-nil :
      (asked : Bool) (limit status : ℕ) (meta : Meta) (end : ReadEnd) (events : List Event)
      → emit_chunks json asked limit status meta [] end ≡ some events
      → events ≡ woken (turn asked (last_window json end)) ∷ []
  unfolding emit_chunks
  emit_chunks-nil asked limit status meta end events e = some-injective (sym e)

  pub emit_chunks-skip :
      (asked : Bool) (limit status : ℕ) (meta : Meta) (chunks : List Bytes) (end : ReadEnd)
      → emit_chunks json asked limit status meta chunks end
        ≡ emit_chunks json asked limit status meta ([] ∷ chunks) end
  unfolding emit_chunks
  emit_chunks-skip asked limit status meta chunks end = refl
