-- ===== src/Sab/Bridge/Stores.antt =====
-- What the bridge's writes do to the control words, by what fits in the region.
use pyspark_client_wasm.Prelude.{
  ℕ, ◌+◌, ◌≤◌, ◌<◌, ◌≡◌, refl, ◌⊎◌, inl, inr, [], arith, ltb, lt_of_ltb, le_of_ltb, Bool-cases,
  length, Bytes, Text, Exn, err,
}
use pyspark_client_wasm.Text.{codes}
use pyspark_client_wasm.Sab.Memory.{Shared, s_resp_chunk, s_resp_error}
use pyspark_client_wasm.Sab.Memory.Layout.{put_all-err}
use pyspark_client_wasm.Sab.Window.{Meta, Json}
use pyspark_client_wasm.Sab.Bridge.{
  window_pieces, write_window, error_meta, or_unchanged, write_error, or_error, show_window,
}
use pyspark_client_wasm.Sab.Bridge.Windows.{length-window_pieces, write_window_lem}

-- STATE has the given value, and GEN is as before.
abbrev pub IsStored : ℕ → Shared → Shared → Type 0
IsStored state mem out = (out.state ≡ state) × (out.gen ≡ mem.gen)

module _ {Time : Type 0} (json : Json Time) where
  -- The bytes of a window: the length of its meta, the meta and the payload.
  abbrev pub window_size : Meta → Bytes → ℕ
  window_size meta payload = 4 + length (json.dumps_meta meta) + length payload

  -- What handleRpc reports where a window does not fit.
  abbrev pub bounds_meta : Meta
  bounds_meta = error_meta json (codes "offset is out of bounds") (codes "error")

  write_window-err :
      (state status : ℕ) (meta : Meta) (payload : Bytes) (mem : Shared)
      → length mem.region < window_size meta payload
      → (e : Exn) × (write_window json state status meta payload mem ≡ err e)
  unfolding write_window
  write_window-err state status meta payload mem h =
      let (e, k) =
        put_all-err (window_pieces json meta payload) 0 mem.region (omega arith)
          (omega (arith, h, length-window_pieces json meta payload)) in
      (e, rw k)

  -- An error window, where one fits, and nothing where none does.
  pub write_error-IsStored :
      (message kind : Text) (mem : Shared)
      → ((window_size (error_meta json message kind) [] ≤ length mem.region)
          × IsStored s_resp_error mem (write_error json message kind mem))
        ⊎ ((length mem.region < window_size (error_meta json message kind) [])
            × (write_error json message kind mem ≡ mem))
  unfolding write_error or_unchanged
  write_error-IsStored message kind mem =
      let meta = error_meta json message kind in
      elim (Bool-cases (ltb (length mem.region) (window_size meta []))) [
        | inr l ↦
            let fits = le_of_ltb _ _ l in
            inl (fits, rw (write_window_lem json s_resp_error 0 meta [] mem fits) (refl, refl))
        | inl l ↦
            let lacks = lt_of_ltb _ _ l in
            let (e, k) = write_window-err s_resp_error 0 meta [] mem lacks in inr (lacks, rw k)
      ]

  -- A window where it fits, or an error window where only that fits, or nothing.
  pub show_window-IsStored :
      (status : ℕ) (meta : Meta) (payload : Bytes) (mem : Shared)
      → ((window_size meta payload ≤ length mem.region)
          × IsStored s_resp_chunk mem (show_window json status meta payload mem))
        ⊎ ((length mem.region < window_size meta payload)
            × (window_size bounds_meta [] ≤ length mem.region)
            × IsStored s_resp_error mem (show_window json status meta payload mem))
        ⊎ ((length mem.region < window_size meta payload)
            × (length mem.region < window_size bounds_meta [])
            × (show_window json status meta payload mem ≡ mem))
  unfolding show_window or_error
  show_window-IsStored status meta payload mem =
      elim (Bool-cases (ltb (length mem.region) (window_size meta payload))) [
        | inr l ↦
            let fits = le_of_ltb _ _ l in
            inl (
              fits,
              rw (write_window_lem json s_resp_chunk status meta payload mem fits) (refl, refl),
            )
        | inl l ↦
            let lacks = lt_of_ltb _ _ l in
            let (e, k) = write_window-err s_resp_chunk status meta payload mem lacks in
            rw k
              (elim (write_error-IsStored (codes "offset is out of bounds") (codes "error") mem) [
                | inl a ↦ inr (inl (lacks, a.0, a.1))
                | inr a ↦ inr (inr (lacks, a.0, a.1))
              ])
      ]
