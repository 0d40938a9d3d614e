-- ===== src/Sab/Bridge/Windows.antt =====
-- A window that the bridge writes is read by the worker as it was meant.
use pyspark_client_wasm.Prelude.{
  ℕ, ◌+◌, ◌^◌, ◌≤◌, ◌<◌, ◌≡◌, refl, sym, ap, ◌∙◌, false, [], ◌++◌, append_assoc, arith, ◌==◌,
  length, drop, join, length-append, length-drop, Bytes, ℤ, pos, ok,
}
use pyspark_client_wasm.Sab.Memory.{
  Shared, s_resp_chunk, meta_zone, store32, load32, u32_bytes, get_u32, subarray,
}
use pyspark_client_wasm.Sab.Memory.Layout.{
  put_all_lem, get_u32-append, subarray-append, load32-store32,
}
use pyspark_client_wasm.Sab.Window.{Meta, Json, load_meta, read_meta, read_window}
use pyspark_client_wasm.Sab.Bridge.{window_pieces, write_window, or_error, show_window}

module _ {Time : Type 0} (json : Json Time) where
  -- A meta that goes through JSON, and whose text fits into the zone that is reserved for it.
  pub record IsCarried (meta : Meta) : Type 0 where
    pub loads_dumps : json.loads_meta (json.dumps_meta meta) ≡ ok meta
    pub nonempty : 0 < length (json.dumps_meta meta)
    pub fits : length (json.dumps_meta meta) ≤ meta_zone

  abbrev pub window_of : ℕ → ℕ → Meta → Bytes → Shared → Shared
  window_of state status meta payload mem =
      let all = join (window_pieces json meta payload) in
      record mem {
        region = all ++ drop (length all) mem.region;
        status = store32 status;
        size = store32 (length all);
        state = state;
      }

  pub length-window_pieces :
      (meta : Meta) (payload : Bytes)
      → length (join (window_pieces json meta payload))
        ≡ 4 + length (json.dumps_meta meta) + length payload
  unfolding window_pieces u32_bytes
  length-window_pieces meta payload =
      omega (arith, length-append (json.dumps_meta meta) (payload ++ []), length-append payload [])

  pub write_window_lem :
      (state status : ℕ) (meta : Meta) (payload : Bytes) (mem : Shared)
      → 4 + length (json.dumps_meta meta) + length payload ≤ length mem.region
      → write_window json state status meta payload mem
        ≡ ok (window_of state status meta payload mem)
  unfolding write_window
  write_window_lem state status meta payload mem h = rw (
      put_all_lem (window_pieces json meta payload) mem.region
        (omega (arith, length-window_pieces meta payload)))

  -- Where the two parts of a window stand.
  region-window_of :
      (meta : Meta) (payload rest : Bytes)
      → join (window_pieces json meta payload) ++ rest
        ≡ u32_bytes (length (json.dumps_meta meta)) ++ (json.dumps_meta meta ++ (payload ++ rest))
  unfolding window_pieces
  region-window_of meta payload rest =
      let len = u32_bytes (length (json.dumps_meta meta)) in
      let text = json.dumps_meta meta in
      append_assoc len (text ++ (payload ++ [])) rest
      ∙ ap (◌++◌ len)
          (append_assoc text (payload ++ []) rest ∙ ap (◌++◌ text) (append_assoc payload [] rest))

  load_meta_lem :
      (meta : Meta)
      → IsCarried meta
      → load_meta json (length (json.dumps_meta meta)) (json.dumps_meta meta) ≡ ok meta
  unfolding load_meta
  load_meta_lem meta c =
      let n : (length (json.dumps_meta meta) == 0) ≡ false = ground (arith, c.nonempty) in
      rw n c.loads_dumps

  -- The worker reads the meta of a window, whatever is behind it.
  pub read_meta-window_of :
      (state status : ℕ) (meta : Meta) (payload : Bytes) (mem : Shared)
      → IsCarried meta
      → read_meta json (window_of state status meta payload mem) ≡ ok meta
  unfolding read_meta
  read_meta-window_of state status meta payload mem c =
      let n = length (json.dumps_meta meta) in
      let len = u32_bytes n in
      let text = json.dumps_meta meta in
      let old = drop (length (join (window_pieces json meta payload))) mem.region in
      let shape = region-window_of meta payload old in
      let at_len : get_u32 0 (join (window_pieces json meta payload) ++ old) ≡ ok n =
        ap (get_u32 0) shape
        ∙ get_u32-append [] (text ++ (payload ++ old)) n 0 refl (omega (arith, c.fits)) in
      let at_text : subarray 4 (pos (4 + n)) (join (window_pieces json meta payload) ++ old)
          ≡ text =
        ap (subarray 4 (pos (4 + n))) shape
        ∙ subarray-append len text (payload ++ old) 4 (4 + n) (unfold u32_bytes in refl)
            (unfold u32_bytes in refl) in
      rw at_len (rw at_text (load_meta_lem meta c))

  -- The worker reads the meta and the payload of a window that fits.
  pub read_window-window_of :
      (state status : ℕ) (meta : Meta) (payload : Bytes) (mem : Shared)
      → IsCarried meta
      → 4 + length (json.dumps_meta meta) + length payload ≤ length mem.region
      → length mem.region < 2 ^ 31
      → read_window json (window_of state status meta payload mem) ≡ ok (meta, payload)
  unfolding read_window
  read_window-window_of state status meta payload mem c h lt =
      let n = length (json.dumps_meta meta) in
      let len = u32_bytes n in
      let text = json.dumps_meta meta in
      let old = drop (length (join (window_pieces json meta payload))) mem.region in
      let shape = region-window_of meta payload old in
      let at_len : get_u32 0 (join (window_pieces json meta payload) ++ old) ≡ ok n =
        ap (get_u32 0) shape
        ∙ get_u32-append [] (text ++ (payload ++ old)) n 0 refl (omega (arith, c.fits)) in
      let at_text : subarray 4 (pos (4 + n)) (join (window_pieces json meta payload) ++ old)
          ≡ text =
        ap (subarray 4 (pos (4 + n))) shape
        ∙ subarray-append len text (payload ++ old) 4 (4 + n) (unfold u32_bytes in refl)
            (unfold u32_bytes in refl) in
      let size : load32 (store32 (length (join (window_pieces json meta payload))))
          ≡ pos (4 + n + length payload) =
        ap (λ (k : ℕ). load32 (store32 k)) (length-window_pieces meta payload)
        ∙ load32-store32 (4 + n + length payload) (omega arith) in
      let at_payload : subarray (4 + n) (pos (4 + n + length payload))
            (join (window_pieces json meta payload) ++ old)
          ≡ payload =
        ap (subarray (4 + n) (pos (4 + n + length payload)))
          (shape ∙ sym (append_assoc len text (payload ++ old)))
        ∙ subarray-append (len ++ text) payload old (4 + n) (4 + n + length payload)
            (sym (length-append len text ∙ unfold u32_bytes in refl))
            (sym (
              ap (λ (k : ℕ). k + length payload)
                (length-append len text ∙ unfold u32_bytes in refl))) in
      rw at_len (
        rw at_text (
          rw (load_meta_lem meta c) (
            ap (λ (t : Bytes). ok (meta, t))
              (ap (λ (z : ℤ). subarray (4 + n) z (join (window_pieces json meta payload) ++ old))
                  size
                ∙ at_payload))))

  pub show_window_lem :
      (status : ℕ) (meta : Meta) (payload : Bytes) (mem : Shared)
      → 4 + length (json.dumps_meta meta) + length payload ≤ length mem.region
      → show_window json status meta payload mem ≡ window_of s_resp_chunk status meta payload mem
  unfolding show_window or_error
  show_window_lem status meta payload mem h =
      rw (write_window_lem s_resp_chunk status meta payload mem h)

  -- A window leaves the length of the region as it is.
  pub length-region-window_of :
      (state status : ℕ) (meta : Meta) (payload : Bytes) (mem : Shared)
      → 4 + length (json.dumps_meta meta) + length payload ≤ length mem.region
      → length (window_of state status meta payload mem).region ≡ length mem.region
  length-region-window_of state status meta payload mem h =
      let all = join (window_pieces json meta payload) in
      omega (
        arith,
        length-append all (drop (length all) mem.region),
        length-drop (length all) mem.region,
        length-window_pieces meta payload,
      )
