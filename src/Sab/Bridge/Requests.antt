-- ===== src/Sab/Bridge/Requests.antt =====
-- The request, from the worker to the bridge.
use pyspark_client_wasm.Prelude.{
  ◌+◌, ◌^◌, ◌≤◌, ◌<◌, ◌≡◌, refl, sym, ap, ◌∙◌, ◌⊎◌, Bool, true, false, [], ◌++◌, append_assoc,
  arith, length, join, length-append, Bytes, pos, ok,
}
use pyspark_client_wasm.Sab.{Request}
use pyspark_client_wasm.Sab.Memory.{Shared, u32_bytes, get_u32, subarray}
use pyspark_client_wasm.Sab.Memory.Layout.{length-u32_bytes, get_u32-append, subarray-append}
use pyspark_client_wasm.Sab.Window.{Header, Json}
use pyspark_client_wasm.Sab.Machine.{World, returned}
use pyspark_client_wasm.Sab.Atomics.{
  Transport, header_of, request_pieces, needed_for, write_request,
}
use pyspark_client_wasm.Sab.Atomics.Requests.{
  IsAttached, header_bytes, needed, write_request-Written,
}
use pyspark_client_wasm.Sab.Bridge.{current, data_of, view_behind, read_request}

module _ {Time : Type 0} (json : Json Time) where
  -- The region of a request, piece by piece.
  region-request_pieces :
      (header body rest : Bytes)
      → join (request_pieces header body) ++ rest
        ≡ u32_bytes (length header) ++ (header ++ (u32_bytes (length body) ++ (body ++ rest)))
  unfolding request_pieces
  region-request_pieces header body rest =
      let h = u32_bytes (length header) in
      let b = u32_bytes (length body) in
      append_assoc h (header ++ (b ++ (body ++ []))) rest
      ∙ ap (◌++◌ h) (
          append_assoc header (b ++ (body ++ [])) rest
          ∙ ap (◌++◌ header)
              (append_assoc b (body ++ []) rest ∙ ap (◌++◌ b) (append_assoc body [] rest)))

  read_request-pieces :
      (header : Header Time) (text body rest : Bytes) (mem : Shared)
      → mem.region ≡ join (request_pieces text body) ++ rest
      → json.loads_header text ≡ ok header
      → needed_for text body < 2 ^ 32
      → read_request json current mem ≡ ok (header, body)
  unfolding read_request data_of needed_for
  read_request-pieces header text body rest mem e l lt =
      let h = u32_bytes (length text) in
      let b = u32_bytes (length body) in
      let shape = e ∙ region-request_pieces text body rest in
      let later = b ++ (body ++ rest) in
      let behind : mem.region ≡ (h ++ text) ++ later = shape ∙ sym (append_assoc h text later) in
      let last : mem.region ≡ ((h ++ text) ++ b) ++ (body ++ rest) =
        behind ∙ sym (append_assoc (h ++ text) b (body ++ rest)) in
      let ht : length (h ++ text) ≡ 4 + length text =
        omega (arith, length-append h text, length-u32_bytes (length text)) in
      let htb : length ((h ++ text) ++ b) ≡ 4 + length text + 4 =
        omega (arith, length-append (h ++ text) b, ht, length-u32_bytes (length body)) in
      let one : get_u32 0 mem.region ≡ ok (length text) =
        ap (get_u32 0) shape
        ∙ get_u32-append [] (text ++ later) (length text) 0 refl (omega arith) in
      let two : subarray 4 (pos (4 + length text)) mem.region ≡ text =
        ap (subarray 4 (pos (4 + length text))) shape
        ∙ subarray-append h text later 4 (4 + length text) (sym (length-u32_bytes (length text)))
            (omega (arith, length-u32_bytes (length text))) in
      let three : get_u32 (4 + length text) mem.region ≡ ok (length body) =
        ap (get_u32 (4 + length text)) behind
        ∙ get_u32-append (h ++ text) (body ++ rest) (length body) (4 + length text) (sym ht)
            (omega arith) in
      let four : subarray (4 + length text + 4) (pos (4 + length text + 4 + length body)) mem.region
          ≡ body =
        ap (subarray (4 + length text + 4) (pos (4 + length text + 4 + length body))) last
        ∙ subarray-append ((h ++ text) ++ b) body rest (4 + length text + 4)
            (4 + length text + 4 + length body) (sym htb) (omega (arith, htb)) in
      rw one (rw two (rw l (rw three (ap (λ (bs : Bytes). ok (header, bs)) four))))

  -- A bridge that has the worker's buffer has it still, where no larger one was needed or the
  -- message with it is handled.
  view_behind-current :
      (handled : Bool) (w w' : World)
      → (handled ≡ true) ⊎ (w'.capacity ≡ w.capacity)
      → view_behind handled w w' ≡ current
  unfolding view_behind
  view_behind-current true w w' h = refl
  view_behind-current false w w' h = ground arith

  -- What the bridge reads is what the worker wrote, where it had the worker's buffer before: for a
  -- request of less than 4 GiB whose header goes through JSON, the write returns, grows the region
  -- where it must, and the bridge reads the header, with the generation of the call, and the body,
  -- if the region was large enough or the message with the larger one is handled.
  pub read_request-write_request :
      (transport : Transport) (hook handled : Bool) (request : Request Time) (w : World)
      → IsAttached w
      → json.loads_header (header_bytes json transport hook request w)
        ≡ ok (header_of request w.gen)
      → needed json transport hook request w < 2 ^ 32
      → (handled ≡ true) ⊎ (needed json transport hook request w ≤ w.capacity)
      → (w' : World) × (write_request json transport hook request w ≡ (returned tt, w'))
        × (read_request json (view_behind handled w w') w'.mem
            ≡ ok (header_of request w.gen, request.body))
  read_request-write_request transport hook handled request w a l lt h =
      let (w', run, d) = write_request-Written json transport hook request w a in
      let read =
        read_request-pieces (header_of request w.gen) (header_bytes json transport hook request w)
          request.body d.rest w'.mem d.region l lt in
      let same : (handled ≡ true) ⊎ (w'.capacity ≡ w.capacity) = ground (arith, h, d.least) in
      (w', run, ap (λ v. read_request json v w'.mem) (view_behind-current handled w w' same) ∙ read)
