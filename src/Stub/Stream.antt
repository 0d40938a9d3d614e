-- ===== src/Stub/Stream.antt =====
-- The reassembly of a streamed response does not depend on where the chunks are cut.
pub mod Served
use mathlib.Core.Path.{fun_ext}
use pyspark_client_wasm.Prelude.{
  ℕ, zero, suc, ◌+◌, ◌-◌, ◌≤◌, ◌<◌, ◌≡◌, refl, ap, ◌∙◌, inl, inr, some, List, [], ◌∷◌, ◌++◌,
  append-nil, append_assoc, arith, Bool-cases, Option-cases, length, drop, join, length-append,
  length-drop, take-append_of_le, drop-append_of_le, Bytes, Text, Result, Gen, emit, emits,
}
use pyspark_client_wasm.Framing.{header_len, unpack_from, Frame, is_trailer, is_compressed}
use pyspark_client_wasm.Framing.Header.{unpack_from-append}
use pyspark_client_wasm.Text.{Unicode}
use pyspark_client_wasm.Stub.{
  take_frame, StreamState, handle, on_message, on_frame, on_front, drain, finish, extend,
  stream_from, stream_responses,
}

-- A frame that is taken leaves less, by a header at least.
take_frame-length :
    (buffer rest : Bytes) (f : Frame)
    → take_frame buffer ≡ some (f, rest)
    → length rest + header_len ≤ length buffer
unfolding take_frame
take_frame-length buffer rest f e =
    ground (arith, length-drop (header_len + (unpack_from buffer 0).1) buffer)

-- More bytes behind the buffer do not change the frame in front.
take_frame-append :
    (buffer more rest : Bytes) (f : Frame)
    → take_frame buffer ≡ some (f, rest)
    → take_frame (buffer ++ more) ≡ some (f, rest ++ more)
unfolding take_frame
take_frame-append buffer more rest f e =
    let size = (unpack_from buffer 0).1 in
    let long : header_len + size ≤ length buffer = ground arith in
    rw (unpack_from-append buffer more (omega arith)) (
      rw (drop-append_of_le header_len buffer more (omega arith)) (
        rw (drop-append_of_le (header_len + size) buffer more long) (
          rw
            (take-append_of_le (header_len + size - header_len) (drop header_len buffer) more
              (omega (arith, length-drop header_len buffer)))
            (ground (arith, length-append buffer more)))))

module _ (u : Unicode) {R : Type 0} (from_string : Bytes → Result R) (path : Text) where
  abbrev drains : ℕ → (StreamState → Gen R) → StreamState → Gen R
  drains = drain u from_string path

  -- A frame is handed on with what is left of the buffer.
  on_frame-ap :
      (st : StreamState) (f : Frame) (rest : Bytes) (next next' : StreamState → Gen R)
      → ((t : StreamState) → t.buffer ≡ rest → next t ≡ next' t)
      → on_frame u from_string path st f rest next ≡ on_frame u from_string path st f rest next'
  unfolding on_frame
  on_frame-ap st f rest next next' h = elim (Bool-cases (is_compressed f)) [
    | inl c ↦ rw c
    | inr c ↦ rw c (elim (Bool-cases (is_trailer f)) [
      | inl t ↦ rw t (h _ refl)
      | inr t ↦ rw t (
          ap (on_message u from_string path (from_string f.payload))
            (h (record st { buffer = rest }) refl))
    ])
  ]

  -- Fuel above the buffer's length does not matter.
  drain_fuel :
      (n m : ℕ) (k : StreamState → Gen R) (st : StreamState)
      → length st.buffer < n
      → length st.buffer < m
      → drains n k st ≡ drains m k st
  unfolding drain
  drain_fuel zero m k st h l = absurd (omega arith)
  drain_fuel (suc n) zero k st h l = absurd (omega arith)
  drain_fuel (suc n) (suc m) k st h l = elim (Option-cases (take_frame st.buffer)) [
    | inl part ↦ rw part
    | inr ((f, rest), e) ↦ rw e (
        on_frame-ap st f rest (drains n k) (drains m k) λ t b.
          let shorter = take_frame-length st.buffer rest f e in
          drain_fuel n m k t (omega (arith, ap (λ (x : Bytes). length x) b, shorter))
            (omega (arith, ap (λ (x : Bytes). length x) b, shorter)))
  ]

  -- The state with more bytes behind its buffer, drained again.
  abbrev more_then : (StreamState → Gen R) → Bytes → StreamState → Gen R
  more_then k more st =
      drains (suc (length (st.buffer ++ more))) k (record st { buffer = st.buffer ++ more })

  abbrev longer : Bytes → StreamState → StreamState
  longer more st = record st { buffer = st.buffer ++ more }

  on_frame-longer :
      (st : StreamState) (f : Frame) (rest more : Bytes) (next next' : StreamState → Gen R)
      → ((t : StreamState) → t.buffer ≡ rest → next t ≡ next' (longer more t))
      → on_frame u from_string path st f rest next
        ≡ on_frame u from_string path (longer more st) f (rest ++ more) next'
  unfolding on_frame
  on_frame-longer st f rest more next next' h = elim (Bool-cases (is_compressed f)) [
    | inl c ↦ rw c
    | inr c ↦ rw c (elim (Bool-cases (is_trailer f)) [
      | inl t ↦ rw t (h _ refl)
      | inr t ↦ rw t (
          ap (on_message u from_string path (from_string f.payload))
            (h (record st { buffer = rest }) refl))
    ])
  ]

  -- Draining first what is there, and then with more bytes, is draining all of it.
  drain-more :
      (n : ℕ) (k : StreamState → Gen R) (more : Bytes) (st : StreamState)
      → length st.buffer < n
      → drains n (more_then k more) st ≡ more_then k more st
  unfolding drain
  drain-more zero k more st h = absurd (omega arith)
  drain-more (suc n) k more st h = elim (Option-cases (take_frame st.buffer)) [
    | inl part ↦ rw part
    | inr ((f, rest), e) ↦
        let shorter = take_frame-length st.buffer rest f e in
        let total = length (st.buffer ++ more) in
        rw (e, take_frame-append st.buffer more rest f e)
          (on_frame-longer st f rest more (drains n (more_then k more)) (drains total k) λ t b.
            let t_length = ap (λ (x : Bytes). length x) b in
            drain-more n k more t (omega (arith, t_length, shorter))
            ∙ drain_fuel (suc (length (t.buffer ++ more))) total k (longer more t) (omega arith) (
                omega (
                  arith,
                  t_length,
                  shorter,
                  length-append t.buffer more,
                  length-append st.buffer more,
                )))
  ]

  abbrev streams : Gen Bytes → StreamState → Gen R
  streams = stream_from u from_string path

  -- Two chunks in a row are one.
  stream_from-two :
      (c d : Bytes) (g : Gen Bytes) (st : StreamState)
      → streams (emit c (emit d g)) st ≡ streams (emit (c ++ d) g) st
  unfolding stream_from extend
  stream_from-two [] d g st = refl
  stream_from-two (b ∷ c) [] g st = rw (append-nil c)
  stream_from-two (b ∷ c) (b' ∷ d) g st =
      drain-more (suc (length (st.buffer ++ (b ∷ c)))) (streams g) (b' ∷ d) (longer (b ∷ c) st)
        (omega arith)
      ∙ ap (λ (x : Bytes). drains (suc (length x)) (streams g) (record st { buffer = x }))
          (append_assoc st.buffer (b ∷ c) (b' ∷ d))

  stream_from-join :
      (cs : List Bytes) (g : Gen Bytes) (st : StreamState)
      → streams (emits cs g) st ≡ streams (emit (join cs) g) st
  unfolding stream_from extend
  stream_from-join [] g st = refl
  stream_from-join (c ∷ cs) g st =
      ap (λ (k : StreamState → Gen R). extend u from_string path k st c)
        (fun_ext (stream_from-join cs g))
      ∙ stream_from-two c (join cs) g st

  -- Whatever the chunks, and however the chunk iterator goes on, the responses are those of one
  -- chunk that holds all the bytes.
  pub stream_responses-join :
      (cs : List Bytes) (g : Gen Bytes)
      → stream_responses u from_string path (emits cs g)
        ≡ stream_responses u from_string path (emit (join cs) g)
  unfolding stream_responses
  stream_responses-join cs g = stream_from-join cs g _
