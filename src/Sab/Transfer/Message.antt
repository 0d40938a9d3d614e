-- ===== src/Sab/Transfer/Message.antt =====
-- One message of the bridge, from the wait that its first window ends to the last window.
use pyspark_client_wasm.Prelude.{
  ℕ, suc, ◌≤◌, ◌≡◌, refl, sym, ap, ◌∙◌, inl, inr, Bool, true, false, some, List, [], ◌∷◌, ◌++◌,
  arith, ltb, ◌==◌, le_of_ltb, Bool-cases, length, take, drop, length-append, length-take,
  take-append-drop, Bytes, ok,
}
use pyspark_client_wasm.Sab.Memory.{Shared, s_resp_chunk, store32}
use pyspark_client_wasm.Sab.Window.{Meta, no_meta, Json, read_window}
use pyspark_client_wasm.Sab.Machine.{Event, woken, World, returned, on_memory, wait}
use pyspark_client_wasm.Sab.Machine.Progress.{wait-woken}
use pyspark_client_wasm.Sab.Atomics.{reassemble_from, reassemble_windows}
use pyspark_client_wasm.Sab.Atomics.Reassemble.{acked, reassemble_windows_lem, reassemble_from-done}
use pyspark_client_wasm.Sab.Bridge.{turn, show_window, emit_from}
use pyspark_client_wasm.Sab.Bridge.Emission.{emit_from-last, emit_from-inv}
use pyspark_client_wasm.Sab.Bridge.Windows.{
  IsCarried, window_of, show_window_lem, read_window-window_of,
}
use pyspark_client_wasm.Sab.Transfer.{
  HasRoom, Delivered, AreCarried, fits, got, got-Delivered, Delivered-trans, HasRoom-Delivered,
  reassemble_from-emit_from,
}

-- The bridge may write its next window.
abbrev pub IsTurn : Bool → Shared → Type 0
IsTurn asked mem = (act : Shared → Shared) → turn asked act mem ≡ act mem

module _ {Time : Type 0} (json : Json Time) where
  -- The window that ends a wait.
  module _ (asked : Bool) (expect limit status : ℕ) (meta : Meta) (payload : Bytes)
      (script : List Event) (w : World) (c : IsCarried json meta) (p : length payload ≤ limit)
      (r : HasRoom limit w) (parked : (w.mem.state == expect) ≡ true)
      (other : (s_resp_chunk == expect) ≡ false)
      (e : w.script ≡ woken (turn asked (show_window json status meta payload)) ∷ script)
      (go : IsTurn asked w.mem) where
    shown :
        show_window json status meta payload w.mem
        ≡ window_of json s_resp_chunk status meta payload w.mem
    shown =
        show_window_lem json status meta payload w.mem
          (fits json limit meta payload w.mem.region c p r.room)

    same :
        show_window json status meta payload w.mem ≡ show_window json status meta payload (acked w)
    same =
        shown
        ∙ sym (
            show_window_lem json status meta payload (acked w)
              (fits json limit meta payload w.mem.region c p r.room))

    wait-got : wait expect w ≡ (returned s_resp_chunk, got json status meta payload script w)
    wait-got =
        let act = show_window json status meta payload in
        let state = ap (λ (mem : Shared). mem.state) (go act ∙ shown) in
        wait-woken expect w (turn asked act) script e parked (rw state other) ∙ λ i.
        (returned (state i), on_memory ((go act ∙ same) i) script w)

    read-got : read_window json (got json status meta payload script w).mem ≡ ok (meta, payload)
    read-got =
        ap (read_window json) (sym same ∙ shown)
        ∙ read_window-window_of json s_resp_chunk status meta payload w.mem c
            (fits json limit meta payload w.mem.region c p r.room) r.small

    first-got :
        reassemble_windows json (got json status meta payload script w)
        ≡ reassemble_from json
            (suc (length script))
            meta
            payload
            meta.more
            (got json status meta payload script w)
    first-got =
        reassemble_windows_lem json (got json status meta payload script w) meta payload read-got

  -- The states around a message: `w1` is behind the wait for its first window, and `w'` behind the
  -- last one.
  pub record Received (expect status : ℕ) (meta : Meta) (bytes : Bytes) (rest : List Event)
      (w : World) : Type 0 where
    pub more : Bool
    pub w1 : World
    pub w' : World
    pub waited : wait expect w ≡ (returned s_resp_chunk, w1)
    pub status_word : w1.mem.status ≡ store32 status
    pub reassembled :
        reassemble_windows json w1 ≡ (returned (record meta { more = more }, bytes), w')
    pub delivered : Delivered status rest w w'

  -- A message of any length, in as many windows as it takes, arrives whole.
  pub message_lem :
      (asked : Bool) (fuel expect limit status : ℕ) (meta : Meta) (bytes : Bytes)
      (windows rest : List Event) (w : World)
      → emit_from json asked (suc fuel) limit status meta bytes ≡ some windows
      → AreCarried json meta
      → AreCarried json no_meta
      → w.script ≡ windows ++ rest
      → HasRoom limit w
      → (w.mem.state == expect) ≡ true
      → (s_resp_chunk == expect) ≡ false
      → IsTurn asked w.mem
      → Received expect status meta bytes rest w
  message_lem asked fuel expect limit status meta bytes windows rest w e cm cn es r parked other
        go =
      elim (Bool-cases (ltb limit (length bytes))) [
        | inr l ↦
            let m : Meta = record meta { more = false } in
            let fit = le_of_ltb limit (length bytes) l in
            let ws : windows ≡ woken (turn asked (show_window json status m bytes)) ∷ [] =
              cc (emit_from-last json asked fuel limit status meta bytes l, e) in
            let es' = es ∙ ap (λ (x : List Event). x ++ rest) ws in
            let w1 = got json status m bytes rest w in
            let d = got-Delivered json limit status m bytes rest w (cm false) fit r in
            record {
              more = false;
              w1 = w1;
              w' = w1;
              waited =
                  wait-got asked expect limit status m bytes rest w (cm false) fit r parked other
                    es' go;
              status_word = d.status_word;
              reassembled =
                  first-got asked expect limit status m bytes rest w (cm false) fit r parked other
                    es' go
                  ∙ reassemble_from-done json (suc (length rest)) m bytes w1;
              delivered = d;
            }
        | inl l ↦
            let m : Meta = record meta { more = true } in
            let (later, el, ws) =
              emit_from-inv json asked fuel limit status meta bytes windows l e in
            let part = take limit bytes in
            let fit : length part ≤ limit = omega (arith, length-take limit bytes) in
            let es' = es ∙ ap (λ (x : List Event). x ++ rest) ws in
            let w1 = got json status m part (later ++ rest) w in
            let d = got-Delivered json limit status m part (later ++ rest) w (cm true) fit r in
            let (w', run, d') =
              reassemble_from-emit_from json fuel limit status (drop limit bytes) later rest el cn
                (suc (length (later ++ rest))) m part w1 (omega (arith, length-append later rest))
                refl (HasRoom-Delivered json limit status (later ++ rest) w w1 d r) in
            record {
              more = true;
              w1 = w1;
              w' = w';
              waited =
                  wait-got asked expect limit status m part (later ++ rest) w (cm true) fit r parked
                    other es' go;
              status_word = d.status_word;
              reassembled =
                  first-got asked expect limit status m part (later ++ rest) w (cm true) fit r
                    parked other es' go
                  ∙ run
                  ∙ ap (λ (bs : Bytes). (returned (m, bs), w')) (take-append-drop limit bytes);
              delivered = Delivered-trans json status (later ++ rest) rest w w1 w' d d';
            }
      ]
