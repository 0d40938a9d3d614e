-- ===== src/Sab/Streams/Delivery.antt =====
-- A stream over the bridge.
use pyspark_client_wasm.Prelude.{
  ℕ, zero, suc, ◌+◌, ◌≤◌, ◌≡◌, refl, sym, ap, ◌∙◌, Bool, true, false, some, List, [], ◌∷◌, ◌++◌,
  append_assoc, arith, ◌==◌, length, Bytes, is_nat,
}
use pyspark_client_wasm.Sab.Memory.{
  Shared, s_resp_chunk, s_resp_end, s_resp_error, s_chunk_ack, store32, load32,
}
use pyspark_client_wasm.Sab.Window.{Meta, no_meta, Json}
use pyspark_client_wasm.Sab.Machine.{
  Event, woken, World, Outcome, returned, raised, store_state, on_memory,
}
use pyspark_client_wasm.Sab.Machine.Progress.{wait-woken, store_state-script}
use pyspark_client_wasm.Sab.Atomics.{reset_idle_if_current}
use pyspark_client_wasm.Sab.Atomics.Requests.{IsAttached}
use pyspark_client_wasm.Sab.Bridge.{
  turn, ReadEnd, done, failed, emit_message, end_stream, last_window, emit_chunks,
}
use pyspark_client_wasm.Sab.Bridge.Windows.{IsCarried, window_of, length-region-window_of}
use pyspark_client_wasm.Sab.Bridge.Failures.{
  failure, failure_meta, write_error_lem, error_from_meta-window_of,
}
use pyspark_client_wasm.Sab.Bridge.Emission.{emit_chunks-inv, emit_chunks-nil, emit_chunks-skip}
use pyspark_client_wasm.Sab.Transfer.{HasRoom, Delivered, AreCarried, HasRoom-Delivered}
use pyspark_client_wasm.Sab.Transfer.Message.{IsTurn, Received, message_lem}
use pyspark_client_wasm.Sab.Transfer.Unary.{Done}
use pyspark_client_wasm.Sab.Streams.{Run, yielded, ended, rounds}
use pyspark_client_wasm.Sab.Streams.Rounds.{patient, rounds-chunk, rounds-end, rounds-error}

-- The chunks that are yielded: all but the empty ones.
abbrev pub yields : List Bytes → Run → Run
yields [] r = r
yields ([] ∷ chunks) r = yields chunks r
yields ((b ∷ bs) ∷ chunks) r = yielded (b ∷ bs) (yields chunks r)

-- How the generator ends for the end of the reading.
abbrev pub outcome_of : ReadEnd → Outcome (Unit {0})
outcome_of done = returned tt
outcome_of (failed message timed_out is_abort) = raised (failure message timed_out is_abort)

-- What holds between two chunks: `asked` is whether one was yielded.
pub record IsOpen (asked : Bool) (limit wait_on my_gen : ℕ) (w : World) : Type 0 where
  pub room : HasRoom limit w
  pub parked : (w.mem.state == wait_on) ≡ true
  pub awaits_chunk : (s_resp_chunk == wait_on) ≡ false
  pub awaits_end : (s_resp_end == wait_on) ≡ false
  pub awaits_error : (s_resp_error == wait_on) ≡ false
  pub go : IsTurn asked w.mem
  pub current : is_nat (load32 w.mem.gen) my_gen ≡ true
  pub attached : IsAttached w

-- Behind its reset a call is done.
pub reset-Done :
    (my_gen : ℕ) (rest : List Event) (w : World)
    → is_nat (load32 w.mem.gen) my_gen ≡ true
    → w.script ≡ rest
    → IsAttached w
    → Done rest (reset_idle_if_current my_gen w)
unfolding reset_idle_if_current store_state
reset-Done my_gen rest w c e a =
    rw c (refl, e, record { attached = a.attached; published = a.published; nonempty = a.nonempty })

module _ {Time : Type 0} (json : Json Time) where
  -- The error of a failed reading goes through JSON.
  abbrev pub IsReported : ReadEnd → Type 0
  IsReported done = Unit {0}
  IsReported (failed message timed_out is_abort) =
      IsCarried json (failure_meta json message timed_out is_abort)

  abbrev pub Delivers : ℕ → ℕ → ℕ → List Bytes → ReadEnd → List Event → World → Type 0
  Delivers my_gen wait_on n chunks end rest w =
      (w' : World) × (rounds json my_gen (patient n) wait_on w
        ≡ yields chunks (ended (outcome_of end) w'))
      × Done rest w'

  -- The end, and a failure.
  rounds-last_window :
      (end : ReadEnd) (asked : Bool) (my_gen limit wait_on n : ℕ) (rest : List Event) (w : World)
      → IsReported end
      → IsOpen asked limit wait_on my_gen w
      → w.script ≡ woken (turn asked (last_window json end)) ∷ rest
      → Delivers my_gen wait_on n [] end rest w
  unfolding last_window end_stream
  rounds-last_window done asked my_gen limit wait_on n rest w c o e =
      let w1 = on_memory (end_stream w.mem) rest w in
      let act = turn asked end_stream in
      let state = ap (λ (mem : Shared). mem.state) (o.go end_stream) in
      (
        reset_idle_if_current my_gen w1,
        rounds-end json my_gen wait_on (patient n) w w1 (
            wait-woken wait_on w act rest e o.parked (rw state o.awaits_end) ∙ λ i.
            (returned (state i), on_memory (o.go end_stream i) rest w)),
        reset-Done my_gen rest w1 o.current refl (record {
          attached = o.attached.attached;
          published = o.attached.published;
          nonempty = o.attached.nonempty;
        }),
      )
  rounds-last_window (failed message timed_out is_abort) asked my_gen limit wait_on n rest w c o e =
      let m = failure_meta json message timed_out is_abort in
      let act = last_window json (failed message timed_out is_abort) in
      let fits : 4 + length (json.dumps_meta m) ≤ length w.mem.region =
        omega (arith, c.fits, o.room.room) in
      let shown : turn asked act w.mem ≡ window_of json s_resp_error 0 m [] w.mem =
        o.go act ∙ write_error_lem json message timed_out is_abort w.mem fits in
      let state = ap (λ (mem : Shared). mem.state) shown in
      let w1 = on_memory (window_of json s_resp_error 0 m [] w.mem) rest w in
      let size = length-region-window_of json s_resp_error 0 m [] w.mem (omega arith) in
      (
        reset_idle_if_current my_gen w1,
        rounds-error json my_gen wait_on (patient n) w w1 (failure message timed_out is_abort)
            (wait-woken wait_on w (turn asked act) rest e o.parked (rw state o.awaits_error) ∙ λ i.
              (returned (state i), on_memory (shown i) rest w))
            (error_from_meta-window_of json message timed_out is_abort w.mem c),
        reset-Done my_gen rest w1 o.current refl (record {
          attached = o.attached.attached ∙ sym size;
          published = o.attached.published;
          nonempty = o.attached.nonempty;
        }),
      )

  -- Behind a message the worker is parked at the acknowledgement.
  pub IsAttached-Delivered :
      (status : ℕ) (script : List Event) (w w' : World)
      → IsAttached w
      → Delivered status script w w'
      → IsAttached w'
  IsAttached-Delivered status script w w' a d = record {
    attached = d.capacity ∙ a.attached ∙ sym d.region;
    published = d.mem_cap ∙ a.published ∙ ap store32 (sym d.capacity);
    nonempty = omega (arith, d.capacity, a.nonempty);
  }

  IsOpen-acked :
      (asked : Bool) (my_gen limit wait_on status : ℕ) (script : List Event) (w w' : World)
      → IsOpen asked limit wait_on my_gen w
      → Delivered status script w w'
      → IsOpen true limit s_chunk_ack my_gen (store_state s_chunk_ack w')
  unfolding store_state
  IsOpen-acked asked my_gen limit wait_on status script w w' o d =
      let r = HasRoom-Delivered json limit status script w w' d o.room in
      let a = IsAttached-Delivered status script w w' o.attached d in
      record {
        room = record { room = r.room; small = r.small };
        parked = refl;
        awaits_chunk = refl;
        awaits_end = refl;
        awaits_error = refl;
        go = λ act. refl;
        current = ap (λ (g : ℕ). is_nat (load32 g) my_gen) d.mem_gen ∙ o.current;
        attached = record { attached = a.attached; published = a.published; nonempty = a.nonempty };
      }

  -- The next message of an open stream.
  pub message_of_open :
      (asked : Bool) (my_gen limit wait_on status : ℕ) (meta : Meta) (bytes : Bytes)
      (first later rest : List Event) (w : World)
      → IsOpen asked limit wait_on my_gen w
      → AreCarried json meta
      → AreCarried json no_meta
      → emit_message json asked limit status meta bytes ≡ some first
      → w.script ≡ (first ++ later) ++ rest
      → Received json wait_on status meta bytes (later ++ rest) w
  unfolding emit_message
  message_of_open asked my_gen limit wait_on status meta bytes first later rest w o cm cn e es =
      message_lem json asked (length bytes) wait_on limit status meta bytes first (later ++ rest) w
        e cm cn (es ∙ append_assoc first later rest) o.room o.parked o.awaits_chunk o.go

  pub rounds-emit_chunks :
      (chunks : List Bytes) (asked : Bool) (my_gen limit wait_on n status : ℕ) (meta : Meta)
      (end : ReadEnd) (events rest : List Event) (w : World)
      → IsReported end
      → IsOpen asked limit wait_on my_gen w
      → AreCarried json meta
      → AreCarried json no_meta
      → length chunks ≤ n
      → emit_chunks json asked limit status meta chunks end ≡ some events
      → w.script ≡ events ++ rest
      → Delivers my_gen wait_on n chunks end rest w
  rounds-emit_chunks [] asked my_gen limit wait_on n status meta end events rest w c o cm cn k e
        es =
      rounds-last_window end asked my_gen limit wait_on n rest w c o (
        es
        ∙ ap (λ (x : List Event). x ++ rest)
            (emit_chunks-nil json asked limit status meta end events e))
  rounds-emit_chunks ([] ∷ chunks) asked my_gen limit wait_on n status meta end events rest w c o cm
        cn k e es =
      rounds-emit_chunks chunks asked my_gen limit wait_on n status meta end events rest w c o cm cn
        (omega arith) (emit_chunks-skip json asked limit status meta chunks end ∙ e) es
  rounds-emit_chunks ((b ∷ bs) ∷ chunks) asked my_gen limit wait_on zero status meta end events rest
        w c o cm cn k e es =
      absurd (omega arith)
  rounds-emit_chunks ((b ∷ bs) ∷ chunks) asked my_gen limit wait_on (suc n) status meta end events
        rest w c o cm cn k e es =
      let (first, later, ef, el, ee) =
        emit_chunks-inv json asked limit status meta b bs chunks end events e in
      let r =
        message_of_open asked my_gen limit wait_on status meta (b ∷ bs) first later rest w o cm cn
          ef (es ∙ ap (λ (x : List Event). x ++ rest) ee) in
      let next =
        IsOpen-acked asked my_gen limit wait_on status (later ++ rest) w r.w' o r.delivered in
      let (w', run, over) =
        rounds-emit_chunks chunks true my_gen limit s_chunk_ack n status no_meta end later rest
          (store_state s_chunk_ack r.w') c next cn cn (omega arith) el
          (store_state-script s_chunk_ack r.w' ∙ r.delivered.script) in
      (
        w',
        rounds-chunk json my_gen wait_on n w r.w1 r.w' (record meta { more = r.more }) (b ∷ bs)
              r.waited r.reassembled
              (ap (λ (g : ℕ). is_nat (load32 g) my_gen) r.delivered.mem_gen ∙ o.current)
            ∙ ap (yielded (b ∷ bs)) run,
        over,
      )
