-- ===== src/Sab/Streams/Served.antt =====
-- The streams that the bridge serves.
use pyspark_client_wasm.Prelude.{
  ℕ, ◌+◌, ◌≤◌, ◌≡◌, refl, sym, ap, ◌∙◌, Bool, false, some, List, ◌∷◌, ◌++◌, ==_iff, length, All,
  Bytes, is_nat,
}
use pyspark_client_wasm.Sab.{Request}
use pyspark_client_wasm.Sab.Memory.{s_req_ready, load32}
use pyspark_client_wasm.Sab.Window.{Meta, no_meta, Json}
use pyspark_client_wasm.Sab.Machine.{Event, World, returned, on_memory}
use pyspark_client_wasm.Sab.Atomics.{Transport, reset_idle_if_current, new_call}
use pyspark_client_wasm.Sab.Atomics.Requests.{IsAttached, needed, write_request-Written}
use pyspark_client_wasm.Sab.Bridge.{payload_capacity, ReadEnd, emit_chunks}
use pyspark_client_wasm.Sab.Bridge.Emission.{emit_chunks-inv}
use pyspark_client_wasm.Sab.Transfer.{AreCarried}
use pyspark_client_wasm.Sab.Transfer.Stale.{IsStale, wait-stale, emit_chunks-IsStale}
use pyspark_client_wasm.Sab.Transfer.Unary.{
  IsBounded, written, HasRoom-Written, Done, current-gen, new_call-IsAttached,
}
use pyspark_client_wasm.Sab.Streams.{
  go_on, Resume, close, yielded, ended, rounds, started, server_stream,
}
use pyspark_client_wasm.Sab.Streams.Rounds.{
  patient, rounds-stale, rounds-close, rounds-newer, rounds-newer,
}
use pyspark_client_wasm.Sab.Streams.Delivery.{
  yields, outcome_of, IsOpen, reset-Done, IsReported, IsAttached-Delivered, message_of_open,
  rounds-emit_chunks,
}

module _ {Time : Type 0} (json : Json Time) (transport : Transport) (hook : Bool)
    (request : Request Time) where
  -- What the request opens, behind the leftovers of an earlier stream: the rounds start in `v`.
  pub record Opened (stale script : List Event) (w : World) : Type 0 where
    pub v : World
    pub runs :
        (consumer : List Resume)
        → server_stream json transport hook request consumer w
          ≡ rounds json (w.gen + 1) consumer s_req_ready v
    pub region : (written json transport hook request w).mem.region ≡ v.mem.region
    pub opens : IsOpen false (payload_capacity v.mem.region) s_req_ready (w.gen + 1) v
    pub scripted : v.script ≡ script
    pub called : v.gen ≡ w.gen + 1

  pub Opened-write_request :
      (stale script : List Event) (w : World)
      → IsAttached w
      → IsBounded (needed json transport hook request (new_call w)) w
      → All IsStale stale
      → w.script ≡ stale ++ script
      → Opened stale script w
  unfolding server_stream started new_call
  Opened-write_request stale script w a b is es =
      let (w1, run, d) =
        write_request-Written json transport hook request (new_call w) (new_call-IsAttached w a) in
      let parked = (==_iff w1.mem.state s_req_ready).1 d.state in
      let (room, _) = HasRoom-Written json transport hook request w w1 b d in
      record {
        v = on_memory w1.mem script w1;
        runs = λ consumer.
            ap (λ x. started json (w.gen + 1) consumer x.0 x.1) run
            ∙ rounds-stale json (w.gen + 1) s_req_ready consumer w1 (on_memory w1.mem script w1)
                (wait-stale s_req_ready w1 stale script (d.script ∙ es) is parked refl);
        region = ap (λ x. x.1.mem.region) run;
        opens = record {
          room = record { room = room.room; small = room.small };
          parked = parked;
          awaits_chunk = refl;
          awaits_end = refl;
          awaits_error = refl;
          go = λ act. refl;
          current = current-gen w w1 b.gen d.mem_gen;
          attached = record {
            attached = d.attached.attached;
            published = d.attached.published;
            nonempty = d.attached.nonempty;
          };
        };
        scripted = refl;
        called = d.gen;
      }

  -- A stream that the bridge answers with a status, headers and chunks of any lengths, until the
  -- reading ends or fails: a consumer that takes all of them gets the chunks, whole and in order,
  -- without the empty ones, and then the end, or the exception for the failure: TransportTimeout if
  -- the timer had fired, TransportAborted for an abort, TransportError for any other. The channel
  -- is idle behind it and ready for the next call, and what the bridge still had to say for a
  -- stream that was left before changes nothing. The numbers fit into the control words, the metas
  -- fit into their zone, and the region is larger than that.
  pub server_stream-emit_chunks :
      (n status : ℕ) (meta : Meta) (chunks : List Bytes) (end : ReadEnd)
      (stale events rest : List Event) (w : World)
      → IsAttached w
      → IsBounded (needed json transport hook request (new_call w)) w
      → AreCarried json meta
      → AreCarried json no_meta
      → IsReported json end
      → length chunks ≤ n
      → All IsStale stale
      → emit_chunks json false
          (payload_capacity (written json transport hook request w).mem.region)
          status
          meta
          chunks
          end
        ≡ some events
      → w.script ≡ stale ++ (events ++ rest)
      → (w' : World) × (server_stream json transport hook request (patient n) w
          ≡ yields chunks (ended (outcome_of end) w'))
        × Done rest w'
  server_stream-emit_chunks n status meta chunks end stale events rest w a b cm cn c k is e es =
      let o = Opened-write_request stale (events ++ rest) w a b is es in
      let (w', run, over) =
        rounds-emit_chunks json chunks false (w.gen + 1) (payload_capacity o.v.mem.region)
          s_req_ready n status meta end events rest o.v c o.opens cm cn k
          (ap (λ (r : Bytes). emit_chunks json false (payload_capacity r) status meta chunks end)
              (sym o.region)
            ∙ e)
          o.scripted in
      (w', o.runs (patient n) ∙ run, over)

  -- A consumer that closes the stream behind its first chunk gets that chunk whole, and the channel
  -- is idle and ready for the next call. What the bridge still had to say for the stream is stale:
  -- it is written only if the worker asks for it. The numbers fit into the control words, the metas
  -- fit into their zone, and the region is larger than that.
  pub server_stream-close :
      (status : ℕ) (meta : Meta) (b : ℕ) (bs : Bytes) (chunks : List Bytes) (end : ReadEnd)
      (consumer : List Resume) (stale events rest : List Event) (w : World)
      → IsAttached w
      → IsBounded (needed json transport hook request (new_call w)) w
      → AreCarried json meta
      → AreCarried json no_meta
      → All IsStale stale
      → emit_chunks json false
          (payload_capacity (written json transport hook request w).mem.region)
          status
          meta
          ((b ∷ bs) ∷ chunks)
          end
        ≡ some events
      → w.script ≡ stale ++ (events ++ rest)
      → (later : List Event) × (w' : World) × (server_stream json transport hook request
            (close ∷ consumer)
            w
          ≡ yielded (b ∷ bs) (ended (returned tt) w'))
        × All IsStale later
        × Done (later ++ rest) w'
  server_stream-close status meta b bs chunks end consumer stale events rest w a bd cm cn is e es =
      let o = Opened-write_request stale (events ++ rest) w a bd is es in
      let limit = payload_capacity o.v.mem.region in
      let (first, later, ef, el, ee) =
        emit_chunks-inv json false limit status meta b bs chunks end events (
          ap
            (λ (r : Bytes).
              emit_chunks json false (payload_capacity r) status meta ((b ∷ bs) ∷ chunks) end)
            (sym o.region)
          ∙ e) in
      let r =
        message_of_open json false (w.gen + 1) limit s_req_ready status meta (b ∷ bs) first later
          rest o.v o.opens cm cn ef (o.scripted ∙ ap (λ (x : List Event). x ++ rest) ee) in
      let current =
        ap (λ (g : ℕ). is_nat (load32 g) (w.gen + 1)) r.delivered.mem_gen ∙ o.opens.current in
      (
        later,
        reset_idle_if_current (w.gen + 1) r.w',
        o.runs (close ∷ consumer)
            ∙ rounds-close json (w.gen + 1) s_req_ready consumer o.v r.w1 r.w'
                (record meta { more = r.more }) (b ∷ bs) r.waited r.reassembled,
        emit_chunks-IsStale json limit status no_meta chunks end later el,
        reset-Done (w.gen + 1) (later ++ rest) r.w' current r.delivered.script (
            IsAttached-Delivered json status (later ++ rest) o.v r.w' o.opens.attached r.delivered),
      )

  -- A consumer that, behind the first chunk of a stream, makes another call on the channel, gets
  -- that chunk whole, and the stream then ends without a change to the shared memory: what the
  -- other call left is as it was. The other call is any change of the state that leaves a
  -- generation other than this stream's. The numbers fit into the control words, the metas fit into
  -- their zone, and the region is larger than that.
  pub server_stream-newer :
      (status : ℕ) (meta : Meta) (b : ℕ) (bs : Bytes) (chunks : List Bytes) (end : ReadEnd)
      (act : World → World) (consumer : List Resume) (stale events rest : List Event) (w : World)
      → IsAttached w
      → IsBounded (needed json transport hook request (new_call w)) w
      → AreCarried json meta
      → AreCarried json no_meta
      → All IsStale stale
      → ((v : World) → v.gen ≡ w.gen + 1 → is_nat (load32 (act v).mem.gen) (w.gen + 1) ≡ false)
      → emit_chunks json false
          (payload_capacity (written json transport hook request w).mem.region)
          status
          meta
          ((b ∷ bs) ∷ chunks)
          end
        ≡ some events
      → w.script ≡ stale ++ (events ++ rest)
      → (later : List Event) × (v : World) × (v.gen ≡ w.gen + 1)
        × (v.script ≡ later ++ rest)
        × (server_stream json transport hook request (go_on act ∷ consumer) w
            ≡ yielded (b ∷ bs) (ended (returned tt) (act v)))
        × All IsStale later
  server_stream-newer status meta b bs chunks end act consumer stale events rest w a bd cm cn is
        newer e es =
      let o = Opened-write_request stale (events ++ rest) w a bd is es in
      let limit = payload_capacity o.v.mem.region in
      let (first, later, ef, el, ee) =
        emit_chunks-inv json false limit status meta b bs chunks end events (
          ap
            (λ (r : Bytes).
              emit_chunks json false (payload_capacity r) status meta ((b ∷ bs) ∷ chunks) end)
            (sym o.region)
          ∙ e) in
      let r =
        message_of_open json false (w.gen + 1) limit s_req_ready status meta (b ∷ bs) first later
          rest o.v o.opens cm cn ef (o.scripted ∙ ap (λ (x : List Event). x ++ rest) ee) in
      let called = r.delivered.gen ∙ o.called in
      (
        later,
        r.w',
        called,
        r.delivered.script,
        o.runs (go_on act ∷ consumer)
            ∙ rounds-newer json (w.gen + 1) s_req_ready act consumer o.v r.w1 r.w'
                (record meta { more = r.more }) (b ∷ bs) r.waited r.reassembled (newer r.w' called),
        emit_chunks-IsStale json limit status no_meta chunks end later el,
      )
