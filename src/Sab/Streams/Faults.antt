-- ===== src/Sab/Streams/Faults.antt =====
-- Calls that fail: the errors of the bridge, and waits that time out.
use pyspark_client_wasm.Prelude.{
  ◌+◌, ◌≡◌, refl, sym, ap, ◌∙◌, Bool, List, [], ◌∷◌, ◌++◌, arith, ==_iff, All, Text,
}
use pyspark_client_wasm.Sab.{Request}
use pyspark_client_wasm.Sab.Memory.{Shared, s_req_ready, s_resp_error}
use pyspark_client_wasm.Sab.Window.{Json}
use pyspark_client_wasm.Sab.Machine.{Event, woken, timed_out, World, returned, raised, on_memory}
use pyspark_client_wasm.Sab.Machine.Progress.{timeout_error, wait-woken, wait-timed_out}
use pyspark_client_wasm.Sab.Atomics.{Transport, reset_idle_if_current, new_call, unary}
use pyspark_client_wasm.Sab.Atomics.Requests.{IsAttached, needed, write_request-Written}
use pyspark_client_wasm.Sab.Atomics.Calls.{unary-error, unary-raised}
use pyspark_client_wasm.Sab.Bridge.{failure_kind, write_error}
use pyspark_client_wasm.Sab.Bridge.Windows.{IsCarried, window_of, length-region-window_of}
use pyspark_client_wasm.Sab.Bridge.Failures.{
  failure, failure_meta, write_error_lem, error_from_meta-window_of,
}
use pyspark_client_wasm.Sab.Transfer.Stale.{IsStale, wait-stale}
use pyspark_client_wasm.Sab.Transfer.Unary.{
  IsBounded, HasRoom-Written, Done, current-gen, new_call-IsAttached,
}
use pyspark_client_wasm.Sab.Streams.{Resume, ended, server_stream}
use pyspark_client_wasm.Sab.Streams.Rounds.{rounds-raised}
use pyspark_client_wasm.Sab.Streams.Delivery.{reset-Done}
use pyspark_client_wasm.Sab.Streams.Served.{Opened-write_request}

module _ {Time : Type 0} (json : Json Time) (transport : Transport) (hook : Bool)
    (request : Request Time) where
  -- A unary call whose fetch fails raises the exception for the failure, with the bridge's message:
  -- TransportTimeout if the bridge's timer had fired, TransportAborted for an abort, TransportError
  -- for any other. The channel is idle behind it and ready for the next call, and what the bridge
  -- still had to say for a stream that was left before changes nothing. The numbers fit into the
  -- control words, the error goes through JSON, and the region is larger than the meta zone.
  pub unary-write_error :
      (message : Text) (timed is_abort : Bool) (stale rest : List Event) (w : World)
      → IsAttached w
      → IsBounded (needed json transport hook request (new_call w)) w
      → IsCarried json (failure_meta json message timed is_abort)
      → All IsStale stale
      → w.script ≡ stale ++ (woken (write_error json message (failure_kind timed is_abort)) ∷ rest)
      → (w' : World) × (unary json transport hook request w
          ≡ (raised (failure message timed is_abort), w'))
        × Done rest w'
  unfolding new_call
  unary-write_error message timed is_abort stale rest w a b c is es =
      let (w1, run, d) =
        write_request-Written json transport hook request (new_call w) (new_call-IsAttached w a) in
      let act = write_error json message (failure_kind timed is_abort) in
      let m = failure_meta json message timed is_abort in
      let v = on_memory w1.mem (woken act ∷ rest) w1 in
      let parked = (==_iff w1.mem.state s_req_ready).1 d.state in
      let (room, _) = HasRoom-Written json transport hook request w w1 b d in
      let shown : act w1.mem ≡ window_of json s_resp_error 0 m [] w1.mem =
        write_error_lem json message timed is_abort w1.mem (omega (arith, c.fits, room.room)) in
      let state = ap (λ (mem : Shared). mem.state) shown in
      let w2 = on_memory (window_of json s_resp_error 0 m [] w1.mem) rest w1 in
      let size =
        length-region-window_of json s_resp_error 0 m [] w1.mem
          (omega (arith, c.fits, room.room)) in
      (
        reset_idle_if_current (w.gen + 1) w2,
        unary-error json transport hook request w w1 w2 (failure message timed is_abort) run
            (wait-stale s_req_ready w1 stale (woken act ∷ rest) (d.script ∙ es) is parked refl
              ∙ wait-woken s_req_ready v act rest refl parked (rw state refl)
              ∙ λ i. (returned (state i), on_memory (shown i) rest w1))
            (error_from_meta-window_of json message timed is_abort w1.mem c),
        reset-Done (w.gen + 1) rest w2 (current-gen w w1 b.gen d.mem_gen) refl (record {
          attached = d.attached.attached ∙ sym size;
          published = d.attached.published;
          nonempty = d.attached.nonempty;
        }),
      )

  -- Where the bridge says nothing of the call until the first wait times out, both kinds of call
  -- raise TransportTimeout, but only a stream gives the channel back: it is idle behind it, while a
  -- unary call leaves its request standing, as one that is still to be answered. The numbers fit
  -- into the control words, and the region is larger than the meta zone.
  pub unary-timed_out :
      (consumer : List Resume) (stale rest : List Event) (w : World)
      → IsAttached w
      → IsBounded (needed json transport hook request (new_call w)) w
      → All IsStale stale
      → w.script ≡ stale ++ (timed_out ∷ rest)
      → ((w' : World) × (unary json transport hook request w ≡ (raised timeout_error, w'))
          × (w'.mem.state ≡ s_req_ready))
        × ((w' : World) × (server_stream json transport hook request consumer w
              ≡ ended (raised timeout_error) w')
            × Done rest w')
  unfolding new_call
  unary-timed_out consumer stale rest w a b is es =
      let (w1, run, d) =
        write_request-Written json transport hook request (new_call w) (new_call-IsAttached w a) in
      let v = on_memory w1.mem (timed_out ∷ rest) w1 in
      let parked = (==_iff w1.mem.state s_req_ready).1 d.state in
      let o =
        Opened-write_request json transport hook request stale (timed_out ∷ rest) w a b is es in
      let w2 = on_memory o.v.mem rest o.v in
      (
        (
          on_memory w1.mem rest w1,
          unary-raised json transport hook request w w1 (on_memory w1.mem rest w1) timeout_error run
              (wait-stale s_req_ready w1 stale (timed_out ∷ rest) (d.script ∙ es) is parked refl
                ∙ wait-timed_out s_req_ready v rest refl parked),
          d.state,
        ),
        (
          reset_idle_if_current (w.gen + 1) w2,
          o.runs consumer
              ∙ rounds-raised json (w.gen + 1) s_req_ready consumer o.v w2 timeout_error
                  (wait-timed_out s_req_ready o.v rest o.scripted o.opens.parked),
          reset-Done (w.gen + 1) rest w2 o.opens.current refl (record {
            attached = o.opens.attached.attached;
            published = o.opens.attached.published;
            nonempty = o.opens.attached.nonempty;
          }),
        ),
      )
