-- ===== src/Sab/Protocol/Hazards.antt =====
-- What a wait that timed out can lead to: the bridge does not look at a request's generation.
use pyspark_client_wasm.Prelude.{ℕ, ◌+◌, ◌≡◌, refl, Bool, true, false, arith}
use pyspark_client_wasm.Sab.{RequestKind, unary, server_stream}
use pyspark_client_wasm.Sab.Protocol.{
  req_ready, resp_chunk, chunk_ack, is_response, reading, parked, free, leaving, fetching, System,
  started, handle_rpc, on_nudge, finally, behind_message, write_window, BridgeStep, nudged, message,
  window, ended, failed, failed_window, next_window, next_chunk, left_windows, left_chunks, over,
  fresh, write_request, acknowledge, received, timed_out, call, post, wake_chunk, read_last, resume,
  expired, Step, bridge, worker, expire, Steps, here, then_step,
}
use pyspark_client_wasm.Sab.Protocol.Progress.{WorkerStep-none}

-- A unary call waits, and the bridge has its request in hand.
abbrev pub in_fetch : ℕ → ℕ → Bool → System
in_fetch g shown more = record {
  state = req_ready;
  kind = unary;
  gen = g;
  shown = shown;
  more = more;
  nudges = 0;
  worker = parked req_ready;
  bridge = fetching unary g;
}

-- The call times out, and another one posts its request.
next_call :
    (kind : RequestKind) (g shown : ℕ) (more : Bool)
    → Steps true
        (in_fetch g shown more)
        (record (in_fetch g shown more) { kind = kind; gen = g + 1; nudges = 1 })
unfolding timed_out write_request
next_call kind g shown more =
    then_step
      (then_step (then_step here (expire refl (expired req_ready refl refl)))
        (worker (call kind fresh)))
      (worker (post refl))

-- The new call reads a window.
next_reads :
    (kind : RequestKind) (g shown : ℕ) (more : Bool)
    → Steps true (in_fetch g shown more) (record (in_fetch g shown more) {
      state = resp_chunk;
      kind = kind;
      gen = g + 1;
      shown = g;
      more = false;
      worker = reading;
      bridge = leaving;
    })
unfolding write_window behind_message on_nudge handle_rpc started
next_reads kind g shown more =
    then_step
      (then_step (then_step (next_call kind g shown more) (bridge (nudged (omega arith))))
        (bridge (message unary g false refl)))
      (worker (wake_chunk req_ready refl refl))

-- Where a unary call times out while the bridge has its request in hand, the next call, of either
-- kind, can be given that request's answer as its own: the bridge writes it over the new request,
-- whose nudge the busy guard dropped.
pub in_fetch-stale :
    (kind : RequestKind) (g shown : ℕ) (more : Bool)
    → (t : System) × Steps true (in_fetch g shown more) t
      × (t.worker ≡ reading)
      × (t.kind ≡ kind)
      × (t.gen ≡ g + 1)
      × (t.shown ≡ g)
in_fetch-stale kind g shown more = (_, next_reads kind g shown more, refl, refl, refl, refl)

-- A free bridge without a nudge has nothing to do.
BridgeStep-none : {s t : System} → s.bridge ≡ free → s.nudges ≡ 0 → BridgeStep s t → ⊥
BridgeStep-none b n (nudged h) = omega (arith, n, h)
BridgeStep-none b n (message k g more h) = ground arith
BridgeStep-none b n (window k g more h) = ground arith
BridgeStep-none b n (ended g h) = ground arith
BridgeStep-none b n (failed k g h) = ground arith
BridgeStep-none b n (failed_window k g h) = ground arith
BridgeStep-none b n (next_window k g h a) = ground arith
BridgeStep-none b n (next_chunk g h a) = ground arith
BridgeStep-none b n (left_windows k g h a) = ground arith
BridgeStep-none b n (left_chunks g h a) = ground arith
BridgeStep-none b n (over h) = ground arith

Step-none :
    {s t : System}
    → s.bridge ≡ free
    → s.nudges ≡ 0
    → s.worker ≡ parked s.state
    → is_response s.state ≡ false
    → Step false s t
    → ⊥
Step-none b n p r (bridge st) = BridgeStep-none b n st
Step-none b n p r (worker st) = WorkerStep-none p r st
Step-none b n p r (expire h st) = absurd (cc (h))

-- Where a unary call times out while the bridge has its request in hand, the next call can be a
-- stream that waits for ever: a state `m` can be reached in which this stream reads the late
-- answer, and from it a state `t` in which it waits for the next chunk behind its acknowledgement,
-- with the late answer still the last one written; the bridge is free there and has no nudge before
-- it, and no step of either thread is left but a timeout.
pub in_fetch-stuck :
    (g shown : ℕ) (more : Bool)
    → (m : System) × (t : System) × Steps true (in_fetch g shown more) m
      × (m.worker ≡ reading)
      × (m.kind ≡ server_stream)
      × (m.gen ≡ g + 1)
      × (m.shown ≡ g)
      × Steps true m t
      × (t.worker ≡ parked chunk_ack)
      × (t.state ≡ chunk_ack)
      × (t.kind ≡ server_stream)
      × (t.gen ≡ g + 1)
      × (t.shown ≡ g)
      × (t.bridge ≡ free)
      × (t.nudges ≡ 0)
      × ((u : System) → Step false t u → ⊥)
unfolding received finally acknowledge handle_rpc started
in_fetch-stuck g shown more = (
  _,
  _,
  next_reads server_stream g shown more,
  refl,
  refl,
  refl,
  refl,
  then_step (then_step (then_step here (worker (read_last refl refl))) (bridge (over refl)))
      (worker (resume refl)),
  refl,
  refl,
  refl,
  refl,
  refl,
  refl,
  refl,
  λ u st. Step-none refl refl refl refl st,
)
