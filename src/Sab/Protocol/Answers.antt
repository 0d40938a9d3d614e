-- ===== src/Sab/Protocol/Answers.antt =====
-- Whose answer the worker reads, and that no request is lost.
use pyspark_client_wasm.Prelude.{◌<◌, ◌≡◌, ◌⊎◌, Bool, true, false, arith}
use pyspark_client_wasm.Sab.Protocol.{
  req_ready, posting, BridgeAt, free, System, init, started, handle_rpc, on_nudge, finally,
  acknowledged, behind_message, write_window, conclude, BridgeStep, nudged, message, window, ended,
  failed, failed_window, next_window, next_chunk, left_windows, left_chunks, over, write_request,
  reset_idle, acknowledge, received, timed_out, WorkerStep, call, post, wake_chunk, wake_end,
  wake_error, wake_unexpected, read_more, read_failed, read_last, resume, close, Timeout, expired,
  bridge, worker, expire, Steps, here, then_step,
}

-- The busy flag.
abbrev pub busy : BridgeAt → Bool
busy free = false
busy _ = true

-- A request that is ready has its nudge before it, or under way, or the bridge will look for it.
abbrev pub IsKept : System → Type 0
IsKept s = s.state ≡ req_ready → (s.worker ≡ posting) ⊎ (0 < s.nudges) ⊎ (busy s.bridge ≡ true)

BridgeStep-IsKept : {s t : System} → BridgeStep s t → IsKept s → IsKept t
unfolding on_nudge finally handle_rpc started write_window behind_message conclude acknowledged
BridgeStep-IsKept (nudged h) i = ground arith
BridgeStep-IsKept (message k g true h) i = ground arith
BridgeStep-IsKept (message k g false h) i = ground arith
BridgeStep-IsKept (window k g true h) i = ground arith
BridgeStep-IsKept (window k g false h) i = ground arith
BridgeStep-IsKept (ended g h) i = ground arith
BridgeStep-IsKept (failed k g h) i = ground arith
BridgeStep-IsKept (failed_window k g h) i = ground arith
BridgeStep-IsKept (next_window k g h a) i = ground arith
BridgeStep-IsKept (next_chunk g h a) i = ground arith
BridgeStep-IsKept (left_windows k g h a) i = ground arith
BridgeStep-IsKept (left_chunks g h a) i = ground arith
BridgeStep-IsKept (over h) i = ground arith

WorkerStep-IsKept : {s t : System} → WorkerStep s t → IsKept s → IsKept t
unfolding write_request acknowledge received reset_idle
WorkerStep-IsKept {s} (call kind m) i = ground arith
WorkerStep-IsKept (post h) i = ground arith
WorkerStep-IsKept (wake_chunk e h a) i = ground arith
WorkerStep-IsKept (wake_end e h a) i = ground arith
WorkerStep-IsKept (wake_error e h a) i = ground arith
WorkerStep-IsKept (wake_unexpected e h a b) i = ground arith
WorkerStep-IsKept (read_more h a) i = ground arith
WorkerStep-IsKept (read_failed h) i = ground arith
WorkerStep-IsKept (read_last h a) i = ground arith
WorkerStep-IsKept (resume h) i = ground arith
WorkerStep-IsKept (close h) i = ground arith

Timeout-IsKept : {s t : System} → Timeout s t → IsKept s → IsKept t
unfolding timed_out reset_idle
Timeout-IsKept (expired e h a) i = ground arith

pub Steps-IsKept : {timeouts : Bool} {s : System} → Steps timeouts init s → IsKept s
Steps-IsKept here = ground arith
Steps-IsKept (then_step r (bridge b)) = BridgeStep-IsKept b (Steps-IsKept r)
Steps-IsKept (then_step r (worker w)) = WorkerStep-IsKept w (Steps-IsKept r)
Steps-IsKept (then_step r (expire h t)) = Timeout-IsKept t (Steps-IsKept r)
