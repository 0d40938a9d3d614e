-- ===== src/Sab/Protocol/Invariant.antt =====
-- What holds of the worker and the bridge where no wait times out.
use pyspark_client_wasm.Prelude.{ℕ, ◌≡◌, refl, ◌⊎◌, inl, inr, Bool, true, false, arith}
use pyspark_client_wasm.Sab.{RequestKind, unary, server_stream}
use pyspark_client_wasm.Sab.Protocol.{
  Word, idle, req_ready, resp_chunk, resp_end, resp_error, chunk_ack, is_response, WorkerAt,
  outside, posting, reading, holding, parked, BridgeAt, free, leaving, fetching, between_windows,
  windowing, between_chunks, System, init, started, handle_rpc, on_nudge, finally, acknowledged,
  behind_message, write_window, conclude, BridgeStep, nudged, message, window, ended, failed,
  failed_window, next_window, next_chunk, left_windows, left_chunks, over, MayCall, write_request,
  reset_idle, acknowledge, received, WorkerStep, call, post, wake_chunk, wake_end, wake_error,
  wake_unexpected, read_more, read_failed, read_last, resume, close, bridge, worker, expire, Steps,
  here, then_step,
}

-- The words that STATE may have, for where the worker is.
abbrev allowed : WorkerAt → Word → Bool
allowed outside idle = true
allowed outside _ = false
allowed posting idle = false
allowed posting chunk_ack = false
allowed posting _ = true
allowed (parked req_ready) idle = false
allowed (parked req_ready) chunk_ack = false
allowed (parked req_ready) _ = true
allowed (parked chunk_ack) idle = false
allowed (parked chunk_ack) req_ready = false
allowed (parked chunk_ack) _ = true
allowed (parked _) _ = false
allowed reading resp_chunk = true
allowed reading _ = false
allowed holding resp_chunk = true
allowed holding _ = false

-- Whether the bridge's next step writes.
abbrev may_write : BridgeAt → Bool
may_write (fetching _ _) = true
may_write (windowing _ _) = true
may_write _ = false

abbrev is_over : BridgeAt → Bool
is_over free = true
is_over leaving = true
is_over _ = false

abbrev serves : RequestKind → BridgeAt → Bool
serves k (between_windows _ _) = true
serves k (windowing _ _) = true
serves server_stream (between_chunks _) = true
serves server_stream (fetching server_stream _) = true
serves _ _ = false

-- The generation of the bridge's job, where it has one.
abbrev IsJob : RequestKind → ℕ → BridgeAt → Type 0
IsJob kind gen free = Unit
IsJob kind gen leaving = Unit
IsJob kind gen (fetching k g) = (k ≡ kind) × (g ≡ gen)
IsJob kind gen (between_windows k g) = (k ≡ kind) × (g ≡ gen)
IsJob kind gen (windowing k g) = (k ≡ kind) × (g ≡ gen)
IsJob kind gen (between_chunks g) = (server_stream ≡ kind) × (g ≡ gen)

pub MayCall-at : (w : WorkerAt) → MayCall w → (w ≡ outside) ⊎ (w ≡ holding)
MayCall-at outside m = inl refl
MayCall-at holding m = inr refl
MayCall-at posting m = elim m [ ]
MayCall-at reading m = elim m [ ]
MayCall-at (parked e) m = elim m [ ]

pub record Inv (s : System) : Type 0 where
  pub word : allowed s.worker s.state ≡ true
  pub asked :
      s.state ≡ req_ready → (may_write s.bridge ≡ false) ⊎ (s.bridge ≡ fetching s.kind s.gen)
  pub quiet : s.state ≡ idle → may_write s.bridge ≡ false
  pub mine : is_response s.state ≡ true → s.shown ≡ s.gen
  pub more : s.state ≡ resp_chunk → s.more ≡ true → s.bridge ≡ between_windows s.kind s.gen
  pub last_unary : s.state ≡ resp_chunk → s.more ≡ false → s.kind ≡ unary → is_over s.bridge ≡ true
  pub last_stream :
      s.state ≡ resp_chunk
      → s.more ≡ false
      → s.kind ≡ server_stream
      → s.bridge ≡ between_chunks s.gen
  pub ends : s.state ≡ resp_end → is_over s.bridge ≡ true
  pub fails : s.state ≡ resp_error → is_over s.bridge ≡ true
  pub acked : s.state ≡ chunk_ack → serves s.kind s.bridge ≡ true
  pub acked_job : s.state ≡ chunk_ack → IsJob s.kind s.gen s.bridge
  pub holds : s.worker ≡ holding → (s.more ≡ false) × (s.kind ≡ server_stream)

pub init-Inv : Inv init
init-Inv = ground arith

pub BridgeStep-Inv : {s t : System} → BridgeStep s t → Inv s → Inv t
unfolding on_nudge finally handle_rpc started write_window behind_message conclude acknowledged
BridgeStep-Inv (nudged h) i = ground arith
BridgeStep-Inv (message k g true h) i = ground arith
BridgeStep-Inv (message k g false h) i = ground arith
BridgeStep-Inv (window k g true h) i = ground arith
BridgeStep-Inv (window k g false h) i = ground arith
BridgeStep-Inv (ended g h) i = ground arith
BridgeStep-Inv (failed k g h) i = ground arith
BridgeStep-Inv (failed_window k g h) i = ground arith
BridgeStep-Inv (next_window k g h a) i = ground arith
BridgeStep-Inv (next_chunk g h a) i = ground arith
BridgeStep-Inv (left_windows k g h a) i = ground arith
BridgeStep-Inv (left_chunks g h a) i = ground arith
BridgeStep-Inv (over h) i = ground arith

call-Inv : (s : System) (kind : RequestKind) → MayCall s.worker → Inv s → Inv (write_request kind s)
unfolding write_request
call-Inv s kind m i = ground (arith, MayCall-at s.worker m)

pub WorkerStep-Inv : {s t : System} → WorkerStep s t → Inv s → Inv t
unfolding acknowledge received reset_idle
WorkerStep-Inv {s} (call kind m) i = call-Inv s kind m i
WorkerStep-Inv (post h) i = ground arith
WorkerStep-Inv (wake_chunk e h a) i = ground arith
WorkerStep-Inv (wake_end e h a) i = ground arith
WorkerStep-Inv (wake_error e h a) i = ground arith
WorkerStep-Inv (wake_unexpected e h a b) i = ground arith
WorkerStep-Inv (read_more h a) i = ground arith
WorkerStep-Inv (read_failed h) i = ground arith
WorkerStep-Inv (read_last h a) i = ground arith
WorkerStep-Inv (resume h) i = ground arith
WorkerStep-Inv (close h) i = ground arith

-- Every state that is reached without a timeout.
pub Steps-Inv : {s : System} → Steps false init s → Inv s
Steps-Inv here = init-Inv
Steps-Inv (then_step r (bridge b)) = BridgeStep-Inv b (Steps-Inv r)
Steps-Inv (then_step r (worker w)) = WorkerStep-Inv w (Steps-Inv r)
Steps-Inv (then_step r (expire h t)) = absurd (cc (h))
