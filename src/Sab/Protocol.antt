-- ===== src/Sab/Protocol.antt =====
-- The worker and the main thread as one system, with the steps of both in any order: what
-- worker/sab_channel.py and worker/bridge.js do with STATE, the nudges and the busy flag. The bytes
-- are left out; of a response it is kept whose it is.
pub mod Invariant
pub mod Answers
pub mod Progress
pub mod Hazards
pub mod Refinement
pub mod Regions
use pyspark_client_wasm.Prelude.{ℕ, ◌+◌, ◌-◌, ◌<◌, ◌≡◌, ◌≢◌, Bool, true, false, Option, none, some}
use pyspark_client_wasm.Sab.{RequestKind, unary, server_stream}

-- What STATE holds.
pub data Word : Type 0 where
  idle req_ready resp_chunk resp_end resp_error chunk_ack : Word

-- What the bridge writes.
abbrev pub is_response : Word → Bool
is_response resp_chunk = true
is_response resp_end = true
is_response resp_error = true
is_response _ = false

-- Where the worker is: outside of a call, between the store of REQ_READY and the nudge, in _wait on
-- a word, behind it with a window to read, or suspended behind a yield.
pub data WorkerAt : Type 0 where
  outside posting reading holding : WorkerAt
  parked : Word → WorkerAt

-- Where handleRpc is: not running (the busy flag is not set), before the next message (in fetch, in
-- arrayBuffer, or in reader.read), in _awaitWorker between two windows, about to write the next
-- window, in _awaitWorker between two chunks, or before its finally block. A job is the kind and
-- the generation of the request that was read.
pub data BridgeAt : Type 0 where
  free leaving : BridgeAt
  fetching between_windows windowing : RequestKind → ℕ → BridgeAt
  between_chunks : ℕ → BridgeAt

-- `kind` and `gen` are those of the latest request, `shown` is the generation that the window in
-- the region answers, `more` is its flag, and `nudges` counts the messages that wait for the main
-- thread.
pub record System : Type 0 where
  pub state : Word
  pub kind : RequestKind
  pub gen : ℕ
  pub shown : ℕ
  pub more : Bool
  pub nudges : ℕ
  pub worker : WorkerAt
  pub bridge : BridgeAt

abbrev pub init : System
init = record {
  state = idle;
  kind = unary;
  gen = 0;
  shown = 0;
  more = false;
  nudges = 0;
  worker = outside;
  bridge = free;
}

-- The guards of handleRpc: nothing while it is busy, or where no request is ready.
unfoldable pub started : BridgeAt → Word → RequestKind → ℕ → BridgeAt
started free req_ready kind gen = fetching kind gen
started free _ kind gen = free
started b _ kind gen = b

unfoldable pub handle_rpc : System → System
unfolding started
handle_rpc s = record s { bridge = started s.bridge s.state s.kind s.gen }

-- The message of a nudge.
unfoldable pub on_nudge : System → System
unfolding handle_rpc
on_nudge s = handle_rpc (record s { nudges = s.nudges - 1 })

-- The finally block: what became ready meanwhile is handled now.
pub finally : System → System
unfolding handle_rpc
finally s = handle_rpc (record s { bridge = free })

-- _awaitWorker: the acknowledgement, or that the worker has left; none is to wait on.
pub acknowledged : Word → Option Bool
acknowledged chunk_ack = some true
acknowledged idle = some false
acknowledged req_ready = some false
acknowledged _ = none

-- Where the bridge is behind a message's last window.
pub behind_message : RequestKind → ℕ → BridgeAt
behind_message unary gen = leaving
behind_message server_stream gen = between_chunks gen

-- A window of a message.
unfoldable pub write_window : RequestKind → ℕ → Bool → System → System
unfolding behind_message
write_window kind gen true s = record s {
  state = resp_chunk;
  shown = gen;
  more = true;
  bridge = between_windows kind gen;
}
write_window kind gen false s = record s {
  state = resp_chunk;
  shown = gen;
  more = false;
  bridge = behind_message kind gen;
}

-- The end of a stream, or an error.
pub conclude : Word → ℕ → System → System
conclude word gen s = record s { state = word; shown = gen; bridge = leaving }

-- A step from one access of STATE to the next. `failed` and `failed_window` are the error windows,
-- and the region is taken to have room for one.
pub data BridgeStep (s : System) : System → Type 0 where
  nudged : 0 < s.nudges → BridgeStep s (on_nudge s)
  message :
      (k : RequestKind) (g : ℕ) (more : Bool)
      → s.bridge ≡ fetching k g
      → BridgeStep s (write_window k g more s)
  window :
      (k : RequestKind) (g : ℕ) (more : Bool)
      → s.bridge ≡ windowing k g
      → BridgeStep s (write_window k g more s)
  ended : (g : ℕ) → s.bridge ≡ fetching server_stream g → BridgeStep s (conclude resp_end g s)
  failed :
      (k : RequestKind) (g : ℕ) → s.bridge ≡ fetching k g → BridgeStep s (conclude resp_error g s)
  failed_window :
      (k : RequestKind) (g : ℕ) → s.bridge ≡ windowing k g → BridgeStep s (conclude resp_error g s)
  next_window :
      (k : RequestKind) (g : ℕ)
      → s.bridge ≡ between_windows k g
      → acknowledged s.state ≡ some true
      → BridgeStep s (record s { bridge = windowing k g })
  next_chunk :
      (g : ℕ)
      → s.bridge ≡ between_chunks g
      → acknowledged s.state ≡ some true
      → BridgeStep s (record s { bridge = fetching server_stream g })
  left_windows :
      (k : RequestKind) (g : ℕ)
      → s.bridge ≡ between_windows k g
      → acknowledged s.state ≡ some false
      → BridgeStep s (record s { bridge = leaving })
  left_chunks :
      (g : ℕ)
      → s.bridge ≡ between_chunks g
      → acknowledged s.state ≡ some false
      → BridgeStep s (record s { bridge = leaving })
  over : s.bridge ≡ leaving → BridgeStep s (finally s)

-- A call may begin where none is running, and where a stream is suspended: that one is stale then,
-- and changes nothing any more.
pub data MayCall : WorkerAt → Type 0 where
  fresh : MayCall outside
  abandoning : MayCall holding

-- _write_request, up to the store of STATE.
unfoldable pub write_request : RequestKind → System → System
write_request kind s = record s {
  state = req_ready;
  kind = kind;
  gen = s.gen + 1;
  worker = posting;
}

-- _reset_idle_if_current, by the current call
pub reset_idle : System → System
reset_idle s = record s { state = idle; worker = outside }

pub acknowledge : System → System
acknowledge s = record s { state = chunk_ack; worker = parked chunk_ack }

-- Behind the last window of a message: unary returns, and a stream yields.
pub received : RequestKind → System → System
unfolding reset_idle
received unary s = reset_idle s
received server_stream s = record s { worker = holding }

-- A wait that times out: only the first wait of unary stands outside of the try block.
pub timed_out : RequestKind → Word → System → System
unfolding reset_idle
timed_out unary req_ready s = record s { worker = outside }
timed_out _ _ s = reset_idle s

pub data WorkerStep (s : System) : System → Type 0 where
  call : (kind : RequestKind) → MayCall s.worker → WorkerStep s (write_request kind s)
  post :
      s.worker ≡ posting
      → WorkerStep s (record s { nudges = s.nudges + 1; worker = parked req_ready })
  wake_chunk :
      (e : Word)
      → s.worker ≡ parked e
      → s.state ≡ resp_chunk
      → WorkerStep s (record s { worker = reading })
  wake_end : (e : Word) → s.worker ≡ parked e → s.state ≡ resp_end → WorkerStep s (reset_idle s)
  wake_error : (e : Word) → s.worker ≡ parked e → s.state ≡ resp_error → WorkerStep s (reset_idle s)
  wake_unexpected :
      (e : Word)
      → s.worker ≡ parked e
      → s.state ≢ e
      → is_response s.state ≡ false
      → WorkerStep s (reset_idle s)
  read_more : s.worker ≡ reading → s.more ≡ true → WorkerStep s (acknowledge s)
  read_failed : s.worker ≡ reading → WorkerStep s (reset_idle s)
  read_last : s.worker ≡ reading → s.more ≡ false → WorkerStep s (received s.kind s)
  resume : s.worker ≡ holding → WorkerStep s (acknowledge s)
  close : s.worker ≡ holding → WorkerStep s (reset_idle s)

-- A wait on a word that does not change ends by its timeout.
pub data Timeout (s : System) : System → Type 0 where
  expired : (e : Word) → s.worker ≡ parked e → s.state ≡ e → Timeout s (timed_out s.kind e s)

-- The steps of the system, with or without timeouts.
pub data Step (timeouts : Bool) (s : System) : System → Type 0 where
  bridge : {t : System} → BridgeStep s t → Step timeouts s t
  worker : {t : System} → WorkerStep s t → Step timeouts s t
  expire : {t : System} → timeouts ≡ true → Timeout s t → Step timeouts s t

pub data Steps (timeouts : Bool) (s : System) : System → Type 0 where
  here : Steps timeouts s s
  then_step : {t u : System} → Steps timeouts s t → Step timeouts t u → Steps timeouts s u
