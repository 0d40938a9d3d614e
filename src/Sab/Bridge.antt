-- ===== src/Sab/Bridge.antt =====
-- worker/bridge.js, class Bridge: the main thread reads the request out of the shared memory, and
-- writes the response into it, in windows where it is too large for one.
pub mod Stores
pub mod Windows
pub mod Emission
pub mod Requests
pub mod Failures
use pyspark_client_wasm.Prelude.{
  ◌==◌, true, false, Bool, ℕ, zero, suc, ◌+◌, ◌-◌, Option, none, some, List, [], ◌∷◌, ◌++◌, map,
  ltb, if◌then◌else◌, length, take, drop, Bytes, Text, pos, Result, ok, err, ◌>>=◌,
}
use mathlib.Core.Option
use pyspark_client_wasm.Text.{codes}
use pyspark_client_wasm.Dict.{Dict}
use pyspark_client_wasm.Sab.Memory.{
  Shared, s_resp_chunk, s_resp_end, s_resp_error, s_chunk_ack, meta_zone, store32, u32_bytes,
  put_all, get_u32, subarray,
}
use pyspark_client_wasm.Sab.Window.{Header, Meta, no_meta, Json}
use pyspark_client_wasm.Sab.Machine.{Event, woken, World}

-- _payloadCapacity. Where the region is no larger than the meta zone, the difference of the source
-- is not positive and its loop does not end; here the capacity is 0, and the loop has no result.
unfoldable pub payload_capacity : Bytes → ℕ
payload_capacity region = length region - meta_zone - 4

-- Which buffer this.data is: the one that the worker uses, or a former one, with the bytes that it
-- had when the worker left it.
pub data View : Type 0 where
  current : View
  former : Bytes → View

pub data_of : View → Shared → Bytes
data_of current mem = mem.region
data_of (former bytes) mem = bytes

-- this.data behind a change of the worker's state from `w` to `w'`, where it was the worker's
-- buffer before. A larger buffer is attached once the message with it is handled.
pub view_behind : Bool → World → World → View
view_behind true w w' = current
view_behind false w w' = if ltb w.capacity w'.capacity then former w.mem.region else current

-- The end of a stream.
unfoldable pub end_stream : Shared → Shared
end_stream mem = record mem { size = 0; state = s_resp_end }

-- _awaitWorker, as the bridge meets it: what comes behind an acknowledgement is written only if the
-- worker gives one. If the worker has left the exchange, its state is another one, and the bridge
-- gives up.
abbrev pub turn : Bool → (Shared → Shared) → Shared → Shared
turn false act mem = act mem
turn true act mem = if mem.state == s_chunk_ack then act mem else mem

-- How the reading of the response ends: the end of the body, or an exception with its message,
-- whether the timer had fired, and whether the exception is an AbortError.
pub data ReadEnd : Type 0 where
  done : ReadEnd
  failed : Text → Bool → Bool → ReadEnd

-- The kind of a failure, of fetch or of the reading.
unfoldable pub failure_kind : Bool → Bool → Text
failure_kind timed_out is_abort =
    if timed_out then codes "timeout" else if is_abort then codes "abort" else codes "error"

unfoldable pub joined : Option (List Event) → Option (List Event) → Option (List Event)
joined (some first) (some later) = some (first ++ later)
joined _ _ = none

module _ {Time : Type 0} (json : Json Time) where
  -- _readRequest, from this.data
  pub read_request : View → Shared → Result (Header Time × Bytes)
  unfolding data_of
  read_request view mem = do
    let data_bytes = data_of view mem
    header_len ← get_u32 0 data_bytes
    header ← json.loads_header (subarray 4 (pos (4 + header_len)) data_bytes)
    body_len ← get_u32 (4 + header_len) data_bytes
    let begin = 4 + header_len + 4
    ok (header, subarray begin (pos (begin + body_len)) data_bytes)

  -- The pieces of a window.
  pub window_pieces : Meta → Bytes → List Bytes
  window_pieces meta payload =
      let meta_bytes = json.dumps_meta meta in
      u32_bytes (length meta_bytes) ∷ meta_bytes ∷ payload ∷ []

  -- _writeWindow; what does not fit is refused with a RangeError. What a refused write leaves of
  -- its first pieces is not kept: no control word announces it.
  pub write_window : ℕ → ℕ → Meta → Bytes → Shared → Result Shared
  unfolding window_pieces
  write_window state status meta payload mem = do
    (off, region) ← put_all 0 (window_pieces meta payload) mem.region
    ok (record mem { region = region; status = store32 status; size = store32 off; state = state })

  abbrev pub error_meta : Text → Text → Meta
  error_meta message kind = record no_meta { message = some message; error_kind = some kind }

  pub or_unchanged : Shared → Result Shared → Shared
  or_unchanged mem (ok written) = written
  or_unchanged mem (err _) = mem

  -- _writeError; where even that does not fit, nothing is written
  pub write_error : Text → Text → Shared → Shared
  unfolding write_window or_unchanged
  write_error message kind mem =
      or_unchanged mem (write_window s_resp_error 0 (error_meta message kind) [] mem)

  or_error : Shared → Result Shared → Shared
  unfolding write_error
  or_error mem (ok written) = written
  or_error mem (err _) = write_error (codes "offset is out of bounds") (codes "error") mem

  -- A window as the worker meets it: an exception of the write becomes an error window, by the
  -- handler of handleRpc.
  pub show_window : ℕ → Meta → Bytes → Shared → Shared
  unfolding write_window or_error
  show_window status meta payload mem =
      or_error mem (write_window s_resp_chunk status meta payload mem)

  -- The loop of _emitMessage, as the windows that it writes. `asked` is whether the first one waits
  -- for the worker to ask for it, as all others do. With a capacity of at least 1, as many rounds
  -- as there are bytes are enough, and one for an empty payload; none is a loop that does not end.
  unfoldable pub emit_from : Bool → ℕ → ℕ → ℕ → Meta → Bytes → Option (List Event)
  unfolding show_window
  emit_from asked zero limit status meta bytes = none
  emit_from asked (suc fuel) limit status meta bytes =
      let more = ltb limit (length bytes) in
      let window =
        woken (turn asked (show_window status (record meta { more = more }) (take limit bytes))) in
      let rest = emit_from true fuel limit status no_meta (drop limit bytes) in
      if more then Option.map (λ windows. window ∷ windows) rest else some (window ∷ [])

  -- _emitMessage, for a data region of the given capacity
  unfoldable pub emit_message : Bool → ℕ → ℕ → Meta → Bytes → Option (List Event)
  unfolding emit_from
  emit_message asked limit status meta bytes =
      emit_from asked (suc (length bytes)) limit status meta bytes

  -- What the bridge writes when the reader has no more chunks.
  unfoldable pub last_window : ReadEnd → Shared → Shared
  unfolding end_stream write_error
  last_window done = end_stream
  last_window (failed message timed_out is_abort) =
      write_error message (failure_kind timed_out is_abort)

  -- The loop over the chunks that the reader gives, up to the end of the reading; empty ones are
  -- skipped, and the first message carries the status and the headers. From the second message on
  -- the worker has to ask for it.
  unfoldable pub emit_chunks : Bool → ℕ → ℕ → Meta → List Bytes → ReadEnd → Option (List Event)
  unfolding emit_message last_window joined
  emit_chunks asked limit status meta [] end = some (woken (turn asked (last_window end)) ∷ [])
  emit_chunks asked limit status meta ([] ∷ chunks) end =
      emit_chunks asked limit status meta chunks end
  emit_chunks asked limit status meta ((b ∷ bs) ∷ chunks) end =
      joined (emit_message asked limit status meta (b ∷ bs))
        (emit_chunks true limit status no_meta chunks end)
