-- ===== src/Sab/Atomics.antt =====
-- worker/sab_channel.py, class _AtomicsBackend: the request, the windows of the response, and the
-- two kinds of call.
pub mod Grow
pub mod Start
pub mod Reassemble
pub mod Requests
pub mod Calls
use pyspark_client_wasm.Prelude.{
  ℕ, zero, suc, ◌+◌, ◌*◌, Bool, true, false, Option, none, some, List, [], ◌∷◌, ◌++◌, ltb, ◌==◌,
  if◌then◌else◌, length, Bytes, Text, is_nat, transport_error, Result, ok, err,
}
use pyspark_client_wasm.Text.{codes}
use pyspark_client_wasm.Dict.{Dict, empty}
use pyspark_client_wasm.Contract.{HttpResponse}
use pyspark_client_wasm.Sab.{Request}
use pyspark_client_wasm.Sab.Memory.{
  Shared, s_idle, s_req_ready, s_resp_chunk, s_resp_end, s_resp_error, s_chunk_ack, store32, load32,
  u32_bytes, put_all,
}
use pyspark_client_wasm.Sab.Window.{Header, Meta, no_meta, Json, read_window, error_from_meta}
use pyspark_client_wasm.Sab.Machine.{
  Event, woken, timed_out, Post, kernel_sab, registered_sab, kernel_rpc, standalone_rpc, World,
  Outcome, returned, raised, blocked, Machine, after, ◌>>=◌, pure, throw, of_result, lift, at_exit,
  try_finally, store_state, wait,
}

pub data Transport : Type 0 where
  kernel standalone : Transport

-- SharedArrayBuffer.new(n): all zero
pub zeros : ℕ → Bytes
zeros zero = []
zeros (suc n) = 0 ∷ zeros n

-- The loop of _grow_data_sab, `while new_cap < min_bytes: new_cap *= 2`. With a capacity of at
-- least 1, min_bytes rounds are enough; none is a loop that does not end.
pub grown_capacity : ℕ → ℕ → ℕ → Option ℕ
grown_capacity zero capacity min_bytes = if ltb capacity min_bytes then none else some capacity
grown_capacity (suc fuel) capacity min_bytes =
    let more = grown_capacity fuel (capacity * 2) min_bytes in
    if ltb capacity min_bytes then more else some capacity

-- How the new buffer is announced; `hook` is whether js.__pcw_register_sab is there.
announce : Transport → Bool → List Post → List Post
announce kernel hook posts = kernel_sab ∷ posts
announce standalone hook posts = if hook then registered_sab ∷ posts else posts

nudge : Transport → Post
nudge kernel = kernel_rpc
nudge standalone = standalone_rpc

-- What a request is in the region: header and body, each behind its length.
unfoldable pub request_pieces : Bytes → Bytes → List Bytes
request_pieces header body =
    u32_bytes (length header) ∷ header ∷ u32_bytes (length body) ∷ body ∷ []

unfoldable pub needed_for : Bytes → Bytes → ℕ
needed_for header body = 4 + length header + 4 + length body

-- _reset_idle_if_current
unfoldable pub reset_idle_if_current : ℕ → World → World
unfolding store_state
reset_idle_if_current my_gen w =
    if is_nat (load32 w.mem.gen) my_gen then store_state s_idle w else w

-- dict(meta.get("headers") or {})
abbrev pub headers_or_empty : Option (Dict Text) → Dict Text
headers_or_empty none = empty
headers_or_empty (some headers) = headers

-- The status of a response is below 2 ^ 31, so that its word is its number.
unfoldable pub response_of : ℕ → Meta × Bytes → HttpResponse
response_of status (meta, body) = record {
  status = status;
  headers = headers_or_empty meta.headers;
  body = body;
}

-- self._gen += 1
unfoldable pub new_call : World → World
new_call w = record w { gen = w.gen + 1 }

pub header_of : {Time : Type 0} → Request Time → ℕ → Header Time
header_of request gen = record {
  kind = request.kind;
  url = request.url;
  headers = request.headers;
  timeout = request.timeout;
  gen = gen;
}

module _ (transport : Transport) (hook : Bool) where
  -- _attach_data, for a buffer with the given bytes
  pub attach_data : Bytes → World → World
  unfolding announce
  attach_data region w = record w {
    mem = record w.mem { region = region; cap = store32 (length region) };
    capacity = length region;
    posts = announce transport hook w.posts;
  }

  attach_grown : Option ℕ → Machine (Unit {0})
  attach_grown none w = (blocked, w)
  attach_grown (some n) w = (returned tt, attach_data (zeros n) w)

  -- _grow_data_sab
  pub grow_data_sab : ℕ → Machine (Unit {0})
  unfolding attach_grown attach_data
  grow_data_sab min_bytes w = attach_grown (grown_capacity min_bytes w.capacity min_bytes) w

  pub ensure_capacity : ℕ → Machine (Unit {0})
  unfolding grow_data_sab
  ensure_capacity needed w =
      if ltb w.capacity needed then grow_data_sab needed w else (returned tt, w)

  -- The stores and the nudge behind the pieces, which end at `off`.
  pub publish : ℕ → Bytes → World → World
  unfolding nudge
  publish off region w = record w {
    mem = record w.mem {
      region = region;
      gen = store32 w.gen;
      size = store32 off;
      seq = 0;
      state = s_req_ready;
    };
    posts = nudge transport ∷ w.posts;
  }

  pub publish_all : Result (ℕ × Bytes) → Machine (Unit {0})
  publish_all (err e) w = (raised e, w)
  publish_all (ok (off, region)) w = (returned tt, publish off region w)

module _ {Time : Type 0} (json : Json Time) (transport : Transport) (hook : Bool) where
  -- _write_request
  pub write_request : Request Time → Machine (Unit {0})
  unfolding header_of request_pieces needed_for ensure_capacity publish_all publish
  write_request request w =
      let header = json.dumps_header (header_of request w.gen) in
      ((do
        _ ← ensure_capacity transport hook (needed_for header request.body)
        (λ w'.
            publish_all transport hook
              (put_all 0 (request_pieces header request.body) w'.mem.region) w'))
        w)

module _ {Time : Type 0} (json : Json Time) where
  -- What the state says behind an acknowledged window.
  next_window : ℕ → Machine (Unit {0})
  next_window state =
      if state == s_resp_error
      then (λ w. throw (error_from_meta json w.mem) w)
      else if state == s_resp_chunk
      then pure tt
      else throw (transport_error (codes "unexpected SAB state while reassembling windows"))

  -- The rounds of _reassemble_windows behind the first window: `parts` is the payload so far. Each
  -- round takes an event of the script or stays parked, so that one round more than there are
  -- events is enough.
  pub reassemble_from : ℕ → Meta → Bytes → Bool → Machine (Meta × Bytes)
  reassemble_from fuel first parts false w = (returned (first, parts), w)
  reassemble_from zero first parts true w = (blocked, w)
  reassemble_from (suc fuel) first parts true w =
      ((do
        state ← (λ w'. wait s_chunk_ack (store_state s_chunk_ack w'))
        _ ← next_window state
        window ← lift (read_window json)
        reassemble_from fuel first (parts ++ window.1) window.0.more)
        w)

  -- _reassemble_windows: the first window's meta, and the payload of all of them
  pub reassemble_windows : Machine (Meta × Bytes)
  unfolding reassemble_from next_window
  reassemble_windows w =
      ((do
        window ← lift (read_window json)
        reassemble_from (suc (length w.script)) window.0 window.1 window.0.more)
        w)

  -- The try block of unary, behind the first wait.
  pub unary_response : ℕ → Machine HttpResponse
  unfolding response_of
  unary_response state w =
      if state == s_resp_error
      then (raised (error_from_meta json w.mem), w)
      else if state == s_resp_chunk
      then ((do message ← reassemble_windows; pure (response_of w.mem.status message)) w)
      else if state == s_resp_end
      then (returned (response_of w.mem.status (no_meta, [])), w)
      else (raised (transport_error (codes "unexpected SAB state for unary")), w)

module _ {Time : Type 0} (json : Json Time) (transport : Transport) (hook : Bool) where
  -- unary: the first wait stands in front of the try block.
  pub unary : Request Time → Machine HttpResponse
  unfolding new_call unary_response
  unary request w =
      let my_gen = w.gen + 1 in
      ((do
        _ ← write_request json transport hook request
        state ← wait s_req_ready
        try_finally (unary_response json state) (reset_idle_if_current my_gen))
        (new_call w))
