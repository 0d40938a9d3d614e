-- ===== src/Sab/Tests/Exchange.antt =====
-- Exchanges of the worker with the bridge.
use pyspark_client_wasm.Prelude.{
  ℕ, ◌+◌, ◌≡◌, refl, sym, ap, ◌∙◌, inr, Bool, true, false, some, List, [], ◌∷◌, ◌++◌, arith, All,
  Bytes, is_nat, transport_error, transport_timeout, ok,
}
use pyspark_client_wasm.Text.{codes}
use pyspark_client_wasm.Dict.{empty}
use pyspark_client_wasm.Sab.Memory.{s_req_ready, store32, load32}
use pyspark_client_wasm.Sab.Window.{Meta, no_meta}
use pyspark_client_wasm.Sab.Machine.{Event, woken, timed_out, World, returned, raised}
use pyspark_client_wasm.Sab.Machine.Progress.{timeout_error}
use pyspark_client_wasm.Sab.Atomics.{
  kernel, header_of, zeros, grown_capacity, needed_for, write_request, unary,
}
use pyspark_client_wasm.Sab.Atomics.Grow.{IsGrown, grown_capacity-IsGrown, length-zeros}
use pyspark_client_wasm.Sab.Atomics.Requests.{IsAttached, needed, Written, write_request-Written}
use pyspark_client_wasm.Sab.Bridge.{
  payload_capacity, turn, ReadEnd, failed, read_request, view_behind, show_window, failure_kind,
  write_error, last_window, emit_from, emit_message, end_stream, joined, emit_chunks,
}
use pyspark_client_wasm.Sab.Bridge.Windows.{IsCarried}
use pyspark_client_wasm.Sab.Bridge.Failures.{failure_meta}
use pyspark_client_wasm.Sab.Bridge.Requests.{read_request-write_request}
use pyspark_client_wasm.Sab.Transfer.Stale.{IsStale}
use pyspark_client_wasm.Sab.Transfer.Unary.{written, Done, unary-emit_message}
use pyspark_client_wasm.Sab.Streams.{go_on, close, yielded, ended, server_stream}
use pyspark_client_wasm.Sab.Streams.Rounds.{patient}
use pyspark_client_wasm.Sab.Streams.Served.{
  server_stream-emit_chunks, server_stream-close, server_stream-newer,
}
use pyspark_client_wasm.Sab.Streams.Faults.{unary-write_error, unary-timed_out}
use pyspark_client_wasm.Sab.Tests.Toy.{
  ping, ok_meta, toy, ok_meta-AreCarried, no_meta-AreCarried, world, world-IsAttached,
  world-IsBounded, payload_capacity-written,
}

-- The windows of an exchange.
abbrev window : Bool → Bool → Meta → Bytes → Event
window asked more meta payload =
    woken (turn asked (show_window toy 200 (record meta { more = more }) payload))

-- What an earlier stream left: a chunk, and the end.
abbrev leftovers : List Event
leftovers = window true false no_meta (3 ∷ []) ∷ woken (turn true end_stream) ∷ []

leftovers-IsStale : All IsStale leftovers
leftovers-IsStale = ((_, refl), ((_, refl), tt))

-- A body of two bytes, in two windows.
abbrev two : List Event
two = window false true ok_meta (5 ∷ []) ∷ window true false no_meta (6 ∷ []) ∷ []

unary-emit_message_example :
    (w' : World) × (unary toy kernel false ping (world (leftovers ++ two))
      ≡ (returned (record { status = 200; headers = empty; body = 5 ∷ 6 ∷ [] }), w'))
    × Done [] w'
unary-emit_message_example =
    unary-emit_message toy kernel false ping 200 ok_meta (5 ∷ 6 ∷ []) leftovers two []
      (world (leftovers ++ two)) (world-IsAttached (leftovers ++ two))
      (world-IsBounded (leftovers ++ two)) (omega arith) ok_meta-AreCarried no_meta-AreCarried
      leftovers-IsStale
      (ap (λ (limit : ℕ). emit_message toy false limit 200 ok_meta (5 ∷ 6 ∷ []))
          (payload_capacity-written (leftovers ++ two))
        ∙ unfold emit_message emit_from in refl)
      refl

-- Two chunks with an empty one between them, and then a failure.
abbrev pieces : List Bytes
pieces = (5 ∷ 6 ∷ []) ∷ [] ∷ (7 ∷ []) ∷ []

abbrev broken : ReadEnd
broken = failed (codes "reset") false false

abbrev behind_first : List Event
behind_first = window true false no_meta (7 ∷ []) ∷ woken (turn true (last_window toy broken)) ∷ []

abbrev streamed : List Event
streamed = window false true ok_meta (5 ∷ []) ∷ window true false no_meta (6 ∷ []) ∷ behind_first

streamed_lem :
    (script : List Event)
    → emit_chunks toy false
        (payload_capacity (written toy kernel false ping (world script)).mem.region)
        200
        ok_meta
        pieces
        broken
      ≡ some streamed
streamed_lem script =
    ap (λ (limit : ℕ). emit_chunks toy false limit 200 ok_meta pieces broken)
      (payload_capacity-written script)
    ∙ unfold emit_chunks joined emit_message emit_from in refl

failure-IsCarried : IsCarried toy (failure_meta toy (codes "reset") false false)
failure-IsCarried = record {
  loads_dumps = unfold failure_kind in refl;
  nonempty = omega arith;
  fits = omega arith;
}

server_stream-emit_chunks_example :
    (w' : World) × (server_stream toy kernel false ping (patient 3) (world streamed)
      ≡ yielded
          (5 ∷ 6 ∷ [])
          (yielded (7 ∷ []) (ended (raised (transport_error (codes "reset"))) w')))
    × Done [] w'
server_stream-emit_chunks_example =
    server_stream-emit_chunks toy kernel false ping 3 200 ok_meta pieces broken [] streamed []
      (world streamed) (world-IsAttached streamed) (world-IsBounded streamed) ok_meta-AreCarried
      no_meta-AreCarried failure-IsCarried (omega arith) tt (streamed_lem streamed) refl

server_stream-close_example :
    (later : List Event) × (w' : World) × (server_stream toy kernel false ping
        (close ∷ [])
        (world streamed)
      ≡ yielded (5 ∷ 6 ∷ []) (ended (returned tt) w'))
    × All IsStale later
    × Done (later ++ []) w'
server_stream-close_example =
    server_stream-close toy kernel false ping 200 ok_meta 5 (6 ∷ []) ([] ∷ (7 ∷ []) ∷ []) broken []
      [] streamed [] (world streamed) (world-IsAttached streamed) (world-IsBounded streamed)
      ok_meta-AreCarried no_meta-AreCarried tt (streamed_lem streamed) refl

-- What another call writes before it waits.
abbrev another : World → World
another v = record v {
  mem = record v.mem { gen = store32 (v.gen + 1); state = s_req_ready };
  gen = v.gen + 1;
}

another_newer : (v : World) → v.gen ≡ 0 + 1 → is_nat (load32 (another v).mem.gen) (0 + 1) ≡ false
another_newer v e = ap (λ (n : ℕ). is_nat (load32 (store32 (n + 1))) (0 + 1)) e

server_stream-newer_example :
    (later : List Event) × (v : World) × (v.gen ≡ 0 + 1)
    × (v.script ≡ later ++ [])
    × (server_stream toy kernel false ping (go_on another ∷ []) (world streamed)
        ≡ yielded (5 ∷ 6 ∷ []) (ended (returned tt) (another v)))
    × All IsStale later
server_stream-newer_example =
    server_stream-newer toy kernel false ping 200 ok_meta 5 (6 ∷ []) ([] ∷ (7 ∷ []) ∷ []) broken
      another [] [] streamed [] (world streamed) (world-IsAttached streamed)
      (world-IsBounded streamed) ok_meta-AreCarried no_meta-AreCarried tt another_newer
      (streamed_lem streamed) refl

-- The bridge's timer fires.
abbrev refused : List Event
refused = leftovers ++ (woken (write_error toy (codes "slow") (failure_kind true true)) ∷ [])

slow-IsCarried : IsCarried toy (failure_meta toy (codes "slow") true true)
slow-IsCarried = record {
  loads_dumps = unfold failure_kind in refl;
  nonempty = omega arith;
  fits = omega arith;
}

unary-write_error_example :
    (w' : World) × (unary toy kernel false ping (world refused)
      ≡ (raised (transport_timeout (codes "slow")), w'))
    × Done [] w'
unary-write_error_example =
    unary-write_error toy kernel false ping (codes "slow") true true leftovers [] (world refused)
      (world-IsAttached refused) (world-IsBounded refused) slow-IsCarried leftovers-IsStale refl

abbrev silent : World
silent = world (leftovers ++ (timed_out ∷ []))

unary-timed_out_example :
    ((w' : World) × (unary toy kernel false ping silent ≡ (raised timeout_error, w'))
      × (w'.mem.state ≡ s_req_ready))
    × ((w' : World) × (server_stream toy kernel false ping [] silent
          ≡ ended (raised timeout_error) w')
        × Done [] w')
unary-timed_out_example =
    unary-timed_out toy kernel false ping [] leftovers [] silent
      (world-IsAttached (leftovers ++ (timed_out ∷ [])))
      (world-IsBounded (leftovers ++ (timed_out ∷ []))) leftovers-IsStale refl

-- The request of the first call: its generation is 1.
abbrev called : World
called = record (world []) { gen = 1 }

called-IsAttached : IsAttached called
called-IsAttached = record {
  attached = sym (length-zeros 4101);
  published = refl;
  nonempty = omega arith;
}

called-needed : needed toy kernel false ping called ≡ 10
called-needed = unfold needed_for in refl

read_request-write_request_example :
    (w' : World) × (write_request toy kernel false ping called ≡ (returned tt, w'))
    × (read_request toy (view_behind false called w') w'.mem ≡ ok (header_of ping 1, 9 ∷ []))
read_request-write_request_example =
    read_request-write_request toy kernel false false ping called called-IsAttached refl
      (omega (arith, called-needed)) (inr (omega (arith, called-needed)))

-- A region of 3 bytes, which has to grow.
abbrev small : World
small = record (world []) {
  mem = record (world []).mem { region = zeros 3; cap = 3 };
  capacity = 3;
}

small-IsAttached : IsAttached small
small-IsAttached = record {
  attached = sym (length-zeros 3);
  published = refl;
  nonempty = omega arith;
}

write_request-Written_example :
    (w' : World) × (write_request toy kernel false ping small ≡ (returned tt, w'))
    × Written toy kernel false ping small w'
write_request-Written_example = write_request-Written toy kernel false ping small small-IsAttached

grown_capacity-IsGrown_example : (c : ℕ) × (grown_capacity 10 3 10 ≡ some c) × IsGrown 3 10 c
grown_capacity-IsGrown_example = grown_capacity-IsGrown 10 3 10 (omega arith) (omega arith)
