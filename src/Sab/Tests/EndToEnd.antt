-- ===== src/Sab/Tests/EndToEnd.antt =====
-- A call through all layers: the answer of Client.Tests, in one window.
use pyspark_client_wasm.Prelude.{
  ℕ, ◌≡◌, refl, ap, ◌∙◌, false, none, some, List, [], ◌∷◌, ◌++◌, arith, Bytes, foreign, Result, ok,
  err, stop, ◌>>=◌,
}
use pyspark_client_wasm.Text.{codes}
use pyspark_client_wasm.Contract.{grpc_path}
use pyspark_client_wasm.Client.{call_unary, first_message}
use pyspark_client_wasm.Client.Tests.{raw, stub, answer_frame, encoded_answer, encoded_request}
use pyspark_client_wasm.Framing.Tests.{ascii, empty-IsMessage, trailer_0, trailer_0_encoded}
use pyspark_client_wasm.Stub.Status.{status_result}
use pyspark_client_wasm.Sab.{Request, SyncBackend, sync_channel}
use pyspark_client_wasm.Sab.Calls.{channel_at}
use pyspark_client_wasm.Sab.Machine.{Event, woken, World, Outcome, returned, raised, blocked}
use pyspark_client_wasm.Sab.Atomics.{kernel, unary, needed_for, new_call}
use pyspark_client_wasm.Sab.Atomics.Requests.{needed}
use pyspark_client_wasm.Sab.Bridge.{payload_capacity, turn, show_window, emit_from, emit_message}
use pyspark_client_wasm.Sab.Transfer.Unary.{IsBounded, written, Done}
use pyspark_client_wasm.Sab.EndToEnd.{IsAtomics, sent, call_unary_delivered}
use pyspark_client_wasm.Sab.Tests.Toy.{
  ok_meta, toy, ok_meta-AreCarried, no_meta-AreCarried, world_of, world_of-IsAttached,
  payload_capacity-world_of,
}

-- A call that never comes back has no result; what stands for it is never looked at.
abbrev result_of : {A : Type 0} → Outcome A → Result A
result_of (returned a) = ok a
result_of (raised e) = err e
result_of blocked = err (foreign (codes "blocked"))

abbrev atomics : SyncBackend ℕ World
atomics = record {
  unary = λ r w. (result_of (unary toy kernel false r w).0, (unary toy kernel false r w).1);
  server_stream = λ r w. (ok stop, w);
}

atomics-IsAtomics : IsAtomics toy kernel false atomics
atomics-IsAtomics = record { returns = λ r w w' resp e. ap (λ x. (result_of x.0, x.1)) e }

abbrev body : Bytes
body = answer_frame ++ trailer_0

abbrev answered : List Event
answered = woken (turn false (show_window toy 200 ok_meta body)) ∷ []

abbrev here : World
here = world_of 5000 answered

abbrev call : Request ℕ
call =
    sent ascii atomics (codes "http://h") (codes "Config") stub [] none
      (0 ∷ 0 ∷ 0 ∷ 0 ∷ 1 ∷ b'x' ∷ [])

needed-call : needed toy kernel false call (new_call here) ≡ 15
needed-call = unfold needed_for in refl

here-IsBounded : IsBounded (needed toy kernel false call (new_call here)) here
here-IsBounded = record {
  gen = omega arith;
  request = omega (arith, needed-call);
  room = omega arith;
  small = omega arith;
}

answered_lem :
    emit_message toy false
      (payload_capacity (written toy kernel false call here).mem.region)
      200
      ok_meta
      body
    ≡ some answered
answered_lem =
    ap (λ (limit : ℕ). emit_message toy false limit 200 ok_meta body)
      (payload_capacity-world_of call 5000 answered (omega arith) (omega (arith, needed-call)))
    ∙ unfold emit_message emit_from in refl

call_unary_delivered_example :
    (w' : World) × (call_unary ascii
        (sync_channel (channel_at atomics (codes "http://h")))
        raw
        stub
        (grpc_path (codes "Config"))
        (b'x' ∷ [])
        (some [])
        none
        here
      ≡ (
        status_result 0 []
            >>= (λ _. first_message ascii raw (grpc_path (codes "Config")) ((b'y' ∷ []) ∷ [])),
        w',
      ))
    × Done [] w'
call_unary_delivered_example =
    call_unary_delivered ascii toy kernel false atomics raw (codes "http://h") (codes "Config") stub
      (b'x' ∷ []) [] none (b'x' ∷ []) (0 ∷ 0 ∷ 0 ∷ 0 ∷ 1 ∷ b'x' ∷ []) 200 ok_meta ((b'y' ∷ []) ∷ [])
      0 [] answer_frame trailer_0 [] answered [] here atomics-IsAtomics refl encoded_request
      empty-IsMessage encoded_answer trailer_0_encoded
      (world_of-IsAttached 5000 answered (omega arith)) here-IsBounded (omega arith)
      ok_meta-AreCarried no_meta-AreCarried tt answered_lem refl
