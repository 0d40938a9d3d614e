-- ===== src/Sab/Atomics/Calls.antt =====
-- unary, step by step.
use pyspark_client_wasm.Prelude.{Exn, ℕ, ◌+◌, ◌≡◌, ap, ◌∙◌, Bool, Bytes}
use pyspark_client_wasm.Contract.{HttpResponse}
use pyspark_client_wasm.Sab.{Request}
use pyspark_client_wasm.Sab.Memory.{s_req_ready, s_resp_chunk, s_resp_error}
use pyspark_client_wasm.Sab.Window.{Meta, Json, error_from_meta}
use pyspark_client_wasm.Sab.Machine.{
  World, returned, raised, Machine, ◌>>=◌, after, at_exit, try_finally, wait,
}
use pyspark_client_wasm.Sab.Atomics.{
  Transport, write_request, reset_idle_if_current, reassemble_windows, response_of, unary_response,
  new_call, unary,
}

module _ {Time : Type 0} (json : Json Time) (transport : Transport) (hook : Bool)
    (request : Request Time) (w : World) where
  -- What unary does behind the request.
  abbrev answering : Machine HttpResponse
  answering w1 =
      ((do
        state ← wait s_req_ready
        try_finally (unary_response json state) (reset_idle_if_current (w.gen + 1)))
        w1)

  unary-written :
      (w1 : World)
      → write_request json transport hook request (new_call w) ≡ (returned tt, w1)
      → unary json transport hook request w ≡ answering w1
  unfolding unary
  unary-written w1 e = ap (λ x. after (λ _. answering) x.0 x.1) e

  answering-waited :
      (w1 w2 : World) (state : ℕ)
      → wait s_req_ready w1 ≡ (returned state, w2)
      → answering w1
        ≡ try_finally (unary_response json state) (reset_idle_if_current (w.gen + 1)) w2
  answering-waited w1 w2 state e =
      ap
        (λ x.
          after (λ s. try_finally (unary_response json s) (reset_idle_if_current (w.gen + 1))) x.0
            x.1)
        e

  unary_response-chunk :
      (w2 w3 : World) (message : Meta × Bytes)
      → reassemble_windows json w2 ≡ (returned message, w3)
      → unary_response json s_resp_chunk w2 ≡ (returned (response_of w2.mem.status message), w3)
  unfolding unary_response
  unary_response-chunk w2 w3 message e = rw e

  pub unary-chunk :
      (w1 w2 w3 : World) (message : Meta × Bytes)
      → write_request json transport hook request (new_call w) ≡ (returned tt, w1)
      → wait s_req_ready w1 ≡ (returned s_resp_chunk, w2)
      → reassemble_windows json w2 ≡ (returned message, w3)
      → unary json transport hook request w
        ≡ (returned (response_of w2.mem.status message), reset_idle_if_current (w.gen + 1) w3)
  unary-chunk w1 w2 w3 message e k r =
      unary-written w1 e
      ∙ answering-waited w1 w2 s_resp_chunk k
      ∙ ap (λ x. at_exit (reset_idle_if_current (w.gen + 1)) x.0 x.1)
          (unary_response-chunk w2 w3 message r)

  -- An error window, whatever it says.
  unary_response-error :
      (w2 : World) (x : Exn)
      → error_from_meta json w2.mem ≡ x
      → unary_response json s_resp_error w2 ≡ (raised x, w2)
  unfolding unary_response
  unary_response-error w2 x e = ap (λ (y : Exn). (raised y, w2)) e

  pub unary-error :
      (w1 w2 : World) (x : Exn)
      → write_request json transport hook request (new_call w) ≡ (returned tt, w1)
      → wait s_req_ready w1 ≡ (returned s_resp_error, w2)
      → error_from_meta json w2.mem ≡ x
      → unary json transport hook request w ≡ (raised x, reset_idle_if_current (w.gen + 1) w2)
  unary-error w1 w2 x e k h =
      unary-written w1 e
      ∙ answering-waited w1 w2 s_resp_error k
      ∙ ap (λ x. at_exit (reset_idle_if_current (w.gen + 1)) x.0 x.1) (unary_response-error w2 x h)

  -- The first wait is not in the try block.
  pub unary-raised :
      (w1 w2 : World) (x : Exn)
      → write_request json transport hook request (new_call w) ≡ (returned tt, w1)
      → wait s_req_ready w1 ≡ (raised x, w2)
      → unary json transport hook request w ≡ (raised x, w2)
  unary-raised w1 w2 x e k =
      unary-written w1 e
      ∙ ap
          (λ y.
            after (λ s. try_finally (unary_response json s) (reset_idle_if_current (w.gen + 1))) y.0
              y.1)
          k
