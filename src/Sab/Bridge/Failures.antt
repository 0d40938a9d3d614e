-- ===== src/Sab/Bridge/Failures.antt =====
-- The errors that the bridge writes, as the worker raises them.
use pyspark_client_wasm.Prelude.{
  ◌+◌, ◌≤◌, ◌≡◌, refl, ap, ◌∙◌, Bool, true, false, some, [], arith, length, Text, Exn,
  transport_error, transport_timeout, transport_aborted,
}
use pyspark_client_wasm.Text.{text_eq}
use pyspark_client_wasm.Sab.Memory.{Shared, s_resp_error}
use pyspark_client_wasm.Sab.Window.{Meta, Json, or_message, error_for, error_of, error_from_meta}
use pyspark_client_wasm.Sab.Bridge.{failure_kind, error_meta, or_unchanged, write_error}
use pyspark_client_wasm.Sab.Bridge.Windows.{
  IsCarried, window_of, write_window_lem, read_meta-window_of,
}

-- The exception for a failure.
abbrev pub failure : Text → Bool → Bool → Exn
failure message true is_abort = transport_timeout message
failure message false true = transport_aborted message
failure message false false = transport_error message

error_for-failure_kind :
    {Time : Type 0} (json : Json Time) (message : Text) (timed_out is_abort : Bool)
    → error_for json message (some (failure_kind timed_out is_abort))
      ≡ failure message timed_out is_abort
unfolding error_for failure_kind text_eq
error_for-failure_kind json message true is_abort = refl
error_for-failure_kind json message false true = refl
error_for-failure_kind json message false false = refl

module _ {Time : Type 0} (json : Json Time) (message : Text) (timed_out is_abort : Bool) where
  abbrev pub failure_meta : Meta
  failure_meta = error_meta json message (failure_kind timed_out is_abort)

  pub write_error_lem :
      (mem : Shared)
      → 4 + length (json.dumps_meta failure_meta) ≤ length mem.region
      → write_error json message (failure_kind timed_out is_abort) mem
        ≡ window_of json s_resp_error 0 failure_meta [] mem
  unfolding write_error or_unchanged
  write_error_lem mem h =
      rw (write_window_lem json s_resp_error 0 failure_meta [] mem (omega arith))

  -- The worker raises what the bridge met.
  pub error_from_meta-window_of :
      (mem : Shared)
      → IsCarried json failure_meta
      → error_from_meta json (window_of json s_resp_error 0 failure_meta [] mem)
        ≡ failure message timed_out is_abort
  unfolding error_from_meta error_of or_message
  error_from_meta-window_of mem c =
      ap (error_of json) (read_meta-window_of json s_resp_error 0 failure_meta [] mem c)
      ∙ error_for-failure_kind json message timed_out is_abort
