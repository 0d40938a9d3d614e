-- ===== src/Sab/Streams.antt =====
-- worker/sab_channel.py, _AtomicsBackend.server_stream: a generator, which runs between the steps
-- of its consumer.
pub mod Rounds
pub mod Delivery
pub mod Served
pub mod Faults
use pyspark_client_wasm.Prelude.{
  ℕ, ◌+◌, Bool, List, [], ◌∷◌, ◌==◌, if◌then◌else◌, Bytes, Text, is_nat, transport_error,
}
use pyspark_client_wasm.Text.{codes}
use pyspark_client_wasm.Sab.{Request}
use pyspark_client_wasm.Sab.Memory.{
  s_req_ready, s_resp_chunk, s_resp_end, s_resp_error, s_chunk_ack, load32,
}
use pyspark_client_wasm.Sab.Window.{Meta, Json, error_from_meta}
use pyspark_client_wasm.Sab.Machine.{World, Outcome, returned, raised, blocked, store_state, wait}
use pyspark_client_wasm.Sab.Atomics.{
  Transport, write_request, reset_idle_if_current, reassemble_windows, new_call,
}

-- What the consumer does with a chunk: it goes on, having used the backend for other calls in
-- between (they change the same state), or it closes the generator. Where the list ends, it leaves
-- the generator alone.
pub data Resume : Type 0 where
  go_on : (World → World) → Resume
  close : Resume

-- The run of the generator, with the state where it ended, or where it was left suspended.
pub data Run : Type 0 where
  yielded : Bytes → Run → Run
  ended : Outcome (Unit {0}) → World → Run
  suspended : World → Run

module _ (my_gen : ℕ) where
  -- The `finally` block, behind a return or an exception.
  leave : Outcome (Unit {0}) → World → Run
  leave blocked w = ended blocked w
  leave (returned _) w = ended (returned tt) (reset_idle_if_current my_gen w)
  leave (raised e) w = ended (raised e) (reset_idle_if_current my_gen w)

  -- The test behind the yield, and the acknowledgement.
  acknowledge : (World → Run) → World → Run
  acknowledge rounds w =
      if is_nat (load32 w.mem.gen) my_gen
      then rounds (store_state s_chunk_ack w)
      else leave (returned tt) w

  -- Behind a chunk; `rounds` is the loop for what the consumer does next.
  resume : Resume → (World → Run) → World → Run
  unfolding leave acknowledge
  resume close rounds w = leave (returned tt) w
  resume (go_on act) rounds w = acknowledge rounds (act w)

module _ {Time : Type 0} (json : Json Time) where
  on_message : ℕ → Outcome (Meta × Bytes) → World → (World → Run) → Run
  unfolding leave
  on_message my_gen (returned (_, chunk)) w k = yielded chunk (k w)
  on_message my_gen (raised e) w k = leave my_gen (raised e) w
  on_message my_gen blocked w k = leave my_gen blocked w

  on_wait : ℕ → Outcome ℕ → World → (World → Run) → Run
  unfolding on_message leave
  on_wait my_gen blocked w k = leave my_gen blocked w
  on_wait my_gen (raised e) w k = leave my_gen (raised e) w
  on_wait my_gen (returned state) w k =
      if state == s_resp_end
      then leave my_gen (returned tt) w
      else if state == s_resp_error
      then leave my_gen (raised (error_from_meta json w.mem)) w
      else if state == s_resp_chunk
      then on_message my_gen (reassemble_windows json w).0 (reassemble_windows json w).1 k
      else leave my_gen (raised (transport_error (codes "unexpected SAB state in stream"))) w

  -- The loop of the generator, for a list of what the consumer does with the chunks.
  pub rounds : ℕ → List Resume → ℕ → World → Run
  unfolding on_wait resume
  rounds my_gen [] wait_on w =
      on_wait my_gen (wait wait_on w).0 (wait wait_on w).1 (λ w'. suspended w')
  rounds my_gen (r ∷ consumer) wait_on w =
      on_wait my_gen (wait wait_on w).0 (wait wait_on w).1
        (λ w'. resume my_gen r (rounds my_gen consumer s_chunk_ack) w')

  pub started : ℕ → List Resume → Outcome (Unit {0}) → World → Run
  unfolding rounds
  started my_gen consumer (returned _) w = rounds my_gen consumer s_req_ready w
  started my_gen consumer (raised e) w = ended (raised e) w
  started my_gen consumer blocked w = ended blocked w

  pub server_stream : Transport → Bool → Request Time → List Resume → World → Run
  unfolding started
  server_stream transport hook request consumer w =
      started (w.gen + 1) consumer (write_request json transport hook request (new_call w)).0
        (write_request json transport hook request (new_call w)).1
