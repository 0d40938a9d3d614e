-- ===== src/Sab/Streams/Rounds.antt =====
-- The rounds of server_stream, one by one.
use pyspark_client_wasm.Prelude.{
  false, ℕ, zero, suc, ◌≡◌, refl, sym, ap, ◌∙◌, true, List, [], ◌∷◌, Bytes, Exn, is_nat,
}
use pyspark_client_wasm.Sab.Memory.{s_resp_chunk, s_resp_end, s_resp_error, s_chunk_ack, load32}
use pyspark_client_wasm.Sab.Window.{Meta, Json, error_from_meta}
use pyspark_client_wasm.Sab.Machine.{World, Outcome, returned, raised, store_state, wait}
use pyspark_client_wasm.Sab.Atomics.{reset_idle_if_current, reassemble_windows}
use pyspark_client_wasm.Sab.Streams.{
  Resume, go_on, close, Run, yielded, ended, suspended, leave, acknowledge, resume, on_message,
  on_wait, rounds,
}

-- The consumer of a plain loop takes every chunk and does nothing in between.
abbrev pub patient : ℕ → List Resume
patient zero = []
patient (suc n) = go_on (λ w. w) ∷ patient n

module _ {Time : Type 0} (json : Json Time) where
  on_wait-chunk :
      (my_gen : ℕ) (w1 w' : World) (meta : Meta) (chunk : Bytes) (k : World → Run)
      → reassemble_windows json w1 ≡ (returned (meta, chunk), w')
      → on_wait json my_gen (returned s_resp_chunk) w1 k ≡ yielded chunk (k w')
  unfolding on_wait on_message
  on_wait-chunk my_gen w1 w' meta chunk k e = ap (λ x. on_message json my_gen x.0 x.1 k) e

  on_wait-end :
      (my_gen : ℕ) (w : World) (k : World → Run)
      → on_wait json my_gen (returned s_resp_end) w k
        ≡ ended (returned tt) (reset_idle_if_current my_gen w)
  unfolding on_wait leave
  on_wait-end my_gen w k = refl

  on_wait-error :
      (my_gen : ℕ) (w : World) (e : Exn) (k : World → Run)
      → error_from_meta json w.mem ≡ e
      → on_wait json my_gen (returned s_resp_error) w k
        ≡ ended (raised e) (reset_idle_if_current my_gen w)
  unfolding on_wait leave
  on_wait-error my_gen w e k h = ap (λ x. ended (raised x) (reset_idle_if_current my_gen w)) h

  -- What a round makes of its wait.
  abbrev round_of : ℕ → List Resume → Outcome ℕ × World → Run
  round_of my_gen [] x = on_wait json my_gen x.0 x.1 (λ v. suspended v)
  round_of my_gen (r ∷ consumer) x =
      on_wait json my_gen x.0 x.1 (λ v. resume my_gen r (rounds json my_gen consumer s_chunk_ack) v)

  rounds-wait :
      (my_gen wait_on : ℕ) (consumer : List Resume) (w : World)
      → rounds json my_gen consumer wait_on w ≡ round_of my_gen consumer (wait wait_on w)
  unfolding rounds
  rounds-wait my_gen wait_on [] w = refl
  rounds-wait my_gen wait_on (r ∷ consumer) w = refl

  -- The rounds depend on the state only through their first wait.
  pub rounds-stale :
      (my_gen wait_on : ℕ) (consumer : List Resume) (w v : World)
      → wait wait_on w ≡ wait wait_on v
      → rounds json my_gen consumer wait_on w ≡ rounds json my_gen consumer wait_on v
  rounds-stale my_gen wait_on consumer w v e =
      rounds-wait my_gen wait_on consumer w
      ∙ ap (round_of my_gen consumer) e
      ∙ sym (rounds-wait my_gen wait_on consumer v)

  -- A message.
  rounds-message :
      (my_gen wait_on : ℕ) (r : Resume) (consumer : List Resume) (w w1 w' : World) (meta : Meta)
      (chunk : Bytes)
      → wait wait_on w ≡ (returned s_resp_chunk, w1)
      → reassemble_windows json w1 ≡ (returned (meta, chunk), w')
      → rounds json my_gen (r ∷ consumer) wait_on w
        ≡ yielded chunk (resume my_gen r (rounds json my_gen consumer s_chunk_ack) w')
  rounds-message my_gen wait_on r consumer w w1 w' meta chunk e k =
      rounds-wait my_gen wait_on (r ∷ consumer) w
      ∙ ap (round_of my_gen (r ∷ consumer)) e
      ∙ on_wait-chunk my_gen w1 w' meta chunk
          (λ v. resume my_gen r (rounds json my_gen consumer s_chunk_ack) v) k

  -- A consumer that goes on.
  pub rounds-chunk :
      (my_gen wait_on n : ℕ) (w w1 w' : World) (meta : Meta) (chunk : Bytes)
      → wait wait_on w ≡ (returned s_resp_chunk, w1)
      → reassemble_windows json w1 ≡ (returned (meta, chunk), w')
      → is_nat (load32 w'.mem.gen) my_gen ≡ true
      → rounds json my_gen (patient (suc n)) wait_on w
        ≡ yielded chunk (rounds json my_gen (patient n) s_chunk_ack (store_state s_chunk_ack w'))
  unfolding resume acknowledge
  rounds-chunk my_gen wait_on n w w1 w' meta chunk e r g =
      rounds-message my_gen wait_on (go_on (λ u. u)) (patient n) w w1 w' meta chunk e r ∙ rw g

  -- A consumer that closes the generator.
  pub rounds-close :
      (my_gen wait_on : ℕ) (consumer : List Resume) (w w1 w' : World) (meta : Meta) (chunk : Bytes)
      → wait wait_on w ≡ (returned s_resp_chunk, w1)
      → reassemble_windows json w1 ≡ (returned (meta, chunk), w')
      → rounds json my_gen (close ∷ consumer) wait_on w
        ≡ yielded chunk (ended (returned tt) (reset_idle_if_current my_gen w'))
  unfolding resume leave
  rounds-close my_gen wait_on consumer w w1 w' meta chunk e r =
      rounds-message my_gen wait_on close consumer w w1 w' meta chunk e r

  -- A consumer that makes a newer call in between.
  pub rounds-newer :
      (my_gen wait_on : ℕ) (act : World → World) (consumer : List Resume) (w w1 w' : World)
      (meta : Meta) (chunk : Bytes)
      → wait wait_on w ≡ (returned s_resp_chunk, w1)
      → reassemble_windows json w1 ≡ (returned (meta, chunk), w')
      → is_nat (load32 (act w').mem.gen) my_gen ≡ false
      → rounds json my_gen (go_on act ∷ consumer) wait_on w
        ≡ yielded chunk (ended (returned tt) (act w'))
  unfolding resume acknowledge leave reset_idle_if_current
  rounds-newer my_gen wait_on act consumer w w1 w' meta chunk e r g =
      rounds-message my_gen wait_on (go_on act) consumer w w1 w' meta chunk e r ∙ rw g refl

  -- The end of the stream, and an error.
  pub rounds-end :
      (my_gen wait_on : ℕ) (consumer : List Resume) (w w1 : World)
      → wait wait_on w ≡ (returned s_resp_end, w1)
      → rounds json my_gen consumer wait_on w
        ≡ ended (returned tt) (reset_idle_if_current my_gen w1)
  rounds-end my_gen wait_on [] w w1 e =
      rounds-wait my_gen wait_on [] w
      ∙ ap (round_of my_gen []) e
      ∙ on_wait-end my_gen w1 (λ v. suspended v)
  rounds-end my_gen wait_on (r ∷ consumer) w w1 e =
      rounds-wait my_gen wait_on (r ∷ consumer) w
      ∙ ap (round_of my_gen (r ∷ consumer)) e
      ∙ on_wait-end my_gen w1 (λ v. resume my_gen r (rounds json my_gen consumer s_chunk_ack) v)

  pub rounds-error :
      (my_gen wait_on : ℕ) (consumer : List Resume) (w w1 : World) (x : Exn)
      → wait wait_on w ≡ (returned s_resp_error, w1)
      → error_from_meta json w1.mem ≡ x
      → rounds json my_gen consumer wait_on w ≡ ended (raised x) (reset_idle_if_current my_gen w1)
  rounds-error my_gen wait_on [] w w1 x e h =
      rounds-wait my_gen wait_on [] w
      ∙ ap (round_of my_gen []) e
      ∙ on_wait-error my_gen w1 x (λ v. suspended v) h
  rounds-error my_gen wait_on (r ∷ consumer) w w1 x e h =
      rounds-wait my_gen wait_on (r ∷ consumer) w
      ∙ ap (round_of my_gen (r ∷ consumer)) e
      ∙ on_wait-error my_gen w1 x (λ v. resume my_gen r (rounds json my_gen consumer s_chunk_ack) v)
          h

  -- A wait that raises.
  on_wait-raised :
      (my_gen : ℕ) (w : World) (e : Exn) (k : World → Run)
      → on_wait json my_gen (raised e) w k ≡ ended (raised e) (reset_idle_if_current my_gen w)
  unfolding on_wait leave
  on_wait-raised my_gen w e k = refl

  pub rounds-raised :
      (my_gen wait_on : ℕ) (consumer : List Resume) (w w1 : World) (x : Exn)
      → wait wait_on w ≡ (raised x, w1)
      → rounds json my_gen consumer wait_on w ≡ ended (raised x) (reset_idle_if_current my_gen w1)
  rounds-raised my_gen wait_on [] w w1 x e =
      rounds-wait my_gen wait_on [] w
      ∙ ap (round_of my_gen []) e
      ∙ on_wait-raised my_gen w1 x (λ v. suspended v)
  rounds-raised my_gen wait_on (r ∷ consumer) w w1 x e =
      rounds-wait my_gen wait_on (r ∷ consumer) w
      ∙ ap (round_of my_gen (r ∷ consumer)) e
      ∙ on_wait-raised my_gen w1 x
          (λ v. resume my_gen r (rounds json my_gen consumer s_chunk_ack) v)
