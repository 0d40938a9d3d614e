-- ===== src/Sab/Protocol/Progress.antt =====
-- That a worker which waits is woken.
use pyspark_client_wasm.Prelude.{
  ℕ, zero, suc, ◌+◌, ◌<◌, ◌≡◌, refl, sym, ap, ◌∙◌, ◌⊎◌, inl, inr, true, false, some, arith,
}
use pyspark_client_wasm.Sab.Protocol.{
  Word, req_ready, resp_chunk, resp_end, resp_error, chunk_ack, is_response, parked, BridgeAt, free,
  leaving, fetching, between_windows, windowing, between_chunks, System, init, started, handle_rpc,
  on_nudge, finally, acknowledged, behind_message, write_window, conclude, BridgeStep, nudged,
  message, window, ended, failed, failed_window, next_window, next_chunk, left_windows, left_chunks,
  over, WorkerStep, call, post, wake_chunk, wake_end, wake_error, wake_unexpected, read_more,
  read_failed, read_last, resume, close, Step, bridge, worker, expire, Steps, then_step,
}
use pyspark_client_wasm.Sab.Protocol.Invariant.{Inv, Steps-Inv, MayCall-at}
use pyspark_client_wasm.Sab.Protocol.Answers.{busy, IsKept, Steps-IsKept}

-- The worker is woken at last, whichever steps are taken: one of its own steps is possible, or some
-- step is, and it is woken behind each.
pub data Wakes : System → Type 0 where
  now : {s t : System} → WorkerStep s t → Wakes s
  later : {s t : System} → Step false s t → ((u : System) → Step false s u → Wakes u) → Wakes s

-- The bridge's steps up to its next write, without the nudges.
abbrev rank : BridgeAt → ℕ
rank (between_windows _ _) = 3
rank (between_chunks _) = 3
rank leaving = 2
rank free = 1
rank (fetching _ _) = 0
rank (windowing _ _) = 0

abbrev to_go : System → ℕ
to_go s = rank s.bridge + s.nudges

-- The worker stands still, and the bridge has answered or come nearer to it.
abbrev Nearer : System → System → Type 0
Nearer s t =
    (t.worker ≡ s.worker)
    × ((is_response t.state ≡ true) ⊎ ((t.state ≡ s.state) × (to_go t < to_go s)))

BridgeStep-Nearer : {s t : System} → BridgeStep s t → Nearer s t
unfolding on_nudge finally handle_rpc started write_window behind_message conclude acknowledged
BridgeStep-Nearer (nudged h) = ground arith
BridgeStep-Nearer (message k g true h) = ground arith
BridgeStep-Nearer (message k g false h) = ground arith
BridgeStep-Nearer (window k g true h) = ground arith
BridgeStep-Nearer (window k g false h) = ground arith
BridgeStep-Nearer (ended g h) = ground arith
BridgeStep-Nearer (failed k g h) = ground arith
BridgeStep-Nearer (failed_window k g h) = ground arith
BridgeStep-Nearer (next_window k g h a) = ground arith
BridgeStep-Nearer (next_chunk g h a) = ground arith
BridgeStep-Nearer (left_windows k g h a) = ground arith
BridgeStep-Nearer (left_chunks g h a) = ground arith
BridgeStep-Nearer (over h) = ground arith

-- In _awaitWorker the bridge sees an acknowledgement, or that the worker has left.
awaits :
    (w : Word)
    → (w ≡ req_ready) ⊎ (w ≡ chunk_ack)
    → (acknowledged w ≡ some true) ⊎ (acknowledged w ≡ some false)
unfolding acknowledged
awaits w h = ground arith

-- A busy bridge that does not wait for another word can go on.
busy_goes :
    (s : System) (b : BridgeAt)
    → s.bridge ≡ b
    → (s.state ≡ req_ready) ⊎ (s.state ≡ chunk_ack)
    → busy b ≡ true
    → (t : System) × BridgeStep s t
busy_goes s free h w e = absurd (cc (e))
busy_goes s leaving h w e = (_, over h)
busy_goes s (fetching k g) h w e = (_, failed k g h)
busy_goes s (windowing k g) h w e = (_, failed_window k g h)
busy_goes s (between_windows k g) h w e = elim (awaits s.state w) [
  | inl a ↦ (_, next_window k g h a)
  | inr a ↦ (_, left_windows k g h a)
]
busy_goes s (between_chunks g) h w e = elim (awaits s.state w) [
  | inl a ↦ (_, next_chunk g h a)
  | inr a ↦ (_, left_chunks g h a)
]

-- What the bridge may do where the worker waits.
waited_for :
    {s : System}
    → Inv s
    → IsKept s
    → s.worker ≡ parked s.state
    → ((s.state ≡ req_ready) ⊎ (s.state ≡ chunk_ack)) × ((busy s.bridge ≡ true) ⊎ (0 < s.nudges))
waited_for i k h = ground arith

-- Where a request is ready or a chunk is acknowledged, the bridge can go on.
bridge_goes :
    (s : System) → Inv s → IsKept s → s.worker ≡ parked s.state → (t : System) × BridgeStep s t
bridge_goes s i k h =
    let w = waited_for i k h in
    elim w.1 [ inl b ↦ busy_goes s s.bridge refl w.0 b | inr n ↦ (_, nudged n) ]

response_word :
    (w : Word) → is_response w ≡ true → (w ≡ resp_chunk) ⊎ (w ≡ resp_end) ⊎ (w ≡ resp_error)
response_word w h = ground arith

-- A worker that met a response is woken.
response-Wakes :
    (s : System) (e : Word) → s.worker ≡ parked e → is_response s.state ≡ true → Wakes s
response-Wakes s e h r = elim (response_word s.state r) [
  | inl a ↦ now (wake_chunk e h a)
  | inr b ↦ elim b [ inl a ↦ now (wake_end e h a) | inr a ↦ now (wake_error e h a) ]
]

-- A worker that waits has no step of its own.
pub WorkerStep-none :
    {s t : System} → s.worker ≡ parked s.state → is_response s.state ≡ false → WorkerStep s t → ⊥
WorkerStep-none {s} p r (call kind m) = ground (arith, MayCall-at s.worker m)
WorkerStep-none p r (post h) = ground arith
WorkerStep-none p r (wake_chunk e h a) = ground arith
WorkerStep-none p r (wake_end e h a) = ground arith
WorkerStep-none p r (wake_error e h a) = ground arith
WorkerStep-none p r (wake_unexpected e h a b) = ground arith
WorkerStep-none p r (read_more h a) = ground arith
WorkerStep-none p r (read_failed h) = ground arith
WorkerStep-none p r (read_last h a) = ground arith
WorkerStep-none p r (resume h) = ground arith
WorkerStep-none p r (close h) = ground arith

waiting_word : {s : System} → Inv s → s.worker ≡ parked s.state → is_response s.state ≡ false
waiting_word i h = ground arith

Step-Nearer : {s t : System} → Inv s → s.worker ≡ parked s.state → Step false s t → Nearer s t
Step-Nearer i h (bridge b) = BridgeStep-Nearer b
Step-Nearer i h (worker w) = absurd (WorkerStep-none h (waiting_word i h) w)
Step-Nearer i h (expire a t) = absurd (cc (a))

-- One step: the worker is woken behind it, or waits on with less to do.
step-Wakes :
    (s t : System)
    → Nearer s t
    → s.worker ≡ parked s.state
    → (to_go t < to_go s → t.worker ≡ parked t.state → Wakes t)
    → Wakes t
step-Wakes s t c h f = elim c.1 [
  | inl a ↦ response-Wakes t s.state (c.0 ∙ h) a
  | inr a ↦ f a.1 (c.0 ∙ h ∙ ap parked (sym a.0))
]

-- By induction on a bound of what is left to do.
to_go-Wakes :
    (n : ℕ) {s : System} → to_go s < n → Steps false init s → s.worker ≡ parked s.state → Wakes s
to_go-Wakes zero l r h = absurd (omega arith)
to_go-Wakes (suc n) {s} l r h =
    let i = Steps-Inv r in
    let b = bridge_goes s i (Steps-IsKept r) h in
    later (bridge b.1) (λ u st.
      step-Wakes s u (Step-Nearer i h st) h
        (λ m p. to_go-Wakes n (omega (arith, m, l)) (then_step r st) p))

-- Where no wait times out, a worker that waits on the word that STATE has is woken in the end,
-- whichever steps of the two threads are taken, given that each fetch and each read of its body
-- comes to an end and that the region has room for an error window: there is no deadlock, neither
-- behind a stream that was left nor behind a nudge that the busy guard dropped.
pub Steps-Wakes : {s : System} → Steps false init s → s.worker ≡ parked s.state → Wakes s
Steps-Wakes {s} r h = to_go-Wakes (suc (to_go s)) (omega arith) r h
