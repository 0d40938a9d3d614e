-- ===== src/Sab/Protocol/Regions.antt =====
-- Which buffer the bridge looks at: a region that the worker has grown reaches the bridge by a
-- message, while the next request may reach it by the state word alone. Buffers are numbered in the
-- order in which the worker makes them.
use pyspark_client_wasm.Prelude.{
  ℕ, ◌+◌, ◌≡◌, refl, sym, ap, ◌∙◌, ◌≢◌, ◌⊎◌, Bool, true, false, List, [], ◌∷◌, ◌++◌,
}
use pyspark_client_wasm.Sab.Protocol.{
  Word, idle, req_ready, resp_chunk, resp_end, resp_error, chunk_ack, is_response,
}

-- What the worker posts: a new buffer, or the nudge for a request.
pub data Mail : Type 0 where
  sab : ℕ → Mail
  rpc : Mail

-- `owned` is the worker's buffer, `attached` the one that the bridge has, and `mail` what is posted
-- and not yet handled, the oldest first. `read` has the buffers that the bridge has read requests
-- from, the latest first, each with the one that the request was in.
pub record Regions : Type 0 where
  pub state : Word
  pub owned : ℕ
  pub attached : ℕ
  pub mail : List Mail
  pub busy : Bool
  pub read : List (ℕ × ℕ)

-- The first buffer is attached before the first request.
abbrev pub one_buffer : Regions
one_buffer = record { state = idle; owned = 0; attached = 0; mail = []; busy = false; read = [] }

-- _write_request, with or without a larger buffer
unfoldable pub post_request : Bool → Regions → Regions
post_request true r = record r {
  state = req_ready;
  owned = r.owned + 1;
  mail = r.mail ++ (sab (r.owned + 1) ∷ rpc ∷ []);
}
post_request false r = record r { state = req_ready; mail = r.mail ++ (rpc ∷ []) }

-- Behind the busy guard: what a request is read from.
pub read_ready : Word → Regions → Regions
read_ready req_ready r = record r { busy = true; read = (r.attached, r.owned) ∷ r.read }
read_ready _ r = r

pub dispatch : Bool → Regions → Regions
unfolding read_ready
dispatch true r = r
dispatch false r = read_ready r.state r

-- The listener for messages: attach, or handleRpc.
unfoldable pub receive : Mail → Regions → Regions
unfolding dispatch
receive (sab n) r = record r { attached = n }
receive rpc r = dispatch r.busy r

-- The finally block, with its call of handleRpc.
pub finish : Regions → Regions
unfolding dispatch
finish r = dispatch false (record r { busy = false })

pub data RegionStep (r : Regions) : Regions → Type 0 where
  request : (larger : Bool) → r.state ≢ req_ready → RegionStep r (post_request larger r)
  deliver :
      (m : Mail) (mail : List Mail)
      → r.mail ≡ m ∷ mail
      → RegionStep r (receive m (record r { mail = mail }))
  respond :
      (w : Word) → is_response w ≡ true → r.busy ≡ true → RegionStep r (record r { state = w })
  consume :
      (w : Word)
      → (w ≡ idle) ⊎ (w ≡ chunk_ack)
      → r.state ≢ req_ready
      → RegionStep r (record r { state = w })
  leave : r.busy ≡ true → RegionStep r (finish r)

pub data RegionSteps (r : Regions) : Regions → Type 0 where
  here : RegionSteps r r
  then_step : {t u : Regions} → RegionSteps r t → RegionStep t u → RegionSteps r u

-- The buffer that the bridge will have once the mail is handled.
abbrev pub latest : ℕ → List Mail → ℕ
latest n [] = n
latest n (sab m ∷ mail) = latest m mail
latest n (rpc ∷ mail) = latest n mail

latest-append :
    (n : ℕ) (mail more : List Mail) → latest n (mail ++ more) ≡ latest (latest n mail) more
latest-append n [] more = refl
latest-append n (sab m ∷ mail) more = latest-append m mail more
latest-append n (rpc ∷ mail) more = latest-append n mail more

abbrev pub IsAnnounced : Regions → Type 0
IsAnnounced r = latest r.attached r.mail ≡ r.owned

read_ready-IsAnnounced : (w : Word) (r : Regions) → IsAnnounced r → IsAnnounced (read_ready w r)
unfolding read_ready
read_ready-IsAnnounced req_ready r i = i
read_ready-IsAnnounced idle r i = i
read_ready-IsAnnounced resp_chunk r i = i
read_ready-IsAnnounced resp_end r i = i
read_ready-IsAnnounced resp_error r i = i
read_ready-IsAnnounced chunk_ack r i = i

dispatch-IsAnnounced : (busy : Bool) (r : Regions) → IsAnnounced r → IsAnnounced (dispatch busy r)
unfolding dispatch
dispatch-IsAnnounced true r i = i
dispatch-IsAnnounced false r i = read_ready-IsAnnounced r.state r i

RegionStep-IsAnnounced : {r t : Regions} → RegionStep r t → IsAnnounced r → IsAnnounced t
unfolding post_request receive finish
RegionStep-IsAnnounced {r} (request true h) i =
    latest-append r.attached r.mail (sab (r.owned + 1) ∷ rpc ∷ [])
RegionStep-IsAnnounced {r} (request false h) i = latest-append r.attached r.mail (rpc ∷ []) ∙ i
RegionStep-IsAnnounced {r} (deliver (sab n) mail h) i = sym (ap (latest r.attached) h) ∙ i
RegionStep-IsAnnounced {r} (deliver rpc mail h) i =
    dispatch-IsAnnounced r.busy (record r { mail = mail }) (sym (ap (latest r.attached) h) ∙ i)
RegionStep-IsAnnounced (respond w a h) i = i
RegionStep-IsAnnounced (consume w a h) i = i
RegionStep-IsAnnounced {r} (leave h) i = dispatch-IsAnnounced false (record r { busy = false }) i

-- Whether a larger buffer is announced and not yet attached.
abbrev pub announces : List Mail → Bool
announces [] = false
announces (sab n ∷ mail) = true
announces (rpc ∷ mail) = announces mail

latest-announces : (n : ℕ) (mail : List Mail) → announces mail ≡ false → latest n mail ≡ n
latest-announces n [] h = refl
latest-announces n (sab m ∷ mail) h = absurd (cc (h))
latest-announces n (rpc ∷ mail) h = latest-announces n mail h

RegionSteps-IsAnnounced : {r : Regions} → RegionSteps one_buffer r → IsAnnounced r
RegionSteps-IsAnnounced here = refl
RegionSteps-IsAnnounced (then_step rs st) = RegionStep-IsAnnounced st (RegionSteps-IsAnnounced rs)

-- Where no announcement of a buffer waits for the main thread, the bridge has the worker's own
-- buffer, in every state that requests, larger buffers, responses and messages can lead to, so that
-- it reads a request where it was written.
pub RegionSteps-attached :
    {r : Regions} → RegionSteps one_buffer r → announces r.mail ≡ false → r.attached ≡ r.owned
RegionSteps-attached {r} rs h =
    sym (latest-announces r.attached r.mail h) ∙ RegionSteps-IsAnnounced rs

-- Where the bridge is busy with an exchange whose response the worker has taken, the worker can
-- write a request into a larger buffer before the finally block runs: that block finds the request
-- ready, and reads it from the buffer that the bridge has, before the message with the new buffer
-- is handled.
pub finish-stale :
    (r : Regions)
    → r.busy ≡ true
    → r.state ≡ idle
    → (t : Regions) × RegionSteps r t × (t.read ≡ (r.attached, r.owned + 1) ∷ r.read)
unfolding post_request finish dispatch read_ready
finish-stale r b i = (_, then_step (then_step here (request true (λ e. cc (e, i)))) (leave b), refl)
