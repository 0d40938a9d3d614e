-- ===== src/Sab/Transfer/Unary.antt =====
-- A unary call over the bridge.
use pyspark_client_wasm.Prelude.{
  All, false, ℕ, ◌+◌, ◌^◌, ◌<◌, ◌≡◌, refl, sym, ap, ◌∙◌, Bool, true, some, List, ◌++◌, arith,
  ==_iff, length, Bytes, ℤ, is_nat,
}
use pyspark_client_wasm.Sab.{Request}
use pyspark_client_wasm.Sab.Memory.{s_idle, s_req_ready, meta_zone, store32, load32}
use pyspark_client_wasm.Sab.Memory.Layout.{load32-store32}
use pyspark_client_wasm.Sab.Window.{Meta, no_meta, Json}
use pyspark_client_wasm.Sab.Machine.{on_memory, Event, World, returned, store_state}
use pyspark_client_wasm.Sab.Atomics.{
  Transport, write_request, reset_idle_if_current, response_of, headers_or_empty, new_call, unary,
}
use pyspark_client_wasm.Sab.Atomics.Requests.{IsAttached, needed, Written, write_request-Written}
use pyspark_client_wasm.Sab.Atomics.Calls.{unary-chunk}
use pyspark_client_wasm.Sab.Bridge.{payload_capacity, emit_message}
use pyspark_client_wasm.Sab.Transfer.{HasRoom, Delivered, AreCarried}
use pyspark_client_wasm.Sab.Transfer.Stale.{IsStale, wait-stale}
use pyspark_client_wasm.Sab.Transfer.Message.{Received, message_lem}

-- Where the numbers of a call fit into the control words, and a window has room for a byte.
pub record IsBounded (needed : ℕ) (w : World) : Type 0 where
  pub gen : w.gen + 1 < 2 ^ 31
  pub request : needed < 2 ^ 30
  pub room : 4 + meta_zone < w.capacity
  pub small : w.capacity < 2 ^ 31

pub current-gen :
    (w w3 : World)
    → w.gen + 1 < 2 ^ 31
    → w3.mem.gen ≡ store32 (w.gen + 1)
    → is_nat (load32 w3.mem.gen) (w.gen + 1) ≡ true
current-gen w w3 h e =
    ap (λ (g : ℕ). is_nat (load32 g) (w.gen + 1)) e
    ∙ ap (λ (z : ℤ). is_nat z (w.gen + 1)) (load32-store32 (w.gen + 1) h)
    ∙ (==_iff (w.gen + 1) (w.gen + 1)).1 refl

pub reset-current :
    (w w3 : World)
    → w.gen + 1 < 2 ^ 31
    → w3.mem.gen ≡ store32 (w.gen + 1)
    → reset_idle_if_current (w.gen + 1) w3 ≡ store_state s_idle w3
unfolding reset_idle_if_current
reset-current w w3 h e = rw (current-gen w w3 h e)

-- The state behind a call, as the next one meets it.
abbrev pub Done : List Event → World → Type 0
Done rest w' = (w'.mem.state ≡ s_idle) × (w'.script ≡ rest) × IsAttached w'

pub new_call-IsAttached : (w : World) → IsAttached w → IsAttached (new_call w)
unfolding new_call
new_call-IsAttached w a = record {
  attached = a.attached;
  published = a.published;
  nonempty = a.nonempty;
}

module _ {Time : Type 0} (json : Json Time) (transport : Transport) (hook : Bool)
    (request : Request Time) where
  -- The state in which the bridge meets the request.
  abbrev pub written : World → World
  written w = (write_request json transport hook request (new_call w)).1

  pub HasRoom-Written :
      (w w1 : World)
      → IsBounded (needed json transport hook request (new_call w)) w
      → Written json transport hook request (new_call w) w1
      → HasRoom (payload_capacity w1.mem.region) w1 × (0 < payload_capacity w1.mem.region)
  unfolding payload_capacity new_call
  HasRoom-Written w w1 b d = (
    record {
      room = omega (arith, d.attached.attached, d.grown, b.room);
      small = ground (arith, d.attached.attached, d.least, b.small, b.request);
    },
    omega (arith, d.attached.attached, d.grown, b.room),
  )

  pub Done-reset :
      (status : ℕ) (rest : List Event) (w w1 w' : World)
      → w.gen + 1 < 2 ^ 31
      → w1.mem.gen ≡ store32 (w.gen + 1)
      → IsAttached w1
      → Delivered status rest w1 w'
      → Done rest (reset_idle_if_current (w.gen + 1) w')
  unfolding store_state
  Done-reset status rest w w1 w' h e a d = rw (reset-current w w' h (d.mem_gen ∙ e)) (
    refl,
    d.script,
    record {
      attached = d.capacity ∙ a.attached ∙ sym d.region;
      published = d.mem_cap ∙ a.published ∙ ap store32 (sym d.capacity);
      nonempty = omega (arith, d.capacity, a.nonempty);
    },
  )

  -- A unary call that the bridge answers with a status, headers and a body of any length: the call
  -- returns, and the response has the status, the headers and the whole body, in however many
  -- windows it came, and whatever the bridge still had to say for a stream that was left before.
  -- The channel is idle behind it and ready for the next call. The numbers fit into the control
  -- words, the metas fit into their zone, and the region is larger than that.
  pub unary-emit_message :
      (status : ℕ) (meta : Meta) (body : Bytes) (stale windows rest : List Event) (w : World)
      → IsAttached w
      → IsBounded (needed json transport hook request (new_call w)) w
      → status < 2 ^ 31
      → AreCarried json meta
      → AreCarried json no_meta
      → All IsStale stale
      → emit_message json false (payload_capacity (written w).mem.region) status meta body
        ≡ some windows
      → w.script ≡ stale ++ (windows ++ rest)
      → (w' : World) × (unary json transport hook request w ≡ (
        returned (record { status = status; headers = headers_or_empty meta.headers; body = body }),
        w',
      ))
        × Done rest w'
  unfolding emit_message new_call response_of
  unary-emit_message status meta body stale windows rest w a b st cm cn is e es =
      let (w1, run, d) =
        write_request-Written json transport hook request (new_call w) (new_call-IsAttached w a) in
      let v = on_memory w1.mem (windows ++ rest) w1 in
      let (room, _) = HasRoom-Written w w1 b d in
      let parked = (==_iff w1.mem.state s_req_ready).1 d.state in
      let limited =
        ap (λ x. emit_message json false (payload_capacity x.1.mem.region) status meta body)
          (sym run)
        ∙ e in
      let r : Received json s_req_ready status meta body rest v =
        message_lem json false (length body) s_req_ready (payload_capacity w1.mem.region) status
          meta body windows rest v limited cm cn refl
          (record { room = room.room; small = room.small }) parked refl (λ act. refl) in
      let shown : store32 status ≡ status = omega arith in
      (
        reset_idle_if_current (w.gen + 1) r.w',
        unary-chunk json transport hook request w w1 r.w1 r.w' (record meta { more = r.more }, body)
              run
              (wait-stale s_req_ready w1 stale (windows ++ rest) (d.script ∙ es) is parked refl
                ∙ r.waited)
              r.reassembled
            ∙ ap
                (λ (k : ℕ). (
                  returned
                      (record { status = k; headers = headers_or_empty meta.headers; body = body }),
                  reset_idle_if_current (w.gen + 1) r.w',
                ))
                (r.status_word ∙ shown),
        Done-reset status rest w v r.w' b.gen d.mem_gen
            (record {
              attached = d.attached.attached;
              published = d.attached.published;
              nonempty = d.attached.nonempty;
            })
            r.delivered,
      )
