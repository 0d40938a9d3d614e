-- ===== src/Sab/Atomics/Requests.antt =====
-- The writing of a request: it never fails, whatever its size.
use pyspark_client_wasm.Prelude.{
  ℕ, ◌*◌, ◌≤◌, ◌<◌, ◌≡◌, refl, ap, ◌⊎◌, inl, inr, Bool, [], ◌∷◌, ◌++◌, arith, ltb, lt_of_ltb,
  le_of_ltb, Bool-cases, length, drop, join, length-append, length-drop, Bytes,
}
use pyspark_client_wasm.Sab.{Request}
use pyspark_client_wasm.Sab.Memory.{s_req_ready, store32, u32_bytes, put_all}
use pyspark_client_wasm.Sab.Memory.Layout.{put_all_lem}
use pyspark_client_wasm.Sab.Window.{Json}
use pyspark_client_wasm.Sab.Machine.{World, returned}
use pyspark_client_wasm.Sab.Atomics.{
  Transport, zeros, attach_data, attach_grown, grow_data_sab, header_of, request_pieces, needed_for,
  ensure_capacity, publish, publish_all, write_request,
}
use pyspark_client_wasm.Sab.Atomics.Grow.{grown_capacity-IsGrown, length-zeros}

-- The capacity that the worker knows, and has published, is that of the region.
pub record IsAttached (w : World) : Type 0 where
  pub attached : w.capacity ≡ length w.mem.region
  pub published : w.mem.cap ≡ store32 w.capacity
  pub nonempty : 0 < w.capacity

-- What making room leaves.
pub record Ensured (needed : ℕ) (w w' : World) : Type 0 where
  pub attached : IsAttached w'
  pub enough : needed ≤ w'.capacity
  pub grown : w.capacity ≤ w'.capacity
  pub least : (w'.capacity ≡ w.capacity) ⊎ ((w.capacity < needed) × (w'.capacity < 2 * needed))
  pub gen : w'.gen ≡ w.gen
  pub mem_gen : w'.mem.gen ≡ w.mem.gen
  pub script : w'.script ≡ w.script

attach_data-Ensured :
    (transport : Transport) (hook : Bool) (needed c : ℕ) (w : World)
    → 0 < c
    → needed ≤ c
    → w.capacity < needed
    → c < 2 * needed
    → Ensured needed w (attach_data transport hook (zeros c) w)
unfolding attach_data
attach_data-Ensured transport hook needed c w h k l m = record {
  attached = record { attached = refl; published = refl; nonempty = omega (arith, length-zeros c) };
  enough = omega (arith, length-zeros c);
  grown = omega (arith, length-zeros c);
  least = inr (l, omega (arith, length-zeros c));
  gen = refl;
  mem_gen = refl;
  script = refl;
}

ensure_capacity-Ensured :
    (transport : Transport) (hook : Bool) (needed : ℕ) (w : World)
    → IsAttached w
    → (w' : World) × (ensure_capacity transport hook needed w ≡ (returned tt, w'))
      × Ensured needed w w'
unfolding ensure_capacity grow_data_sab attach_grown
ensure_capacity-Ensured transport hook needed w a = elim (Bool-cases (ltb w.capacity needed)) [
  | inr l ↦ (
    w,
    rw l,
    record {
      attached = a;
      enough = le_of_ltb _ _ l;
      grown = omega arith;
      least = inl refl;
      gen = refl;
      mem_gen = refl;
      script = refl;
    },
  )
  | inl l ↦
      let (c, e, g) = grown_capacity-IsGrown needed w.capacity needed a.nonempty (omega arith) in
      let lt = lt_of_ltb _ _ l in
      (
        attach_data transport hook (zeros c) w,
        rw l (ap (λ o. attach_grown transport hook o w) e),
        attach_data-Ensured transport hook needed c w (omega (arith, a.nonempty, g.enough, lt))
            g.enough lt (ground (arith, g.least, g.enough, lt)),
      )
]

length-request_pieces :
    (header body : Bytes) → length (join (request_pieces header body)) ≡ needed_for header body
unfolding request_pieces needed_for u32_bytes
length-request_pieces header body = omega (
  arith,
  length-append header (join (u32_bytes (length body) ∷ body ∷ [])),
  length-append body [],
)

module _ {Time : Type 0} (json : Json Time) (transport : Transport) (hook : Bool)
    (request : Request Time) where
  abbrev pub header_bytes : World → Bytes
  header_bytes w = json.dumps_header (header_of request w.gen)

  abbrev pub needed : World → ℕ
  needed w = needed_for (header_bytes w) request.body

  -- The state behind a request: it stands at the front of the region, the control words announce
  -- it, and the region holds what it did, or more.
  pub record Written (w w' : World) : Type 0 where
    pub rest : Bytes
    pub region : w'.mem.region ≡ join (request_pieces (header_bytes w) request.body) ++ rest
    pub state : w'.mem.state ≡ s_req_ready
    pub size : w'.mem.size ≡ store32 (needed w)
    pub mem_gen : w'.mem.gen ≡ store32 w.gen
    pub gen : w'.gen ≡ w.gen
    pub script : w'.script ≡ w.script
    pub attached : IsAttached w'
    pub grown : w.capacity ≤ w'.capacity
    pub least :
        (w'.capacity ≡ w.capacity) ⊎ ((w.capacity < needed w) × (w'.capacity < 2 * needed w))

  publish-Written :
      (w v : World)
      → Ensured (needed w) w v
      → (w' : World) × (publish_all transport hook
            (put_all 0 (request_pieces (header_bytes w) request.body) v.mem.region)
            v
          ≡ (returned tt, w'))
        × Written w w'
  unfolding publish_all publish
  publish-Written w v e =
      let pieces = request_pieces (header_bytes w) request.body in
      let n = length-request_pieces (header_bytes w) request.body in
      let old = drop (length (join pieces)) v.mem.region in
      let fits : length (join pieces) ≤ length v.mem.region =
        omega (arith, n, e.enough, e.attached.attached) in
      (
        publish transport hook (length (join pieces)) (join pieces ++ old) v,
        ap (λ r. publish_all transport hook r v) (put_all_lem pieces v.mem.region fits),
        record {
          rest = old;
          region = refl;
          state = refl;
          size = ap store32 n;
          mem_gen = ap store32 e.gen;
          gen = e.gen;
          script = e.script;
          attached = record {
            attached = omega (
              arith,
              e.attached.attached,
              fits,
              length-append (join pieces) old,
              length-drop (length (join pieces)) v.mem.region,
            );
            published = e.attached.published;
            nonempty = e.attached.nonempty;
          };
          grown = e.grown;
          least = e.least;
        },
      )

  -- _write_request returns for a request of any size: the region is grown where it is too small, to
  -- less than twice what is needed, and no write is out of its range.
  pub write_request-Written :
      (w : World)
      → IsAttached w
      → (w' : World) × (write_request json transport hook request w ≡ (returned tt, w'))
        × Written w w'
  unfolding write_request
  write_request-Written w a =
      let (v, run, e) = ensure_capacity-Ensured transport hook (needed w) w a in
      let (w', run', d) = publish-Written w v e in (w', rw run run', d)
