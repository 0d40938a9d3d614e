-- ===== src/Patch/Hooks/Connect.antt =====
-- How a connection string becomes a stub once the hooks are in place.
use pyspark_client_wasm.Prelude.{
  ◌≡◌, refl, ◌∙◌, ◌⊎◌, inl, inr, true, false, none, if◌then◌else◌, Bool-cases, Text, Exn, foreign,
  Result, ok, err, ◌>>=◌,
}
use pyspark_client_wasm.Text.{codes}
use pyspark_client_wasm.Dict.{empty, put_all}
use pyspark_client_wasm.Patch.Url.{is_web_url}
use pyspark_client_wasm.Patch.Hooks.{
  grpc_channel, web_channel, AnyStub, grpc_stub, web_stub, Host, Hooks, Init, ToChannel, StubClass,
  normalized, mark, patched_init, endpoint_of, open_web, is_marked, patched_to_channel,
  patched_stub_factory, get_channel_factory, get_stub_factory,
}

Result-cases {ℓ} : {A : Type ℓ} (r : Result A) → ((a : A) × (r ≡ ok a)) ⊎ ((e : Exn) × (r ≡ err e))
Result-cases (ok a) = inl (a, refl)
Result-cases (err e) = inr (e, refl)

module _ (p : Host) (f : Hooks p) where
  -- What pyspark does with a connection string, for given functions in the three places.
  abbrev pub connect :
      Init p → ToChannel p → StubClass p → Text → p.Options → Result (AnyStub p.GrpcStub p.WebStub)
  connect init to_channel stub_class url options = do
    b ← init url options
    c ← to_channel f b
    stub_class f c

  -- Stock pyspark: its functions know nothing of markers and of web channels.
  module _ (init : Text → p.Options → Result p.Base) (to_channel : p.Base → Result p.Grpc)
      (stub_class : p.Grpc → Result p.GrpcStub) where
    abbrev pub stock_init : Init p
    stock_init url options = do b ← init url options; ok (record { base = b; pcw_web = none })

    abbrev pub stock_to_channel : ToChannel p
    stock_to_channel _ b = do c ← to_channel b.base; ok (grpc_channel c)

    abbrev pub stock_stub_class : StubClass p
    stock_stub_class _ (grpc_channel c) = do s ← stub_class c; ok (grpc_stub s)
    stock_stub_class _ (web_channel c) = err (foreign (codes "AttributeError"))

    abbrev pub stock_connect : Text → p.Options → Result (AnyStub p.GrpcStub p.WebStub)
    stock_connect = connect stock_init stock_to_channel stock_stub_class

    abbrev pub web_open : p.Base → Result (AnyStub p.GrpcStub p.WebStub)
    web_open b = do
      sync ← get_channel_factory p f (endpoint_of p b)
      meta ← p.metadata b
      s ← get_stub_factory p f (record {
        host = p.host b;
        port = p.port b;
        secure = p.secure b;
        channel = sync;
        params = put_all meta empty;
        closed = false;
      })
      ok (web_stub s)

    -- The web route: the normal form is parsed by pyspark's own constructor, the channel factory
    -- opens a channel to the endpoint, and the stub factory wraps it with the builder's metadata.
    abbrev pub web_connect : Text → p.Options → Result (AnyStub p.GrpcStub p.WebStub)
    web_connect url options = do out ← normalized p url; b ← init out options; web_open b

    patched-connect_open :
        (b : p.Base)
        → (do
          c ←
              patched_to_channel p stock_to_channel f
                (mark p true (record { base = b; pcw_web = none }))
          patched_stub_factory p stock_stub_class f c)
          ≡ web_open b
    unfolding patched_to_channel patched_stub_factory open_web is_marked mark
    patched-connect_open b = elim (Result-cases (get_channel_factory p f (endpoint_of p b))) [
      | inl (sync, s) ↦ elim (Result-cases (p.metadata b)) [
        | inl (meta, m) ↦ rw (s, m)
        | inr (e, m) ↦ rw (s, m)
      ]
      | inr (e, s) ↦ rw s
    ]

    patched-connect_web :
        (url : Text) (options : p.Options)
        → is_web_url p.unicode url ≡ true
        → connect
            (patched_init p stock_init)
            (patched_to_channel p stock_to_channel)
            (patched_stub_factory p stock_stub_class)
            url
            options
          ≡ web_connect url options
    unfolding patched_init
    patched-connect_web url options w =
        rw (w, patched_init)
          (elim (Result-cases (normalized p url)) [
            | inr (e, n) ↦ rw n
            | inl (out, n) ↦ elim (Result-cases (init out options)) [
              | inr (e, i) ↦ rw (n, i)
              | inl (b, i) ↦ rw (n, i) (patched-connect_open b)
            ]
          ])

    patched-connect_stock :
        (url : Text) (options : p.Options)
        → is_web_url p.unicode url ≡ false
        → connect
            (patched_init p stock_init)
            (patched_to_channel p stock_to_channel)
            (patched_stub_factory p stock_stub_class)
            url
            options
          ≡ stock_connect url options
    unfolding patched_init patched_to_channel patched_stub_factory is_marked mark
    patched-connect_stock url options w =
        rw (w, patched_init)
          (elim (Result-cases (init url options)) [
            | inr (e, i) ↦ rw i
            | inl (b, i) ↦ elim (Result-cases (to_channel b)) [
              | inr (e, c) ↦ rw (i, c)
              | inl (d, c) ↦ rw (i, c)
            ]
          ])

    -- With the hooks in place, a connection string that selects the web transport takes the web
    -- route, every error of it included, and any other gives what stock pyspark gives.
    pub patched-connect :
        (url : Text) (options : p.Options)
        → connect
            (patched_init p stock_init)
            (patched_to_channel p stock_to_channel)
            (patched_stub_factory p stock_stub_class)
            url
            options
          ≡ (if is_web_url p.unicode url
              then web_connect url options
              else stock_connect url options)
    patched-connect url options = elim (Bool-cases (is_web_url p.unicode url)) [
      | inl w ↦ patched-connect_web url options w ∙ rw w
      | inr w ↦ patched-connect_stock url options w ∙ rw w
    ]
