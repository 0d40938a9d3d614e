-- ===== src/Patch/Hooks/Setters.antt =====
-- The setters of the two factories, and what a WebChannel can do.
use pyspark_client_wasm.Prelude.{
  if◌then◌else◌, ◌≡◌, refl, ◌∙◌, true, false, Option, none, some, ◌∷◌, ◌++◌, Text, Result, ok,
  ◌>>=◌,
}
use pyspark_client_wasm.Text.{codes}
use pyspark_client_wasm.Text.Decimal.{show}
use pyspark_client_wasm.Dict.{empty, put_all}
use pyspark_client_wasm.Patch.Url.{is_web_url}
use pyspark_client_wasm.Patch.Hooks.{
  WebEndpoint, WebChannel, base_url, AnyStub, web_stub, Host, Hooks, normalized, patched_init,
  endpoint_of, patched_to_channel, patched_stub_factory, get_channel_factory, get_stub_factory,
}
use pyspark_client_wasm.Patch.Hooks.Connect.{
  connect, stock_init, stock_to_channel, stock_stub_class, patched-connect,
}

module _ {Sync : Type 0} where
  pub endpoint : WebChannel Sync → Text
  endpoint c = c.host ++ (b':' ∷ show c.port)

  -- WebChannel.base_url is that of its endpoint.
  channel_base_url : WebChannel Sync → Text
  channel_base_url c =
      base_url (record { host = c.host; port = c.port; secure = c.secure; params = c.params })

  -- WebChannel.close over a state S of the channel. `close` is the channel's own, none where it has
  -- no callable one; what it raises is dropped.
  pub close :
      {S : Type 0} → Option (S → Result (Unit {0}) × S) → WebChannel Sync → S → WebChannel Sync × S
  close none c s = (record c { closed = true }, s)
  close (some f) c s = (record c { closed = true }, (f s).1)

  channel_base_url-endpoint :
      (c : WebChannel Sync)
      → channel_base_url c
        ≡ (if c.secure then codes "https" else codes "http") ++ (codes "://" ++ endpoint c)
  unfolding channel_base_url endpoint base_url
  channel_base_url-endpoint c = refl

  -- A closed channel is the same one, and what the channel's own close raises is dropped.
  close_lem :
      {S : Type 0} (f : Option (S → Result (Unit {0}) × S)) (c : WebChannel Sync) (s : S)
      → (close f c s).0 ≡ record c { closed = true }
  unfolding close
  close_lem none c s = refl
  close_lem (some f) c s = refl

module _ (p : Host) where
  pub set_channel_factory : Option (WebEndpoint → Result p.Sync) → Hooks p → Hooks p
  set_channel_factory factory f = record f { channel_factory = factory }

  pub set_stub_factory : Option (WebChannel p.Sync → Result p.WebStub) → Hooks p → Hooks p
  set_stub_factory factory f = record f { stub_factory = factory }

  -- Both factories, set one after the other.
  abbrev pub set_factories :
      (WebEndpoint → Result p.Sync) → (WebChannel p.Sync → Result p.WebStub) → Hooks p → Hooks p
  set_factories open_channel make_stub f =
      set_stub_factory (some make_stub) (set_channel_factory (some open_channel) f)

  module _ (init : Text → p.Options → Result p.Base) (to_channel : p.Base → Result p.Grpc)
      (stub_class : p.Grpc → Result p.GrpcStub) where
    -- A connection with all hooks in place.
    abbrev pub patched_connect : Hooks p → Text → p.Options → Result (AnyStub p.GrpcStub p.WebStub)
    patched_connect g =
        connect p g (patched_init p (stock_init p g init to_channel stub_class))
          (patched_to_channel p (stock_to_channel p g init to_channel stub_class))
          (patched_stub_factory p (stock_stub_class p g init to_channel stub_class))

    -- Where both factories are set, over whatever was set before, a connection string that selects
    -- the web transport is opened by them and by nothing else: the channel factory is given the
    -- builder's endpoint, and the stub factory the channel with the builder's metadata. The setters
    -- may be called in either order.
    pub connect-set_factories :
        (f : Hooks p) (open_channel : WebEndpoint → Result p.Sync)
        (make_stub : WebChannel p.Sync → Result p.WebStub) (url : Text) (options : p.Options)
        → is_web_url p.unicode url ≡ true
        → (patched_connect (set_factories open_channel make_stub f) url options ≡ (do
          out ← normalized p url
          b ← init out options
          sync ← open_channel (endpoint_of p b)
          meta ← p.metadata b
          s ← make_stub (record {
            host = p.host b;
            port = p.port b;
            secure = p.secure b;
            channel = sync;
            params = put_all meta empty;
            closed = false;
          })
          ok (web_stub s)))
          × (set_factories open_channel make_stub f
              ≡ set_channel_factory (some open_channel) (set_stub_factory (some make_stub) f))
    unfolding set_channel_factory set_stub_factory get_channel_factory get_stub_factory
    connect-set_factories f open_channel make_stub url options w = (
      patched-connect p (set_factories open_channel make_stub f) init to_channel stub_class url
            options
          ∙ rw w,
      refl,
    )
