-- ===== src/Patch/Hooks.antt =====
-- The hooks of patch.py: the pluggable factories, and the functions that install puts in the place
-- of pyspark's. Stock functions of pyspark, and the constructors that the default factories import,
-- are parameters.
pub mod Connect
pub mod Setters
use pyspark_client_wasm.Prelude.{
  ℕ, Bool, true, false, not, Option, none, some, List, ◌∷◌, ◌++◌, if◌then◌else◌, Text, foreign,
  Result, ok, err, ◌>>=◌,
}
use pyspark_client_wasm.Text.{Unicode, codes}
use pyspark_client_wasm.Text.Decimal.{show}
use pyspark_client_wasm.Dict.{Dict, empty, put_all}
use pyspark_client_wasm.Patch.Version.{check_pyspark_version}
use pyspark_client_wasm.Patch.Url.{is_web_url, normalize_web_url}

-- `Sync` is the type of the blocking channels.
pub record WebEndpoint : Type 0 where
  pub host : Text
  pub port : ℕ
  pub secure : Bool
  pub params : Dict Text

pub record WebChannel (Sync : Type 0) : Type 0 where
  pub host : Text
  pub port : ℕ
  pub secure : Bool
  pub channel : Sync
  pub params : Dict Text
  pub closed : Bool

-- WebEndpoint.base_url, f"{scheme}://{self.host}:{self.port}"
pub base_url : WebEndpoint → Text
base_url e =
    (if e.secure then codes "https" else codes "http")
    ++ (codes "://" ++ (e.host ++ (b':' ∷ show e.port)))

pub data Channel (Grpc Sync : Type 0) : Type 0 where
  grpc_channel : Grpc → Channel Grpc Sync
  web_channel : WebChannel Sync → Channel Grpc Sync

pub data AnyStub (GrpcStub WebStub : Type 0) : Type 0 where
  grpc_stub : GrpcStub → AnyStub GrpcStub WebStub
  web_stub : WebStub → AnyStub GrpcStub WebStub

-- A DefaultChannelBuilder, with the attribute _pcw_web once it is set.
pub record Builder (B : Type 0) : Type 0 where
  pub base : B
  pub pcw_web : Option Bool

-- _channel_factory and _stub_factory, none where they are not set.
pub record Factories (Sync WebStub : Type 0) : Type 0 where
  pub channel_factory : Option (WebEndpoint → Result Sync)
  pub stub_factory : Option (WebChannel Sync → Result WebStub)

-- What is not in patch.py: the types of pyspark, what its ChannelBuilder gives (its attributes and
-- metadata()), pyspark.__version__, whether the modules import, sys.platform, and the constructors
-- that the default factories import, none where that fails; they may raise.
pub record Host : Type 1 where
  pub Base : Type 0
  pub Options : Type 0
  pub Grpc : Type 0
  pub GrpcStub : Type 0
  pub Sync : Type 0
  pub WebStub : Type 0
  pub Pool : Type 0
  pub unicode : Unicode
  pub host : Base → Text
  pub port : Base → ℕ
  pub secure : Base → Bool
  pub params : Base → Dict Text
  pub metadata : Base → Result (List (Text × Text))
  pub version : Option Text
  pub import_core : Result (Unit {0})
  pub emscripten : Bool
  pub import_reattach : Bool
  pub sab_channel : Option (Text → Result Sync)
  pub stub_of : Option (Sync → List (Text × Text) → Result WebStub)

module _ (p : Host) where
  abbrev pub Hooks : Type 0
  Hooks = Factories p.Sync p.WebStub

  abbrev pub AnyChannel : Type 0
  AnyChannel = Channel p.Grpc p.Sync

  abbrev pub Init : Type 0
  Init = Text → p.Options → Result (Builder p.Base)

  -- The factories are globals that a call reads, so they are an argument.
  abbrev pub ToChannel : Type 0
  ToChannel = Hooks → Builder p.Base → Result AnyChannel

  abbrev pub StubClass : Type 0
  StubClass = Hooks → AnyChannel → Result (AnyStub p.GrpcStub p.WebStub)

  default_channel_factory : WebEndpoint → Result p.Sync
  default_channel_factory endpoint = elim p.sab_channel [
    | none ↦ err (foreign (codes "RuntimeError: no SyncChannel available"))
    | some make ↦ make (base_url endpoint)
  ]

  default_stub_factory : WebChannel p.Sync → Result p.WebStub
  default_stub_factory channel = elim p.stub_of [
    | none ↦ err (foreign (codes "RuntimeError: GrpcWebStub is not importable"))
    | some make ↦ make channel.channel channel.params.entries
  ]

  pub get_channel_factory : Hooks → WebEndpoint → Result p.Sync
  get_channel_factory f = elim f.channel_factory [
    | none ↦ default_channel_factory
    | some factory ↦ factory
  ]

  pub get_stub_factory : Hooks → WebChannel p.Sync → Result p.WebStub
  get_stub_factory f = elim f.stub_factory [ none ↦ default_stub_factory | some factory ↦ factory ]

  -- _normalize_web_url, with the IndexError
  pub normalized : Text → Result Text
  normalized url = elim (normalize_web_url url) [
    | none ↦ err (foreign (codes "IndexError"))
    | some out ↦ ok out
  ]

  mark : Bool → Builder p.Base → Builder p.Base
  mark web b = record { base = b.base; pcw_web = some web }

  pub patched_init : Init → Init
  patched_init orig_init url options =
      if is_web_url p.unicode url
      then (do out ← normalized url; b ← orig_init out options; ok (mark true b))
      else (do b ← orig_init url options; ok (mark false b))

  pub endpoint_of : p.Base → WebEndpoint
  endpoint_of b = record {
    host = p.host b;
    port = p.port b;
    secure = p.secure b;
    params = p.params b;
  }

  pub open_web : Hooks → p.Base → Result AnyChannel
  open_web f b = do
    sync ← get_channel_factory f (endpoint_of b)
    meta ← p.metadata b
    ok (
        web_channel (record {
          host = p.host b;
          port = p.port b;
          secure = p.secure b;
          channel = sync;
          params = put_all meta empty;
          closed = false;
        }))

  -- getattr(self, "_pcw_web", False)
  is_marked : Builder p.Base → Bool
  is_marked b = elim b.pcw_web [ none ↦ false | some web ↦ web ]

  pub patched_to_channel : ToChannel → ToChannel
  patched_to_channel orig_to_channel f b =
      if is_marked b then open_web f b.base else orig_to_channel f b

  pub patched_stub_factory : StubClass → StubClass
  patched_stub_factory orig f (grpc_channel g) = orig f (grpc_channel g)
  patched_stub_factory orig f (web_channel c) = do stub ← get_stub_factory f c; ok (web_stub stub)
