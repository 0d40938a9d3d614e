-- ===== src/Patch/Tests.antt =====
-- The guard, the URLs and the patch at concrete inputs.
use pyspark_client_wasm.Prelude.{
  ℕ, ◌+◌, ◌≡◌, refl, true, false, none, some, List, [], ◌∷◌, if◌then◌else◌, Text, Result, ok,
}
use pyspark_client_wasm.Text.{Unicode, codes, has_char, strip_right, starts_with}
use pyspark_client_wasm.Dict.{empty}
use pyspark_client_wasm.Patch.Version.{digit_value}
use pyspark_client_wasm.Patch.Version.Parse.{version_of, check_pyspark_version-version_of}
use pyspark_client_wasm.Text.Slashes.{is_slash}
use pyspark_client_wasm.Patch.Url.{is_shorthand, is_web_url, normalize_web_url}
use pyspark_client_wasm.Patch.Url.Normal.{Normalizes, normalize_web_url-Normalizes}
use pyspark_client_wasm.Patch.Url.Ports.{normalize_web_url-authority}
use pyspark_client_wasm.Patch.Hooks.{
  Host, Hooks, Init, ToChannel, StubClass, patched_init, patched_to_channel, patched_stub_factory,
}
use pyspark_client_wasm.Patch.Hooks.Connect.{
  connect, stock_init, stock_to_channel, stock_stub_class, web_connect, stock_connect,
  patched-connect,
}
use pyspark_client_wasm.Patch.Hooks.{WebEndpoint, WebChannel}
use pyspark_client_wasm.Patch.Install.Pool.{completed, install-ok, release, release-install}
use pyspark_client_wasm.Patch.Install.{World, install, uninstall, PoolGetter, thread_pool}
use pyspark_client_wasm.Patch.Install.Lifecycle.{
  patches_pool, Settled, install-Settled, fresh, uninstall-install,
}

abbrev ascii : Unicode
ascii = record { lower = λ s. s; is_word = λ _. false; digit = λ _. none }

selected : is_web_url ascii (codes "https://spark.test") ≡ true
unfolding is_web_url is_shorthand starts_with
selected = refl

normalize_web_url-Normalizes_example : Normalizes ascii (codes "https://spark.test")
normalize_web_url-Normalizes_example =
    normalize_web_url-Normalizes ascii (codes "https://spark.test") selected

normalize_web_url-authority_example :
    normalize_web_url (codes "http://[::1]:15002//")
    ≡ some (codes "sc://[::1]:15002/;transport=grpcweb")
normalize_web_url-authority_example =
    normalize_web_url-authority false (codes "[::1]") (some (codes "15002")) 2
      (unfold has_char in refl, unfold strip_right is_slash in refl)

-- A small pyspark: a builder is its URL, and every part imports.
abbrev host : Host
host = record {
  Base = Text;
  Options = Unit {0};
  Grpc = Text;
  GrpcStub = Text;
  Sync = Text;
  WebStub = Text × List (Text × Text);
  Pool = ℕ;
  unicode = ascii;
  host = λ url. url;
  port = λ _. 443;
  secure = λ _. true;
  params = λ _. empty;
  metadata = λ _. ok ((codes "authorization", codes "t") ∷ []);
  version = some (version_of ascii 4 0 (codes ".1"));
  import_core = ok tt;
  emscripten = true;
  import_reattach = true;
  sab_channel = some (λ url. ok url);
  stub_of = some (λ sync md. ok (sync, md));
}

abbrev parse : Text → Unit {0} → Result Text
parse url _ = ok url

abbrev dial : Text → Result Text
dial url = ok url

abbrev getter : PoolGetter ℕ
getter _ = thread_pool 0

-- No factory is set.
abbrev unset : Hooks host
unset = record { channel_factory = none; stub_factory = none }

abbrev original_init : Init host
original_init = stock_init host unset parse dial dial

abbrev original_to_channel : ToChannel host
original_to_channel = stock_to_channel host unset parse dial dial

abbrev original_stub_class : StubClass host
original_stub_class = stock_stub_class host unset parse dial dial

abbrev stock : World host
stock = fresh host original_init original_to_channel original_stub_class (some getter) none

install-Settled_example : Settled host stock (install host stock)
install-Settled_example = install-Settled host stock

uninstall-install_example : uninstall host (install host stock).1 ≡ (
    if patches_pool host
    then fresh host original_init original_to_channel original_stub_class (some getter) none
    else stock)
uninstall-install_example =
    uninstall-install host original_init original_to_channel original_stub_class (some getter) none

patched-connect_example :
    connect host unset
      (patched_init host original_init)
      (patched_to_channel host original_to_channel)
      (patched_stub_factory host original_stub_class)
      (codes "https://spark.test")
      tt
    ≡ (if is_web_url ascii (codes "https://spark.test")
        then web_connect host unset parse dial dial (codes "https://spark.test") tt
        else stock_connect host unset parse dial dial (codes "https://spark.test") tt)
patched-connect_example = patched-connect host unset parse dial dial (codes "https://spark.test") tt

abbrev dial_endpoint : WebEndpoint → Result Text
dial_endpoint e = ok e.host

abbrev name_stub : WebChannel Text → Result (Text × List (Text × Text))
name_stub c = ok (c.channel, [])

-- A pool of threads would run what is submitted, and count.
release-install_example :
    release host {F = ℕ} (λ e fn n. (e, fn n)) (install host stock).1 (λ n. n + 1) 7
    ≡ some (completed, 7)
release-install_example =
    release-install host {F = ℕ} (λ e fn n. (e, fn n)) stock (λ n. n + 1) 7 refl
      (install-ok host stock refl
        (check_pyspark_version-version_of ascii 4 0 (codes ".1") (unfold digit_value in refl)) refl)
      refl refl
