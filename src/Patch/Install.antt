-- ===== src/Patch/Install.antt =====
-- install and uninstall: the attributes of pyspark that patch.py replaces, as a state that holds
-- functions. _INSTALLED and _ORIG are one field, `saved`: both are set and cleared together, under
-- the lock, and nothing between can fail.
pub mod Lifecycle
pub mod Pool
use pyspark_client_wasm.Prelude.{
  Bool, true, false, Option, none, some, if◌then◌else◌, Text, Result, ok, err, ◌>>=◌,
}
use pyspark_client_wasm.Text.{Unicode, codes}
use pyspark_client_wasm.Text.Decimal.{show}
use pyspark_client_wasm.Dict.{Dict, empty, put_all, or_else}
use pyspark_client_wasm.Patch.Version.{check_pyspark_version}
use pyspark_client_wasm.Patch.Url.{is_web_url, normalize_web_url}
use pyspark_client_wasm.Patch.Hooks.{
  Host, Init, ToChannel, StubClass, patched_init, patched_to_channel, patched_stub_factory,
}

pub data Executor (E : Type 0) : Type 0 where
  thread_pool : E → Executor E
  sync_executor : Executor E

-- _get_or_create_release_thread_pool: the pool that it returns and leaves in the class.
abbrev pub PoolGetter : Type 0 → Type 0
PoolGetter E = Option (Executor E) → Executor E

-- _sync_pool
pub sync_pool : {E : Type 0} → PoolGetter E
sync_pool none = sync_executor
sync_pool (some e) = e

module _ (p : Host) where
  -- _ORIG; `pool` is there if the reattach class was patched, and holds what its dict had.
  pub record Saved : Type 0 where
    pub init : Init p
    pub to_channel : ToChannel p
    pub stub_class : StubClass p
    pub pool : Option (Option (PoolGetter p.Pool))

  -- The patched attributes, and _ORIG while _INSTALLED is set.
  pub record World : Type 0 where
    pub init : Init p
    pub to_channel : ToChannel p
    pub stub_class : StubClass p
    pub pool : Option (PoolGetter p.Pool)
    pub pool_instance : Option (Executor p.Pool)
    pub saved : Option Saved

  originals : World → Saved
  originals w = record {
    init = w.init;
    to_channel = w.to_channel;
    stub_class = w.stub_class;
    pool = none;
  }

  -- Save the originals and put the patched functions in their place.
  patch_client : World → World
  patch_client w = record {
    init = patched_init p w.init;
    to_channel = patched_to_channel p w.to_channel;
    stub_class = patched_stub_factory p w.stub_class;
    pool = w.pool;
    pool_instance = w.pool_instance;
    saved = some (originals w);
  }

  with_pool : Option (PoolGetter p.Pool) → Saved → Saved
  with_pool pool s = record {
    init = s.init;
    to_channel = s.to_channel;
    stub_class = s.stub_class;
    pool = some pool;
  }

  -- _patch_reattach_pool: nothing, where the reattach module cannot be imported
  patch_reattach_pool : World → World
  patch_reattach_pool w =
      if p.import_reattach
      then record {
        init = w.init;
        to_channel = w.to_channel;
        stub_class = w.stub_class;
        pool = some sync_pool;
        pool_instance = none;
        saved = map_saved w.saved;
      }
      else w
    where
      map_saved : Option (Saved) → Option (Saved)
      map_saved none = none
      map_saved (some s) = some (with_pool w.pool s)

  patched : World → World
  patched w = if p.emscripten then patch_reattach_pool (patch_client w) else patch_client w

  -- check_pyspark_version(), then the imports of the modules to patch
  pub guard : Result (Unit {0})
  guard = do _ ← check_pyspark_version p.unicode p.version; p.import_core

  -- The result, and the state behind the call, which an error leaves as it was.
  pub installing : World → Result (Unit {0}) → Result (Unit {0}) × World
  installing w (ok _) = (ok tt, patched w)
  installing w (err e) = (err e, w)

  pub install : World → Result (Unit {0}) × World
  unfolding installing
  install w = elim w.saved [ some _ ↦ (ok tt, w) | none ↦ installing w guard ]

  pub is_installed : World → Bool
  is_installed w = elim w.saved [ none ↦ false | some _ ↦ true ]

  uninstall_pool : World → Option (PoolGetter p.Pool) → World
  uninstall_pool w attr = record {
    init = w.init;
    to_channel = w.to_channel;
    stub_class = w.stub_class;
    pool = or_else attr w.pool;
    pool_instance = none;
    saved = w.saved;
  }

  restore : Saved → World → World
  restore s w = record {
    init = s.init;
    to_channel = s.to_channel;
    stub_class = s.stub_class;
    pool = w.pool;
    pool_instance = w.pool_instance;
    saved = none;
  }

  pub uninstall : World → World
  uninstall w = elim w.saved [
    | none ↦ w
    | some s ↦ elim s.pool [ none ↦ restore s w | some attr ↦ restore s (uninstall_pool w attr) ]
  ]
