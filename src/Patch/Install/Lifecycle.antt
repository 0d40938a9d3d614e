-- ===== src/Patch/Install/Lifecycle.antt =====
-- What install and uninstall do to the patched attributes.
use mathlib.Core.Path.{subst}
use pyspark_client_wasm.Prelude.{
  ◌≡◌, refl, sym, inl, inr, Bool, true, false, ◌&&◌, Option, none, some, if◌then◌else◌, Bool-cases,
  Option-cases, Result, ok, err,
}
use pyspark_client_wasm.Dict.{or_else}
use pyspark_client_wasm.Patch.Hooks.{Host, Init, ToChannel, StubClass}
use pyspark_client_wasm.Patch.Install.{
  Executor, sync_pool, PoolGetter, Saved, World, originals, patch_client, with_pool,
  patch_reattach_pool, patched, guard, installing, install, is_installed, uninstall, uninstall_pool,
  restore,
}

module _ (p : Host) where
  installed-some : (w : World p) (s : Saved p) → w.saved ≡ some s → install p w ≡ (ok tt, w)
  unfolding install
  installed-some w s e = rw e

  patched-saved : (w : World p) → (s : Saved p) × ((patched p w).saved ≡ some s)
  unfolding patched patch_reattach_pool patch_client originals
  patched-saved w = elim (Bool-cases p.emscripten) [
    | inr cpython ↦ (originals p w, rw cpython)
    | inl pyodide ↦ elim (Bool-cases p.import_reattach) [
      | inl found ↦ (with_pool p w.pool (originals p w), rw (pyodide, found))
      | inr missing ↦ (originals p w, rw (pyodide, missing))
    ]
  ]

  patched-is_installed : (w : World p) → is_installed p (patched p w) ≡ true
  unfolding is_installed
  patched-is_installed w = let (s, e) = patched-saved w in rw e

  pub install-none : (w : World p) → w.saved ≡ none → install p w ≡ installing p w (guard p)
  unfolding install
  install-none w e = rw e

  -- What a call of install leaves: a failure has changed nothing, and a success makes the next call
  -- a no-op.
  abbrev pub Settled : World p → Result (Unit {0}) × World p → Type 0
  Settled w (err e, v) = v ≡ w
  Settled w (ok _, v) = install p v ≡ (ok tt, v)

  installing-Settled : (w : World p) (g : Result (Unit {0})) → Settled w (installing p w g)
  unfolding installing
  installing-Settled w (err e) = refl
  installing-Settled w (ok _) = let (s, e) = patched-saved w in installed-some (patched p w) s e

  -- A call of install that raises leaves every attribute of pyspark as it was, and after one that
  -- returns a further call changes nothing.
  pub install-Settled : (w : World p) → Settled w (install p w)
  install-Settled w = elim (Option-cases w.saved) [
    | inl e ↦ subst (λ x. Settled w x) (sym (install-none w e)) (installing-Settled w (guard p))
    | inr (s, e) ↦ subst (λ x. Settled w x) (sym (installed-some w s e)) (installed-some w s e)
  ]

  -- A world that install has not touched: what the class defines as its pool getter, if anything,
  -- and the pool that it has, if any.
  abbrev pub fresh :
      Init p
      → ToChannel p
      → StubClass p
      → Option (PoolGetter p.Pool)
      → Option (Executor p.Pool)
      → World p
  fresh init to_channel stub_class getter pool = record {
    init = init;
    to_channel = to_channel;
    stub_class = stub_class;
    pool = getter;
    pool_instance = pool;
    saved = none;
  }

  abbrev succeeds : Result (Unit {0}) → Bool
  succeeds (ok _) = true
  succeeds (err _) = false

  -- Whether a first install replaces the pool.
  pub patches_pool : Bool
  patches_pool = succeeds (guard p) && (p.emscripten && p.import_reattach)

  uninstall-patched :
      (init : Init p) (to_channel : ToChannel p) (stub_class : StubClass p)
      (getter : Option (PoolGetter p.Pool)) (pool : Option (Executor p.Pool))
      → uninstall p (patched p (fresh init to_channel stub_class getter pool)) ≡ (
          if p.emscripten && p.import_reattach
          then fresh init to_channel stub_class (or_else getter (some sync_pool)) none
          else fresh init to_channel stub_class getter pool)
  unfolding patched patch_reattach_pool patch_client originals uninstall uninstall_pool restore
      with_pool
  uninstall-patched init to_channel stub_class getter pool = elim (Bool-cases p.emscripten) [
    | inr cpython ↦ rw cpython
    | inl pyodide ↦ elim (Bool-cases p.import_reattach) [
      | inl found ↦ rw (pyodide, found)
      | inr missing ↦ rw (pyodide, missing)
    ]
  ]

  uninstall-installing :
      (g : Result (Unit {0})) (init : Init p) (to_channel : ToChannel p) (stub_class : StubClass p)
      (getter : Option (PoolGetter p.Pool)) (pool : Option (Executor p.Pool))
      → uninstall p (installing p (fresh init to_channel stub_class getter pool) g).1 ≡ (
          if succeeds g && (p.emscripten && p.import_reattach)
          then fresh init to_channel stub_class (or_else getter (some sync_pool)) none
          else fresh init to_channel stub_class getter pool)
  unfolding installing uninstall
  uninstall-installing (ok _) init to_channel stub_class getter pool =
      uninstall-patched init to_channel stub_class getter pool
  uninstall-installing (err _) init to_channel stub_class getter pool = refl

  -- uninstall behind a first install, whether that returned or raised: pyspark's constructor,
  -- toChannel and stub class are the original ones again. The pool getter and the pool are as they
  -- were too, unless install replaced them, which it does where it returns under Pyodide and the
  -- reattach module imports: then the class has its own getter back if it had one, and keeps the
  -- getter that install set if it had none; and it has no pool, whether it had one or not.
  pub uninstall-install :
      (init : Init p) (to_channel : ToChannel p) (stub_class : StubClass p)
      (getter : Option (PoolGetter p.Pool)) (pool : Option (Executor p.Pool))
      → uninstall p (install p (fresh init to_channel stub_class getter pool)).1 ≡ (
          if patches_pool
          then fresh init to_channel stub_class (or_else getter (some sync_pool)) none
          else fresh init to_channel stub_class getter pool)
  unfolding install patches_pool
  uninstall-install = uninstall-installing (guard p)
