-- ===== src/Patch/Install/Pool.antt =====
-- The pool that pyspark's reattachable iterator submits ReleaseExecute to: _SyncExecutor, once
-- install has run under Pyodide.
-- Its docstring says that it runs what is submitted; the comment in submit and the code say that it
-- does not.
use pyspark_client_wasm.Prelude.{
  ℕ, ◌≡◌, refl, sym, ap, ◌∙◌, true, Option, none, some, Result, ok, err,
}
use pyspark_client_wasm.Patch.Version.{check_pyspark_version}
use pyspark_client_wasm.Patch.Hooks.{Host}
use pyspark_client_wasm.Patch.Install.{
  Executor, thread_pool, sync_executor, sync_pool, World, originals, patch_client,
  patch_reattach_pool, patched, guard, installing, install,
}
use pyspark_client_wasm.Patch.Install.Lifecycle.{install-none}

guard-ok :
    (p : Host) {v : ℕ × ℕ}
    → check_pyspark_version p.unicode p.version ≡ ok v
    → p.import_core ≡ ok tt
    → guard p ≡ ok tt
unfolding guard
guard-ok p v c = rw (v, c)

installing-ok_result :
    (p : Host) (w : World p) (g : Result (Unit {0})) → g ≡ ok tt → (installing p w g).0 ≡ ok tt
unfolding installing
installing-ok_result p w g h = rw (h)

-- The first install returns where the version is supported and the modules import.
pub install-ok :
    (p : Host) (w : World p) {v : ℕ × ℕ}
    → w.saved ≡ none
    → check_pyspark_version p.unicode p.version ≡ ok v
    → p.import_core ≡ ok tt
    → (install p w).0 ≡ ok tt
install-ok p w n v c =
    ap (λ r. r.0) (install-none p w n) ∙ installing-ok_result p w (guard p) (guard-ok p v c)

-- A Future that is completed with None, or one of a pool of threads.
pub data Future (F : Type 0) : Type 0 where
  completed : Future F
  pending : F → Future F

-- `S` is the state that a submitted function may change, and `run` is what a pool of threads does.
module _ (p : Host) {S F : Type 0} (run : p.Pool → (S → S) → S → F × S) where
  -- _SyncExecutor.submit, or that of a pool of threads
  pub submit : Executor p.Pool → (S → S) → S → Future F × S
  submit sync_executor fn s = (completed, s)
  submit (thread_pool e) fn s = (pending (run e fn s).0, (run e fn s).1)

  -- The class's pool getter, which keeps the pool that it returns.
  pool_of : World p → Option (Executor p.Pool × World p)
  pool_of w = elim w.pool [
    | none ↦ none
    | some getter ↦
        some (getter w.pool_instance, record w { pool_instance = some (getter w.pool_instance) })
  ]

  -- How the iterator releases an execution.
  pub release : World p → (S → S) → S → Option (Future F × S)
  unfolding pool_of submit
  release w fn s = elim (pool_of w) [ none ↦ none | some (pool, v) ↦ some (submit pool fn s) ]

  release-patched :
      (w : World p) (fn : S → S) (s : S)
      → p.emscripten ≡ true
      → p.import_reattach ≡ true
      → release (patched p w) fn s ≡ some (completed, s)
  unfolding release pool_of submit patched patch_reattach_pool patch_client originals sync_pool
  release-patched w fn s e r = rw (e, r)

  -- What installing leaves, where it returned.
  installing-ok :
      (w : World p) (g : Result (Unit {0}))
      → (installing p w g).0 ≡ ok tt
      → (installing p w g).1 ≡ patched p w
  unfolding installing
  installing-ok w (ok _) h = refl
  installing-ok w (err e) h = absurd (cc (h))

  -- Once a first call of install has returned under Pyodide, with a reattach module that imports, a
  -- function that is submitted to the iterator's pool is never run: the state is as it was, and the
  -- Future is completed with None at once.
  pub release-install :
      (w : World p) (fn : S → S) (s : S)
      → w.saved ≡ none
      → (install p w).0 ≡ ok tt
      → p.emscripten ≡ true
      → p.import_reattach ≡ true
      → release (install p w).1 fn s ≡ some (completed, s)
  release-install w fn s n i e r =
      let k = install-none p w n in
      ap (λ v. release v fn s)
        (ap (λ x. x.1) k ∙ installing-ok w (guard p) (sym (ap (λ x. x.0) k) ∙ i))
      ∙ release-patched w fn s e r
