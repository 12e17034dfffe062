-- ===== src/Store/Properties/Safety.antt =====
-- What holds of every run of the DAG store.
use dagstore.Shared.{
  ℕ, ◌+◌, ◌≤◌, ◌<◌, ◌^◌, ◌≡◌, Bool, false, sym, ◌∙◌, String, Option, some, List, [], ◌∷◌, length,
  get_elem?, arith, total-erase_idx,
}
use mathlib.Core.Path.{subst}
use mathlib.Core.Option.{some-injective}
use dagstore.Error.{Error, ok, active_references}
use dagstore.Store.Types.{Externals, Waiter, Task, Accessor, Shard}
use dagstore.Store.Turn.{dispatch_result, failed_with}
use dagstore.Store.Control.{on_destroy}
use dagstore.Store.System.Defs.{System}
use dagstore.Store.System.Steps.{Event, run}
use dagstore.Store.Start.{RecoverOnStartPolicy, Config, new_dag_store, start}
use dagstore.Store.Soundness.Measure.{accessor_refs, holders, refs_at}
use dagstore.Store.Soundness.Invariant.{Inv}
use dagstore.Store.Soundness.Runs.{run_total}
use dagstore.Store.Soundness.Started.{new_dag_store-Inv, start-Inv}

module _ {X : Externals} (dir_error : Option Error) (cfg : Config X) (d₀ : System X)
    (made : new_dag_store dir_error cfg ≡ ok d₀) (ctx : ℕ) (policy : RecoverOnStartPolicy)
    (alive : String → Bool) where
  pub started_run :
      (es : List (Event X))
      → length es < 2 ^ 32
      → (d : System X) × (run es (start ctx policy alive d₀) ≡ some d) × Inv (0 + length es) d
  started_run es h =
      run_total 0 es _ (omega arith)
        (start-Inv ctx policy alive d₀ (new_dag_store-Inv dir_error cfg d₀ made))

  -- From any configuration and any persisted records, whatever less than 2 ^ 32 calls, rounds of the
  -- event loop, steps of goroutines and answers of the outside world follow, in any order: the event
  -- loop never crashes on a nil waiter, no more references to a shard are held (by acquisitions under
  -- way, undelivered results, open accessors and unprocessed releases) than its counter says, and
  -- `internalCh` never holds more than the one task that it has room for.
  pub run_safe :
      (es : List (Event X))
      → length es < 2 ^ 32
      → (d : System X) × (run es (start ctx policy alive d₀) ≡ some d)
        × ((shard : ℕ) → holders shard d ≤ refs_at shard d.heap)
        × (length d.internal_ch ≤ 1)
  run_safe es h = let (d, ran, v) = started_run es h in (d, ran, v.held, v.single)

  open_accessor_refs :
      (es : List (Event X)) (d : System X) (i : ℕ) (a : Accessor X) (s : Shard X)
      → length es < 2 ^ 32
      → run es (start ctx policy alive d₀) ≡ some d
      → get_elem? d.accessors i ≡ some a
      → get_elem? d.heap a.shard ≡ some s
      → 0 < s.refs
  unfolding holders
  open_accessor_refs es d i a s h ran at_i at_shard =
      let (d', ran', v') = started_run es h in
      let v = subst (Inv _) (some-injective d' d (sym ran' ∙ ran)) v' in
      ground (arith, v.held a.shard, total-erase_idx (accessor_refs a.shard) d.accessors i a at_i)

  -- In any such run, while an accessor of a shard is open, a request to destroy the shard is refused:
  -- the shard stays in the catalogue as it is, and the caller is told the number of references.
  pub open_accessor_protects :
      (es : List (Event X)) (d : System X) (i : ℕ) (a : Accessor X) (s : Shard X) (w : Waiter)
      (tsk : Task)
      → length es < 2 ^ 32
      → run es (start ctx policy alive d₀) ≡ some d
      → get_elem? d.accessors i ≡ some a
      → get_elem? d.heap a.shard ≡ some s
      → let t = on_destroy w tsk s d.indices in
        (t.removed ≡ false)
        × (t.shard ≡ s)
        × (t.results ≡ dispatch_result (failed_with s (active_references s.refs)) (w ∷ []))
  unfolding on_destroy
  open_accessor_protects es d i a s w tsk h ran at_i at_shard =
      let held = open_accessor_refs es d i a s h ran at_i at_shard in ground arith
