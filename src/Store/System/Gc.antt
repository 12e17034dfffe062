-- ===== src/Store/System/Gc.antt =====
-- dagstore_gc.go: a garbage collection, a round of the event loop of its own.
use dagstore.Shared.{
  ℕ, suc, Bool, ◌&&◌, ◌||◌, false, true, Option, none, some, List, [], ◌∷◌, set, get_elem?, insert,
  if◌then◌else◌,
}
use dagstore.Error.{Error}
use dagstore.ShardKey.{Key, key_eq}
use dagstore.Mount.Upgrader.{delete_transient}
use dagstore.Store.Types.{Externals, Waiter, Shard}
use dagstore.Store.Turn.{is_available, is_errored}
use dagstore.Store.Persist.{persist}
use dagstore.Store.System.Defs.{System}

-- What `os.Remove` answers for a shard, and whether the datastore refuses its record.
pub record GcAnswers : Type 0 where
  pub removed : ℕ → Option Error
  pub put_failed : ℕ → Bool

abbrev pub is_empty : List Waiter → Bool
is_empty [] = true
is_empty (w ∷ ws) = false

module _ {X : Externals} where
  unfoldable pub reclaimable : Shard X → Bool
  reclaimable s = (is_available s.state || is_errored s.state) && is_empty s.w_acquire

  unfoldable pub reclaimable_at : List (Shard X) → ℕ → Bool
  unfolding reclaimable
  reclaimable_at heap shard = elim (get_elem? heap shard) [ none ↦ false | some s ↦ reclaimable s ]

  -- The shards of the catalogue that can be reclaimed.
  unfoldable pub to_reclaim : List (Shard X) → List (Key × ℕ) → List ℕ
  to_reclaim heap [] = []
  to_reclaim heap ((k, shard) ∷ rest) =
      let more = to_reclaim heap rest in if reclaimable_at heap shard then shard ∷ more else more

  -- One shard: its transient goes, the error is recorded, and its state is written.
  unfoldable pub reclaim_one :
      GcAnswers → ℕ → System X × List (Key × Option Error) → System X × List (Key × Option Error)
  unfolding delete_transient
  reclaim_one a shard (d, res) = elim (get_elem? d.heap shard) [
    | none ↦ (d, res)
    | some s ↦
        let (mount, e) = delete_transient X.os (a.removed shard) s.mount in
        let s' = record s { mount = mount } in
        (
          record d {
            heap = set d.heap shard s';
            store = persist d.mounts (a.put_failed shard) s' d.store;
          },
          insert s.key e res,
        )
  ]

  unfoldable pub reclaim_all :
      GcAnswers
      → List ℕ
      → System X × List (Key × Option Error)
      → System X × List (Key × Option Error)
  unfolding reclaim_one
  reclaim_all a [] acc = acc
  reclaim_all a (shard ∷ rest) acc = reclaim_all a rest (reclaim_one a shard acc)

  -- The second part is `GCResult.Shards`.
  unfoldable pub gc : GcAnswers → System X → System X × List (Key × Option Error)
  unfolding reclaim_all to_reclaim
  gc a d = reclaim_all a (to_reclaim d.heap d.shards) (d, [])

-- `ShardFailures`
unfoldable pub shard_failures : List (Key × Option Error) → ℕ
shard_failures [] = 0
shard_failures ((k, none) ∷ rest) = shard_failures rest
shard_failures ((k, some e) ∷ rest) = suc (shard_failures rest)
