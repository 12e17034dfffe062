-- ===== src/Store/Soundness/Collection.antt =====
-- A garbage collection keeps the invariant.
use dagstore.Shared.{ℕ, ◌≡◌, refl, inl, inr, Option, List, [], ◌∷◌, get_elem?, Option-cases}
use dagstore.Error.{Error}
use dagstore.ShardKey.{Key}
use dagstore.Store.Types.{Externals, Task}
use dagstore.Store.System.Defs.{System}
use dagstore.Store.System.Gc.{GcAnswers, reclaim_one, reclaim_all, to_reclaim}
use dagstore.Store.System.Steps.{on_collects}
use dagstore.Store.Soundness.Invariant.{Inv}
use dagstore.Store.Soundness.Goroutines.{rewritten-Inv, stored-Inv, IsSoundShard-like}

module _ {X : Externals} {n : ℕ} where
  reclaim_one-Inv :
      (a : GcAnswers) (shard : ℕ) (d : System X) (res : List (Key × Option Error))
      → Inv n d
      → Inv n (reclaim_one a shard (d, res)).0
  unfolding reclaim_one
  reclaim_one-Inv a shard d res v = elim (Option-cases (get_elem? d.heap shard)) [
    | inl e ↦ rw (e, reclaim_one) v
    | inr (s, e) ↦
        rw (e, reclaim_one)
          (rewritten-Inv shard s _ _ e refl refl (IsSoundShard-like refl refl refl)
            (stored-Inv _ d v))
  ]

  reclaim_all-Inv :
      (a : GcAnswers) (l : List ℕ) (acc : System X × List (Key × Option Error))
      → Inv n acc.0
      → Inv n (reclaim_all a l acc).0
  unfolding reclaim_all
  reclaim_all-Inv a [] (d, res) v = v
  reclaim_all-Inv a (shard ∷ rest) (d, res) v =
      reclaim_all-Inv a rest (reclaim_one a shard (d, res)) (reclaim_one-Inv a shard d res v)

  collected-Inv :
      (a : GcAnswers) (l : List Task) (d : System X)
      → d.internal_ch ≡ l
      → Inv n d
      → Inv n (on_collects a d)
  unfolding on_collects
  collected-Inv a [] d e v =
      rw (e, on_collects) (reclaim_all-Inv a (to_reclaim d.heap d.shards) (d, []) v)
  collected-Inv a (t ∷ ts) d e v = rw (e, on_collects) v

  pub on_collects-Inv : (a : GcAnswers) (d : System X) → Inv n d → Inv n (on_collects a d)
  on_collects-Inv a d v = collected-Inv a d.internal_ch d refl v
