-- ===== src/Store/Properties/Recorded.antt =====
-- The datastore follows the shards.
use dagstore.Shared.{
  ◌≡◌, ◌∙◌, sym, inl, inr, false, some, get_elem?, lookup, lookup-insert, string_eq, arith,
  Option-cases, get_elem?-set_self,
}
use mathlib.Core.Path.{subst}
use mathlib.Core.Option.{some-injective}
use dagstore.Error.{ok}
use dagstore.Store.Types.{Externals, Task, Shard, PersistedShard}
use dagstore.Store.Turn.{Turn}
use dagstore.Store.Control.{handle}
use dagstore.Store.Persist.{marshal, persist}
use dagstore.Store.System.Defs.{System}
use dagstore.Store.System.Loop.{Answers, is_destroy, settle, process}

module _ {X : Externals} where
  lookup-persist :
      (d : System X) (s : Shard X) (ps : PersistedShard)
      → marshal d.mounts s ≡ ok ps
      → lookup (X.new_key s.key.str) (persist d.mounts false s d.store) ≡ some ps
  unfolding persist
  lookup-persist d s ps written =
      rw (written, persist)
        (ground (
          arith,
          lookup-insert (X.new_key s.key.str) (X.new_key s.key.str) ps d.store,
          string_eq.beq_iff (X.new_key s.key.str) (X.new_key s.key.str),
        ))

  module _ (a : Answers) (tsk : Task) (d : System X) where
    -- The shard of the task after a round, and its record.
    IsRecorded : System X → Type 0
    IsRecorded d' =
        (s' : Shard X) (ps : PersistedShard)
        → get_elem? d'.heap tsk.shard ≡ some s'
        → marshal d.mounts s' ≡ ok ps
        → lookup (X.new_key s'.key.str) d'.store ≡ some ps

    settle-IsRecorded :
        (s : Shard X) (t : Turn X)
        → get_elem? d.heap tsk.shard ≡ some s
        → is_destroy tsk.op ≡ false
        → a.put_failed ≡ false
        → IsRecorded (settle a tsk t d)
    unfolding settle IsRecorded
    settle-IsRecorded s t found lasting put s' ps at_shard written =
        let same : t.shard ≡ s' =
          some-injective t.shard s'
            (sym (get_elem?-set_self d.heap tsk.shard t.shard s found) ∙ at_shard) in
        rw (lasting, put)
          (subst (λ v. lookup (X.new_key s'.key.str) (persist d.mounts false v d.store) ≡ some ps)
            (sym same) (lookup-persist d s' ps written))

    -- After every round that is no destruction and whose write succeeds, the datastore holds the record
    -- of the shard as the round left it, if the shard can be written at all.
    pub process_records :
        (d' : System X) (s s' : Shard X) (ps : PersistedShard)
        → get_elem? d.heap tsk.shard ≡ some s
        → is_destroy tsk.op ≡ false
        → a.put_failed ≡ false
        → process a tsk d ≡ some d'
        → get_elem? d'.heap tsk.shard ≡ some s'
        → marshal d.mounts s' ≡ ok ps
        → lookup (X.new_key s'.key.str) d'.store ≡ some ps
    unfolding process IsRecorded
    process_records d' s s' ps found lasting put ran =
        elim (Option-cases (handle d.failure_ch a.removed tsk s d.indices)) [
          | inl crashed ↦ absurd (ground (arith, found, crashed))
          | inr (t, handled) ↦
              let made : some (settle a tsk t d) ≡ some d' = ground (arith, found, handled) in
              subst IsRecorded (some-injective (settle a tsk t d) d' made)
                (settle-IsRecorded s t found lasting put) s' ps
        ]
