-- ===== src/Store/Properties/Round.antt =====
-- dagstore_control.go: what a round that does not crash can be.
use dagstore.Shared.{◌≡◌, sym, ◌∙◌, refl, ◌⊎◌, inl, inr, some, none, get_elem?, Option-cases}
use mathlib.Core.Option.{some-injective}
use dagstore.Store.Types.{Externals, Task, Shard}
use dagstore.Store.Turn.{Turn}
use dagstore.Store.Control.{handle}
use dagstore.Store.System.Defs.{System}
use dagstore.Store.System.Loop.{Answers, settle, process}

module _ {X : Externals} (a : Answers) (tsk : Task) (d d' : System X) where
  -- A turn of the shard of the task, and its end.
  pub record IsTurn : Type 0 where
    pub s : Shard X
    pub t : Turn X
    pub at_task : get_elem? d.heap tsk.shard ≡ some s
    pub handled : handle d.failure_ch a.removed tsk s d.indices ≡ some t
    pub settled : settle a tsk t d ≡ d'

  pub process_cases : process a tsk d ≡ some d' → (d ≡ d') ⊎ IsTurn
  unfolding process
  process_cases e = elim (Option-cases (get_elem? d.heap tsk.shard)) [
    | inl gone ↦
        let same : process a tsk d ≡ some d = rw (gone, process) refl in
        inl (some-injective d d' (sym same ∙ e))
    | inr (s, at_task) ↦ elim (Option-cases (handle d.failure_ch a.removed tsk s d.indices)) [
      | inl crash ↦
          let stopped : process a tsk d ≡ none = rw (at_task, process) (rw (crash, process) refl) in
          cc
      | inr (t, handled) ↦
          let made : process a tsk d ≡ some (settle a tsk t d) =
            rw (at_task, process) (rw (handled, process) refl) in
          inr (record {
            s = s;
            t = t;
            at_task = at_task;
            handled = handled;
            settled = some-injective (settle a tsk t d) d' (sym made ∙ e);
          })
    ]
  ]
