-- ===== src/Store/Properties/Mirrored/Restarted.antt =====
-- dagstore.go: a store that is started again on the datastore of an earlier run.
use dagstore.Shared.{
  ℕ, ◌≡◌, ◌≢◌, refl, sym, ap, ◌∙◌, String, Bool, true, Option, none, some, List, [], get_elem?,
  lookup, arith, string_eq,
}
use mathlib.Core.Path.{subst}
use dagstore.Error.{Error, ok, message}
use dagstore.ShardKey.{key_eq}
use dagstore.ShardState.{new}
use dagstore.Mount.Registry.{Registry}
use dagstore.Mount.Registry.Laws.{IsPaired}
use dagstore.Store.Types.{Externals, Shard, PersistedShard}
use dagstore.Store.Persist.{error_text, unmarshal}
use dagstore.Store.System.Defs.{System}
use dagstore.Store.System.Steps.{Event, run}
use dagstore.Store.Start.{
  RecoverOnStartPolicy, Config, new_dag_store, restore_state, reset, reset_all, start,
}
use dagstore.Store.Properties.Persistence.{ReadsUrl, unmarshal-marshal}
use dagstore.Store.Properties.Mirrored.{IsRecordOf, IsMirrored, Mirrors}
use dagstore.Store.Properties.Mirrored.Rewritten.{marshal_lem}
use dagstore.Store.Properties.Mirrored.Added.{IsKept}
use dagstore.Store.Properties.Mirrored.Runs.{all_last, run-IsKept}
use dagstore.Store.Properties.Mirrored.Reset.{
  After, IsRestarted, IsRestartedAt, reset_state, reset-IsRestarted, reset_all_reaches,
}
use dagstore.Store.Properties.Mirrored.Restored.{reads, restore_state_finds}

module _ {X : Externals} where
  -- The shard as it is after a restart.
  pub record IsRevived (s s' : Shard X) : Type 0 where
    pub key : s'.key ≡ s.key
    pub state : s'.state ≡ s.state
    pub lazy : s'.lazy ≡ s.lazy
    pub underlying : s'.mount.underlying ≡ s.mount.underlying
    pub error : error_text (message X.decimal) s'.err ≡ error_text (message X.decimal) s.err
    pub no_acquirer : s'.w_acquire ≡ []
    pub no_reference : s'.refs ≡ 0

  reset-IsRestarted-revived :
      (policy : RecoverOnStartPolicy) (s s' : Shard X)
      → IsRevived s s'
      → (b : Bool) → IsRestarted s (reset policy b s'.state s').0
  reset-IsRestarted-revived policy s s' v b =
      reset-IsRestarted policy b s s'
        (subst (λ st. After st (reset policy b s'.state s').0.state) v.state
          (reset_state policy b s'.state s' refl))
        v.key v.lazy v.underlying v.error v.no_acquirer v.no_reference

  new_dag_store_empty :
      (dir_error : Option Error) (cfg : Config X) (d : System X)
      → new_dag_store dir_error cfg ≡ ok d
      → (d.heap ≡ [])
        × (d.shards ≡ [])
        × (d.store ≡ cfg.datastore)
        × (d.mounts ≡ cfg.mount_registry)
  unfolding new_dag_store
  new_dag_store_empty dir_error cfg d e = ground arith

  empty-Mirrors : (mounts : Registry X.Mount) → Mirrors {X = X} mounts [] []
  unfolding lookup
  empty-Mirrors mounts = record {
    each = λ r s e. cc;
    apart = λ q r s t e. cc;
    nothing_else = λ j unused. refl;
    filed = tt;
  }

  started-IsKept :
      (mounts : Registry X.Mount) (ctx : ℕ) (policy : RecoverOnStartPolicy) (alive : String → Bool)
      (d : System X)
      → d.heap ≡ []
      → d.shards ≡ []
      → d.store ≡ []
      → d.mounts ≡ mounts
      → IsKept mounts (start ctx policy alive d)
  unfolding start restore_state reset_all
  started-IsKept mounts ctx policy alive d heap shards store e =
      let same : restore_state alive d.store d ≡ d = ap (λ l. restore_state alive l d) store in
      (
        ap (λ v. v.mounts) same ∙ e,
        subst (λ h. Mirrors mounts h (start ctx policy alive d).store)
            (sym (
              ap (λ v. (reset_all policy v.indices v.shards (v.heap, [], [])).0) same
              ∙ (ap (λ l. (reset_all policy d.indices l (d.heap, [], [])).0) shards ∙ heap)))
            (subst (Mirrors mounts []) (sym (ap (λ v. v.store) same ∙ store))
              (empty-Mirrors mounts)),
      )

  -- The datastore of a first run, and every shard that was made in it.
  pub mirrored :
      (dir_error : Option Error) (cfg : Config X) (d d' : System X) (ctx : ℕ)
      (policy : RecoverOnStartPolicy) (alive : String → Bool) (es : List (Event X))
      → new_dag_store dir_error cfg ≡ ok d
      → cfg.datastore ≡ []
      → all_last es (start ctx policy alive d) ≡ true
      → run es (start ctx policy alive d) ≡ some d'
      → IsKept cfg.mount_registry d'
  mirrored dir_error cfg d d' ctx policy alive es made empty lasting ran =
      let (heap, shards, store, mounts) = new_dag_store_empty dir_error cfg d made in
      run-IsKept cfg.mount_registry es (start ctx policy alive d) d' lasting ran
        (started-IsKept cfg.mount_registry ctx policy alive d heap shards (store ∙ empty) mounts)

  module _ (mounts : Registry X.Mount) (paired : IsPaired X.mount mounts) (s : Shard X)
      (reads_back : (template : X.Mount) (scheme : String)
        → X.mount.type_of template ≡ X.mount.type_of s.mount.underlying
        → X.mount.deserialize template
            (record (X.mount.serialize s.mount.underlying) { scheme = scheme })
          ≡ ok s.mount.underlying)
      (reads_url : ReadsUrl mounts s) where
    -- The record of a shard that is no longer new is read back as the shard.
    read_again :
        (store : List (String × PersistedShard)) (o : Option PersistedShard) (d : System X)
        (alive : String → Bool)
        → s.state ≢ new
        → d.mounts ≡ mounts
        → (m : IsMirrored mounts store s) → lookup (X.new_key s.key.str) store ≡ o
        → (ps : PersistedShard) × (s' : Shard X) × (o ≡ some ps)
          × (reads d alive ps ≡ ok s')
          × IsRevived s s'
    read_again store none d alive old e m found =
        absurd (old (subst (IsRecordOf s m.url) found m.recorded))
    read_again store (some ps) d alive old e m found =
        let (path, is_record) = subst (IsRecordOf s m.url) found m.recorded in
        let s1 : Shard X = record s { mount = record (s.mount) { path = path } } in
        let (s', read, key, state, lazy, underlying, error, acquirers, refs) =
          unmarshal-marshal mounts paired d.throttle_ready_fetch d.transients_dir alive s1 ps
            reads_back m.sequential reads_url
            (marshal_lem mounts s1 m.url m.represented ∙ ap ok (sym is_record)) in
        (
          ps,
          s',
          refl,
          ap (λ r. unmarshal r d.throttle_ready_fetch d.transients_dir alive ps) e ∙ read,
          record {
            key = key;
            state = state;
            lazy = lazy;
            underlying = underlying;
            error = error;
            no_acquirer = acquirers;
            no_reference = refs;
          },
        )

    -- The shard is found again after a start on the datastore that mirrors it.
    start-IsRestarted :
        (d : System X) (heap : List (Shard X)) (r : ℕ) (ctx : ℕ) (policy : RecoverOnStartPolicy)
        (alive : String → Bool)
        → s.state ≢ new
        → d.mounts ≡ mounts
        → Mirrors mounts heap d.store
        → get_elem? heap r ≡ some s
        → (r' : ℕ) × (lookup s.key (start ctx policy alive d).shards ≡ some r')
          × IsRestartedAt s (start ctx policy alive d).heap r'
    unfolding start
    start-IsRestarted d heap r ctx policy alive old e v here =
        let k = X.new_key s.key.str in
        let (ps, s', found, read, revived) =
          read_again d.store (lookup k d.store) d alive old e (v.each r s here) refl in
        let (r', (at_key, at_pointer)) =
          restore_state_finds alive d.store d k ps s' v.filed found read in
        let d1 = restore_state alive d.store d in
        let at_s : lookup s.key d1.shards ≡ some r' =
          ap (λ i. lookup i d1.shards) (sym revived.key) ∙ at_key in
        (
          r',
          at_s,
          reset_all_reaches policy d1.indices s r' d1.shards d1.heap [] [] s.key s' at_s at_pointer
              (reset-IsRestarted-revived policy s s' revived),
        )

  -- A store that starts on an empty datastore is run through any steps, up to any point. Then another is
  -- made and started on the datastore that the first has left, with the same registry of mounts. Every
  -- shard of the first run that was no longer new is in the catalogue of the second under its key, with
  -- the same mount, lazy flag and error text, and with no acquirer and no reference. Its state is the
  -- same too, but that a serving shard is available, and an initializing one available or new. This needs
  -- that every round of the first run writes its record and is no destruction's, that every shard which
  -- is registered has a mount that the registry can write and a datastore key of its own, that the
  -- registry's two maps are inverse to one another, that the type of the shard's mount reads back what it
  -- writes, and that the URL of this mount comes back from its text.
  pub start_recovers :
      (dir_error dir_error' : Option Error) (cfg cfg' : Config X) (d0 d d2 : System X)
      (ctx ctx' : ℕ) (policy policy' : RecoverOnStartPolicy) (alive alive' : String → Bool)
      (es : List (Event X)) (r : ℕ) (s : Shard X)
      → new_dag_store dir_error cfg ≡ ok d0
      → cfg.datastore ≡ []
      → all_last es (start ctx policy alive d0) ≡ true
      → run es (start ctx policy alive d0) ≡ some d
      → get_elem? d.heap r ≡ some s
      → s.state ≢ new
      → IsPaired X.mount cfg.mount_registry
      → ((template : X.Mount) (scheme : String)
          → X.mount.type_of template ≡ X.mount.type_of s.mount.underlying
          → X.mount.deserialize template
              (record (X.mount.serialize s.mount.underlying) { scheme = scheme })
            ≡ ok s.mount.underlying)
      → ReadsUrl cfg.mount_registry s
      → new_dag_store dir_error' cfg' ≡ ok d2
      → cfg'.datastore ≡ d.store
      → cfg'.mount_registry ≡ cfg.mount_registry
      → (r' : ℕ) × (lookup s.key (start ctx' policy' alive' d2).shards ≡ some r')
        × IsRestartedAt s (start ctx' policy' alive' d2).heap r'
  start_recovers dir_error dir_error' cfg cfg' d0 d d2 ctx ctx' policy policy' alive alive' es r s
        made empty lasting ran here old paired reads_back reads_url made' same_store same_mounts =
      let (mounts, mirror) =
        mirrored dir_error cfg d0 d ctx policy alive es made empty lasting ran in
      let (heap2, shards2, store2, mounts2) = new_dag_store_empty dir_error' cfg' d2 made' in
      start-IsRestarted cfg.mount_registry paired s reads_back reads_url d2 d.heap r ctx' policy'
        alive' old (mounts2 ∙ same_mounts)
        (subst (Mirrors cfg.mount_registry d.heap) (sym (store2 ∙ same_store)) mirror) here
