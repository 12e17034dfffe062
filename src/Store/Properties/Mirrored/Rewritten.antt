-- ===== src/Store/Properties/Mirrored/Rewritten.antt =====
-- shard_persist.go: a shard that is rewritten, with its record or with none.
use dagstore.Shared.{
  ℕ, ◌≡◌, refl, sym, ap, ◌∙◌, String, false, Option, none, some, List, get_elem?, set, lookup,
  insert, lookup-insert, string_eq, arith,
}
use mathlib.Core.Path.{subst}
use dagstore.Error.{ok, ◌>>=◌, or_wrap}
use dagstore.Mount.Interface.{Url}
use dagstore.Mount.Registry.{Registry, represent}
use dagstore.Mount.Upgrader.{transient_path}
use dagstore.Store.Types.{Externals, Shard, PersistedShard}
use dagstore.Store.Persist.{marshal, persist}
use dagstore.Store.Properties.Mirrored.{record_of, IsRecordOf, IsMirrored, Mirrors}
use dagstore.Store.Properties.Mirrored.Turns.{IsSame}
use dagstore.Store.Properties.Mirrored.Written.{insert-IsFiled, change-Mirrors}

module _ {X : Externals} where
  -- The same but for the transient, and for what is not written.
  pub record IsAlike (s s' : Shard X) : Type 0 where
    pub same : IsSame s s'
    pub state : s'.state ≡ s.state
    pub lazy : s'.lazy ≡ s.lazy
    pub err : s'.err ≡ s.err

  IsRecordOf-alike :
      (s s' : Shard X) (url : Url) (o : Option PersistedShard)
      → IsAlike s s'
      → IsRecordOf s url o
      → IsRecordOf s' url o
  IsRecordOf-alike s s' url none a h = a.state ∙ h
  IsRecordOf-alike s s' url (some ps) a (path, e) =
      (path, e ∙ rw (a.same.0, a.state, a.lazy, a.err) refl)

  module _ (mounts : Registry X.Mount) where
    IsMirrored-alike :
        (store : List (String × PersistedShard)) (s s' : Shard X)
        → IsAlike s s'
        → IsMirrored mounts store s
        → IsMirrored mounts store s'
    IsMirrored-alike store s s' a m = record {
      url = m.url;
      represented = ap (λ u. represent X.mount u mounts) a.same.1 ∙ m.represented;
      sequential = ap (λ u. (X.mount.info u).access_sequential) a.same.1 ∙ m.sequential;
      recorded =
          subst (λ k. IsRecordOf s' m.url (lookup (X.new_key k.str) store)) (sym a.same.0)
            (IsRecordOf-alike s s' m.url (lookup (X.new_key s.key.str) store) a m.recorded);
    }

    -- A change that concerns no record.
    pub set-Mirrors :
        (heap : List (Shard X)) (store : List (String × PersistedShard)) (r : ℕ) (s s' : Shard X)
        → get_elem? heap r ≡ some s
        → IsAlike s s'
        → Mirrors mounts heap store
        → Mirrors mounts (set heap r s') store
    set-Mirrors heap store r s s' found a v =
        change-Mirrors mounts heap r s s' found a.same.0 store store
          (IsMirrored-alike store s s' a (v.each r s found)) (λ j ne. refl) v.filed v

    pub marshal_lem :
        (s : Shard X) (url : Url)
        → represent X.mount s.mount.underlying mounts ≡ ok url
        → marshal mounts s ≡ ok (record_of s url s.mount.path)
    unfolding marshal transient_path
    marshal_lem s url e = rw (e, ◌>>=◌, or_wrap) refl

    -- A change of the shard of a record that is then written.
    pub persist-Mirrors :
        (heap : List (Shard X)) (store : List (String × PersistedShard)) (r : ℕ) (s s' : Shard X)
        → get_elem? heap r ≡ some s
        → IsSame s s'
        → Mirrors mounts heap store
        → Mirrors mounts (set heap r s') (persist mounts false s' store)
    unfolding persist
    persist-Mirrors heap store r s s' found same v =
        let m = v.each r s found in
        let represented = ap (λ u. represent X.mount u mounts) same.1 ∙ m.represented in
        let ps = record_of s' m.url s'.mount.path in
        let k = X.new_key s'.key.str in
        let own : lookup k (insert k ps store) ≡ some ps =
          ground (arith, lookup-insert k k ps store, string_eq.beq_iff k k) in
        rw (marshal_lem s' m.url represented, persist)
          (change-Mirrors mounts heap r s s' found same.0 store
            (insert (X.new_key s'.key.str) ps store)
            (record {
              url = m.url;
              represented = represented;
              sequential = ap (λ u. (X.mount.info u).access_sequential) same.1 ∙ m.sequential;
              recorded = subst (IsRecordOf s' m.url) (sym own) (s'.mount.path, refl);
            })
            (λ j ne. ground (
              arith,
              lookup-insert (X.new_key s'.key.str) j ps store,
              string_eq.beq_iff (X.new_key s'.key.str) j,
            ))
            (insert-IsFiled X.new_key ps store v.filed) v)
