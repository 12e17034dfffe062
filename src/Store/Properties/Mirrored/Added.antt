-- ===== src/Store/Properties/Mirrored/Added.antt =====
-- dagstore.go, dagstore_gc.go: the datastore after a registration and after a garbage collection.
use dagstore.Shared.{
  ℕ, zero, suc, ◌⊎◌, ◌≡◌, ◌≢◌, refl, sym, ap, ◌∙◌, inl, inr, ◌++◌, String, Bool, true, false,
  Option, some, List, [], ◌∷◌, get_elem?, set, length, arith, ℕ_discrete, string_eq,
  get_elem?-append_last, get_elem?-append_ne, get_elem?-length, Option-cases, not, ◌&&◌, ◌==◌,
}
use mathlib.Core.Path.{subst}
use mathlib.Core.Option.{some-injective}
use dagstore.ShardState.{new}
use dagstore.Error.{Error, ok, Result-cases}
use dagstore.ShardKey.{Key}
use dagstore.Mount.Interface.{Url}
use dagstore.Mount.Registry.{Registry, represent}
use dagstore.Mount.Upgrader.{delete_transient}
use dagstore.Store.Types.{Externals, Shard, PersistedShard}
use dagstore.Store.Persist.{persist, marshal}
use dagstore.Store.System.Defs.{System}
use dagstore.Store.System.Gc.{GcAnswers, reclaim_one, reclaim_all}
use dagstore.Store.Properties.Mirrored.{IsRecordOf, IsMirrored, Mirrors}
use dagstore.Store.Properties.Mirrored.Rewritten.{IsAlike, set-Mirrors, persist-Mirrors}

module _ {X : Externals} where
  -- Whether no shard is under the datastore key.
  abbrev pub is_free : String → List (Shard X) → Bool
  is_free k [] = true
  is_free k (s ∷ rest) = not (X.new_key s.key.str == k) && is_free k rest

  is_free_lem :
      (k : String) (heap : List (Shard X)) (r : ℕ) (s : Shard X)
      → is_free k heap ≡ true
      → get_elem? heap r ≡ some s
      → X.new_key s.key.str ≢ k
  is_free_lem k [] r s h e = cc
  is_free_lem k (t ∷ rest) zero s h e = ground (arith, string_eq.beq_iff (X.new_key s.key.str) k)
  is_free_lem k (t ∷ rest) (suc r) s h e = is_free_lem k rest r s (ground arith) e

  appended :
      (heap : List (Shard X)) (s : Shard X) (r : ℕ) (t : Shard X)
      → get_elem? (heap ++ s ∷ []) r ≡ some t
      → ((length heap ≡ r) × (s ≡ t)) ⊎ (get_elem? heap r ≡ some t)
  appended heap s r t e = elim (ℕ_discrete (length heap) r) [
    | yes same ↦ inl (
      same,
      some-injective s t
          (sym (get_elem?-append_last heap s) ∙ (ap (get_elem? (heap ++ s ∷ [])) same ∙ e)),
    )
    | no differ ↦ inr (sym (get_elem?-append_ne heap s r differ) ∙ e)
  ]

  pub kept_before :
      (heap : List (Shard X)) (s : Shard X) (r : ℕ) (t : Shard X)
      → get_elem? heap r ≡ some t
      → get_elem? (heap ++ s ∷ []) r ≡ some t
  kept_before heap s r t e = elim (ℕ_discrete (length heap) r) [
    | yes same ↦ absurd (ground (arith, get_elem?-length heap))
    | no differ ↦ get_elem?-append_ne heap s r differ ∙ e
  ]

  module _ (mounts : Registry X.Mount) where
    -- A new shard under a datastore key of its own has no record.
    pub append-Mirrors :
        (heap : List (Shard X)) (store : List (String × PersistedShard)) (s : Shard X) (url : Url)
        → s.state ≡ new
        → represent X.mount s.mount.underlying mounts ≡ ok url
        → (X.mount.info s.mount.underlying).access_sequential ≡ true
        → is_free (X.new_key s.key.str) heap ≡ true
        → Mirrors mounts heap store
        → Mirrors mounts (heap ++ s ∷ []) store
    append-Mirrors heap store s url is_new represented sequential free v =
        let others = is_free_lem (X.new_key s.key.str) heap in
        record {
          each = λ r t e. elim (appended heap s r t e) [
            | inl (last, here) ↦ subst (IsMirrored mounts store) here (record {
              url = url;
              represented = represented;
              sequential = sequential;
              recorded =
                  subst (IsRecordOf s url)
                    (sym (v.nothing_else (X.new_key s.key.str) (λ q u at_q. others q u free at_q)))
                    is_new;
            })
            | inr there ↦ v.each r t there
          ];
          apart = λ q r t u at_q at_r clash. elim (appended heap s q t at_q) [
            | inl (last_q, here_q) ↦ elim (appended heap s r u at_r) [
              | inl (last_r, here_r) ↦ sym last_q ∙ last_r
              | inr there_r ↦
                  absurd (
                    others r u free there_r
                      (sym clash ∙ ap (λ w. X.new_key w.key.str) (sym here_q)))
            ]
            | inr there_q ↦ elim (appended heap s r u at_r) [
              | inl (last_r, here_r) ↦
                  absurd
                    (others q t free there_q (clash ∙ ap (λ w. X.new_key w.key.str) (sym here_r)))
              | inr there_r ↦ v.apart q r t u there_q there_r clash
            ]
          ];
          nothing_else =
              λ j unused. v.nothing_else j (λ r t at_r. unused r t (kept_before heap s r t at_r));
          filed = v.filed;
        }

    persist-refused :
        (t : Shard X) (l : List (String × PersistedShard)) → persist mounts true t l ≡ l
    unfolding persist
    persist-refused t l = elim (Result-cases (marshal mounts t)) [
      | inl (ps, e) ↦ rw (e, persist) refl
      | inr (x, e) ↦ rw (e, persist) refl
    ]

    -- A shard whose record would stay the same is rewritten, whether its write is refused or not.
    persist_alike-Mirrors :
        (heap : List (Shard X)) (store : List (String × PersistedShard)) (r : ℕ) (s s' : Shard X)
        (put_failed : Bool)
        → get_elem? heap r ≡ some s
        → IsAlike s s'
        → Mirrors mounts heap store
        → Mirrors mounts (set heap r s') (persist mounts put_failed s' store)
    persist_alike-Mirrors heap store r s s' false found a v =
        persist-Mirrors mounts heap store r s s' found a.same v
    persist_alike-Mirrors heap store r s s' true found a v =
        subst (Mirrors mounts (set heap r s')) (sym (persist-refused s' store))
          (set-Mirrors mounts heap store r s s' found a v)

    delete_transient-IsAlike :
        (s : Shard X) (removed : Option Error)
        → IsAlike s (record s { mount = (delete_transient X.os removed s.mount).0 })
    unfolding delete_transient
    delete_transient-IsAlike s removed = ground arith

    -- The registry of mounts stays, and the datastore mirrors the shards.
    abbrev pub IsKept : System X → Type 0
    IsKept d = (d.mounts ≡ mounts) × Mirrors mounts d.heap d.store

    reclaim_one-IsKept :
        (a : GcAnswers) (r : ℕ) (acc : System X × List (Key × Option Error))
        → IsKept acc.0
        → IsKept (reclaim_one a r acc).0
    unfolding reclaim_one
    reclaim_one-IsKept a r (d, res) v = elim (Option-cases (get_elem? d.heap r)) [
      | inl e ↦ rw (e, reclaim_one) v
      | inr (s, e) ↦
          let s' = record s { mount = (delete_transient X.os (a.removed r) s.mount).0 } in
          rw (e, reclaim_one)
            (
              v.0,
              subst (λ m. Mirrors mounts (set d.heap r s') (persist m (a.put_failed r) s' d.store))
                  (sym v.0)
                  (persist_alike-Mirrors d.heap d.store r s s' (a.put_failed r) e
                    (delete_transient-IsAlike s (a.removed r)) v.1),
            )
    ]

    pub reclaim_all-IsKept :
        (a : GcAnswers) (l : List ℕ) (acc : System X × List (Key × Option Error))
        → IsKept acc.0
        → IsKept (reclaim_all a l acc).0
    unfolding reclaim_all
    reclaim_all-IsKept a [] acc v = v
    reclaim_all-IsKept a (r ∷ rest) acc v =
        reclaim_all-IsKept a rest (reclaim_one a r acc) (reclaim_one-IsKept a r acc v)
