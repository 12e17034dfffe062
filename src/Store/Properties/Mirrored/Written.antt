-- ===== src/Store/Properties/Mirrored/Written.antt =====
-- shard_persist.go: how the datastore goes on to mirror the shards when one is added or changed.
use dagstore.Shared.{
  ℕ, ◌⊎◌, ◌≡◌, ◌≢◌, refl, sym, ap, ◌∙◌, inl, inr, String, some, List, [], ◌∷◌, get_elem?, set,
  lookup, insert, lookup-insert, string_eq, arith, ◌==◌, ℕ_discrete, get_elem?-set_self,
  get_elem?-set_ne, Bool-cases,
}
use mathlib.Core.Path.{subst}
use mathlib.Core.Option.{some-injective}
use dagstore.Mount.Registry.{Registry}
use dagstore.Store.Types.{Externals, Shard, PersistedShard}
use dagstore.Store.Properties.Mirrored.{IsFiled, IsRecordOf, IsMirrored, Mirrors}

pub insert-IsFiled :
    (new_key : String → String) (ps : PersistedShard) (store : List (String × PersistedShard))
    → IsFiled new_key store
    → IsFiled new_key (insert (new_key ps.key) ps store)
unfolding insert lookup
insert-IsFiled new_key ps [] v = (refl, refl, tt)
insert-IsFiled new_key ps ((j, old) ∷ rest) v = elim (Bool-cases (j == new_key ps.key)) [
  | inl e ↦ rw (e, insert) (refl, ground (arith, string_eq.beq_iff j (new_key ps.key)), v.2)
  | inr e ↦
      rw (e, insert)
        (
          v.0,
          ground (
            arith,
            lookup-insert (new_key ps.key) j ps rest,
            string_eq.beq_iff j (new_key ps.key),
            string_eq.beq_iff (new_key ps.key) j,
          ),
          insert-IsFiled new_key ps rest v.2,
        )
]

-- An entry of a list with one entry written over.
set_cases :
    {A : Type 0} (l : List A) (i j : ℕ) (v w old : A)
    → get_elem? l i ≡ some old
    → get_elem? (set l i v) j ≡ some w
    → ((i ≡ j) × (v ≡ w)) ⊎ ((i ≢ j) × (get_elem? l j ≡ some w))
set_cases l i j v w old found e = elim (ℕ_discrete i j) [
  | yes same ↦ inl (
    same,
    some-injective v w
        (sym (get_elem?-set_self l i v old found) ∙ (ap (get_elem? (set l i v)) same ∙ e)),
  )
  | no differ ↦ inr (differ, sym (get_elem?-set_ne l i j v differ) ∙ e)
]

module _ {X : Externals} (mounts : Registry X.Mount) where
  -- A shard of the heap after a change of one, and the one that it was.
  module _ (heap : List (Shard X)) (r : ℕ) (s s' : Shard X) (found : get_elem? heap r ≡ some s)
      (same : s'.key ≡ s.key) where
    was :
        (j : ℕ) (w : Shard X)
        → get_elem? (set heap r s') j ≡ some w
        → (t : Shard X) × (get_elem? heap j ≡ some t) × (t.key ≡ w.key)
    was j w e = elim (set_cases heap r j s' w s found e) [
      | inl (here, is_new) ↦
          (s, ap (get_elem? heap) (sym here) ∙ found, sym same ∙ ap (λ v. v.key) is_new)
      | inr (differ, there) ↦ (w, there, refl)
    ]

    becomes :
        (j : ℕ) (t : Shard X)
        → get_elem? heap j ≡ some t
        → (w : Shard X) × (get_elem? (set heap r s') j ≡ some w) × (w.key ≡ t.key)
    becomes j t e = elim (ℕ_discrete r j) [
      | yes here ↦ (
        s',
        ap (get_elem? (set heap r s')) (sym here) ∙ get_elem?-set_self heap r s' s found,
        same ∙ ap (λ v. v.key) (some-injective s t (sym found ∙ (ap (get_elem? heap) here ∙ e))),
      )
      | no differ ↦ (t, get_elem?-set_ne heap r j s' differ ∙ e, refl)
    ]

    -- One shard and its record change, and the two agree again.
    pub change-Mirrors :
        (store store' : List (String × PersistedShard))
        → IsMirrored mounts store' s'
        → ((j : String) → j ≢ X.new_key s.key.str → lookup j store' ≡ lookup j store)
        → IsFiled X.new_key store'
        → Mirrors mounts heap store
        → Mirrors mounts (set heap r s') store'
    change-Mirrors store store' mirrored others filed v = record {
      each = λ j w e. elim (set_cases heap r j s' w s found e) [
        | inl (here, is_new) ↦ subst (IsMirrored mounts store') is_new mirrored
        | inr (differ, there) ↦
            let m = v.each j w there in
            let free : X.new_key w.key.str ≢ X.new_key s.key.str =
              λ clash. differ (sym (v.apart j r w s there found clash)) in
            record {
              url = m.url;
              represented = m.represented;
              sequential = m.sequential;
              recorded =
                  subst (IsRecordOf w m.url) (sym (others (X.new_key w.key.str) free)) m.recorded;
            }
      ];
      apart = λ q p w z at_q at_p clash.
          let (t, at_t, key_t) = was q w at_q in
          let (u, at_u, key_u) = was p z at_p in
          v.apart q p t u at_t at_u
            (ap (λ k. X.new_key k.str) key_t ∙ (clash ∙ sym (ap (λ k. X.new_key k.str) key_u)));
      nothing_else = λ j unused.
          let unused_before : (q : ℕ) (t : Shard X)
              → get_elem? heap q ≡ some t
              → X.new_key t.key.str ≢ j =
            λ q t at_q clash.
              let (w, at_w, key_w) = becomes q t at_q in
              unused q w at_w (ap (λ k. X.new_key k.str) key_w ∙ clash) in
          others j (λ e. unused_before r s found (sym e)) ∙ v.nothing_else j unused_before;
      filed = filed;
    }
