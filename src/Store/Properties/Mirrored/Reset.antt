-- ===== src/Store/Properties/Mirrored/Reset.antt =====
-- dagstore.go: what `Start` leaves of a shard of the catalogue.
use dagstore.Shared.{
  ℕ, ◌⊎◌, ◌≡◌, refl, sym, ap, ◌∙◌, inl, inr, Bool, some, List, [], ◌∷◌, get_elem?, set, lookup,
  arith, string_eq, Option-cases, ℕ_discrete, get_elem?-set_self, get_elem?-set_ne,
}
use mathlib.Core.Path.{subst}
use mathlib.Core.Option.{some-injective}
use dagstore.Error.{message}
use dagstore.ShardKey.{Key, key_eq}
use dagstore.ShardState.{
  ShardState, new, initializing, available, serving, recovering, errored, unknown,
}
use dagstore.Store.Types.{Externals, Shard}
use dagstore.Store.Turn.{index_exists}
use dagstore.Store.Persist.{error_text}
use dagstore.Store.Start.{
  RecoverOnStartPolicy, do_not_recover, recover_on_acquire, recover_now, reset, reset_all,
}

-- The state that a shard can have after a restart: an access under way is over, and an initialization
-- under way either got as far as its index or has to be made again.
abbrev pub After : ShardState → ShardState → Type 0
After serving t = t ≡ available
After initializing t = (t ≡ available) ⊎ (t ≡ new)
After state t = t ≡ state

After-After : (state t u : ShardState) → After state t → After t u → After state u
After-After serving t u h j = subst (λ v. After v u) h j
After-After initializing t u (inl h) j = inl (subst (λ v. After v u) h j)
After-After initializing t u (inr h) j = inr (subst (λ v. After v u) h j)
After-After new t u h j = subst (λ v. After v u) h j
After-After available t u h j = subst (λ v. After v u) h j
After-After recovering t u h j = subst (λ v. After v u) h j
After-After errored t u h j = subst (λ v. After v u) h j
After-After unknown t u h j = subst (λ v. After v u) h j

module _ {X : Externals} where
  -- The shard, as a restart can leave it.
  pub record IsRestarted (s s' : Shard X) : Type 0 where
    pub key : s'.key ≡ s.key
    pub state : After s.state s'.state
    pub lazy : s'.lazy ≡ s.lazy
    pub underlying : s'.mount.underlying ≡ s.mount.underlying
    pub error : error_text (message X.decimal) s'.err ≡ error_text (message X.decimal) s.err
    pub no_acquirer : s'.w_acquire ≡ []
    pub no_reference : s'.refs ≡ 0

  pub reset_state :
      (policy : RecoverOnStartPolicy) (has_index : Bool) (state : ShardState) (s : Shard X)
      → s.state ≡ state
      → After state (reset policy has_index state s).0.state
  unfolding reset
  reset_state do_not_recover has_index errored s e = e
  reset_state recover_on_acquire has_index errored s e = e
  reset_state recover_now has_index errored s e = e
  reset_state policy has_index serving s e = ground arith
  reset_state policy has_index initializing s e = ground arith
  reset_state policy has_index new s e = ground arith
  reset_state policy has_index available s e = ground arith
  reset_state policy has_index recovering s e = ground arith
  reset_state policy has_index unknown s e = ground arith

  pub reset_rest :
      (policy : RecoverOnStartPolicy) (has_index : Bool) (state : ShardState) (s : Shard X)
      → let s' = (reset policy has_index state s).0 in
        (s'.key ≡ s.key)
        × (s'.lazy ≡ s.lazy)
        × (s'.mount ≡ s.mount)
        × (s'.err ≡ s.err)
        × (s'.w_acquire ≡ s.w_acquire)
        × (s'.refs ≡ s.refs)
  unfolding reset
  reset_rest policy has_index state s = ground arith

  pub reset-IsRestarted :
      (policy : RecoverOnStartPolicy) (has_index : Bool) (s t : Shard X)
      → After s.state (reset policy has_index t.state t).0.state
      → t.key ≡ s.key
      → t.lazy ≡ s.lazy
      → t.mount.underlying ≡ s.mount.underlying
      → error_text (message X.decimal) t.err ≡ error_text (message X.decimal) s.err
      → t.w_acquire ≡ []
      → t.refs ≡ 0
      → IsRestarted s (reset policy has_index t.state t).0
  reset-IsRestarted policy has_index s t state key lazy underlying error acquirers refs =
      let (k, l, m, e, a, r) = reset_rest policy has_index t.state t in
      record {
        key = k ∙ key;
        state = state;
        lazy = l ∙ lazy;
        underlying = ap (λ u. u.underlying) m ∙ underlying;
        error = ap (error_text (message X.decimal)) e ∙ error;
        no_acquirer = a ∙ acquirers;
        no_reference = r ∙ refs;
      }

  -- A second reset changes nothing that matters.
  again :
      (policy : RecoverOnStartPolicy) (has_index : Bool) (s t : Shard X)
      → IsRestarted s t
      → IsRestarted s (reset policy has_index t.state t).0
  again policy has_index s t v =
      reset-IsRestarted policy has_index s t
        (After-After s.state t.state _ v.state (reset_state policy has_index t.state t refl)) v.key
        v.lazy v.underlying v.error v.no_acquirer v.no_reference

  -- The shard at a pointer, as a restart can leave it.
  abbrev pub IsRestartedAt : Shard X → List (Shard X) → ℕ → Type 0
  IsRestartedAt s heap r = (s' : Shard X) × (get_elem? heap r ≡ some s') × IsRestarted s s'

  module _ (policy : RecoverOnStartPolicy) (repo : X.Repo) (s : Shard X) (r : ℕ) where
    -- The first entry of the loop, on a shard that is there.
    has_index : Shard X → Bool
    has_index t = index_exists (X.repo.stat_full_index repo t.key)

    stays_restarted :
        (l : List (Key × ℕ)) (heap : List (Shard X)) (to_register to_recover : List ℕ)
        → IsRestartedAt s heap r
        → IsRestartedAt s (reset_all policy repo l (heap, to_register, to_recover)).0 r
    unfolding reset_all has_index
    stays_restarted [] heap to_register to_recover v = v
    stays_restarted ((k, p) ∷ rest) heap to_register to_recover (s', here, v) =
        elim (Option-cases (get_elem? heap p)) [
          | inl e ↦ rw (e, reset_all) (stays_restarted rest heap _ _ (s', here, v))
          | inr (t, e) ↦
              let t' = (reset policy (has_index t) t.state t).0 in
              rw (e, reset_all)
                (stays_restarted rest (set heap p t') _ _ (elim (ℕ_discrete p r) [
                  | yes same ↦
                      let is_t : s' ≡ t =
                        some-injective s' t (sym here ∙ (ap (get_elem? heap) (sym same) ∙ e)) in
                      (
                        t',
                        ap (get_elem? (set heap p t')) (sym same)
                            ∙ get_elem?-set_self heap p t' t e,
                        again policy (has_index t) s t (subst (IsRestarted s) is_t v),
                      )
                  | no differ ↦ (s', get_elem?-set_ne heap p r t' differ ∙ here, v)
                ]))
        ]

    -- A shard that the catalogue names is restarted.
    pub reset_all_reaches :
        (l : List (Key × ℕ)) (heap : List (Shard X)) (to_register to_recover : List ℕ) (k : Key)
        (t : Shard X)
        → lookup k l ≡ some r
        → get_elem? heap r ≡ some t
        → ((b : Bool) → IsRestarted s (reset policy b t.state t).0)
        → IsRestartedAt s (reset_all policy repo l (heap, to_register, to_recover)).0 r
    unfolding reset_all lookup has_index
    reset_all_reaches [] heap to_register to_recover k t found here v = cc
    reset_all_reaches ((j, p) ∷ rest) heap to_register to_recover k t found here v =
        elim (ℕ_discrete p r) [
          | yes same ↦
              let e : get_elem? heap p ≡ some t = ap (get_elem? heap) same ∙ here in
              let t' = (reset policy (has_index t) t.state t).0 in
              rw (e, reset_all)
                (stays_restarted rest (set heap p t') _ _ (
                  t',
                  ap (get_elem? (set heap p t')) (sym same) ∙ get_elem?-set_self heap p t' t e,
                  v (has_index t),
                ))
          | no differ ↦
              let later : lookup k rest ≡ some r = ground arith in
              elim (Option-cases (get_elem? heap p)) [
                | inl e ↦ rw (e, reset_all) (reset_all_reaches rest heap _ _ k t later here v)
                | inr (u, e) ↦
                    let u' = (reset policy (has_index u) u.state u).0 in
                    rw (e, reset_all)
                      (reset_all_reaches rest (set heap p u') _ _ k t later
                        (get_elem?-set_ne heap p r u' differ ∙ here) v)
              ]
        ]
