-- ===== src/Store/Properties/Collection.antt =====
-- What a garbage collection touches.
use dagstore.Shared.{
  arith, nat_beq, ◌||◌, ◌&&◌, Bool, true, some, none, sym, ap, ℕ_discrete, get_elem?-set_self, ℕ,
  ◌≡◌, ◌≢◌, refl, ◌∙◌, inl, inr, false, Option, List, [], ◌∷◌, get_elem?, Option-cases, Bool-cases,
  get_elem?-set_ne,
}
use dagstore.Error.{Error}
use dagstore.ShardKey.{Key}
use dagstore.Mount.Upgrader.{delete_transient}
use dagstore.ShardState.{
  ShardState, new, initializing, available, serving, recovering, errored, unknown,
}
use dagstore.Store.Types.{Externals, Waiter, Shard}
use dagstore.Store.System.Defs.{System}
use dagstore.Store.System.Gc.{
  GcAnswers, reclaimable, reclaimable_at, to_reclaim, reclaim_one, reclaim_all, gc,
}

module _ {X : Externals} where
  reclaim_one_heap :
      (a : GcAnswers) (j i : ℕ) (acc : System X × List (Key × Option Error))
      → (j ≢ i → get_elem? (reclaim_one a j acc).0.heap i ≡ get_elem? acc.0.heap i)
        × ((reclaim_one a j acc).0.shards ≡ acc.0.shards)
  unfolding reclaim_one
  reclaim_one_heap a j i (d, res) = elim (Option-cases (get_elem? d.heap j)) [
    | inl e ↦ rw (e, reclaim_one) (λ ne. refl, refl)
    | inr (s, e) ↦ rw (e, reclaim_one) (get_elem?-set_ne d.heap j i _, refl)
  ]

-- Whether a pointer is among those of a list, and among those of the catalogue.
abbrev pub has_pointer : ℕ → List ℕ → Bool
has_pointer i [] = false
has_pointer i (j ∷ rest) = nat_beq j i || has_pointer i rest

abbrev pub is_registered : ℕ → List (Key × ℕ) → Bool
is_registered i [] = false
is_registered i ((k, j) ∷ rest) = nat_beq j i || is_registered i rest

-- Whether a shard in a state, with acquirers parked, does not need its transient.
abbrev pub is_idle : ShardState → List Waiter → Bool
is_idle available [] = true
is_idle errored [] = true
is_idle new ws = false
is_idle initializing ws = false
is_idle serving ws = false
is_idle recovering ws = false
is_idle unknown ws = false
is_idle available (w ∷ ws) = false
is_idle errored (w ∷ ws) = false

module _ {X : Externals} where
  abbrev pub is_idle_at : Option (Shard X) → Bool
  is_idle_at none = false
  is_idle_at (some s) = is_idle s.state s.w_acquire

  reclaimable-is_idle :
      (state : ShardState) (ws : List Waiter) (s : Shard X)
      → s.state ≡ state
      → s.w_acquire ≡ ws
      → reclaimable s ≡ is_idle state ws
  unfolding reclaimable
  reclaimable-is_idle new ws s e h = rw e refl
  reclaimable-is_idle initializing ws s e h = rw e refl
  reclaimable-is_idle serving ws s e h = rw e refl
  reclaimable-is_idle recovering ws s e h = rw e refl
  reclaimable-is_idle unknown ws s e h = rw e refl
  reclaimable-is_idle available [] s e h = rw e (rw h refl)
  reclaimable-is_idle available (w ∷ ws) s e h = rw e (rw h refl)
  reclaimable-is_idle errored [] s e h = rw e (rw h refl)
  reclaimable-is_idle errored (w ∷ ws) s e h = rw e (rw h refl)

  reclaimable_at-is_idle_at :
      (heap : List (Shard X)) (i : ℕ) → reclaimable_at heap i ≡ is_idle_at (get_elem? heap i)
  unfolding reclaimable_at
  reclaimable_at-is_idle_at heap i = elim (Option-cases (get_elem? heap i)) [
    | inl e ↦ rw (e, reclaimable_at) refl
    | inr (s, e) ↦ rw (e, reclaimable_at) (reclaimable-is_idle s.state s.w_acquire s refl refl)
  ]

  -- A shard without its transient, where `os.Remove` answers `removed`.
  abbrev pub swept : (removed : Option Error) → Option (Shard X) → Option (Shard X)
  unfolding delete_transient
  swept removed none = none
  swept removed (some s) = some (record s { mount = (delete_transient X.os removed s.mount).0 })

  abbrev pub swept_if : Bool → (removed : Option Error) → Option (Shard X) → Option (Shard X)
  swept_if true removed o = swept removed o
  swept_if false removed o = o

  swept_twice :
      (b : Bool) (removed : Option Error) (o : Option (Shard X))
      → swept_if b removed (swept removed o) ≡ swept removed o
  unfolding delete_transient
  swept_twice false removed o = refl
  swept_twice true removed none = refl
  swept_twice true removed (some s) = ground (arith)

  has_pointer-to_reclaim :
      (heap : List (Shard X)) (shards : List (Key × ℕ)) (i : ℕ)
      → has_pointer i (to_reclaim heap shards) ≡ (is_registered i shards && reclaimable_at heap i)
  unfolding to_reclaim
  has_pointer-to_reclaim heap [] i = refl
  has_pointer-to_reclaim heap ((k, j) ∷ rest) i =
      let later = has_pointer-to_reclaim heap rest i in
      elim (ℕ_discrete j i) [
        | yes same ↦
            let alike = ap (reclaimable_at heap) same in
            elim (Bool-cases (reclaimable_at heap j)) [
              | inl e ↦ rw (e, to_reclaim) (ground (arith))
              | inr e ↦ rw (e, to_reclaim) (ground (arith))
            ]
        | no differ ↦ elim (Bool-cases (reclaimable_at heap j)) [
          | inl e ↦ rw (e, to_reclaim) (ground (arith))
          | inr e ↦ rw (e, to_reclaim) (ground (arith))
        ]
      ]

  module _ (a : GcAnswers) (i : ℕ) where
    reclaim_one_here :
        (acc : System X × List (Key × Option Error))
        → get_elem? (reclaim_one a i acc).0.heap i ≡ swept (a.removed i) (get_elem? acc.0.heap i)
    unfolding reclaim_one
    reclaim_one_here (d, res) = elim (Option-cases (get_elem? d.heap i)) [
      | inl e ↦ rw (e, reclaim_one) (rw e refl)
      | inr (s, e) ↦ rw (e, reclaim_one) (get_elem?-set_self d.heap i _ s e)
    ]

    reclaim_all_at :
        (l : List ℕ) (acc : System X × List (Key × Option Error))
        → get_elem? (reclaim_all a l acc).0.heap i
          ≡ swept_if (has_pointer i l) (a.removed i) (get_elem? acc.0.heap i)
    unfolding reclaim_all
    reclaim_all_at [] acc = refl
    reclaim_all_at (j ∷ rest) acc =
        let later = reclaim_all_at rest (reclaim_one a j acc) in
        elim (ℕ_discrete j i) [
          | yes same ↦
              let one =
                ap (λ x. get_elem? (reclaim_one a x acc).0.heap i) same ∙ reclaim_one_here acc in
              let taken : has_pointer i (j ∷ rest) ≡ true = ground arith in
              later
              ∙ (ap (swept_if (has_pointer i rest) (a.removed i)) one
                  ∙ (swept_twice (has_pointer i rest) (a.removed i) (get_elem? acc.0.heap i)
                      ∙ ap (λ b. swept_if b (a.removed i) (get_elem? acc.0.heap i)) (sym taken)))
          | no differ ↦
              let skipped : has_pointer i (j ∷ rest) ≡ has_pointer i rest = ground arith in
              later
              ∙ (ap (swept_if (has_pointer i rest) (a.removed i))
                    ((reclaim_one_heap a j i acc).0 differ)
                  ∙ ap (λ b. swept_if b (a.removed i) (get_elem? acc.0.heap i)) (sym skipped))
        ]

    reclaim_all_shards :
        (l : List ℕ) (acc : System X × List (Key × Option Error))
        → (reclaim_all a l acc).0.shards ≡ acc.0.shards
    unfolding reclaim_all
    reclaim_all_shards [] acc = refl
    reclaim_all_shards (j ∷ rest) acc =
        reclaim_all_shards rest (reclaim_one a j acc) ∙ (reclaim_one_heap a j i acc).1

    -- A garbage collection deletes the transient of every shard of the catalogue that is available or
    -- errored and has no acquirer parked, as `DeleteTransient` does, and changes nothing else of it. It
    -- leaves every other shard as it is, those that are new, initializing, serving or recovering among
    -- them, and unregisters none.
    pub gc_sweeps :
        (d : System X)
        → (get_elem? (gc a d).0.heap i
            ≡ swept_if
                (is_registered i d.shards && is_idle_at (get_elem? d.heap i))
                (a.removed i)
                (get_elem? d.heap i))
          × ((gc a d).0.shards ≡ d.shards)
    unfolding gc
    gc_sweeps d = (
      reclaim_all_at (to_reclaim d.heap d.shards) (d, [])
          ∙ (ap (λ b. swept_if b (a.removed i) (get_elem? d.heap i))
                (has_pointer-to_reclaim d.heap d.shards i)
              ∙ ap
                  (λ b. swept_if (is_registered i d.shards && b) (a.removed i) (get_elem? d.heap i))
                  (reclaimable_at-is_idle_at d.heap i)),
      reclaim_all_shards (to_reclaim d.heap d.shards) (d, []),
    )
