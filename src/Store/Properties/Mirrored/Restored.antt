-- ===== src/Store/Properties/Mirrored/Restored.antt =====
-- dagstore.go: `restoreState` finds every record that can be read.
use dagstore.Shared.{
  ℕ, ◌≡◌, ◌≢◌, sym, ap, ◌∙◌, inl, inr, ◌++◌, String, Bool, none, some, List, [], ◌∷◌, get_elem?,
  length, lookup, insert, lookup-insert, arith, string_eq, Bool-cases, ◌==◌, get_elem?-append_last,
}
use dagstore.Error.{ok, Result, Result-cases}
use dagstore.ShardKey.{key_eq, key_from_string}
use dagstore.Throttle.{Throttler}
use dagstore.Mount.Registry.{Registry}
use dagstore.Store.Types.{Externals, Shard, PersistedShard}
use dagstore.Store.Persist.{unmarshal}
use dagstore.Store.System.Defs.{System}
use dagstore.Store.Start.{restore_state}
use dagstore.Store.Properties.Mirrored.{IsFiled}
use dagstore.Store.Properties.Mirrored.Added.{kept_before}

module _ {X : Externals} where
  -- The catalogue has the shard under its key.
  abbrev pub IsAt : Shard X → System X → ℕ → Type 0
  IsAt s d r = (lookup s.key d.shards ≡ some r) × (get_elem? d.heap r ≡ some s)

  -- What `restoreState` makes of a record.
  abbrev pub reads : System X → (alive : String → Bool) → PersistedShard → Result (Shard X)
  reads d alive ps = unmarshal {X = X} d.mounts d.throttle_ready_fetch d.transients_dir alive ps

  unmarshal_key :
      (mounts : Registry X.Mount) (throttler : Throttler) (dir : String) (alive : String → Bool)
      (ps : PersistedShard) (s : Shard X)
      → unmarshal mounts throttler dir alive ps ≡ ok s
      → s.key ≡ record { str = ps.key }
  unfolding unmarshal key_from_string
  unmarshal_key mounts throttler dir alive ps s e = ground arith

  -- `restoreState` on one record.
  abbrev restored : System X → Shard X → System X
  restored d s = record d {
    heap = d.heap ++ s ∷ [];
    shards = insert s.key (length d.heap) d.shards;
  }

  restored-IsAt : (s : Shard X) (d : System X) → IsAt s (restored d s) (length d.heap)
  restored-IsAt s d = (
    ground (arith, lookup-insert s.key s.key (length d.heap) d.shards, key_eq.beq_iff s.key s.key),
    get_elem?-append_last d.heap s,
  )

  restored_beside :
      (s t : Shard X) (d : System X) (r : ℕ) → t.key ≢ s.key → IsAt s d r → IsAt s (restored d t) r
  restored_beside s t d r differ (at_key, at_pointer) = (
    ground (arith, lookup-insert t.key s.key (length d.heap) d.shards, key_eq.beq_iff t.key s.key),
    kept_before d.heap t r s at_pointer,
  )

  module _ (alive : String → Bool) where
    -- A shard that is restored stays while records of other shards are read.
    restore_state-IsAt :
        (l : List (String × PersistedShard)) (d : System X) (s : Shard X) (r : ℕ)
        → IsFiled X.new_key l
        → lookup (X.new_key s.key.str) l ≡ none
        → IsAt s d r
        → IsAt s (restore_state alive l d) r
    unfolding restore_state lookup
    restore_state-IsAt [] d s r v gone here = here
    restore_state-IsAt ((j, ps) ∷ rest) d s r v gone here =
        let gone_on : lookup (X.new_key s.key.str) rest ≡ none = ground arith in
        elim (Result-cases (reads d alive ps)) [
          | inr (x, e) ↦ rw (e, restore_state) (restore_state-IsAt rest d s r v.2 gone_on here)
          | inl (t, e) ↦
              let key : t.key ≡ record { str = ps.key } =
                unmarshal_key d.mounts d.throttle_ready_fetch d.transients_dir alive ps t e in
              let differ : t.key ≢ s.key = λ same. ground (
                arith,
                string_eq.beq_iff j (X.new_key s.key.str),
                ap (λ k. X.new_key k.str) same,
                ap (λ k. X.new_key k.str) key,
              ) in
              rw (e, restore_state)
                (restore_state-IsAt rest (restored d t) s r v.2 gone_on
                  (restored_beside s t d r differ here))
        ]

    pub restore_state_finds :
        (l : List (String × PersistedShard)) (d : System X) (j : String) (ps : PersistedShard)
        (s : Shard X)
        → IsFiled X.new_key l
        → lookup j l ≡ some ps
        → reads d alive ps ≡ ok s
        → (r : ℕ) × IsAt s (restore_state alive l d) r
    unfolding restore_state lookup
    restore_state_finds [] d j ps s v found made = cc
    restore_state_finds ((i, q) ∷ rest) d j ps s v found made = elim (Bool-cases (i == j)) [
      | inl e ↦
          let same : q ≡ ps = ground arith in
          let made_q : reads d alive q ≡ ok s = rw same made in
          let key =
            unmarshal_key d.mounts d.throttle_ready_fetch d.transients_dir alive q s made_q in
          (
            length d.heap,
            rw (made_q, restore_state)
                (restore_state-IsAt rest (restored d s) s (length d.heap) v.2
                  (ap (λ k. lookup (X.new_key k.str) rest) key
                    ∙ (ap (λ k. lookup k rest) (sym v.0) ∙ v.1))
                  (restored-IsAt s d)),
          )
      | inr e ↦
          let later : lookup j rest ≡ some ps = ground arith in
          elim (Result-cases (reads d alive q)) [
            | inr (x, f) ↦ rw (f, restore_state) (restore_state_finds rest d j ps s v.2 later made)
            | inl (t, f) ↦
                rw (f, restore_state)
                  (restore_state_finds rest (restored d t) j ps s v.2 later made)
          ]
    ]
