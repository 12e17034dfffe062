-- ===== src/IndexedBlockstore/Once.antt =====
-- indexbs/indexbacked_bs.go: concurrent calls of `execOp` open the blockstore of a shard once.
use dagstore.Shared.{
  ℕ, ◌+◌, ◌≤◌, ◌≡◌, refl, sym, ◌∙◌, inl, inr, String, true, Option, none, some, List, [], ◌∷◌,
  get_elem?, total, nat_beq, ◌==◌, string_eq, arith, total-append, Option-cases,
}
use mathlib.Core.Path.{subst}
use mathlib.Core.Option.{some-injective}
use dagstore.ShardKey.{Key, key_eq}
use dagstore.IndexedBlockstore.{BlockExternals, BlockstoreOp, last_byte, locate}
use dagstore.IndexedBlockstore.Threads.{
  Thread, looking, locking, checking, acquiring, using, ended, Answers, Calls, Event, calls,
  proceeds, evicts, holds, lock_step, with_same, exec_step, put_thread, evict_shard, calls_step,
  calls_run,
}
use dagstore.IndexedBlockstore.Exclusive.{
  IsCache, is_shard, in_use, acquires, new_calls, IsExclusive, IsSafe, set-IsExclusive,
  locate-IsExclusive, lock-IsExclusive, check-IsExclusive, arrive-IsExclusive,
}

module _ {X : BlockExternals} where
  module _ (laws : IsCache X) (k : Key) (n : ℕ) (stripe : last_byte k.str ≡ some n) where
    locking-IsSafe :
        (c : X.Cid) (op : BlockstoreOp) (sk : Key) (s : Calls X) (i : ℕ)
        → get_elem? s.threads i ≡ some (locking c op sk)
        → IsExclusive laws k n stripe s
        → (m : Option ℕ) → last_byte sk.str ≡ m
        → IsSafe laws k n stripe (put_thread i (with_same s (lock_step c op sk m s)))
    locking-IsSafe c op sk s i at v none e = tt
    locking-IsSafe c op sk s i at v (some m) e =
        lock-IsExclusive laws k n stripe s i (locking c op sk) at v c op sk m e
          (nat_beq (total (holds m) s.threads) 0) refl

    exec_step-IsExclusive :
        (a : Answers X) (t : Thread X) (s : Calls X) (i : ℕ)
        → get_elem? s.threads i ≡ some t
        → IsExclusive laws k n stripe s
        → IsSafe laws k n stripe (put_thread i (exec_step a t s))
    unfolding exec_step
    exec_step-IsExclusive a (looking c op) s i at v =
        locate-IsExclusive laws k n stripe s i (looking c op) at v c op (locate c s.cache a.shards)
    exec_step-IsExclusive a (locking c op sk) s i at v =
        locking-IsSafe c op sk s i at v (last_byte sk.str) refl
    exec_step-IsExclusive a (checking c op sk) s i at v =
        check-IsExclusive laws k n stripe s i (checking c op sk) at v c op sk refl
          (X.cached s.cache sk.str) refl a.queued
    exec_step-IsExclusive a (acquiring c op sk) s i at v =
        arrive-IsExclusive laws k n stripe s i (acquiring c op sk) at v c op sk refl a.arrival
    exec_step-IsExclusive a (using c op sk bs) s i at v =
        set-IsExclusive laws k n stripe s i (using c op sk bs) at v _ (omega arith) (omega arith)
    exec_step-IsExclusive a (ended r) s i at v =
        set-IsExclusive laws k n stripe s i (ended r) at v _ (omega arith) (omega arith)

    evict_shard-IsExclusive :
        (sk : Key) (bs : Option X.Blockstore) (s : Calls X)
        → X.cached s.cache sk.str ≡ bs
        → IsExclusive laws k n stripe s
        → IsExclusive laws k n stripe (evict_shard sk bs s)
    evict_shard-IsExclusive sk none s e v = v
    evict_shard-IsExclusive sk (some bs) s e v =
        let there : k == sk ≡ true → X.cached s.cache k.str ≡ some bs =
          λ same. rw ((key_eq.beq_iff k sk).0 same) e in
        record {
          locked = v.locked;
          single = ground (arith, v.single, laws.cached-evict s.cache sk.str k.str);
          counted = ground (arith, v.counted, there, laws.cached-evict s.cache sk.str k.str);
        }

    calls_step-IsExclusive :
        (e : Event X) (s : Calls X)
        → IsExclusive laws k n stripe s
        → IsSafe laws k n stripe (calls_step e s)
    unfolding calls_step
    calls_step-IsExclusive (calls c op) s v = record {
      locked = omega (arith, v.locked, total-append (holds n) s.threads (looking c op ∷ []));
      single = omega (arith, v.single, total-append (acquires k) s.threads (looking c op ∷ []));
      counted = v.counted;
    }
    calls_step-IsExclusive (proceeds i a) s v = elim (Option-cases (get_elem? s.threads i)) [
      | inl e ↦ rw (e, calls_step) v
      | inr (t, e) ↦ rw (e, calls_step) (exec_step-IsExclusive a t s i e v)
    ]
    calls_step-IsExclusive (evicts sk) s v =
        evict_shard-IsExclusive sk (X.cached s.cache sk.str) s refl v

    calls_run-IsExclusive :
        (es : List (Event X)) (s s' : Calls X)
        → IsExclusive laws k n stripe s
        → calls_run es s ≡ some s'
        → IsExclusive laws k n stripe s'
    unfolding calls_run
    calls_run-IsExclusive [] s s' v e = subst (IsExclusive laws k n stripe) (some-injective _ _ e) v
    calls_run-IsExclusive (event ∷ es) s s' v e = elim (Option-cases (calls_step event s)) [
      | inl f ↦ let stopped : calls_run (event ∷ es) s ≡ none = rw (f, calls_run) refl in cc
      | inr (u, f) ↦
          let next : IsExclusive laws k n stripe u =
            subst (IsSafe laws k n stripe) f (calls_step-IsExclusive event s v) in
          let rest : calls_run (event ∷ es) s ≡ calls_run es u = rw (f, calls_run) refl in
          calls_run-IsExclusive es u s' next (sym rest ∙ e)
    ]

  -- However calls of `Get` and `GetSize` interleave, from an empty cache and short of a panic, for a shard
  -- whose key is not empty: the blockstores of the shard that were opened are the one in the cache, if any,
  -- and those that the cache gave up, whose accessors are closed. So at most one more is opened than is
  -- given up, and at most one call at a time is acquiring the shard, none while its blockstore is in the
  -- cache. The laws of the cache are those of a map.
  pub opened_once :
      IsCache X
      → (k : Key) (cache : X.Cache) → ((j : String) → X.cached cache j ≡ none)
      → (es : List (Event X)) (s : Calls X) → calls_run es (new_calls cache) ≡ some s
      → (n : ℕ) → last_byte k.str ≡ some n
      → (total (is_shard k) s.opened_shards
          ≡ in_use (X.cached s.cache k.str) + total (is_shard k) s.evicted)
        × (in_use (X.cached s.cache k.str) + total (acquires k) s.threads ≤ 1)
  opened_once laws k cache empty es s e n stripe =
      let start : IsExclusive laws k n stripe (new_calls cache) = record {
        locked = omega arith;
        single = ground (arith, empty k.str);
        counted = ground (arith, empty k.str);
      } in
      let v = calls_run-IsExclusive laws k n stripe es (new_calls cache) s start e in
      (v.counted, v.single)
