-- ===== src/IndexedBlockstore/Exclusive.antt =====
-- indexbs/indexbacked_bs.go: what one thread does under the lock of a shard keeps others out.
use dagstore.Shared.{
  ℕ, ◌+◌, ◌≤◌, ◌≡◌, refl, sym, inl, inr, String, Bool, true, false, Option, none, some, List, [],
  ◌∷◌, get_elem?, set, total, if◌then◌else◌, nat_beq, nat_beq_iff, Bool-cases, ◌==◌, string_eq,
  arith, total-set,
}
use dagstore.Error.{Error, ok, err}
use dagstore.ShardKey.{Key, key_eq}
use dagstore.IndexedBlockstore.{
  BlockExternals, BlockstoreOp, Located, fails, in_cache, selected, last_byte,
}
use dagstore.IndexedBlockstore.Threads.{
  Thread, looking, locking, checking, acquiring, using, ended, Arrival, cancelled, failed, opened,
  Calls, is_stripe, holds, after_locate, check_step, arrive, put_thread,
}

-- What `ttlcache` does with an entry, by its key.
pub record IsCache (X : BlockExternals) : Type 0 where
  pub cached-cache :
      (c : X.Cache) (k j : String) (bs : X.Blockstore)
      → X.cached (X.cache c k bs) j ≡ (if j == k then some bs else X.cached c j)
  pub cached-evict :
      (c : X.Cache) (k j : String)
      → X.cached (X.evict c k) j ≡ (if j == k then none else X.cached c j)

abbrev pub is_shard : Key → Key → ℕ
is_shard k sk = if k == sk then 1 else 0

abbrev pub in_use {ℓ} : {A : Type ℓ} → Option A → ℕ
in_use none = 0
in_use (some bs) = 1

module _ {X : BlockExternals} where
  -- Whether a thread acquires a shard.
  abbrev pub acquires : Key → Thread X → ℕ
  acquires k (acquiring c op sk) = is_shard k sk
  acquires k t = 0

  abbrev pub new_calls : X.Cache → Calls X
  new_calls cache = record { cache = cache; threads = []; opened_shards = []; evicted = [] }

  module _ (laws : IsCache X) (k : Key) (n : ℕ) (stripe : last_byte k.str ≡ some n) where
    pub record IsExclusive (s : Calls X) : Type 0 where
      pub locked : total (holds n) s.threads ≤ 1
      pub single : in_use (X.cached s.cache k.str) + total (acquires k) s.threads ≤ 1
      pub counted :
          total (is_shard k) s.opened_shards
          ≡ in_use (X.cached s.cache k.str) + total (is_shard k) s.evicted

    abbrev pub IsSafe : Option (Calls X) → Type 0
    IsSafe none = Unit
    IsSafe (some s) = IsExclusive s

    stripe_of : (sk : Key) → k ≡ sk → last_byte sk.str ≡ some n
    stripe_of sk e = rw (sym e) stripe

    holds_at : (sk : Key) → is_shard k sk ≤ is_stripe n (last_byte sk.str)
    holds_at sk = ground (arith, stripe, nat_beq_iff n n, key_eq.beq_iff k sk, stripe_of sk)

    acquires-holds : (ts : List (Thread X)) → total (acquires k) ts ≤ total (holds n) ts
    acquires-holds [] = omega arith
    acquires-holds (looking c op ∷ ts) = omega (arith, acquires-holds ts)
    acquires-holds (locking c op sk ∷ ts) = omega (arith, acquires-holds ts)
    acquires-holds (checking c op sk ∷ ts) = omega (arith, acquires-holds ts)
    acquires-holds (acquiring c op sk ∷ ts) = omega (arith, holds_at sk, acquires-holds ts)
    acquires-holds (using c op sk bs ∷ ts) = omega (arith, acquires-holds ts)
    acquires-holds (ended r ∷ ts) = omega (arith, acquires-holds ts)

    module _ (s : Calls X) (i : ℕ) (t : Thread X) (at : get_elem? s.threads i ≡ some t)
        (v : IsExclusive s) where
      -- A thread that gives up the lock, or goes on as before.
      pub set-IsExclusive :
          (u : Thread X)
          → holds n u ≤ holds n t
          → acquires k u ≤ acquires k t
          → IsExclusive (record s { threads = set s.threads i u })
      set-IsExclusive u h g = record {
        locked = omega (arith, v.locked, total-set (holds n) s.threads i u t at);
        single = omega (arith, v.single, total-set (acquires k) s.threads i u t at);
        counted = v.counted;
      }

      locked-IsExclusive :
          (u : Thread X)
          → total (holds n) s.threads ≡ 0
          → holds n u ≤ 1
          → acquires k u ≡ 0
          → IsExclusive (record s { threads = set s.threads i u })
      locked-IsExclusive u free h g = record {
        locked = omega (arith, total-set (holds n) s.threads i u t at);
        single = omega (arith, v.single, total-set (acquires k) s.threads i u t at);
        counted = v.counted;
      }

      pub locate-IsExclusive :
          (c : X.Cid) (op : BlockstoreOp) (l : Located X)
          → IsExclusive (record s { threads = set s.threads i (after_locate c op l) })
      locate-IsExclusive c op (fails e) = set-IsExclusive _ (omega arith) (omega arith)
      locate-IsExclusive c op (in_cache sk bs) = set-IsExclusive _ (omega arith) (omega arith)
      locate-IsExclusive c op (selected sk) = set-IsExclusive _ (omega arith) (omega arith)

      -- Another stripe, or the lock is free.
      same_total : (m p : ℕ) → m ≡ p → total (holds m) s.threads ≡ total (holds p) s.threads
      same_total m p q = rw q refl

      pub lock-IsExclusive :
          (c : X.Cid) (op : BlockstoreOp) (sk : Key) (m : ℕ)
          → last_byte sk.str ≡ some m
          → (free : Bool) → (nat_beq (total (holds m) s.threads) 0) ≡ free
          → IsExclusive (record s {
            threads = set s.threads i (if free then checking c op sk else locking c op sk);
          })
      lock-IsExclusive c op sk m e false h = set-IsExclusive _ (omega arith) (omega arith)
      lock-IsExclusive c op sk m e true h = elim (Bool-cases (nat_beq n m)) [
        | inl same ↦
            locked-IsExclusive _
              (ground (
                arith,
                h,
                nat_beq_iff n m,
                same_total n m,
                nat_beq_iff (total (holds m) s.threads) 0,
              ))
              (ground arith) refl
        | inr other ↦ set-IsExclusive _ (ground (arith, e, other)) (omega arith)
      ]

      pub check-IsExclusive :
          (c : X.Cid) (op : BlockstoreOp) (sk : Key)
          → t ≡ checking c op sk
          → (cached : Option X.Blockstore) → X.cached s.cache sk.str ≡ cached
          → (queued : Option Error)
          → IsExclusive (record s { threads = set s.threads i (check_step c op sk cached queued) })
      check-IsExclusive c op sk e (some bs) h queued = set-IsExclusive _ (omega arith) (omega arith)
      check-IsExclusive c op sk e none h (some f) = set-IsExclusive _ (omega arith) (omega arith)
      check-IsExclusive c op sk e none h none =
          let holding : holds n t ≡ is_stripe n (last_byte sk.str) = rw e refl in
          let still = total-set (holds n) s.threads i (acquiring c op sk) t at in
          let missing : k == sk ≡ true → X.cached s.cache k.str ≡ none =
            λ same. rw ((key_eq.beq_iff k sk).0 same) h in
          record {
            locked = omega (arith, v.locked, holding, still);
            single = elim (Bool-cases (k == sk)) [
              | inl same ↦ ground (
                arith,
                v.locked,
                holding,
                still,
                acquires-holds (set s.threads i (acquiring c op sk)),
                missing,
              )
              | inr other ↦
                  ground
                    (arith, v.single, total-set (acquires k) s.threads i (acquiring c op sk) t at)
            ];
            counted = v.counted;
          }

      pub arrive-IsExclusive :
          (c : X.Cid) (op : BlockstoreOp) (sk : Key)
          → t ≡ acquiring c op sk
          → (a : Arrival X) → IsSafe (put_thread i (some (arrive c op sk a s)))
      arrive-IsExclusive c op sk e (cancelled f) = set-IsExclusive _ (omega arith) (omega arith)
      arrive-IsExclusive c op sk e (failed f) = set-IsExclusive _ (omega arith) (omega arith)
      arrive-IsExclusive c op sk e (opened (err f)) = set-IsExclusive _ (omega arith) (omega arith)
      arrive-IsExclusive c op sk e (opened (ok bs)) =
          let acquired : acquires k t ≡ is_shard k sk = rw e refl in
          let waits = total-set (acquires k) s.threads i (using c op sk bs) t at in
          record {
            locked =
                omega (arith, v.locked, total-set (holds n) s.threads i (using c op sk bs) t at);
            single =
                ground
                  (arith, v.single, acquired, waits, laws.cached-cache s.cache sk.str k.str bs);
            counted = ground (
              arith,
              v.counted,
              v.single,
              acquired,
              waits,
              laws.cached-cache s.cache sk.str k.str bs,
            );
          }
