-- ===== src/Store/Soundness/Invariant.antt =====
-- The invariant of the running store, and what writing one shard of the heap does to it.
use dagstore.Shared.{
  ℕ, suc, ◌≤◌, ◌≡◌, ◌≢◌, refl, sym, ◌⊎◌, inl, inr, some, List, [], ◌∷◌, All, length, get_elem?, set,
  total, map, arith, ℕ_discrete, get_elem?-set_self, get_elem?-set_ne,
}
use dagstore.Store.Types.{Externals, Shard}
use dagstore.Store.Turn
use dagstore.Store.Turn.{Spawn}
use dagstore.Store.Async.{started}
use dagstore.Store.System.Defs.{System}
use dagstore.Store.Soundness.Measure.{
  holders, refs_at, load, load_at, spawn_refs, goroutine_refs, IsSoundTask, IsSoundSpawn,
  IsSoundShard, IsSoundGoroutine,
}

-- After `n` steps: no shard has more references and parked acquirers than steps were made, and
-- whatever is queued or waits is well formed.
pub record IsOrderly {X : Externals} (n : ℕ) (d : System X) : Type 0 where
  pub loaded : (r : ℕ) → load_at r d.heap ≤ n
  pub external : All IsSoundTask d.external_ch
  pub internal : All IsSoundTask d.internal_ch
  pub completion : All IsSoundTask d.completion_ch
  pub goroutines : All IsSoundGoroutine d.goroutines
  pub heap : All IsSoundShard d.heap

pub record Inv {X : Externals} (n : ℕ) (d : System X) : Type 0 where
  -- Every reference that somebody holds is counted.
  pub held : (r : ℕ) → holders r d ≤ refs_at r d.heap
  -- The channel of capacity 1 never has to hold two tasks.
  pub single : length d.internal_ch ≤ 1
  pub orderly : IsOrderly n d

-- A step more allows more load.
pub IsOrderly-suc : {X : Externals} {n : ℕ} {d : System X} → IsOrderly n d → IsOrderly (suc n) d
IsOrderly-suc o = record {
  loaded = λ r. omega (arith, o.loaded r);
  external = o.external;
  internal = o.internal;
  completion = o.completion;
  goroutines = o.goroutines;
  heap = o.heap;
}

pub total-map-started :
    (X : Externals) (r : ℕ) (l : List Spawn)
    → total (goroutine_refs {X = X} r) (map started l) ≡ total (spawn_refs r) l
total-map-started X r [] = refl
total-map-started X r (Turn.acquire_async w shard ∷ l) = omega (arith, total-map-started X r l)
total-map-started X r (Turn.initialize_shard ctx shard ∷ l) = omega (arith, total-map-started X r l)

pub All-map-started :
    (X : Externals) (l : List Spawn)
    → All IsSoundSpawn l
    → All (IsSoundGoroutine {X = X}) (map started l)
All-map-started X [] p = tt
All-map-started X (Turn.acquire_async w shard ∷ l) p = (p.0, All-map-started X l p.1)
All-map-started X (Turn.initialize_shard ctx shard ∷ l) p = (tt, All-map-started X l p.1)

module _ {ℓ} {A : Type ℓ} (xs : List A) (i : ℕ) (v u : A) (at_i : get_elem? xs i ≡ some u) where
  pub get_elem?-set_cases :
      (r : ℕ)
      → ((r ≡ i) × (get_elem? (set xs i v) r ≡ some v) × (get_elem? xs r ≡ some u))
        ⊎ ((r ≢ i) × (get_elem? (set xs i v) r ≡ get_elem? xs r))
  get_elem?-set_cases r = elim (ℕ_discrete r i) [
    | yes p ↦ inl (p, rw p (get_elem?-set_self xs i v u at_i), rw p at_i)
    | no p ↦ inr (p, get_elem?-set_ne xs i r v (λ e. p (sym e)))
  ]

module _ {X : Externals} (heap : List (Shard X)) (i : ℕ) (s s' : Shard X)
    (at_i : get_elem? heap i ≡ some s) where
  -- A write that leaves the references, or the load, as they were.
  pub refs_at-set : s'.refs ≡ s.refs → (r : ℕ) → refs_at r (set heap i s') ≡ refs_at r heap
  refs_at-set e r = ground (arith, get_elem?-set_cases heap i s' s at_i r)

  pub load_at-set :
      (n : ℕ) → load (some s') ≤ n → (r : ℕ) → load_at r heap ≤ n → load_at r (set heap i s') ≤ n
  load_at-set n e r h = ground (arith, get_elem?-set_cases heap i s' s at_i r)
