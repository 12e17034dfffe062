-- ===== src/Index/Memory.antt =====
-- index/repo_mem.go: the repository of full indices in memory.
pub mod Laws
use dagstore.Shared.{
  ℕ, suc, ◌+◌, ◌%◌, ◌^◌, Bool, true, false, Option, none, some, List, [], ◌∷◌, length, map, lookup,
  insert, erase,
}
use dagstore.Error.{Error, Result, ok, err, index_not_found}
use dagstore.ShardKey.{Key, key_eq}
use dagstore.Index.Repo.{Stat, FullIndexRepo}

abbrev pub MemIndexRepo : Type 0 → Type 0
MemIndexRepo I = List (Key × I)

-- What a callback answers: go on or stop, or an error.
pub data Visit : Type 0 where
  go_on stop : Visit
  abort : Error → Visit

-- `write_to` is the number of bytes that `index.WriteTo` writes of an index.
module _ {I : Type 0} (write_to : I → Result ℕ) where
  unfoldable pub new_memory_repo : MemIndexRepo I
  new_memory_repo = []

  unfoldable pub get_full_index : MemIndexRepo I → Key → Result I
  get_full_index m key = elim (lookup key m) [ none ↦ err index_not_found | some idx ↦ ok idx ]

  unfoldable pub add_full_index : MemIndexRepo I → Key → I → MemIndexRepo I × Option Error
  add_full_index m key idx = (insert key idx m, none)

  unfoldable pub drop_full_index : MemIndexRepo I → Key → MemIndexRepo I × Bool × Option Error
  drop_full_index m key = (erase key m, true, none)

  unfoldable pub index_size : MemIndexRepo I → Key → Result ℕ
  index_size m key = elim (lookup key m) [ none ↦ err index_not_found | some idx ↦ write_to idx ]

  unfoldable pub stat_full_index : MemIndexRepo I → Key → Result Stat
  unfolding index_size
  stat_full_index m key = elim (lookup key m) [
    | none ↦ ok (record { exists = false; size = 0 })
    | some _ ↦ elim (index_size m key) [
      | err e ↦ err e
      | ok size ↦ ok (record { exists = true; size = size })
    ]
  ]

  -- The keys are copied first, so the callback may change the repository. `f` answers for each key.
  unfoldable pub for_each : (f : Key → Visit) → List Key → Option Error
  for_each f [] = none
  for_each f (k ∷ ks) =
      let rest = for_each f ks in elim (f k) [ go_on ↦ rest | stop ↦ none | abort e ↦ some e ]

  unfoldable pub len : MemIndexRepo I → Result ℕ
  len m = ok (length m)

  -- The sum is a `uint64`.
  unfoldable pub size_from : ℕ → List (Key × I) → MemIndexRepo I → Result ℕ
  unfolding index_size
  size_from acc [] m = ok acc
  size_from acc ((k, idx) ∷ rest) m = elim (index_size m k) [
    | err e ↦ err e
    | ok sz ↦ size_from ((acc + sz) % 2 ^ 64) rest m
  ]

  unfoldable pub size : MemIndexRepo I → Result ℕ
  unfolding size_from
  size m = size_from 0 m m

  abbrev pub memory_repo : FullIndexRepo (MemIndexRepo I) I
  memory_repo = record {
    get_full_index = get_full_index;
    add_full_index = add_full_index;
    drop_full_index = drop_full_index;
    stat_full_index = stat_full_index;
  }
