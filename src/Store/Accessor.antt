-- ===== src/Store/Accessor.antt =====
-- accessor.go: the views of an accessor on its data, and the mappings into memory that they make.
pub mod Mappings
use dagstore.Shared.{
  ℕ, String, Bool, true, false, Option, none, some, List, [], ◌∷◌, nat_beq, if◌then◌else◌,
}
use dagstore.Error.{Error, Result, ok, err}
use dagstore.ShardKey.{Key}
use dagstore.Store.Types.{Externals, Accessor, Shard}

-- A mapping of a file into memory is a number. `is_file` is whether the reader is an `*os.File`.
pub record Views : Type 0 where
  pub is_file : Bool
  pub mmapr : Option ℕ
  -- The mappings of the process.
  pub mappings : List ℕ

-- What `blockstore.NewReadOnly` reads from.
pub data Source : Type 0 where
  reader : Source
  mapping : ℕ → Source

abbrev pub without : ℕ → List ℕ → List ℕ
without m [] = []
without m (n ∷ rest) = let more = without m rest in if nat_beq n m then more else n ∷ more

-- `NewShardAccessor`, in a process with these mappings.
unfoldable pub new_views : (is_file : Bool) → (mappings : List ℕ) → Views
new_views is_file mappings = record { is_file = is_file; mmapr = none; mappings = mappings }

-- `Blockstore`, short of `blockstore.NewReadOnly`. `opened` is what `mmap.Open` answers for the file.
abbrev pub view : (is_file : Bool) → (opened : Result ℕ) → Views → Views × Source
view false opened v = (v, reader)
view true (err e) v = (v, reader)
view true (ok m) v = (record v { mmapr = some m; mappings = m ∷ v.mappings }, mapping m)

unfoldable pub blockstore : (opened : Result ℕ) → Views → Views × Source
blockstore opened v = view v.is_file opened v

-- `Close`, short of the task that it queues. An error of `mmapr.Close` is logged; `failed` is whether
-- there is one.
unfoldable pub close : (failed : Bool) → Views → Views
close failed v = elim v.mmapr [
  | none ↦ v
  | some m ↦ record v { mappings = if failed then v.mappings else without m v.mappings }
]

-- `Shard`
unfoldable pub shard_of : {X : Externals} → Shard X → Key
shard_of s = s.key
