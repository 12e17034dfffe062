-- ===== src/Store/System/Orphans.antt =====
-- dagstore_gc.go: `clearOrphaned`, on the files of the transients directory, which exists.
use dagstore.Shared.{
  Option-cases, inl, inr, zero, ℕ, suc, String, ◌≡◌, Bool, true, false, ◌||◌, Option, none, some,
  List, [], ◌∷◌, get_elem?, arith, if◌then◌else◌, ◌==◌, string_eq,
}
use dagstore.Error.{Error}
use dagstore.ShardKey.{Key}
use dagstore.Mount.Upgrader.{transient_path}
use dagstore.Store.Types.{Externals, Shard}

-- What `filepath.WalkDir` finds.
pub record DirEntry : Type 0 where
  pub path : String
  pub is_dir : Bool

abbrev pub failed : Option Error → Bool
failed none = false
failed (some e) = true

module _ {X : Externals} where
  -- The `referenced` map: the transients of the shards of the catalogue.
  unfoldable pub referenced : List (Shard X) → List (Key × ℕ) → List String
  unfolding transient_path
  referenced heap [] = []
  referenced heap ((k, shard) ∷ rest) =
      let more = referenced heap rest in
      elim (get_elem? heap shard) [ none ↦ more | some s ↦ transient_path s.mount ∷ more ]

unfoldable pub is_referenced : String → List String → Bool
is_referenced path [] = false
is_referenced path (p ∷ ps) = let more = is_referenced path ps in if p == path then true else more

-- The entries that are left. `removed` is what `os.Remove` answers for a path.
unfoldable pub clear_orphaned :
    (removed : String → Option Error) → List String → List DirEntry → List DirEntry
unfolding is_referenced
clear_orphaned removed paths [] = []
clear_orphaned removed paths (f ∷ fs) =
    let rest = clear_orphaned removed paths fs in
    if f.is_dir
    then f ∷ rest
    else if is_referenced f.path paths
    then f ∷ rest
    else elim (removed f.path) [ none ↦ rest | some e ↦ f ∷ rest ]

-- The files at a path.
abbrev pub files_at : String → List DirEntry → ℕ
files_at path [] = 0
files_at path (f ∷ fs) =
    let more = files_at path fs in
    if f.is_dir then more else if f.path == path then suc more else more

-- At each path, the call leaves all plain files if the path is among the referenced ones or cannot
-- be removed, and else none.
pub clear_orphaned_lem :
    (removed : String → Option Error) (paths : List String) (path : String) (fs : List DirEntry)
    → files_at path (clear_orphaned removed paths fs)
      ≡ (if is_referenced path paths || failed (removed path) then files_at path fs else 0)
unfolding clear_orphaned
clear_orphaned_lem removed paths path [] = ground arith
clear_orphaned_lem removed paths path (f ∷ fs) =
    ground (arith, clear_orphaned_lem removed paths path fs, string_eq.beq_iff f.path path)

module _ {X : Externals} where
  is_referenced-referenced :
      (heap : List (Shard X)) (shards : List (Key × ℕ)) (i : ℕ) (k : Key) (shard : ℕ) (s : Shard X)
      → get_elem? shards i ≡ some (k, shard)
      → get_elem? heap shard ≡ some s
      → is_referenced s.mount.path (referenced heap shards) ≡ true
  unfolding is_referenced referenced
  is_referenced-referenced heap [] i k shard s registered found = cc
  is_referenced-referenced heap ((j, n) ∷ rest) zero k shard s registered found =
      ground (arith, found, string_eq.beq_iff s.mount.path s.mount.path)
  is_referenced-referenced heap ((j, n) ∷ rest) (suc i) k shard s registered found =
      let later = is_referenced-referenced heap rest i k shard s registered found in
      elim (Option-cases (get_elem? heap n)) [
        | inl missing ↦ ground (arith, missing, later)
        | inr (t, there) ↦ ground (arith, there, later)
      ]

  -- A transient that a registered shard tracks is not removed: the directory has as many files at its
  -- path after the call as before.
  pub transients_survive :
      (removed : String → Option Error) (heap : List (Shard X)) (shards : List (Key × ℕ)) (i : ℕ)
      (k : Key) (shard : ℕ) (s : Shard X) (fs : List DirEntry)
      → get_elem? shards i ≡ some (k, shard)
      → get_elem? heap shard ≡ some s
      → files_at s.mount.path (clear_orphaned removed (referenced heap shards) fs)
        ≡ files_at s.mount.path fs
  transients_survive removed heap shards i k shard s fs registered found = ground (
    arith,
    clear_orphaned_lem removed (referenced heap shards) s.mount.path fs,
    is_referenced-referenced heap shards i k shard s registered found,
  )
