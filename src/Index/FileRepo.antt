-- ===== src/Index/FileRepo.antt =====
-- index/repo_fs.go: the repository of full indices in a directory.
pub mod Names
pub mod Refinement
pub mod Failure
mod Tests
use dagstore.Shared.{
  ℕ, suc, ◌+◌, ◌%◌, ◌^◌, String, ◌<>◌, Bool, true, false, Option, none, some, List, [], ◌∷◌, length,
  lookup, insert, erase, if◌then◌else◌, ◌==◌, string_eq,
}
use dagstore.Error.{Error, Result, ok, err, file_missing, no_index_dir, unknown_version}
use dagstore.ShardKey.{Key, key_from_string}
use dagstore.Index.Repo.{Stat, FullIndexRepo}
use dagstore.Index.Memory.{Visit, go_on, stop, abort}

abbrev pub Bytes : Type 0
Bytes = List ℕ

-- What the file system answers for a path, other than that a file is missing. `writes` has the bytes
-- that reach the file before the error.
pub record FileFaults : Type 0 where
  pub mkdir : Option Error
  pub reads_version : Option Error
  pub writes_version : Option Error
  pub opens : String → Option Error
  pub creates : String → Option Error
  pub removes : String → Option Error
  pub stats : String → Option Error
  pub writes : String → Option (Bytes × Error)

-- `FSIndexRepo` with what its directory holds: the version file, and the other files by their paths.
pub record FileRepo : Type 0 where
  pub base_dir : String
  pub version : Option String
  pub files : List (String × Bytes)
  pub faults : FileFaults

-- `carindex.WriteTo` and `ReadFrom`, `filepath.Join` and `Base`, and the order of `filepath.Walk`.
pub record FileExternals (I : Type 0) : Type 0 where
  pub encode : I → Bytes
  pub decode : Bytes → Result I
  pub join : String → String → String
  pub base : String → String
  pub walk : List (String × Bytes) → List (String × Bytes)

abbrev pub index_suffix : String
index_suffix = ".full.idx"

abbrev pub repo_version : String
repo_version = "1"

-- The name without the suffix, if it has it.
unfoldable pub trim_suffix : String → String → Option String
trim_suffix suffix String.[] = if String.[] == suffix then some String.[] else none
trim_suffix suffix (String.◌∷◌ c s) =
    let shorter = trim_suffix suffix s in
    if String.◌∷◌ c s == suffix
    then some String.[]
    else elim shorter [ none ↦ none | some rest ↦ some (String.◌∷◌ c rest) ]

-- What `os.ReadFile` of the version file leads to.
abbrev pub opened_repo : (version : Option String) → FileRepo → FileRepo × Option Error
opened_repo (some v) r = (r, if v == repo_version then none else some (unknown_version v))
opened_repo none r = elim r.faults.writes_version [
  | some e ↦ (r, some e)
  | none ↦ (record r { version = some repo_version }, none)
]

-- `NewFSRepo` on a directory: what it holds then, and the error.
unfoldable pub new_fs_repo : FileRepo → FileRepo × Option Error
new_fs_repo r = elim r.faults.mkdir [
  | some e ↦ (r, some (no_index_dir e))
  | none ↦ elim r.faults.reads_version [ some e ↦ (r, some e) | none ↦ opened_repo r.version r ]
]

module _ {I : Type 0} (x : FileExternals I) where
  unfoldable pub index_path : FileRepo → Key → String
  index_path r key = x.join r.base_dir (key.str <> index_suffix)

  unfoldable pub read_index : FileRepo → Key → Result I
  read_index r key = elim (r.faults.opens (index_path r key)) [
    | some e ↦ err e
    | none ↦ elim (lookup (index_path r key) r.files) [
      | none ↦ err file_missing
      | some bytes ↦ x.decode bytes
    ]
  ]

  -- `WriteTo`: all bytes, or some and an error.
  abbrev pub write_index :
      Option (Bytes × Error) → String → Bytes → FileRepo → FileRepo × Option Error
  write_index none path bytes r = (record r { files = insert path bytes r.files }, none)
  write_index (some (written, e)) path bytes r =
      (record r { files = insert path written r.files }, some e)

  unfoldable pub create_index : FileRepo → Key → I → FileRepo × Option Error
  create_index r key idx =
      let path = index_path r key in
      elim (r.faults.creates path) [
        | some e ↦ (r, some e)
        | none ↦ write_index (r.faults.writes path) path (x.encode idx) r
      ]

  -- A file that is not there cannot be removed. The second part is always true.
  abbrev pub remove_index :
      Option Error → Option Bytes → String → FileRepo → FileRepo × Bool × Option Error
  remove_index (some e) there path r = (r, true, some e)
  remove_index none none path r = (r, true, some file_missing)
  remove_index none (some bytes) path r = (record r { files = erase path r.files }, true, none)

  unfoldable pub drop_index : FileRepo → Key → FileRepo × Bool × Option Error
  drop_index r key =
      let path = index_path r key in
      remove_index (r.faults.removes path) (lookup path r.files) path r

  -- A size is a `uint64`.
  unfoldable pub stat_index : FileRepo → Key → Result Stat
  stat_index r key = elim (r.faults.stats (index_path r key)) [
    | some e ↦ err e
    | none ↦ elim (lookup (index_path r key) r.files) [
      | none ↦ ok (record { exists = false; size = 0 })
      | some bytes ↦ ok (record { exists = true; size = length bytes % 2 ^ 64 })
    ]
  ]

  -- `eachIndexFile`: the names of the index files without the suffix, and their contents.
  unfoldable pub index_files : List (String × Bytes) → List (String × Bytes)
  unfolding trim_suffix
  index_files [] = []
  index_files ((path, bytes) ∷ rest) =
      let more = index_files rest in
      elim (trim_suffix index_suffix (x.base path)) [
        | none ↦ more
        | some name ↦ (name, bytes) ∷ more
      ]

  -- `f` answers for each key. `stopWalk` is no error for the caller.
  unfoldable pub visit_files : (f : Key → Visit) → List (String × Bytes) → Option Error
  unfolding key_from_string
  visit_files f [] = none
  visit_files f ((name, bytes) ∷ rest) =
      let more = visit_files f rest in
      elim (f (key_from_string name)) [ go_on ↦ more | stop ↦ none | abort e ↦ some e ]

  unfoldable pub each_key : (f : Key → Visit) → FileRepo → Option Error
  unfolding visit_files index_files
  each_key f r = visit_files f (index_files (x.walk r.files))

  unfoldable pub count_indices : FileRepo → ℕ
  unfolding index_files
  count_indices r = length (index_files (x.walk r.files))

  unfoldable pub size_of_files : ℕ → List (String × Bytes) → ℕ
  size_of_files size [] = size
  size_of_files size ((name, bytes) ∷ rest) = size_of_files ((size + length bytes) % 2 ^ 64) rest

  unfoldable pub size_of_indices : FileRepo → ℕ
  unfolding size_of_files index_files
  size_of_indices r = size_of_files 0 (index_files (x.walk r.files))

  abbrev pub file_repo : FullIndexRepo FileRepo I
  file_repo = record {
    get_full_index = read_index;
    add_full_index = create_index;
    drop_full_index = drop_index;
    stat_full_index = stat_index;
  }
