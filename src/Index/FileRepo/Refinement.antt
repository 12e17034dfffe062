-- ===== src/Index/FileRepo/Refinement.antt =====
-- index/repo_fs.go: the repository on disk implements the one in memory.
use dagstore.Shared.{
  ℕ, ◌^◌, ◌<◌, ◌≡◌, refl, inl, inr, String, ◌<>◌, Option, none, some, List, [], ◌∷◌, length, arith,
  ◌==◌, string_eq, lookup, insert, erase, lookup-insert, lookup-erase, Option-cases, ap, Bool, true,
  false, if◌then◌else◌, All,
}
use dagstore.Error.{Error, Result, ok, err}
use dagstore.ShardKey.{Key, key_eq}
use dagstore.Index.Memory.{
  MemIndexRepo, get_full_index, add_full_index, drop_full_index, stat_full_index, index_size,
}
use dagstore.Index.FileRepo.{
  Bytes, FileFaults, FileRepo, FileExternals, index_suffix, index_path, read_index, write_index,
  create_index, remove_index, drop_index, stat_index,
}

-- What a client writes.
pub data Op (I : Type 0) : Type 0 where
  adds : Key → I → Op I
  drops : Key → Op I

abbrev pub key_of : {I : Type 0} → Op I → Key
key_of (adds key idx) = key
key_of (drops key) = key

abbrev pub is_listed : Key → List Key → Bool
is_listed key [] = false
is_listed key (k ∷ ks) = if k == key then true else is_listed key ks

-- What a client sees of an answer: an error is not told apart from another.
abbrev pub found : {I : Type 0} → Result I → Option I
found (ok idx) = some idx
found (err e) = none

-- A file system on which nothing fails but what is not there.
pub record IsFaultless (faults : FileFaults) : Type 0 where
  pub opens : (path : String) → faults.opens path ≡ none
  pub creates : (path : String) → faults.creates path ≡ none
  pub removes : (path : String) → faults.removes path ≡ none
  pub stats : (path : String) → faults.stats path ≡ none
  pub writes : (path : String) → faults.writes path ≡ none

module _ {I : Type 0} (x : FileExternals I) where
  abbrev pub encoded_size : I → Result ℕ
  encoded_size idx = ok (length (x.encode idx))

  unfoldable pub on_files : Op I → FileRepo → FileRepo
  on_files (adds key idx) r = (create_index x r key idx).0
  on_files (drops key) r = (drop_index x r key).0

  unfoldable pub on_memory : Op I → MemIndexRepo I → MemIndexRepo I
  on_memory (adds key idx) m = (add_full_index encoded_size m key idx).0
  on_memory (drops key) m = (drop_full_index encoded_size m key).0

  unfoldable pub files_after : List (Op I) → FileRepo → FileRepo
  unfolding on_files
  files_after [] r = r
  files_after (op ∷ ops) r = files_after ops (on_files op r)

  unfoldable pub memory_after : List (Op I) → MemIndexRepo I → MemIndexRepo I
  unfolding on_memory
  memory_after [] m = m
  memory_after (op ∷ ops) m = memory_after ops (on_memory op m)

  abbrev encoded : Option I → Option Bytes
  encoded none = none
  encoded (some idx) = some (x.encode idx)

  module _ (decodes : (idx : I) → x.decode (x.encode idx) ≡ ok idx) (dir : String) (keys : List Key)
      (paths : (key other : Key)
        → is_listed key keys ≡ true
        → is_listed other keys ≡ true
        → x.join dir (key.str <> index_suffix) ≡ x.join dir (other.str <> index_suffix)
        → key ≡ other)
      (fits : (idx : I) → length (x.encode idx) < 2 ^ 64) where
    -- The file of each key of the list holds the index that the repository in memory has for the key.
    record Represents (r : FileRepo) (m : MemIndexRepo I) : Type 0 where
      pub faultless : IsFaultless r.faults
      pub base : r.base_dir ≡ dir
      pub files :
          (key : Key)
          → is_listed key keys ≡ true
          → lookup (index_path x r key) r.files ≡ encoded (lookup key m)

    path_of :
        (r : FileRepo) (key : Key)
        → r.base_dir ≡ dir
        → index_path x r key ≡ x.join dir (key.str <> index_suffix)
    unfolding index_path
    path_of r key e = ap (λ b. x.join b (key.str <> index_suffix)) e

    same_path :
        (r : FileRepo) (key other : Key)
        → r.base_dir ≡ dir
        → is_listed key keys ≡ true
        → is_listed other keys ≡ true
        → (index_path x r key == index_path x r other) ≡ (key == other)
    unfolding index_path
    same_path r key other base used used' = ground (
      arith,
      path_of r key base,
      path_of r other base,
      paths key other used used',
      string_eq.beq_iff (index_path x r key) (index_path x r other),
      key_eq.beq_iff key other,
    )

    added : (key : Key) (idx : I) (r : FileRepo) → FileRepo
    added key idx r = record r { files = insert (index_path x r key) (x.encode idx) r.files }

    create_index-faultless :
        (key : Key) (idx : I) (r : FileRepo)
        → IsFaultless r.faults
        → (create_index x r key idx).0 ≡ added key idx r
    unfolding create_index added
    create_index-faultless key idx r v =
        rw (v.creates (index_path x r key), create_index)
          (rw (v.writes (index_path x r key), write_index) refl)

    added-Represents :
        (key : Key) (idx : I) (r : FileRepo) (m : MemIndexRepo I)
        → is_listed key keys ≡ true
        → Represents r m
        → Represents (added key idx r) (insert key idx m)
    unfolding added index_path
    added-Represents key idx r m used v = record {
      faultless = v.faultless;
      base = v.base;
      files = λ other used'. ground (
        arith,
        lookup-insert (index_path x r key) (index_path x r other) (x.encode idx) r.files,
        lookup-insert key other idx m,
        same_path r key other v.base used used',
        v.files other used',
      );
    }

    dropped : (key : Key) (there : Option Bytes) (r : FileRepo) → FileRepo
    dropped key none r = r
    dropped key (some bytes) r = record r { files = erase (index_path x r key) r.files }

    remove_index-faultless :
        (removed : Option Error) (there : Option Bytes) (key : Key) (r : FileRepo)
        → removed ≡ none
        → (remove_index x removed there (index_path x r key) r).0 ≡ dropped key there r
    unfolding dropped
    remove_index-faultless none none key r e = refl
    remove_index-faultless none (some bytes) key r e = refl
    remove_index-faultless (some f) there key r e = cc

    dropped-Represents :
        (key : Key) (there : Option Bytes) (r : FileRepo) (m : MemIndexRepo I)
        → is_listed key keys ≡ true
        → lookup (index_path x r key) r.files ≡ there
        → Represents r m
        → Represents (dropped key there r) (erase key m)
    unfolding dropped index_path
    dropped-Represents key none r m used e v = record {
      faultless = v.faultless;
      base = v.base;
      files = λ other used'. ground (
        arith,
        lookup-erase key other m,
        v.files other used',
        v.files key used,
        key_eq.beq_iff key other,
      );
    }
    dropped-Represents key (some bytes) r m used e v = record {
      faultless = v.faultless;
      base = v.base;
      files = λ other used'. ground (
        arith,
        lookup-erase (index_path x r key) (index_path x r other) r.files,
        lookup-erase key other m,
        same_path r key other v.base used used',
        v.files other used',
      );
    }

    on_files-Represents :
        (op : Op I) (r : FileRepo) (m : MemIndexRepo I)
        → is_listed (key_of op) keys ≡ true
        → Represents r m
        → Represents (on_files op r) (on_memory op m)
    unfolding on_files on_memory drop_index add_full_index drop_full_index
    on_files-Represents (adds key idx) r m used v =
        rw (create_index-faultless key idx r v.faultless) (added-Represents key idx r m used v)
    on_files-Represents (drops key) r m used v =
        rw
          (remove_index-faultless (r.faults.removes (index_path x r key))
            (lookup (index_path x r key) r.files) key r (v.faultless.removes (index_path x r key)))
          (dropped-Represents key (lookup (index_path x r key) r.files) r m used refl v)

    files_after-Represents :
        (ops : List (Op I)) (r : FileRepo) (m : MemIndexRepo I)
        → All (λ op. is_listed (key_of op) keys ≡ true) ops
        → Represents r m
        → Represents (files_after ops r) (memory_after ops m)
    unfolding files_after memory_after
    files_after-Represents [] r m used v = v
    files_after-Represents (op ∷ ops) r m used v =
        files_after-Represents ops _ _ used.1 (on_files-Represents op r m used.0 v)

    read_index-Represents :
        (r : FileRepo) (m : MemIndexRepo I) (key : Key)
        → is_listed key keys ≡ true
        → Represents r m
        → found (read_index x r key) ≡ found (get_full_index encoded_size m key)
    unfolding read_index get_full_index
    read_index-Represents r m key used v = elim (Option-cases (lookup key m)) [
      | inl missing ↦ ground (arith, v.faultless.opens (index_path x r key), v.files key used)
      | inr (idx, there) ↦
          ground (arith, v.faultless.opens (index_path x r key), v.files key used, decodes idx)
    ]

    stat_index-Represents :
        (r : FileRepo) (m : MemIndexRepo I) (key : Key)
        → is_listed key keys ≡ true
        → Represents r m
        → stat_index x r key ≡ stat_full_index encoded_size m key
    unfolding stat_index stat_full_index index_size
    stat_index-Represents r m key used v = elim (Option-cases (lookup key m)) [
      | inl missing ↦ ground (arith, v.faultless.stats (index_path x r key), v.files key used)
      | inr (idx, there) ↦
          ground (arith, v.faultless.stats (index_path x r key), v.files key used, fits idx)
    ]

    -- On a file system where nothing fails but what is missing, an empty repository on disk is an
    -- implementation of the one in memory, for the keys of any list: whatever indices are added and
    -- dropped under them, `GetFullIndex` then finds the same under each of them, and `StatFullIndex`
    -- reports the same. This needs that an index is read back from what is written of it and has less
    -- than 2 ^ 64 bytes, and that no two keys of the list share a path in the directory of the
    -- repository.
    pub file_repo_refines :
        (ops : List (Op I)) (r : FileRepo)
        → IsFaultless r.faults
        → r.base_dir ≡ dir
        → r.files ≡ []
        → All (λ op. is_listed (key_of op) keys ≡ true) ops
        → let r' = files_after ops r in
          let m' = memory_after ops [] in
          (key : Key)
          → is_listed key keys ≡ true
          → (found (read_index x r' key) ≡ found (get_full_index encoded_size m' key))
            × (stat_index x r' key ≡ stat_full_index encoded_size m' key)
    unfolding lookup
    file_repo_refines ops r faultless base empty used key listed =
        let start : Represents r [] = record {
          faultless = faultless;
          base = base;
          files = λ k among. rw empty refl;
        } in
        let v = files_after-Represents ops r [] used start in
        (read_index-Represents _ _ key listed v, stat_index-Represents _ _ key listed v)
