-- ===== src/Index/FileRepo/Names.antt =====
-- index/repo_fs.go: the keys are read back from the names of the index files.
use text.Mathlib.TextLemmas.{nil-append, cons-append, append_cancel_right}
use dagstore.Shared.{
  ℕ, suc, ◌≡◌, ◌≢◌, refl, ap, sym, ◌∙◌, String, ◌<>◌, some, List, [], ◌∷◌, map, length, All, arith,
  string_eq,
}
use dagstore.Error.{Result}
use dagstore.ShardKey.{Key}
use dagstore.Index.Memory.{Visit, for_each}
use dagstore.Index.FileRepo.{
  Bytes, FileRepo, FileExternals, trim_suffix, index_suffix, index_path, index_files, visit_files,
  each_key, count_indices,
}

length-map : {A B : Type 0} (f : A → B) (xs : List A) → length (map f xs) ≡ length xs
length-map f [] = refl
length-map f (y ∷ ys) = ap suc (length-map f ys)

trim_suffix_self : (suffix : String) → trim_suffix suffix suffix ≡ some String.[]
unfolding trim_suffix
trim_suffix_self String.[] = ground (arith, string_eq.beq_iff String.[] String.[])
trim_suffix_self (String.◌∷◌ c s) =
    ground (arith, string_eq.beq_iff (String.◌∷◌ c s) (String.◌∷◌ c s))

longer_ne : (c : _) (name suffix : String) → String.◌∷◌ c (name <> suffix) ≢ suffix
longer_ne c name suffix h =
    let nothing : String.◌∷◌ c name ≡ String.[] =
      append_cancel_right (String.◌∷◌ c name) String.[] suffix
        (cons-append c name suffix ∙ (h ∙ sym (nil-append suffix))) in
    cc

trim_suffix-cons :
    (c : _) (name suffix : String)
    → trim_suffix suffix (name <> suffix) ≡ some name
    → trim_suffix suffix (String.◌∷◌ c (name <> suffix)) ≡ some (String.◌∷◌ c name)
unfolding trim_suffix
trim_suffix-cons c name suffix shorter =
    ground
      (arith, longer_ne c name suffix, string_eq.beq_iff (String.◌∷◌ c (name <> suffix)) suffix)

trim_suffix-append : (name suffix : String) → trim_suffix suffix (name <> suffix) ≡ some name
trim_suffix-append String.[] suffix = rw (nil-append suffix) (trim_suffix_self suffix)
trim_suffix-append (String.◌∷◌ c name) suffix =
    rw (cons-append c name suffix) (trim_suffix-cons c name suffix (trim_suffix-append name suffix))

module _ {I : Type 0} (x : FileExternals I) (r : FileRepo) where
  -- The file of an index, and that its name can be read off its path: a key with a separator in it
  -- has no such file.
  abbrev pub index_file : Key × Bytes → String × Bytes
  unfolding index_path
  index_file (key, bytes) = (index_path x r key, bytes)

  abbrev pub IsPlain : Key × Bytes → Type 0
  unfolding index_path
  IsPlain (key, bytes) = x.base (index_path x r key) ≡ key.str <> index_suffix

  index_files-index_file :
      (entries : List (Key × Bytes))
      → All IsPlain entries
      → index_files x (map index_file entries) ≡ map (λ e. (e.0.str, e.1)) entries
  unfolding index_files index_path
  index_files-index_file [] v = refl
  index_files-index_file ((key, bytes) ∷ entries) v =
      ground
        (arith, v.0, trim_suffix-append key.str index_suffix, index_files-index_file entries v.1)

  module _ (write_to : I → Result ℕ) (f : Key → Visit) where
    visit_files-for_each :
        (entries : List (Key × Bytes))
        → visit_files x f (map (λ e. (e.0.str, e.1)) entries)
          ≡ for_each write_to f (map (λ e. e.0) entries)
    unfolding visit_files for_each
    visit_files-for_each [] = refl
    visit_files-for_each ((key, bytes) ∷ entries) = ground (arith, visit_files-for_each entries)

    -- Over a directory of index files whose names can be read off their paths, `ForEach` calls back as
    -- the repository in memory does over the keys, and `Len` counts them.
    pub each_key-for_each :
        (entries : List (Key × Bytes))
        → All IsPlain entries
        → x.walk r.files ≡ map index_file entries
        → (each_key x f r ≡ for_each write_to f (map (λ e. e.0) entries))
          × (count_indices x r ≡ length entries)
    unfolding each_key count_indices
    each_key-for_each entries v listed =
        let named = index_files-index_file entries v in
        (
          rw (listed, named) (visit_files-for_each entries),
          rw (listed, named) (length-map (λ e. (e.0.str, e.1)) entries),
        )
