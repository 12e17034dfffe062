-- ===== src/Index/FileRepo/Tests.antt =====
-- The repository on disk at concrete inputs: an index is one number, and a file has its byte.
use text.Mathlib.TextLemmas.{append_cancel_left, append_cancel_right}
use dagstore.Shared.{
  ℕ, ◌≡◌, refl, ap, ◌<>◌, ◌==◌, string_eq, true, none, some, List, [], ◌∷◌, lookup, insert, erase,
  if◌then◌else◌, arith,
}
use dagstore.Error.{Result, ok, err, external}
use dagstore.ShardKey.{Key, key_eq, key_from_string}
use dagstore.Index.Memory.{get_full_index, stat_full_index}
use dagstore.Index.FileRepo.{
  Bytes, FileFaults, FileRepo, FileExternals, index_suffix, index_path, read_index, create_index,
  drop_index, stat_index,
}
use dagstore.Index.FileRepo.Refinement.{
  Op, adds, drops, found, encoded_size, files_after, memory_after, file_repo_refines, IsFaultless,
  is_listed,
}
use dagstore.Index.FileRepo.Failure.{failed_write_leaves_index}

abbrev fine : FileFaults
fine = record {
  mkdir = none;
  reads_version = none;
  writes_version = none;
  opens = λ path. none;
  creates = λ path. none;
  removes = λ path. none;
  stats = λ path. none;
  writes = λ path. none;
}

abbrev decode_one : Bytes → Result ℕ
decode_one (n ∷ []) = ok n
decode_one _ = err (external "EOF")

abbrev one_byte : FileExternals ℕ
one_byte = record {
  encode = λ n. n ∷ [];
  decode = decode_one;
  join = λ dir name. dir <> ("/" <> name);
  base = λ path. if path == "/r/a.full.idx" then "a.full.idx" else path;
  walk = λ files. files;
}

abbrev new_repo : FileRepo
new_repo = record { base_dir = "/r"; version = none; files = []; faults = fine }

abbrev key_a : Key
key_a = record { str = "a" }

abbrev key_b : Key
key_b = record { str = "b" }

fine-IsFaultless : IsFaultless fine
fine-IsFaultless = record {
  opens = λ path. refl;
  creates = λ path. refl;
  removes = λ path. refl;
  stats = λ path. refl;
  writes = λ path. refl;
}

-- The keys in use.
abbrev keys : List Key
keys = key_a ∷ key_b ∷ []

same_key :
    (key other : Key)
    → is_listed key keys ≡ true
    → is_listed other keys ≡ true
    → one_byte.join "/r" (key.str <> index_suffix) ≡ one_byte.join "/r" (other.str <> index_suffix)
    → key ≡ other
unfolding key_from_string
same_key key other listed listed' e =
    let names = append_cancel_left "/" _ _ (append_cancel_left "/r" _ _ e) in
    ap key_from_string (append_cancel_right key.str other.str index_suffix names)

-- An index is replaced, and another one dropped.
abbrev ops : List (Op ℕ)
ops = adds key_a 1 ∷ adds key_b 2 ∷ adds key_a 3 ∷ drops key_b ∷ drops key_b ∷ []

file_repo_refines_example :
    (found (read_index one_byte (files_after one_byte ops new_repo) key_a)
      ≡ found (get_full_index (encoded_size one_byte) (memory_after one_byte ops []) key_a))
    × (stat_index one_byte (files_after one_byte ops new_repo) key_a
        ≡ stat_full_index (encoded_size one_byte) (memory_after one_byte ops []) key_a)
file_repo_refines_example =
    file_repo_refines one_byte (λ idx. refl) "/r" keys same_key (λ idx. omega arith) ops new_repo
      fine-IsFaultless refl refl (refl, (refl, (refl, (refl, (refl, tt))))) key_a refl

test_found : found (read_index one_byte (files_after one_byte ops new_repo) key_a) ≡ some 3
unfolding read_index files_after create_index drop_index index_path lookup insert erase
test_found = refl

abbrev with_a : FileRepo
with_a = record new_repo { files = ("/r/a.full.idx", 7 ∷ []) ∷ [] }

-- The disk is full before the byte is written.
abbrev full : FileRepo
full = record new_repo { faults = record fine { writes = λ path. some ([], external "no space") } }

failed_write_leaves_index_example :
    let r = (create_index one_byte full key_a 7).0 in
    ((create_index one_byte full key_a 7).1 ≡ some (external "no space"))
    × (stat_index one_byte r key_a ≡ ok (record { exists = true; size = 0 }))
    × (read_index one_byte r key_a ≡ err (external "EOF"))
failed_write_leaves_index_example =
    failed_write_leaves_index one_byte full key_a 7 [] (external "no space") refl refl refl refl
