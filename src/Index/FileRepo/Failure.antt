-- ===== src/Index/FileRepo/Failure.antt =====
-- index/repo_fs.go: a repository that is opened again, and an index that is not wholly written.
use dagstore.Shared.{
  ◌≡◌, string_eq, true, none, some, length, ◌%◌, ◌^◌, lookup-insert, arith, inl, inr, Option-cases,
}
use dagstore.Error.{Error, ok}
use dagstore.ShardKey.{Key}
use dagstore.Index.FileRepo.{
  Bytes, FileRepo, FileExternals, repo_version, new_fs_repo, index_path, read_index, create_index,
  stat_index,
}

-- A repository that `NewFSRepo` opens without an error has the version of this library, still has the files
-- that it had, and opens again as it is, whether the version was written then or found.
pub new_fs_repo-new_fs_repo :
    (r : FileRepo)
    → (new_fs_repo r).1 ≡ none
    → ((new_fs_repo r).0.version ≡ some repo_version)
      × ((new_fs_repo r).0.files ≡ r.files)
      × (new_fs_repo (new_fs_repo r).0 ≡ new_fs_repo r)
unfolding new_fs_repo
new_fs_repo-new_fs_repo r h = elim (Option-cases r.faults.mkdir) [
  | inr (e, f) ↦ ground arith
  | inl made ↦ elim (Option-cases r.faults.reads_version) [
    | inr (e, f) ↦ ground arith
    | inl read ↦ elim (Option-cases r.version) [
      | inr (v, f) ↦ ground (arith, string_eq.beq_iff v repo_version)
      | inl new ↦ ground (arith, string_eq.beq_iff repo_version repo_version)
    ]
  ]
]

module _ {I : Type 0} (x : FileExternals I) where
  -- If `AddFullIndex` fails while it writes the index, what was written stays: the repository has an index
  -- for the key from then on, as far as `StatFullIndex` tells, and `GetFullIndex` reads what was written
  -- for a whole index. This is for files that can be opened.
  pub failed_write_leaves_index :
      (r : FileRepo) (key : Key) (idx : I) (written : Bytes) (e : Error)
      → r.faults.creates (index_path x r key) ≡ none
      → r.faults.writes (index_path x r key) ≡ some (written, e)
      → r.faults.stats (index_path x r key) ≡ none
      → r.faults.opens (index_path x r key) ≡ none
      → let (r', failed) = create_index x r key idx in
        (failed ≡ some e)
        × (stat_index x r' key ≡ ok (record { exists = true; size = length written % 2 ^ 64 }))
        × (read_index x r' key ≡ x.decode written)
  unfolding create_index stat_index read_index index_path
  failed_write_leaves_index r key idx written e creates writes stats opens = ground (
    arith,
    creates,
    writes,
    stats,
    opens,
    lookup-insert (index_path x r key) (index_path x r key) written r.files,
    string_eq.beq_iff (index_path x r key) (index_path x r key),
  )
