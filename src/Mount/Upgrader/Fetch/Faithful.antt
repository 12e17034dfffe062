-- ===== src/Mount/Upgrader/Fetch/Faithful.antt =====
-- mount/upgrader.go: every call of `Fetch` reads all bytes of the underlying mount, or fails.
use dagstore.Shared.{
  ℕ, ◌≡◌, ◌≢◌, inl, inr, false, Option, some, List, [], ◌∷◌, get_elem?, All, All-append, lookup,
  string_eq, All-get_elem?, ◌==◌, Bool-cases,
}
use dagstore.Error.{Error, ok}
use dagstore.Mount.Upgrader.{Os, Upgrader, delete_transient}
use dagstore.Mount.Upgrader.Refetch.{Bytes, Files, remove}
use dagstore.Mount.Upgrader.Fetch.{
  starting, returned, Fetching, Event, calls, proceeds, refetches, deletes, vanishes, new_fetching,
  on_deletes, fetching_step, fetching_run,
}
use dagstore.Mount.Upgrader.Fetch.Content.{
  IsWhole, IsReadCall, Serves, IsWhole-erase, IsWhole-remove,
}
use dagstore.Mount.Upgrader.Fetch.Writer.{
  IsWritten, IsWritten-erase, IsWritten-remove, IsFaithful, on_refetches-IsFaithful,
}
use dagstore.Mount.Upgrader.Fetch.Reader.{on_proceeds-IsFaithful}

module _ {M : Type 0} (src : Bytes) where
  delete_transient-IsFaithful :
      (os : Os) (removed : Option Error) (f : Fetching M) (files : Files)
      → IsWhole src (lookup f.upgrader.path_complete files)
      → IsWritten src f.current (lookup f.upgrader.path_partial files)
      → IsFaithful src f
      → IsFaithful src
          (record f { upgrader = (delete_transient os removed f.upgrader).0; files = files })
  unfolding delete_transient
  delete_transient-IsFaithful os removed f files complete partial v =
      elim (Bool-cases (f.upgrader.path == "")) [
        | inl none_there ↦ simp (none_there) (record {
          distinct = v.distinct;
          located = v.located;
          complete = complete;
          partial = partial;
          read = v.read;
        })
        | inr some_there ↦ elim (Bool-cases (os.has_rel f.upgrader.rootdir f.upgrader.path)) [
          | inl owned ↦
              simp (some_there, owned)
                (record {
                  distinct = v.distinct;
                  located = λ r. cc;
                  complete = complete;
                  partial = partial;
                  read = v.read;
                })
          | inr foreign ↦
              simp (some_there, foreign)
                (record {
                  distinct = v.distinct;
                  located = v.located;
                  complete = complete;
                  partial = partial;
                  read = v.read;
                })
        ]
      ]

  on_deletes-IsFaithful :
      (os : Os) (removed : Option Error) (f : Fetching M)
      → IsFaithful src f
      → IsFaithful src (on_deletes os removed f)
  unfolding on_deletes
  on_deletes-IsFaithful os removed f v =
      elim (Bool-cases ((delete_transient os removed f.upgrader).0.path == f.upgrader.path)) [
        | inl same ↦
            simp (same) (delete_transient-IsFaithful os removed f f.files v.complete v.partial v)
        | inr gone ↦ simp (gone) (
            delete_transient-IsFaithful os removed f (remove removed f.upgrader.path f.files)
              (IsWhole-remove src removed f.upgrader.path_complete f.upgrader.path f.files
                v.complete)
              (IsWritten-remove src removed f.current f.upgrader.path_partial f.upgrader.path
                f.files v.partial)
              v)
      ]

  fetching_step-IsFaithful :
      (os : Os) (e : Event) (f : Fetching M)
      → Serves src e
      → IsFaithful src f
      → IsFaithful src (fetching_step os e f)
  unfolding fetching_step
  fetching_step-IsFaithful os calls f served v = record {
    distinct = v.distinct;
    located = v.located;
    complete = v.complete;
    partial = v.partial;
    read = All-append (IsReadCall src) f.calls (starting ∷ []) v.read (tt, tt);
  }
  fetching_step-IsFaithful os (proceeds i a) f served v = on_proceeds-IsFaithful src i a f served v
  fetching_step-IsFaithful os (refetches n a) f served v =
      on_refetches-IsFaithful src n a f served v
  fetching_step-IsFaithful os (deletes removed) f served v = on_deletes-IsFaithful os removed f v
  fetching_step-IsFaithful os (vanishes path) f served v = record {
    distinct = v.distinct;
    located = v.located;
    complete = IsWhole-erase src f.upgrader.path_complete path f.files v.complete;
    partial = IsWritten-erase src f.current f.upgrader.path_partial path f.files v.partial;
    read = v.read;
  }

  fetching_run-IsFaithful :
      (os : Os) (es : List Event) (f : Fetching M)
      → All (Serves src) es
      → IsFaithful src f
      → IsFaithful src (fetching_run os es f)
  unfolding fetching_run
  fetching_run-IsFaithful os [] f served v = v
  fetching_run-IsFaithful os (e ∷ es) f served v =
      fetching_run-IsFaithful os es _ served.1 (fetching_step-IsFaithful os e f served.0 v)

  -- However calls of `Fetch` on a new upgrader interleave with each other, with `DeleteTransient` and
  -- with the removal of files, and whatever fails: if the underlying mount gives the same bytes whenever
  -- it gives any, a call that returns a reader has opened all of these bytes, never a part. This needs
  -- that the paths of the partial and of the complete transient differ, and that no other bytes are at
  -- the complete path at first.
  pub fetch_reads_whole :
      (os : Os) (u : Upgrader M) (files : Files) (es : List Event)
      → u.path_partial ≢ u.path_complete
      → u.ready ≡ false
      → IsWhole src (lookup u.path_complete files)
      → All (Serves src) es
      → (i : ℕ) (b : Bytes)
      → get_elem? (fetching_run os es (new_fetching u files)).calls i ≡ some (returned (ok b))
      → b ≡ src
  unfolding new_fetching
  fetch_reads_whole os u files es distinct cold whole served i b there =
      let v = fetching_run-IsFaithful os es (new_fetching u files) served (record {
        distinct = distinct;
        located = λ r. cc;
        complete = whole;
        partial = tt;
        read = tt;
      }) in
      All-get_elem? (IsReadCall src) _ i (returned (ok b)) v.read there
