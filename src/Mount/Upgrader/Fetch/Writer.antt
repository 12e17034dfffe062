-- ===== src/Mount/Upgrader/Fetch/Writer.antt =====
-- mount/upgrader.go: the transient that a refetch publishes is whole.
use dagstore.Shared.{
  ℕ, ◌≡◌, ◌≢◌, refl, inl, inr, String, true, Option, none, some, [], get_elem?, All, Option-cases,
  lookup, erase, string_eq,
}
use dagstore.Error.{Error}
use dagstore.Mount.Upgrader.Refetch.{
  Bytes, Files, Answers, remove, refetch, Phase, idle, creating, copying, renaming, publishing,
  closing, over,
}
use dagstore.Mount.Upgrader.Fetch.{Fetching, created, copied, write, refetch_step, on_refetches}
use mathlib.Core.Path.{subst}
use dagstore.Mount.Upgrader.Fetch.Content.{
  IsWhole, IsRead, IsReadCall, IsWhole-erase, IsWhole-remove, IsWhole-insert_ne, IsWhole-write_ne,
  IsWhole-write_self, IsWhole-rename_file, refetch_read,
}

-- The partial file is whole once it is ready to be renamed.
abbrev pub IsWritten : Bytes → Phase → Option Bytes → Type 0
IsWritten src renaming o = IsWhole src o
IsWritten src _ o = Unit

pub IsWritten-erase :
    (src : Bytes) (phase : Phase) (p q : String) (files : Files)
    → IsWritten src phase (lookup p files)
    → IsWritten src phase (lookup p (erase q files))
IsWritten-erase src renaming p q files h = IsWhole-erase src p q files h
IsWritten-erase src idle p q files h = tt
IsWritten-erase src creating p q files h = tt
IsWritten-erase src copying p q files h = tt
IsWritten-erase src publishing p q files h = tt
IsWritten-erase src closing p q files h = tt
IsWritten-erase src over p q files h = tt

pub IsWritten-remove :
    (src : Bytes) (removed : Option Error) (phase : Phase) (p q : String) (files : Files)
    → IsWritten src phase (lookup p files)
    → IsWritten src phase (lookup p (remove removed q files))
IsWritten-remove src none phase p q files h = IsWritten-erase src phase p q files h
IsWritten-remove src (some e) phase p q files h = h

module _ {M : Type 0} (src : Bytes) where
  pub record IsFaithful (f : Fetching M) : Type 0 where
    pub distinct : f.upgrader.path_partial ≢ f.upgrader.path_complete
    pub located : f.upgrader.ready ≡ true → f.upgrader.path ≡ f.upgrader.path_complete
    pub complete : IsWhole src (lookup f.upgrader.path_complete f.files)
    pub partial : IsWritten src f.current (lookup f.upgrader.path_partial f.files)
    pub read : All (IsReadCall src) f.calls

  copied-IsFaithful :
      (a : Answers) (r : Bytes × Option Error) (f : Fetching M)
      → (r.1 ≡ none → r.0 ≡ src)
      → IsFaithful f
      → IsFaithful (copied a r f)
  copied-IsFaithful a (bytes, some x) f whole v = record {
    distinct = v.distinct;
    located = v.located;
    complete =
        IsWhole-remove src a.removed f.upgrader.path_complete f.upgrader.path_partial
          (write f.upgrader.path_partial bytes f.files)
          (IsWhole-write_ne src f.upgrader.path_complete f.upgrader.path_partial bytes f.files
            v.distinct v.complete);
    partial = tt;
    read = v.read;
  }
  copied-IsFaithful a (bytes, none) f whole v = record {
    distinct = v.distinct;
    located = v.located;
    complete =
        IsWhole-write_ne src f.upgrader.path_complete f.upgrader.path_partial bytes f.files
          v.distinct v.complete;
    partial = IsWhole-write_self src f.upgrader.path_partial bytes f.files (whole refl);
    read = v.read;
  }

  created-IsFaithful :
      (failed : Option Error) (f : Fetching M) → IsFaithful f → IsFaithful (created failed f)
  created-IsFaithful (some e) f v = record {
    distinct = v.distinct;
    located = v.located;
    complete = v.complete;
    partial = tt;
    read = v.read;
  }
  created-IsFaithful none f v = record {
    distinct = v.distinct;
    located = v.located;
    complete =
        IsWhole-insert_ne src f.upgrader.path_complete f.upgrader.path_partial [] f.files v.distinct
          v.complete;
    partial = tt;
    read = v.read;
  }

  refetch_step-IsFaithful :
      (a : Answers) (p : Phase) (f : Fetching M)
      → f.current ≡ p
      → IsRead src a.source
      → IsFaithful f
      → IsFaithful (refetch_step a p f)
  unfolding refetch_step
  refetch_step-IsFaithful a idle f e served v = v
  refetch_step-IsFaithful a creating f e served v = created-IsFaithful a.create f v
  refetch_step-IsFaithful a copying f e served v =
      copied-IsFaithful a (refetch f.upgrader.throttler a) f
        (refetch_read src f.upgrader.throttler a served) v
  refetch_step-IsFaithful a renaming f e served v = record {
    distinct = v.distinct;
    located = v.located;
    complete =
        IsWhole-rename_file src a.rename f.upgrader.path_partial f.upgrader.path_complete f.files
          (subst (λ p. IsWritten src p (lookup f.upgrader.path_partial f.files)) e v.partial)
          v.complete;
    partial = tt;
    read = v.read;
  }
  refetch_step-IsFaithful a publishing f e served v = record {
    distinct = v.distinct;
    located = λ r. refl;
    complete = v.complete;
    partial = tt;
    read = v.read;
  }
  refetch_step-IsFaithful a closing f e served v = v
  refetch_step-IsFaithful a over f e served v = v

  pub on_refetches-IsFaithful :
      (n : ℕ) (a : Answers) (f : Fetching M)
      → IsRead src a.source
      → IsFaithful f
      → IsFaithful (on_refetches n a f)
  unfolding on_refetches
  on_refetches-IsFaithful n a f served v = elim (Option-cases (get_elem? f.older n)) [
    | inl e ↦ rw (e, on_refetches) (refetch_step-IsFaithful a f.current f refl served v)
    | inr (p, e) ↦
        rw (e, on_refetches)
          (record {
            distinct = v.distinct;
            located = v.located;
            complete = v.complete;
            partial = v.partial;
            read = v.read;
          })
  ]
