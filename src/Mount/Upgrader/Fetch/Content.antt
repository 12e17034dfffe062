-- ===== src/Mount/Upgrader/Fetch/Content.antt =====
-- mount/upgrader.go: what a call of `Fetch` reads.
use dagstore.Shared.{
  ◌≡◌, ◌≢◌, refl, inl, inr, String, false, Option, none, some, arith, Option-cases, lookup, insert,
  erase, lookup-insert, lookup-erase, string_eq, ◌==◌, Bool-cases,
}
use dagstore.Error.{Error, Result, ok, err, Result-cases}
use dagstore.Throttle.{Throttler}
use dagstore.Mount.Upgrader.Refetch.{Bytes, Files, Answers, remove, refetch, fetch_and_copy}
use dagstore.Mount.Upgrader.Fetch.{
  Call, returned, Event, proceeds, refetches, open_file, write, rename_file,
}

module _ (src : Bytes) where
  -- A file that is not there, or holds all the bytes of the underlying mount.
  abbrev pub IsWhole : Option Bytes → Type 0
  IsWhole none = Unit
  IsWhole (some b) = b ≡ src

  abbrev pub IsRead : Result Bytes → Type 0
  IsRead (ok b) = b ≡ src
  IsRead (err e) = Unit

  -- A call that has returned bytes has returned those of the underlying mount.
  abbrev pub IsReadCall : Call → Type 0
  IsReadCall (returned r) = IsRead r
  IsReadCall _ = Unit

  -- Whenever the underlying mount gives bytes in the step, it gives `src`.
  abbrev pub Serves : Event → Type 0
  Serves (proceeds i a) = IsRead a.source
  Serves (refetches n a) = IsRead a.source
  Serves _ = Unit

  pub IsWhole-erase :
      (p q : String) (files : Files) → IsWhole (lookup p files) → IsWhole (lookup p (erase q files))
  IsWhole-erase p q files h = elim (Bool-cases (q == p)) [
    | inl same ↦ rw (lookup-erase q p files, same) tt
    | inr other ↦ rw (lookup-erase q p files, other) h
  ]

  pub IsWhole-remove :
      (removed : Option Error) (p q : String) (files : Files)
      → IsWhole (lookup p files)
      → IsWhole (lookup p (remove removed q files))
  IsWhole-remove none p q files h = IsWhole-erase p q files h
  IsWhole-remove (some e) p q files h = h

  pub IsWhole-insert_ne :
      (p q : String) (b : Bytes) (files : Files)
      → q ≢ p
      → IsWhole (lookup p files)
      → IsWhole (lookup p (insert q b files))
  IsWhole-insert_ne p q b files ne h =
      let other : (q == p) ≡ false = ground (arith, string_eq.beq_iff q p) in
      rw (lookup-insert q p b files, other) h

  pub IsWhole-insert_self :
      (p : String) (b : Bytes) (files : Files) → b ≡ src → IsWhole (lookup p (insert p b files))
  IsWhole-insert_self p b files h = rw (lookup-insert p p b files, (string_eq.beq_iff p p).1 refl) h

  pub IsWhole-write_ne :
      (p q : String) (b : Bytes) (files : Files)
      → q ≢ p
      → IsWhole (lookup p files)
      → IsWhole (lookup p (write q b files))
  IsWhole-write_ne p q b files ne h = elim (Option-cases (lookup q files)) [
    | inl e ↦ rw (e, write) h
    | inr (old, e) ↦ rw (e, write) (IsWhole-insert_ne p q b files ne h)
  ]

  pub IsWhole-write_self :
      (p : String) (b : Bytes) (files : Files) → b ≡ src → IsWhole (lookup p (write p b files))
  IsWhole-write_self p b files h = elim (Option-cases (lookup p files)) [
    | inl e ↦ rw (e, write) (rw e tt)
    | inr (old, e) ↦ rw (e, write) (IsWhole-insert_self p b files h)
  ]

  pub IsWhole-rename_file :
      (failed : Option Error) (from to : String) (files : Files)
      → IsWhole (lookup from files)
      → IsWhole (lookup to files)
      → IsWhole (lookup to (rename_file failed from to files))
  IsWhole-rename_file (some e) from to files h k = k
  IsWhole-rename_file none from to files h k = elim (Option-cases (lookup from files)) [
    | inl e ↦ rw (e, rename_file) k
    | inr (b, e) ↦
        let whole : b ≡ src = rw e at h in
        rw (e, rename_file)
          (IsWhole-erase to from (insert to b files) (IsWhole-insert_self to b files whole))
  ]

  pub IsRead-open_file :
      (opened : Option Error) (p : String) (files : Files)
      → IsWhole (lookup p files)
      → IsRead (open_file opened p files)
  IsRead-open_file (some e) p files h = tt
  IsRead-open_file none p files h = elim (Option-cases (lookup p files)) [
    | inl e ↦ rw (e, open_file) tt
    | inr (b, e) ↦ let whole : b ≡ src = rw e at h in rw (e, open_file) whole
  ]

  fetch_and_copy_read :
      (a : Answers) → IsRead a.source → (fetch_and_copy a).1 ≡ none → (fetch_and_copy a).0 ≡ src
  fetch_and_copy_read a h e = elim (Result-cases a.source) [
    | inr (x, failed) ↦ absurd (ground (arith, failed))
    | inl (b, served) ↦
        let whole : b ≡ src = rw served at h in ground (arith, served, Option-cases a.broken)
  ]

  pub refetch_read :
      (throttler : Throttler) (a : Answers)
      → IsRead a.source
      → (refetch throttler a).1 ≡ none
      → (refetch throttler a).0 ≡ src
  unfolding refetch
  refetch_read throttler a h e = elim (Result-cases a.stat) [
    | inr (x, failed) ↦ absurd (ground (arith, failed))
    | inl (stat, found) ↦ ground (arith, found, fetch_and_copy_read a h, Option-cases a.gave_up)
  ]
