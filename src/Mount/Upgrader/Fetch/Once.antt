-- ===== src/Mount/Upgrader/Fetch/Once.antt =====
-- mount/upgrader.go: a transient has one writer.
use dagstore.Shared.{
  ℕ, ◌≤◌, ◌≡◌, refl, inl, inr, Option, none, some, List, [], ◌∷◌, ◌++◌, get_elem?, total, All,
  All-append, sym, All-get_elem?, All-set, arith, total-append, Option-cases,
}
use mathlib.Core.List.{append-nil}
use dagstore.Error.{Error}
use dagstore.Mount.Upgrader.{Os, Upgrader}
use dagstore.Mount.Upgrader.Refetch.{
  Bytes, refetch, Files, Answers, Phase, idle, creating, copying, renaming, publishing, closing,
  over,
}
use dagstore.Mount.Upgrader.Fetch.{
  Call, starting, at_once, finishing, returned, Fetching, Event, calls, proceeds, refetches,
  deletes, vanishes, created, copied, refetch_step, close_step, on_refetches, fetch_step,
  on_proceeds, new_fetching, on_deletes, fetching_step, fetching_run,
}

-- The functions of `sync.Once`s that can touch the transients.
abbrev pub busy : Phase → ℕ
busy creating = 1
busy copying = 1
busy renaming = 1
busy publishing = 1
busy _ = 0

abbrev pub IsLate : Phase → Type 0
IsLate closing = Unit
IsLate over = Unit
IsLate _ = ⊥

pub close_step-IsLate : (p : Phase) → IsLate p → IsLate (close_step p)
close_step-IsLate closing h = tt
close_step-IsLate over h = tt
close_step-IsLate idle h = h
close_step-IsLate creating h = h
close_step-IsLate copying h = h
close_step-IsLate renaming h = h
close_step-IsLate publishing h = h

busy-IsLate : (ps : List Phase) → All IsLate ps → total busy ps ≡ 0
busy-IsLate [] v = refl
busy-IsLate (closing ∷ ps) v = omega (arith, busy-IsLate ps v.1)
busy-IsLate (over ∷ ps) v = omega (arith, busy-IsLate ps v.1)
busy-IsLate (idle ∷ ps) v = absurd v.0
busy-IsLate (creating ∷ ps) v = absurd v.0
busy-IsLate (copying ∷ ps) v = absurd v.0
busy-IsLate (renaming ∷ ps) v = absurd v.0
busy-IsLate (publishing ∷ ps) v = absurd v.0

busy-le : (p : Phase) → busy p ≤ 1
busy-le idle = omega arith
busy-le creating = omega arith
busy-le copying = omega arith
busy-le renaming = omega arith
busy-le publishing = omega arith
busy-le closing = omega arith
busy-le over = omega arith

-- Only the last step but one of a function adds an older `sync.Once`: its own.
abbrev pub retired : Phase → List Phase
retired publishing = closing ∷ []
retired _ = []

retired-IsLate : (p : Phase) → All IsLate (retired p)
retired-IsLate publishing = (tt, tt)
retired-IsLate idle = tt
retired-IsLate creating = tt
retired-IsLate copying = tt
retired-IsLate renaming = tt
retired-IsLate closing = tt
retired-IsLate over = tt

module _ {M : Type 0} where
  -- Every older `sync.Once` has done its work.
  abbrev pub IsOrdered : Fetching M → Type 0
  IsOrdered f = All IsLate f.older

  older-created :
      (failed : Option Error) (f : Fetching M) → (created failed f).older ≡ f.older ++ []
  older-created none f = sym (append-nil f.older)
  older-created (some e) f = sym (append-nil f.older)

  older-copied :
      (a : Answers) (r : Bytes × Option Error) (f : Fetching M)
      → (copied a r f).older ≡ f.older ++ []
  older-copied a (bytes, none) f = sym (append-nil f.older)
  older-copied a (bytes, some e) f = sym (append-nil f.older)

  pub older-refetch_step :
      (a : Answers) (p : Phase) (f : Fetching M) → (refetch_step a p f).older ≡ f.older ++ retired p
  unfolding refetch_step
  older-refetch_step a idle f = sym (append-nil f.older)
  older-refetch_step a creating f = older-created a.create f
  older-refetch_step a copying f = older-copied a (refetch f.upgrader.throttler a) f
  older-refetch_step a renaming f = sym (append-nil f.older)
  older-refetch_step a publishing f = refl
  older-refetch_step a closing f = sym (append-nil f.older)
  older-refetch_step a over f = sym (append-nil f.older)

  pub older-fetch_step :
      (a : Answers) (c : Call) (f : Fetching M) → (fetch_step a c f).0.older ≡ f.older
  unfolding fetch_step
  older-fetch_step a starting f = ground arith
  older-fetch_step a (at_once n) f = ground arith
  older-fetch_step a finishing f = ground arith
  older-fetch_step a (returned r) f = refl

  on_refetches-IsOrdered :
      (n : ℕ) (a : Answers) (f : Fetching M) → IsOrdered f → IsOrdered (on_refetches n a f)
  unfolding on_refetches
  on_refetches-IsOrdered n a f v = elim (Option-cases (get_elem? f.older n)) [
    | inl e ↦
        rw (e, on_refetches)
          (rw (older-refetch_step a f.current f)
            (All-append IsLate f.older _ v (retired-IsLate f.current)))
    | inr (p, e) ↦
        rw (e, on_refetches)
          (All-set IsLate f.older n (close_step p) v
            (close_step-IsLate p (All-get_elem? IsLate f.older n p v e)))
  ]

  on_proceeds-IsOrdered :
      (i : ℕ) (a : Answers) (f : Fetching M) → IsOrdered f → IsOrdered (on_proceeds i a f)
  unfolding on_proceeds
  on_proceeds-IsOrdered i a f v = elim (Option-cases (get_elem? f.calls i)) [
    | inl e ↦ rw (e, on_proceeds) v
    | inr (c, e) ↦ rw (e, on_proceeds) (rw (older-fetch_step a c f) v)
  ]

  fetching_step-IsOrdered :
      (os : Os) (e : Event) (f : Fetching M) → IsOrdered f → IsOrdered (fetching_step os e f)
  unfolding fetching_step on_deletes
  fetching_step-IsOrdered os calls f v = v
  fetching_step-IsOrdered os (proceeds i a) f v = on_proceeds-IsOrdered i a f v
  fetching_step-IsOrdered os (refetches n a) f v = on_refetches-IsOrdered n a f v
  fetching_step-IsOrdered os (deletes removed) f v = v
  fetching_step-IsOrdered os (vanishes path) f v = v

  pub fetching_run-IsOrdered :
      (os : Os) (es : List Event) (f : Fetching M) → IsOrdered f → IsOrdered (fetching_run os es f)
  unfolding fetching_run
  fetching_run-IsOrdered os [] f v = v
  fetching_run-IsOrdered os (e ∷ es) f v =
      fetching_run-IsOrdered os es _ (fetching_step-IsOrdered os e f v)

  -- However calls of `Fetch` on an upgrader interleave with each other, with `DeleteTransient` and with
  -- the removal of files, at most one function of a `sync.Once` is under way that still has to create,
  -- write, rename or publish a transient.
  pub one_writer :
      (os : Os) (u : Upgrader M) (files : Files) (es : List Event)
      → let f = fetching_run os es (new_fetching u files) in
        total busy (f.older ++ f.current ∷ []) ≤ 1
  unfolding new_fetching
  one_writer os u files es =
      let f = fetching_run os es (new_fetching u files) in
      let v = fetching_run-IsOrdered os es (new_fetching u files) tt in
      omega (
        arith,
        total-append busy f.older (f.current ∷ []),
        busy-IsLate f.older v,
        busy-le f.current,
      )
