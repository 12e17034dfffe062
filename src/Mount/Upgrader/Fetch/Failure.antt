-- ===== src/Mount/Upgrader/Fetch/Failure.antt =====
-- mount/upgrader.go: a `sync.Once` whose function failed is never replaced.
use dagstore.Shared.{
  ℕ, ◌≡◌, refl, sym, inl, inr, false, Option, none, some, List, [], ◌∷◌, get_elem?, All, All-append,
  arith, Option-cases, string_eq, All-set, All-get_elem?,
}
use dagstore.Error.{Error, Result, err}
use dagstore.Mount.Upgrader.{Os, Upgrader, delete_transient}
use dagstore.Mount.Upgrader.Refetch.{
  Bytes, Answers, refetch, Phase, idle, creating, copying, renaming, publishing, closing, over,
}
use dagstore.Mount.Upgrader.Fetch.{
  Call, starting, at_once, finishing, returned, Fetching, Event, calls, proceeds, refetches,
  deletes, vanishes, copied, refetch_step, close_step, phase_of, on_refetches, do_once, fetch_step,
  on_proceeds, on_deletes, fetching_step, fetching_run,
}
use mathlib.Core.Path.{subst, ◌∙◌}
use dagstore.Error.{fetch_failed}
use dagstore.Mount.Upgrader.Fetch.Once.{IsLate, close_step-IsLate}

-- A call that has returned has returned the error.
abbrev pub IsRefused : Error → Call → Type 0
IsRefused e (returned r) = r ≡ err (fetch_failed e)
IsRefused e _ = Unit

abbrev pub IsPending : Call → Type 0
IsPending (returned r) = ⊥
IsPending _ = Unit

pending-IsRefused : (e : Error) (cs : List Call) → All IsPending cs → All (IsRefused e) cs
pending-IsRefused e [] v = tt
pending-IsRefused e (starting ∷ cs) v = (tt, pending-IsRefused e cs v.1)
pending-IsRefused e (at_once n ∷ cs) v = (tt, pending-IsRefused e cs v.1)
pending-IsRefused e (finishing ∷ cs) v = (tt, pending-IsRefused e cs v.1)
pending-IsRefused e (returned r ∷ cs) v = absurd v.0

module _ {M : Type 0} (e : Error) where
  record IsStuck (f : Fetching M) : Type 0 where
    pub managed : f.upgrader.passthrough ≡ false
    pub cold : f.upgrader.ready ≡ false
    pub spent : f.current ≡ over
    pub failed : f.once_err ≡ some e
    pub late : All IsLate f.older
    pub refused : All (IsRefused e) f.calls

  -- The state after a step of a call, and what the call is then.
  abbrev StaysStuck : Fetching M × Call → Type 0
  StaysStuck (f, c) = IsStuck f × IsRefused e c

  do_once-StaysStuck :
      (phase : Phase) (n : ℕ) (f : Fetching M)
      → IsLate phase
      → IsStuck f
      → StaysStuck (do_once phase n f)
  do_once-StaysStuck closing n f h v = (v, tt)
  do_once-StaysStuck over n f h v = (v, tt)
  do_once-StaysStuck idle n f h v = absurd h
  do_once-StaysStuck creating n f h v = absurd h
  do_once-StaysStuck copying n f h v = absurd h
  do_once-StaysStuck renaming n f h v = absurd h
  do_once-StaysStuck publishing n f h v = absurd h

  phase_of-IsLate : (n : ℕ) (f : Fetching M) → IsStuck f → IsLate (phase_of n f)
  phase_of-IsLate n f v = elim (Option-cases (get_elem? f.older n)) [
    | inl none_there ↦ rw (none_there, phase_of) (rw v.spent tt)
    | inr (p, there) ↦ rw (there, phase_of) (All-get_elem? IsLate f.older n p v.late there)
  ]

  fetch_step-StaysStuck :
      (a : Answers) (c : Call) (f : Fetching M)
      → IsRefused e c
      → IsStuck f
      → StaysStuck (fetch_step a c f)
  unfolding fetch_step
  fetch_step-StaysStuck a starting f h v = simp (v.managed, v.cold) (v, tt)
  fetch_step-StaysStuck a (at_once n) f h v =
      do_once-StaysStuck (phase_of n f) n f (phase_of-IsLate n f v) v
  fetch_step-StaysStuck a finishing f h v = simp (v.failed) (v, refl)
  fetch_step-StaysStuck a (returned r) f h v = (v, h)

  on_proceeds-IsStuck :
      (i : ℕ) (a : Answers) (f : Fetching M) → IsStuck f → IsStuck (on_proceeds i a f)
  unfolding on_proceeds
  on_proceeds-IsStuck i a f v = elim (Option-cases (get_elem? f.calls i)) [
    | inl none_there ↦ rw (none_there, on_proceeds) v
    | inr (c, there) ↦
        let (kept, call) =
          fetch_step-StaysStuck a c f (All-get_elem? (IsRefused e) f.calls i c v.refused there) v in
        rw (there, on_proceeds)
          (record {
            managed = kept.managed;
            cold = kept.cold;
            spent = kept.spent;
            failed = kept.failed;
            late = kept.late;
            refused = All-set (IsRefused e) _ i _ kept.refused call;
          })
  ]

  on_refetches-IsStuck :
      (n : ℕ) (a : Answers) (f : Fetching M) → IsStuck f → IsStuck (on_refetches n a f)
  unfolding on_refetches refetch_step
  on_refetches-IsStuck n a f v = elim (Option-cases (get_elem? f.older n)) [
    | inl none_there ↦
        rw (none_there, on_refetches) (subst (λ p. IsStuck (refetch_step a p f)) (sym v.spent) v)
    | inr (p, there) ↦
        rw (there, on_refetches)
          (record {
            managed = v.managed;
            cold = v.cold;
            spent = v.spent;
            failed = v.failed;
            late =
                All-set IsLate f.older n (close_step p) v.late
                  (close_step-IsLate p (All-get_elem? IsLate f.older n p v.late there));
            refused = v.refused;
          })
  ]

  delete_transient_cold :
      (os : Os) (removed : Option Error) (u : Upgrader M)
      → u.ready ≡ false
      → ((delete_transient os removed u).0.ready ≡ false)
        × ((delete_transient os removed u).0.passthrough ≡ u.passthrough)
  unfolding delete_transient
  delete_transient_cold os removed u h = ground arith

  fetching_step-IsStuck :
      (os : Os) (event : Event) (f : Fetching M) → IsStuck f → IsStuck (fetching_step os event f)
  unfolding fetching_step on_deletes
  fetching_step-IsStuck os calls f v = record {
    managed = v.managed;
    cold = v.cold;
    spent = v.spent;
    failed = v.failed;
    late = v.late;
    refused = All-append (IsRefused e) f.calls (starting ∷ []) v.refused (tt, tt);
  }
  fetching_step-IsStuck os (proceeds i a) f v = on_proceeds-IsStuck i a f v
  fetching_step-IsStuck os (refetches n a) f v = on_refetches-IsStuck n a f v
  fetching_step-IsStuck os (deletes removed) f v =
      let (cold, same) = delete_transient_cold os removed f.upgrader v.cold in
      record {
        managed = same ∙ v.managed;
        cold = cold;
        spent = v.spent;
        failed = v.failed;
        late = v.late;
        refused = v.refused;
      }
  fetching_step-IsStuck os (vanishes path) f v = record {
    managed = v.managed;
    cold = v.cold;
    spent = v.spent;
    failed = v.failed;
    late = v.late;
    refused = v.refused;
  }

  fetching_run-IsStuck :
      (os : Os) (es : List Event) (f : Fetching M) → IsStuck f → IsStuck (fetching_run os es f)
  unfolding fetching_run
  fetching_run-IsStuck os [] f v = v
  fetching_run-IsStuck os (event ∷ es) f v =
      fetching_run-IsStuck os es _ (fetching_step-IsStuck os event f v)

  copied-IsStuck :
      (a : Answers) (r : Bytes × Option Error) (f : Fetching M)
      → r.1 ≡ some e
      → f.upgrader.passthrough ≡ false
      → f.upgrader.ready ≡ false
      → All IsLate f.older
      → All IsPending f.calls
      → IsStuck (copied a r f)
  copied-IsStuck a (bytes, some x) f h managed cold late pending = record {
    managed = managed;
    cold = cold;
    spent = refl;
    failed = h;
    late = late;
    refused = pending-IsRefused e f.calls pending;
  }
  copied-IsStuck a (bytes, none) f h managed cold late pending = cc

  pub failed_refetch_is_final :
      (os : Os) (a : Answers) (f : Fetching M) (es : List Event)
      → f.upgrader.passthrough ≡ false
      → f.upgrader.ready ≡ false
      → f.current ≡ copying
      → All IsLate f.older
      → All IsPending f.calls
      → (refetch f.upgrader.throttler a).1 ≡ some e
      → (i : ℕ) (r : Result Bytes)
      → get_elem? (fetching_run os es (refetch_step a f.current f)).calls i ≡ some (returned r)
      → r ≡ err (fetch_failed e)
  unfolding refetch_step
  failed_refetch_is_final os a f es managed cold at late pending failed i r there =
      let stuck =
        subst (λ p. IsStuck (refetch_step a p f)) (sym at)
          (copied-IsStuck a (refetch f.upgrader.throttler a) f failed managed cold late pending) in
      All-get_elem? (IsRefused e) _ i (returned r) (fetching_run-IsStuck os es _ stuck).refused
        there
