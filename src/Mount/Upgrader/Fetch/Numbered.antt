-- ===== src/Mount/Upgrader/Fetch/Numbered.antt =====
-- mount/upgrader.go: which `sync.Once` a call can wait for.
use dagstore.Shared.{
  ℕ, ◌≤◌, ◌≡◌, ap, inl, inr, Bool, true, false, List, [], ◌∷◌, length, length-append, length-set,
  get_elem?, All, All-set, All-append, All-get_elem?, Option-cases, arith,
}
use dagstore.Mount.Upgrader.{Os}
use dagstore.Mount.Upgrader.Refetch.{Answers, Phase, closing}
use dagstore.Mount.Upgrader.Fetch.{
  Call, starting, at_once, Fetching, Event, calls, proceeds, refetches, deletes, vanishes,
  refetch_step, close_step, on_refetches, fetch_step, on_proceeds, on_deletes, fetching_step,
  fetching_run,
}
use dagstore.Mount.Upgrader.Fetch.Once.{retired, older-refetch_step, older-fetch_step}

-- The number of the `sync.Once` that a call waits for.
abbrev pub number_of : Call → ℕ
number_of (at_once n) = n
number_of c = 0

-- The current `sync.Once` is never past the place where it is replaced.
abbrev pub is_running : Phase → Bool
is_running closing = false
is_running phase = true

abbrev pub IsWithin : ℕ → Call → Type 0
IsWithin k c = number_of c ≤ k

IsWithin-later : (k m : ℕ) (cs : List Call) → k ≤ m → All (IsWithin k) cs → All (IsWithin m) cs
IsWithin-later k m [] h v = tt
IsWithin-later k m (c ∷ cs) h v = (omega (arith, v.0, h), IsWithin-later k m cs h v.1)

module _ {M : Type 0} where
  pub record IsNumbered (f : Fetching M) : Type 0 where
    pub current : is_running f.current ≡ true
    pub within : All (IsWithin (length f.older)) f.calls

  refetch_step_alike :
      (a : Answers) (p : Phase) (f : Fetching M)
      → is_running f.current ≡ true
      → (is_running (refetch_step a p f).current ≡ true) × ((refetch_step a p f).calls ≡ f.calls)
  unfolding refetch_step
  refetch_step_alike a p f h = ground arith

  pub fetch_step_alike :
      (a : Answers) (c : Call) (f : Fetching M)
      → is_running f.current ≡ true
      → IsWithin (length f.older) c
      → (is_running (fetch_step a c f).0.current ≡ true)
        × ((fetch_step a c f).0.calls ≡ f.calls)
        × IsWithin (length f.older) (fetch_step a c f).1
  unfolding fetch_step
  fetch_step_alike a c f h g = ground arith

  on_refetches-IsNumbered :
      (n : ℕ) (a : Answers) (f : Fetching M) → IsNumbered f → IsNumbered (on_refetches n a f)
  unfolding on_refetches
  on_refetches-IsNumbered n a f v = elim (Option-cases (get_elem? f.older n)) [
    | inl e ↦
        let (runs, same) = refetch_step_alike a f.current f v.current in
        rw (e, on_refetches)
          (record {
            current = runs;
            within = rw same (
                IsWithin-later (length f.older) _ f.calls
                  (omega (
                    arith,
                    ap length (older-refetch_step a f.current f),
                    length-append f.older (retired f.current),
                  ))
                  v.within);
          })
    | inr (p, e) ↦
        rw (e, on_refetches)
          (record {
            current = v.current;
            within = rw (length-set f.older n (close_step p)) v.within;
          })
  ]

  on_proceeds-IsNumbered :
      (i : ℕ) (a : Answers) (f : Fetching M) → IsNumbered f → IsNumbered (on_proceeds i a f)
  unfolding on_proceeds
  on_proceeds-IsNumbered i a f v = elim (Option-cases (get_elem? f.calls i)) [
    | inl e ↦ rw (e, on_proceeds) v
    | inr (c, e) ↦
        let (runs, same, within) =
          fetch_step_alike a c f v.current
            (All-get_elem? (IsWithin (length f.older)) f.calls i c v.within e) in
        rw (e, on_proceeds)
          (record {
            current = runs;
            within =
                rw (older-fetch_step a c f, same)
                  (All-set (IsWithin (length f.older)) f.calls i (fetch_step a c f).1 v.within
                    within);
          })
  ]

  fetching_step-IsNumbered :
      (os : Os) (e : Event) (f : Fetching M) → IsNumbered f → IsNumbered (fetching_step os e f)
  unfolding fetching_step on_deletes
  fetching_step-IsNumbered os calls f v = record {
    current = v.current;
    within =
        All-append (IsWithin (length f.older)) f.calls (starting ∷ []) v.within (omega arith, tt);
  }
  fetching_step-IsNumbered os (proceeds i a) f v = on_proceeds-IsNumbered i a f v
  fetching_step-IsNumbered os (refetches n a) f v = on_refetches-IsNumbered n a f v
  fetching_step-IsNumbered os (deletes removed) f v = record {
    current = v.current;
    within = v.within;
  }
  fetching_step-IsNumbered os (vanishes path) f v = record {
    current = v.current;
    within = v.within;
  }

  pub fetching_run-IsNumbered :
      (os : Os) (es : List Event) (f : Fetching M)
      → IsNumbered f
      → IsNumbered (fetching_run os es f)
  unfolding fetching_run
  fetching_run-IsNumbered os [] f v = v
  fetching_run-IsNumbered os (e ∷ es) f v =
      fetching_run-IsNumbered os es _ (fetching_step-IsNumbered os e f v)
