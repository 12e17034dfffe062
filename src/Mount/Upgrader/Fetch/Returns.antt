-- ===== src/Mount/Upgrader/Fetch/Returns.antt =====
-- mount/upgrader.go: no call of `Fetch` waits for ever.
use dagstore.Shared.{
  ℕ, ◌≤◌, ◌≡◌, refl, ◌∙◌, ap, Bool, true, false, Option, none, some, List, length, get_elem?, All,
  All-get_elem?, arith, lookup, string_eq,
}
use dagstore.Error.{Result}
use dagstore.Mount.Upgrader.{Os, Upgrader}
use dagstore.Mount.Upgrader.Refetch.{Bytes, Files, Answers}
use dagstore.Mount.Upgrader.Fetch.{
  Call, starting, at_once, finishing, returned, Fetching, Event, look, begun, fetch_step,
  new_fetching, fetching_run,
}
use dagstore.Mount.Upgrader.Fetch.Once.{IsOrdered, older-fetch_step, fetching_run-IsOrdered}
use dagstore.Mount.Upgrader.Fetch.Numbered.{
  is_running, IsWithin, fetch_step_alike, fetching_run-IsNumbered,
}
use dagstore.Mount.Upgrader.Fetch.Ending.{
  IsOwn, Ends, proceeded, Ends-le, Ends-returned, get_elem?-proceeded, Ends-proceeded,
  Ends-finishing, Ends-current, Ends-at_once,
}

-- What a call can be after its first step.
abbrev IsLooked : ℕ → Call → Type 0
IsLooked k starting = ⊥
IsLooked k (at_once n) = n ≡ k
IsLooked k finishing = ⊥
IsLooked k (returned r) = Unit

module _ {M : Type 0} (os : Os) (i : ℕ) (a : Answers) where
  look-IsLooked :
      (ready : Bool) (there : Option Bytes) (f : Fetching M)
      → IsLooked (length f.older) (look a ready there f).1
  look-IsLooked false there f = refl
  look-IsLooked true (some b) f = tt
  look-IsLooked true none f = refl

  begun-IsLooked :
      (passthrough : Bool) (f : Fetching M) → IsLooked (length f.older) (begun a passthrough f).1
  begun-IsLooked true f = tt
  begun-IsLooked false f = look-IsLooked f.upgrader.ready (lookup f.upgrader.path f.files) f

  starting-IsLooked : (f : Fetching M) → IsLooked (length f.older) (fetch_step a starting f).1
  unfolding fetch_step
  starting-IsLooked f = begun-IsLooked f.upgrader.passthrough f

  Ends-looked :
      (c : Call) (f : Fetching M)
      → get_elem? f.calls i ≡ some c
      → IsLooked (length f.older) c
      → is_running f.current ≡ true
      → Ends os i a 8 f
  Ends-looked starting f e h runs = absurd h
  Ends-looked (at_once n) f e h runs =
      Ends-current os i a f.current f (e ∙ ap (λ m. some (at_once m)) h) refl runs
  Ends-looked finishing f e h runs = absurd h
  Ends-looked (returned r) f e h runs =
      Ends-le os i a 0 8 f (omega arith) (Ends-returned os i a f r e)

  Ends-starting :
      (f : Fetching M)
      → get_elem? f.calls i ≡ some starting
      → is_running f.current ≡ true
      → Ends os i a 9 f
  unfolding proceeded
  Ends-starting f e runs =
      let (still, same, within) = fetch_step_alike a starting f runs (omega arith) in
      Ends-proceeded os i a 8 starting f e (
        Ends-looked (fetch_step a starting f).1 (proceeded os i a starting f)
          (get_elem?-proceeded os i a starting f e)
          (rw (older-fetch_step a starting f) (starting-IsLooked f)) still)

  Ends-call :
      (c : Call) (f : Fetching M)
      → get_elem? f.calls i ≡ some c
      → IsOrdered f
      → is_running f.current ≡ true
      → IsWithin (length f.older) c
      → Ends os i a 9 f
  Ends-call starting f e late runs within = Ends-starting f e runs
  Ends-call (at_once n) f e late runs within =
      Ends-le os i a 8 9 f (omega arith) (Ends-at_once os i a n f e late runs within)
  Ends-call finishing f e late runs within =
      Ends-le os i a 1 9 f (omega arith) (Ends-finishing os i a f e)
  Ends-call (returned r) f e late runs within =
      Ends-le os i a 0 9 f (omega arith) (Ends-returned os i a f r e)

-- No call of `Fetch` can be left waiting: after any run of calls on an upgrader, with calls of
-- `DeleteTransient` and removals of files, and whatever the mount and the file system answer then, at most
-- nine further steps, of the call itself and of the function of the `sync.Once` that it waits for, make
-- it return a reader or an error.
pub every_call_returns :
    {M : Type 0} (os : Os) (u : Upgrader M) (files : Files) (es : List Event) (i : ℕ) (c : Call)
    (a : Answers)
    → let f = fetching_run os es (new_fetching u files) in
      get_elem? f.calls i ≡ some c
      → (more : List Event) × (r : Result Bytes) × (length more ≤ 9)
        × All (IsOwn i a) more
        × (get_elem? (fetching_run os more f).calls i ≡ some (returned r))
unfolding new_fetching
every_call_returns os u files es i c a e =
    let f = fetching_run os es (new_fetching u files) in
    let v =
      fetching_run-IsNumbered os es (new_fetching u files)
        (record { current = refl; within = tt }) in
    let late = fetching_run-IsOrdered os es (new_fetching u files) tt in
    Ends-call os i a c f e late v.current
      (All-get_elem? (IsWithin (length f.older)) f.calls i c v.within e)
