-- ===== src/Mount/Upgrader/Fetch/Ending.antt =====
-- mount/upgrader.go: how a call of `Fetch` comes to its end, from each phase of its `sync.Once`.
use dagstore.Shared.{
  ℕ, zero, suc, ◌≤◌, ◌≡◌, refl, sym, ◌∙◌, ap, inl, inr, true, Option, none, some, List, [], ◌∷◌,
  length, get_elem?, set, All, All-get_elem?, Option-cases, arith, get_elem?-set_self,
  get_elem?-length, get_elem?-append_last, string_eq,
}
use mathlib.Core.Path.{subst}
use dagstore.Error.{Error, Result}
use dagstore.Mount.Upgrader.{Os}
use dagstore.Mount.Upgrader.Refetch.{
  Bytes, Answers, refetch, Phase, idle, creating, copying, renaming, publishing, closing, over,
}
use dagstore.Mount.Upgrader.Fetch.{
  Call, at_once, finishing, returned, Fetching, Event, proceeds, refetches, created, copied,
  refetch_step, phase_of, on_refetches, finished, fetch_step, on_proceeds, fetching_step,
  fetching_run,
}
use dagstore.Mount.Upgrader.Fetch.Once.{IsLate, IsOrdered, older-fetch_step}
use dagstore.Mount.Upgrader.Fetch.Numbered.{is_running}

-- A step of the call at `i`, or of a function of a `sync.Once`, with these answers.
abbrev pub IsOwn : ℕ → Answers → Event → Type 0
IsOwn i a (proceeds j b) = (j ≡ i) × (b ≡ a)
IsOwn i a (refetches n b) = b ≡ a
IsOwn i a e = ⊥

-- An index that is no entry's, and not past the end.
last_of : (l : List Phase) (n : ℕ) → get_elem? l n ≡ none → n ≤ length l → n ≡ length l
last_of [] n h g = omega (arith, g)
last_of (p ∷ l) zero h g = cc
last_of (p ∷ l) (suc n) h g = omega (arith, last_of l n h (omega (arith, g)))

module _ {M : Type 0} (os : Os) (i : ℕ) (a : Answers) where
  -- At most `k` such steps after which the call has returned.
  abbrev pub Ends : ℕ → Fetching M → Type 0
  Ends k f =
      (es : List Event) × (r : Result Bytes) × (length es ≤ k)
      × All (IsOwn i a) es
      × (get_elem? (fetching_run os es f).calls i ≡ some (returned r))

  Ends-step :
      (k : ℕ) (e : Event) (f : Fetching M)
      → IsOwn i a e
      → Ends k (fetching_step os e f)
      → Ends (suc k) f
  unfolding fetching_run
  Ends-step k e f own (es, r, short, owns, done) =
      (e ∷ es, r, omega (arith, short), (own, owns), done)

  pub Ends-le : (j k : ℕ) (f : Fetching M) → j ≤ k → Ends j f → Ends k f
  Ends-le j k f h (es, r, short, owns, done) = (es, r, omega (arith, short, h), owns, done)

  pub Ends-returned :
      (f : Fetching M) (r : Result Bytes) → get_elem? f.calls i ≡ some (returned r) → Ends 0 f
  unfolding fetching_run
  Ends-returned f r e = ([], r, omega arith, tt, e)

  calls-fetch_step : (c : Call) (f : Fetching M) → (fetch_step a c f).0.calls ≡ f.calls
  unfolding fetch_step
  calls-fetch_step c f = ground arith

  -- A step of the call.
  unfoldable pub proceeded : Call → Fetching M → Fetching M
  proceeded c f = record (fetch_step a c f).0 {
    calls = set (fetch_step a c f).0.calls i (fetch_step a c f).1;
  }

  fetching_step-proceeds :
      (c : Call) (f : Fetching M)
      → get_elem? f.calls i ≡ some c
      → fetching_step os (proceeds i a) f ≡ proceeded c f
  unfolding fetching_step on_proceeds proceeded
  fetching_step-proceeds c f e = rw (e, on_proceeds) refl

  pub get_elem?-proceeded :
      (c : Call) (f : Fetching M)
      → get_elem? f.calls i ≡ some c
      → get_elem? (proceeded c f).calls i ≡ some (fetch_step a c f).1
  unfolding proceeded
  get_elem?-proceeded c f e =
      get_elem?-set_self (fetch_step a c f).0.calls i (fetch_step a c f).1 c
        (rw (calls-fetch_step c f) e)

  pub Ends-proceeded :
      (k : ℕ) (c : Call) (f : Fetching M)
      → get_elem? f.calls i ≡ some c
      → Ends k (proceeded c f)
      → Ends (suc k) f
  Ends-proceeded k c f e h =
      Ends-step k (proceeds i a) f (refl, refl)
        (subst (Ends k) (sym (fetching_step-proceeds c f e)) h)

  Ends-done :
      (c : Call) (r : Result Bytes) (f : Fetching M)
      → get_elem? f.calls i ≡ some c
      → (fetch_step a c f).1 ≡ returned r
      → Ends 1 f
  Ends-done c r f e h =
      Ends-proceeded 0 c f e
        (Ends-returned (proceeded c f) r (get_elem?-proceeded c f e ∙ ap some h))

  finished_returns :
      (failed : Option Error) (f : Fetching M)
      → (r : Result Bytes) × ((finished a failed f).1 ≡ returned r)
  finished_returns none f = (_, refl)
  finished_returns (some e) f = (_, refl)

  pub Ends-finishing : (f : Fetching M) → get_elem? f.calls i ≡ some finishing → Ends 1 f
  unfolding fetch_step
  Ends-finishing f e =
      let (r, done) = finished_returns f.once_err f in Ends-done finishing r f e done

  -- A call whose `sync.Once` has done its work.
  Ends-over :
      (n : ℕ) (f : Fetching M)
      → get_elem? f.calls i ≡ some (at_once n)
      → phase_of n f ≡ over
      → Ends 2 f
  unfolding fetch_step
  Ends-over n f e h = Ends-proceeded 1 (at_once n) f e (
      Ends-finishing (proceeded (at_once n) f)
        (get_elem?-proceeded (at_once n) f e ∙ ground (arith, h)))

  Ends-closing :
      (n : ℕ) (f : Fetching M)
      → get_elem? f.calls i ≡ some (at_once n)
      → get_elem? f.older n ≡ some closing
      → Ends 3 f
  unfolding fetching_step on_refetches
  Ends-closing n f e h = Ends-step 2 (refetches n a) f refl (
      rw (h, on_refetches)
        (Ends-over n (record f { older = set f.older n over }) e
          (ground (arith, get_elem?-set_self f.older n over closing h))))

  -- A step of the current function.
  refetches_current :
      (f : Fetching M)
      → fetching_step os (refetches (length f.older) a) f ≡ refetch_step a f.current f
  unfolding fetching_step on_refetches
  refetches_current f = rw (get_elem?-length f.older, on_refetches) refl

  Ends-refetched :
      (k : ℕ) (p : Phase) (f : Fetching M)
      → f.current ≡ p
      → Ends k (refetch_step a p f)
      → Ends (suc k) f
  Ends-refetched k p f e h =
      Ends-step k (refetches (length f.older) a) f refl
        (subst (Ends k) (sym (refetches_current f ∙ ap (λ q. refetch_step a q f) e)) h)

  -- The call waits for the current `sync.Once`.
  abbrev Waits : Fetching M → Type 0
  Waits f = get_elem? f.calls i ≡ some (at_once (length f.older))

  Ends-current_over : (f : Fetching M) → Waits f → f.current ≡ over → Ends 2 f
  Ends-current_over f e h =
      Ends-over (length f.older) f e (rw (get_elem?-length f.older, phase_of) h)

  Ends-publishing : (f : Fetching M) → Waits f → f.current ≡ publishing → Ends 4 f
  unfolding refetch_step
  Ends-publishing f e h = Ends-refetched 3 publishing f h (
      Ends-closing (length f.older) (refetch_step a publishing f) e
        (get_elem?-append_last f.older closing))

  Ends-renaming : (f : Fetching M) → Waits f → f.current ≡ renaming → Ends 5 f
  unfolding refetch_step
  Ends-renaming f e h =
      Ends-refetched 4 renaming f h (Ends-publishing (refetch_step a renaming f) e refl)

  Ends-copied : (f : Fetching M) (r : Bytes × Option Error) → Waits f → Ends 5 (copied a r f)
  Ends-copied f (bytes, none) e = Ends-renaming (copied a (bytes, none) f) e refl
  Ends-copied f (bytes, some x) e =
      Ends-le 2 5 (copied a (bytes, some x) f) (omega arith)
        (Ends-current_over (copied a (bytes, some x) f) e refl)

  Ends-copying : (f : Fetching M) → Waits f → f.current ≡ copying → Ends 6 f
  unfolding refetch_step
  Ends-copying f e h =
      Ends-refetched 5 copying f h (Ends-copied f (refetch f.upgrader.throttler a) e)

  Ends-created : (f : Fetching M) (failed : Option Error) → Waits f → Ends 6 (created failed f)
  Ends-created f none e = Ends-copying (created none f) e refl
  Ends-created f (some x) e =
      Ends-le 2 6 (created (some x) f) (omega arith) (Ends-current_over (created (some x) f) e refl)

  Ends-creating : (f : Fetching M) → Waits f → f.current ≡ creating → Ends 7 f
  unfolding refetch_step
  Ends-creating f e h = Ends-refetched 6 creating f h (Ends-created f a.create e)

  Ends-idle : (f : Fetching M) → Waits f → f.current ≡ idle → Ends 8 f
  unfolding fetch_step proceeded
  Ends-idle f e h =
      let first : phase_of (length f.older) f ≡ idle = rw (get_elem?-length f.older, phase_of) h in
      let older = ap length (older-fetch_step a (at_once (length f.older)) f) in
      let call : (fetch_step a (at_once (length f.older)) f).1 ≡ at_once (length f.older) =
        ground (arith, first) in
      Ends-proceeded 7 (at_once (length f.older)) f e (
        Ends-creating (proceeded (at_once (length f.older)) f)
          (get_elem?-proceeded (at_once (length f.older)) f e
            ∙ ap some (call ∙ ap at_once (sym older)))
          (ground (arith, first)))

  pub Ends-current :
      (p : Phase) (f : Fetching M) → Waits f → f.current ≡ p → is_running p ≡ true → Ends 8 f
  Ends-current idle f e h runs = Ends-idle f e h
  Ends-current creating f e h runs = Ends-le 7 8 f (omega arith) (Ends-creating f e h)
  Ends-current copying f e h runs = Ends-le 6 8 f (omega arith) (Ends-copying f e h)
  Ends-current renaming f e h runs = Ends-le 5 8 f (omega arith) (Ends-renaming f e h)
  Ends-current publishing f e h runs = Ends-le 4 8 f (omega arith) (Ends-publishing f e h)
  Ends-current closing f e h runs = cc
  Ends-current over f e h runs = Ends-le 2 8 f (omega arith) (Ends-current_over f e h)

  -- An older `sync.Once` is over, or closes.
  Ends-older :
      (n : ℕ) (p : Phase) (f : Fetching M)
      → get_elem? f.calls i ≡ some (at_once n)
      → get_elem? f.older n ≡ some p
      → IsLate p
      → Ends 8 f
  Ends-older n closing f e h late = Ends-le 3 8 f (omega arith) (Ends-closing n f e h)
  Ends-older n over f e h late = Ends-le 2 8 f (omega arith) (Ends-over n f e (ground (arith, h)))
  Ends-older n idle f e h late = absurd late
  Ends-older n creating f e h late = absurd late
  Ends-older n copying f e h late = absurd late
  Ends-older n renaming f e h late = absurd late
  Ends-older n publishing f e h late = absurd late

  pub Ends-at_once :
      (n : ℕ) (f : Fetching M)
      → get_elem? f.calls i ≡ some (at_once n)
      → IsOrdered f
      → is_running f.current ≡ true
      → n ≤ length f.older
      → Ends 8 f
  Ends-at_once n f e late runs within = elim (Option-cases (get_elem? f.older n)) [
    | inr (p, h) ↦ Ends-older n p f e h (All-get_elem? IsLate f.older n p late h)
    | inl h ↦
        Ends-current f.current f (e ∙ ap (λ m. some (at_once m)) (last_of f.older n h within)) refl
          runs
  ]
