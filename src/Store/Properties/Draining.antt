-- ===== src/Store/Properties/Draining.antt =====
-- dagstore_control.go: the tasks that the event loop puts on `internalCh` come to an end.
use dagstore.Shared.{
  ℕ, suc, ◌+◌, ◌≤◌, ◌<◌, ◌^◌, ◌≡◌, refl, sym, ◌∙◌, inl, inr, String, Bool, true, Option, none, some,
  List, [], ◌∷◌, length, total, arith, total-append, List-cases, ap,
}
use mathlib.Core.Path.{subst}
use mathlib.Core.Option.{some-injective}
use dagstore.Error.{Error, ok}
use dagstore.Store.Types.{
  Externals, Waiter, OpType, register, initialize, make_available, destroy, acquire, fail, release,
  recover, Task, Shard,
}
use dagstore.Store.Turn.{Turn}
use dagstore.Store.Control.{
  dispatch_op, on_register, on_initialize, on_make_available, on_acquire, on_release, on_fail,
  on_recover, on_destroy, handle,
}
use dagstore.Store.System.Defs.{System}
use dagstore.Store.System.Loop.{Answers, settle, process, process_next, control_step}
use dagstore.Store.System.Steps.{Event, run}
use dagstore.Store.Start.{RecoverOnStartPolicy, Config, new_dag_store, start}
use dagstore.Store.Soundness.Invariant.{Inv}
use dagstore.Store.Soundness.Process.{control_step_total}
use dagstore.Store.Properties.Round.{process_cases}
use dagstore.Store.Properties.Safety.{started_run}

-- The rounds that a task can lead to, its own one counted.
abbrev pub cost : OpType → ℕ
cost register = 3
cost acquire = 3
cost initialize = 2
cost op = 1

abbrev pub rounds_of : Task → ℕ
rounds_of tsk = cost tsk.op

cost_pos : (op : OpType) → 0 < cost op
cost_pos op = ground arith

empty_by : (l : List Task) → total rounds_of l ≤ 0 → l ≡ []
empty_by [] h = refl
empty_by (tsk ∷ rest) h = ground (arith, h, cost_pos tsk.op)

cost_le : (op : OpType) → cost op ≤ 3
cost_le op = ground arith

rounds_le : (l : List Task) → length l ≤ 1 → total rounds_of l ≤ 3
rounds_le [] h = omega arith
rounds_le (tsk ∷ []) h = omega (arith, cost_le tsk.op)
rounds_le (tsk ∷ next ∷ rest) h = omega (arith, h)

module _ {X : Externals} where
  -- Rounds of the event loop for as long as there is an internal task, with what each is answered.
  unfoldable pub drain : List Answers → System X → Option (System X)
  unfolding control_step
  drain [] d = some d
  drain (a ∷ more) d = elim d.internal_ch [
    | [] ↦ some d
    | tsk ∷ rest ↦ elim (control_step a true d) [ none ↦ none | some d' ↦ drain more d' ]
  ]

  module _ (tsk : Task) (s : Shard X) (repo : X.Repo) where
    returned_staged :
        (n : ℕ) (made t : Turn X)
        → some made ≡ some t
        → total rounds_of made.staged < n
        → total rounds_of t.staged < n
    returned_staged n made t e h =
        subst (λ u. total rounds_of u.staged < n) (some-injective made t e) h

    staged-dispatch_op :
        (fch : Option ℕ) (removed : Option Error) (op : OpType) (w : Option Waiter) (t : Turn X)
        → dispatch_op fch removed op w tsk s repo ≡ some t
        → total rounds_of t.staged < cost op
    unfolding on_register on_initialize on_make_available on_acquire on_release on_fail on_recover
        on_destroy
    staged-dispatch_op fch removed register w t e =
        returned_staged 3 (on_register tsk s repo) t e (ground arith)
    staged-dispatch_op fch removed initialize w t e = ground arith
    staged-dispatch_op fch removed make_available w t e =
        returned_staged 1 (on_make_available tsk s repo) t e (ground arith)
    staged-dispatch_op fch removed release w t e =
        returned_staged 1 (on_release tsk s repo) t e (ground arith)
    staged-dispatch_op fch removed fail w t e =
        returned_staged 1 (on_fail fch tsk s repo) t e (ground arith)
    staged-dispatch_op fch removed acquire (some w) t e =
        returned_staged 3 (on_acquire w tsk s repo) t e (ground arith)
    staged-dispatch_op fch removed recover (some w) t e =
        returned_staged 1 (on_recover removed w tsk s repo) t e (ground arith)
    staged-dispatch_op fch removed destroy (some w) t e =
        returned_staged 1 (on_destroy w tsk s repo) t e (ground arith)
    staged-dispatch_op fch removed acquire none t e = cc
    staged-dispatch_op fch removed recover none t e = cc
    staged-dispatch_op fch removed destroy none t e = cc

  -- A round takes more off the count than it puts on.
  abbrev Falls : Task → System X → System X → Type 0
  Falls tsk d d' = total rounds_of d'.internal_ch < total rounds_of d.internal_ch + cost tsk.op

  settle-Falls :
      (a : Answers) (tsk : Task) (t : Turn X) (d : System X)
      → total rounds_of t.staged < cost tsk.op
      → Falls tsk d (settle a tsk t d)
  unfolding settle
  settle-Falls a tsk t d h = omega (arith, h, total-append rounds_of d.internal_ch t.staged)

  process-Falls :
      (a : Answers) (tsk : Task) (d d' : System X) → process a tsk d ≡ some d' → Falls tsk d d'
  unfolding handle
  process-Falls a tsk d d' e = elim (process_cases a tsk d d' e) [
    | inl same ↦ subst (Falls tsk d) same (omega (arith, cost_pos tsk.op))
    | inr v ↦
        let falls =
          staged-dispatch_op tsk v.s d.indices d.failure_ch a.removed tsk.op tsk.waiter v.t
            v.handled in
        subst (Falls tsk d) v.settled (settle-Falls a tsk v.t d falls)
  ]

  control_step-rounds_of :
      (a : Answers) (tsk : Task) (rest : List Task) (d d' : System X)
      → d.internal_ch ≡ tsk ∷ rest
      → control_step a true d ≡ some d'
      → total rounds_of d'.internal_ch < total rounds_of d.internal_ch
  unfolding control_step
  control_step-rounds_of a tsk rest d d' e h =
      let taken = ap (λ l. process_next a true l d) (sym e) in
      let falls = process-Falls a tsk (record d { internal_ch = rest }) d' (taken ∙ h) in
      omega (arith, falls, ap (total rounds_of) e)

  drain-idle :
      (a : Answers) (more : List Answers) (d : System X)
      → d.internal_ch ≡ []
      → drain (a ∷ more) d ≡ some d
  unfolding drain
  drain-idle a more d e = ground (arith, e)

  drain-busy :
      (a : Answers) (more : List Answers) (tsk : Task) (rest : List Task) (d d' : System X)
      → d.internal_ch ≡ tsk ∷ rest
      → control_step a true d ≡ some d'
      → drain (a ∷ more) d ≡ drain more d'
  unfolding drain
  drain-busy a more tsk rest d d' e h = ground (arith, e, h)

  drain_ends :
      (more : List Answers) (n : ℕ) (d : System X)
      → n + length more < 2 ^ 32
      → Inv n d
      → total rounds_of d.internal_ch ≤ length more
      → (d' : System X) × (drain more d ≡ some d') × (d'.internal_ch ≡ [])
  unfolding drain
  drain_ends [] n d small v h = (d, refl, empty_by d.internal_ch h)
  drain_ends (a ∷ more) n d small v h = elim (List-cases d.internal_ch) [
    | inl idle ↦ (d, drain-idle a more d idle, idle)
    | inr (tsk, rest, e) ↦
        let (d', stepped, v') = control_step_total a n (omega arith) true d v in
        let falls = control_step-rounds_of a tsk rest d d' e stepped in
        let (d'', drained, idle) =
          drain_ends more (suc n) d' (omega arith) v' (omega (arith, h, falls)) in
        (d'', drain-busy a more tsk rest d d' e stepped ∙ drained, idle)
  ]

module _ {X : Externals} (dir_error : Option Error) (cfg : Config X) (d₀ : System X)
    (made : new_dag_store dir_error cfg ≡ ok d₀) (ctx : ℕ) (policy : RecoverOnStartPolicy)
    (alive : String → Bool) where
  -- After any run of a started store, of less than 2 ^ 32 steps in all: however the outside world answers,
  -- at most three rounds of the event loop, none of which crashes, leave `internalCh` empty, so that it
  -- turns to the tasks of the application and of the goroutines.
  pub internal_drains :
      (es : List (Event X)) (d : System X) (answers : List Answers)
      → length es + length answers < 2 ^ 32
      → run es (start ctx policy alive d₀) ≡ some d
      → 3 ≤ length answers
      → (d' : System X) × (drain answers d ≡ some d') × (d'.internal_ch ≡ [])
  internal_drains es d answers small ran enough =
      let (d₁, ran₁, v₁) = started_run dir_error cfg d₀ made ctx policy alive es (omega arith) in
      let v = subst (Inv _) (some-injective d₁ d (sym ran₁ ∙ ran)) v₁ in
      drain_ends answers (0 + length es) d (omega (arith, small)) v
        (omega (arith, enough, rounds_le d.internal_ch v.single))
