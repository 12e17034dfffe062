-- ===== src/Store/Properties/Mirrored/Steps.antt =====
-- dagstore.go, dagstore_control.go, dagstore_async.go: the datastore goes on to mirror the shards in
-- every step.
use dagstore.Shared.{
  ℕ, ◌≡◌, refl, sym, ap, ◌∙◌, inl, inr, String, Bool, true, false, Option, some, List, [], ◌∷◌,
  get_elem?, set, lookup, arith, string_eq, Option-cases, not, ◌&&◌,
}
use mathlib.Core.Path.{subst}
use mathlib.Core.Option.{some-injective}
use dagstore.Error.{Error, ok, err, Result, Result-cases}
use dagstore.ShardKey.{Key, key_eq}
use dagstore.Mount.Interface.{MountOps}
use dagstore.Throttle.{Throttler}
use dagstore.Mount.Registry.{Registry, represent}
use dagstore.Mount.Upgrader.{upgrade, Os, Upgrader}
use dagstore.Store.Types.{Externals, Task, Shard}
use dagstore.Store.Turn.{Turn}
use dagstore.Store.Persist.{persist}
use dagstore.Store.Async.{Goroutine, acquiring, indexing, initializing, adding, sending}
use dagstore.Store.System.Defs.{System}
use dagstore.Store.System.Calls.{RegisterOpts, fresh, register_shard}
use dagstore.Store.System.Loop.{
  Answers, is_destroy, settle, process, process_external, process_completion, process_next,
}
use dagstore.Store.System.Steps.{Transient, with_transient, on_fetches, on_generates}
use dagstore.Store.Properties.Round.{process_cases}
use dagstore.Store.Properties.Mirrored.{Mirrors}
use dagstore.Store.Properties.Mirrored.Turns.{IsSame, handle-IsSame}
use dagstore.Store.Properties.Mirrored.Rewritten.{set-Mirrors, persist-Mirrors}
use dagstore.Store.Properties.Mirrored.Added.{is_free, append-Mirrors, IsKept}

abbrev pub is_ok {ℓ} : {A : Type ℓ} → Result A → Bool
is_ok (ok a) = true
is_ok (err e) = false

-- A round that is not a destruction's, and whose write succeeds.
abbrev pub writes : Answers → List Task → Bool
writes a [] = true
writes a (t ∷ ts) = not a.put_failed && not (is_destroy t.op)

upgrade_lem :
    {M : Type 0} (os : Os) (ops : MountOps M) (alive : String → Bool) (m : M)
    (throttler : Throttler) (dir key initial : String) (u : Upgrader M)
    → upgrade os ops alive m throttler dir key initial ≡ ok u
    → (u.underlying ≡ m) × ((ops.info m).access_sequential ≡ true)
unfolding upgrade
upgrade_lem os ops alive m throttler dir key initial u h = ground arith

-- The channel that `consumeNext` reads.
abbrev pub next_channel :
    (external : Bool) → (internals externals completions : List Task) → List Task
next_channel external (t ∷ ts) externals completions = t ∷ ts
next_channel true [] externals completions = externals
next_channel false [] externals completions = completions

module _ {X : Externals} where
  module _ (mounts : Registry X.Mount) where
    settle-IsKept :
        (a : Answers) (tsk : Task) (d : System X) (s : Shard X) (t : Turn X)
        → a.put_failed ≡ false
        → is_destroy tsk.op ≡ false
        → get_elem? d.heap tsk.shard ≡ some s
        → IsSame s t.shard
        → IsKept mounts d
        → IsKept mounts (settle a tsk t d)
    unfolding settle
    settle-IsKept a tsk d s t put lasting found same v =
        rw (lasting, put)
          (
            v.0,
            subst
                (λ m.
                  Mirrors mounts (set d.heap tsk.shard t.shard) (persist m false t.shard d.store))
                (sym v.0)
                (persist-Mirrors mounts d.heap d.store tsk.shard s t.shard found same v.1),
          )

    process-IsKept :
        (a : Answers) (tsk : Task) (d d' : System X)
        → (not a.put_failed && not (is_destroy tsk.op)) ≡ true
        → process a tsk d ≡ some d'
        → IsKept mounts d
        → IsKept mounts d'
    process-IsKept a tsk d d' lasting e v = elim (process_cases a tsk d d' e) [
      | inl same ↦ subst (IsKept mounts) same v
      | inr turn ↦ subst (IsKept mounts) turn.settled (
          settle-IsKept a tsk d turn.s turn.t (ground arith) (ground arith) turn.at_task
            (handle-IsSame tsk turn.s d.indices d.failure_ch a.removed turn.t turn.handled) v)
    ]

    process_external-IsKept :
        (a : Answers) (l : List Task) (d d' : System X)
        → writes a l ≡ true
        → process_external a l d ≡ some d'
        → IsKept mounts d
        → IsKept mounts d'
    process_external-IsKept a [] d d' h e v = subst (IsKept mounts) (some-injective d d' e) v
    process_external-IsKept a (tsk ∷ rest) d d' h e v = process-IsKept a tsk _ d' h e v

    process_completion-IsKept :
        (a : Answers) (l : List Task) (d d' : System X)
        → writes a l ≡ true
        → process_completion a l d ≡ some d'
        → IsKept mounts d
        → IsKept mounts d'
    process_completion-IsKept a [] d d' h e v = subst (IsKept mounts) (some-injective d d' e) v
    process_completion-IsKept a (tsk ∷ rest) d d' h e v = process-IsKept a tsk _ d' h e v

    pub process_next-IsKept :
        (a : Answers) (external : Bool) (l : List Task) (d d' : System X)
        → writes a (next_channel external l d.external_ch d.completion_ch) ≡ true
        → process_next a external l d ≡ some d'
        → IsKept mounts d
        → IsKept mounts d'
    process_next-IsKept a external (tsk ∷ rest) d d' h e v = process-IsKept a tsk _ d' h e v
    process_next-IsKept a true [] d d' h e v = process_external-IsKept a d.external_ch d d' h e v
    process_next-IsKept a false [] d d' h e v =
        process_completion-IsKept a d.completion_ch d d' h e v

    pub register_shard-IsKept :
        (ctx : ℕ) (key : Key) (mnt : X.Mount) (out : Option ℕ) (opts : RegisterOpts)
        (alive : String → Bool) (d : System X)
        → is_ok (represent X.mount mnt d.mounts) ≡ true
        → is_free (X.new_key key.str) d.heap ≡ true
        → IsKept mounts d
        → IsKept mounts (register_shard ctx key mnt out opts alive d).0
    unfolding register_shard
    register_shard-IsKept ctx key mnt out opts alive d writable free v =
        elim (Option-cases (lookup key d.shards)) [
          | inr (shard, e) ↦ rw (e, register_shard) v
          | inl e ↦
              elim (Result-cases (
                upgrade X.os X.mount alive mnt d.throttle_ready_fetch d.transients_dir key.str
                  opts.existing_transient)) [
                    | inr (x, f) ↦ rw (e, register_shard) (rw (f, register_shard) v)
                    | inl (u, f) ↦ elim (Result-cases (represent X.mount mnt d.mounts)) [
                      | inr (x, g) ↦ absurd (ground arith)
                      | inl (url, g) ↦
                          let (wraps, sequential) =
                            upgrade_lem X.os X.mount alive mnt d.throttle_ready_fetch
                              d.transients_dir key.str opts.existing_transient u f in
                          rw (e, register_shard)
                            (rw (f, register_shard)
                              (
                                v.0,
                                append-Mirrors mounts d.heap d.store
                                    (fresh key u opts.lazy_initialization) url refl
                                    (ap (λ m. represent X.mount m mounts) wraps
                                      ∙ (ap (represent X.mount mnt) (sym v.0) ∙ g))
                                    (ap (λ m. (X.mount.info m).access_sequential) wraps
                                      ∙ sequential)
                                    free v.1,
                              ))
                    ]
                  ]
        ]

    -- A shard whose transient changes.
    moved-IsKept :
        (shard : ℕ) (t : Transient) (s : Shard X) (d : System X)
        → get_elem? d.heap shard ≡ some s
        → IsKept mounts d
        → IsKept mounts (record d { heap = set d.heap shard (with_transient t s) })
    moved-IsKept shard t s d e v = (
      v.0,
      set-Mirrors mounts d.heap d.store shard s (with_transient t s) e
          (record { same = (refl, refl); state = refl; lazy = refl; err = refl }) v.1,
    )

    pub on_fetches-IsKept :
        (i : ℕ) (t : Transient) (reader : Result X.Reader) (ctx_err : Option Error)
        (g : Goroutine X) (d : System X)
        → IsKept mounts d
        → IsKept mounts (on_fetches i t reader ctx_err g d)
    unfolding on_fetches
    on_fetches-IsKept i t reader ctx_err (acquiring w shard) d v =
        elim (Option-cases (get_elem? d.heap shard)) [
          | inl e ↦ rw (e, on_fetches) v
          | inr (s, e) ↦ rw (e, on_fetches) (moved-IsKept shard t s d e v)
        ]
    on_fetches-IsKept i t reader ctx_err (indexing w shard r) d v = v
    on_fetches-IsKept i t reader ctx_err (initializing ctx shard) d v = v
    on_fetches-IsKept i t reader ctx_err (adding ctx shard idx) d v = v
    on_fetches-IsKept i t reader ctx_err (sending l) d v = v

    pub on_generates-IsKept :
        (i : ℕ) (t : Transient) (reader : Result X.Reader) (idx : Result X.Index) (g : Goroutine X)
        (d : System X)
        → IsKept mounts d
        → IsKept mounts (on_generates i t reader idx g d)
    unfolding on_generates
    on_generates-IsKept i t reader idx (initializing ctx shard) d v =
        elim (Option-cases (get_elem? d.heap shard)) [
          | inl e ↦ rw (e, on_generates) v
          | inr (s, e) ↦ rw (e, on_generates) (moved-IsKept shard t s d e v)
        ]
    on_generates-IsKept i t reader idx (acquiring w shard) d v = v
    on_generates-IsKept i t reader idx (indexing w shard r) d v = v
    on_generates-IsKept i t reader idx (adding ctx shard x) d v = v
    on_generates-IsKept i t reader idx (sending l) d v = v
