-- ===== src/Mount/Upgrader/Fetch/Reader.antt =====
-- mount/upgrader.go: a call of `Fetch` opens transients that are whole.
use dagstore.Shared.{
  ℕ, ◌≡◌, refl, sym, inl, inr, Bool, true, false, Option, none, some, get_elem?, Option-cases,
  lookup, string_eq, All-set, All-get_elem?,
}
use dagstore.Error.{Error}
use dagstore.Mount.Upgrader.Refetch.{
  Bytes, Answers, Phase, idle, creating, copying, renaming, publishing, closing, over,
}
use dagstore.Mount.Upgrader.Fetch.{
  Call, starting, at_once, finishing, returned, Fetching, phase_of, do_once, look, begun, finished,
  fetch_step, on_proceeds,
}
use mathlib.Core.Path.{subst}
use dagstore.Mount.Upgrader.Fetch.Content.{
  IsWhole, IsRead, IsReadCall, IsWhole-remove, IsRead-open_file,
}
use dagstore.Mount.Upgrader.Fetch.Writer.{IsWritten-remove, IsFaithful}

module _ {M : Type 0} (src : Bytes) where
  -- The state after a step of a call, and what the call is then.
  abbrev IsKept : Fetching M × Call → Type 0
  IsKept (f, c) = IsFaithful src f × IsReadCall src c

  look-IsKept :
      (a : Answers) (ready : Bool) (there : Option Bytes) (f : Fetching M)
      → f.upgrader.ready ≡ ready
      → IsFaithful src f
      → IsKept (look a ready there f)
  look-IsKept a false there f e v = (v, tt)
  look-IsKept a true (some b) f e v = (
    v,
    IsRead-open_file src a.opened f.upgrader.path f.files
        (subst (λ p. IsWhole src (lookup p f.files)) (sym (v.located e)) v.complete),
  )
  look-IsKept a true none f e v = (
    record {
      distinct = v.distinct;
      located = λ r. cc;
      complete =
          IsWhole-remove src a.removed f.upgrader.path_complete f.upgrader.path f.files v.complete;
      partial =
          IsWritten-remove src a.removed f.current f.upgrader.path_partial f.upgrader.path f.files
            v.partial;
      read = v.read;
    },
    tt,
  )

  do_once-IsKept :
      (phase : Phase) (n : ℕ) (f : Fetching M) → IsFaithful src f → IsKept (do_once phase n f)
  do_once-IsKept idle n f v = (
    record {
      distinct = v.distinct;
      located = v.located;
      complete = v.complete;
      partial = tt;
      read = v.read;
    },
    tt,
  )
  do_once-IsKept creating n f v = (v, tt)
  do_once-IsKept copying n f v = (v, tt)
  do_once-IsKept renaming n f v = (v, tt)
  do_once-IsKept publishing n f v = (v, tt)
  do_once-IsKept closing n f v = (v, tt)
  do_once-IsKept over n f v = (v, tt)

  begun-IsKept :
      (a : Answers) (passthrough : Bool) (f : Fetching M)
      → IsRead src a.source
      → IsFaithful src f
      → IsKept (begun a passthrough f)
  begun-IsKept a true f served v = (v, served)
  begun-IsKept a false f served v =
      look-IsKept a f.upgrader.ready (lookup f.upgrader.path f.files) f refl v

  finished-IsKept :
      (a : Answers) (once_err : Option Error) (f : Fetching M)
      → IsFaithful src f
      → IsKept (finished a once_err f)
  finished-IsKept a (some e) f v = (v, tt)
  finished-IsKept a none f v =
      (v, IsRead-open_file src a.opened f.upgrader.path_complete f.files v.complete)

  fetch_step-IsKept :
      (a : Answers) (c : Call) (f : Fetching M)
      → IsRead src a.source
      → IsReadCall src c
      → IsFaithful src f
      → IsKept (fetch_step a c f)
  unfolding fetch_step
  fetch_step-IsKept a starting f served h v = begun-IsKept a f.upgrader.passthrough f served v
  fetch_step-IsKept a (at_once n) f served h v = do_once-IsKept (phase_of n f) n f v
  fetch_step-IsKept a finishing f served h v = finished-IsKept a f.once_err f v
  fetch_step-IsKept a (returned r) f served h v = (v, h)

  pub on_proceeds-IsFaithful :
      (i : ℕ) (a : Answers) (f : Fetching M)
      → IsRead src a.source
      → IsFaithful src f
      → IsFaithful src (on_proceeds i a f)
  unfolding on_proceeds
  on_proceeds-IsFaithful i a f served v = elim (Option-cases (get_elem? f.calls i)) [
    | inl e ↦ rw (e, on_proceeds) v
    | inr (c, e) ↦
        let (kept, call) =
          fetch_step-IsKept a c f served (All-get_elem? (IsReadCall src) f.calls i c v.read e) v in
        rw (e, on_proceeds)
          (record {
            distinct = kept.distinct;
            located = kept.located;
            complete = kept.complete;
            partial = kept.partial;
            read = All-set (IsReadCall src) _ i _ kept.read call;
          })
  ]
