-- ===== src/Store/GcCalls/Blocking.antt =====
-- dagstore_gc.go: the event loop waits for a call of `GC` that has gone.
use dagstore.Shared.{
  ℕ, ◌≡◌, refl, inl, inr, Bool, true, false, Option, none, some, List, [], ◌∷◌, ◌++◌, length,
  get_elem?, set, All, arith, if◌then◌else◌, get_elem?-set_self, get_elem?-set_ne, Option-cases,
  Bool-cases, nat_beq, nat_beq_iff, ltb, sym, ◌∙◌, ap, zero, suc,
}
use mathlib.Core.Option.{some-injective}
use dagstore.Store.GcCalls.{
  GcCall, requesting, waiting, answered, gave_up, Loop, idle, collecting, ended, GcCalls, Event,
  begins, requests, cancels, collects, hands_over, processes, closes, is_requesting, cancelled,
  on_requests, on_cancels, taken, handed, gc_step, gc_run,
}

-- The store is not closed.
abbrev pub IsOpen : Event → Type 0
IsOpen closes = ⊥
IsOpen e = Unit

-- The event loop is at the result of a call that has given up.
pub record IsBlocked (i : ℕ) (s : GcCalls) : Type 0 where
  pub loop : s.loop ≡ collecting i
  pub gone : get_elem? s.calls i ≡ some gave_up

get_elem?-append_some :
    (l : List GcCall) (i : ℕ) (c x : GcCall)
    → get_elem? l i ≡ some c
    → get_elem? (l ++ x ∷ []) i ≡ some c
get_elem?-append_some [] i c x h = cc
get_elem?-append_some (y ∷ l) zero c x h = h
get_elem?-append_some (y ∷ l) (suc i) c x h = get_elem?-append_some l i c x h

-- A write to the call of another.
gone-set :
    (i j : ℕ) (call v : GcCall) (l : List GcCall)
    → get_elem? l i ≡ some gave_up
    → get_elem? l j ≡ some call
    → (call ≡ gave_up → v ≡ gave_up)
    → get_elem? (set l j v) i ≡ some gave_up
gone-set i j call v l h at_j keeps = elim (Bool-cases (nat_beq j i)) [
  | inl same ↦
      let index : j ≡ i = (nat_beq_iff j i).0 same in
      let gone : some gave_up ≡ some call = sym h ∙ rw (sym index) at_j in
      let written = get_elem?-set_self l j v call at_j in
      rw (sym index) (written ∙ ap some (keeps (sym (some-injective gave_up call gone))))
  | inr other ↦ rw (get_elem?-set_ne l j i v (λ e. ground (arith, e, other, nat_beq_iff j i))) h
]

requested-IsBlocked :
    (i j : ℕ) (s : GcCalls) (call : Option GcCall) (room : Bool)
    → get_elem? s.calls j ≡ call
    → IsBlocked i s
    → IsBlocked i (
        if is_requesting call
        then if room
          then record s { calls = set s.calls j waiting; gc_ch = s.gc_ch ++ j ∷ [] }
          else s
        else s)
requested-IsBlocked i j s none room e v = v
requested-IsBlocked i j s (some requesting) false e v = v
requested-IsBlocked i j s (some requesting) true e v = record {
  loop = v.loop;
  gone = gone-set i j requesting waiting s.calls v.gone e (λ g. cc);
}
requested-IsBlocked i j s (some waiting) room e v = v
requested-IsBlocked i j s (some answered) room e v = v
requested-IsBlocked i j s (some gave_up) room e v = v

on_requests-IsBlocked : (i j : ℕ) (s : GcCalls) → IsBlocked i s → IsBlocked i (on_requests j s)
unfolding on_requests
on_requests-IsBlocked i j s v =
    requested-IsBlocked i j s (get_elem? s.calls j) (ltb (length s.gc_ch) 8) refl v

taken-IsBlocked :
    (i : ℕ) (loop : Loop) (ch : List ℕ) (s : GcCalls)
    → loop ≡ collecting i
    → IsBlocked i s
    → IsBlocked i (taken loop ch s)
taken-IsBlocked i idle ch s e v = cc
taken-IsBlocked i (collecting j) ch s e v = v
taken-IsBlocked i ended ch s e v = v

handed-IsBlocked :
    (i : ℕ) (loop : Loop) (s : GcCalls)
    → loop ≡ collecting i
    → IsBlocked i s
    → IsBlocked i (handed loop s)
handed-IsBlocked i idle s e v = v
handed-IsBlocked i (collecting j) s e v = ground (arith, e, v.gone, v)
handed-IsBlocked i ended s e v = v

on_cancels-IsBlocked : (i j : ℕ) (s : GcCalls) → IsBlocked i s → IsBlocked i (on_cancels j s)
unfolding on_cancels
on_cancels-IsBlocked i j s v = elim (Option-cases (get_elem? s.calls j)) [
  | inl e ↦ rw (e, on_cancels) v
  | inr (call, e) ↦
      rw (e, on_cancels)
        (record {
          loop = v.loop;
          gone = gone-set i j call (cancelled call) s.calls v.gone e (λ g. rw g refl);
        })
]

gc_step-IsBlocked :
    (i : ℕ) (e : Event) (s : GcCalls) → IsOpen e → IsBlocked i s → IsBlocked i (gc_step e s)
unfolding gc_step on_requests on_cancels
gc_step-IsBlocked i begins s kept v = record {
  loop = v.loop;
  gone = get_elem?-append_some s.calls i gave_up requesting v.gone;
}
gc_step-IsBlocked i (requests j) s kept v = on_requests-IsBlocked i j s v
gc_step-IsBlocked i (cancels j) s kept v = on_cancels-IsBlocked i j s v
gc_step-IsBlocked i collects s kept v = taken-IsBlocked i s.loop s.gc_ch s v.loop v
gc_step-IsBlocked i hands_over s kept v = handed-IsBlocked i s.loop s v.loop v
gc_step-IsBlocked i processes s kept v = v
gc_step-IsBlocked i closes s kept v = absurd kept

gc_run-IsBlocked :
    (i : ℕ) (es : List Event) (s : GcCalls)
    → All IsOpen es
    → IsBlocked i s
    → IsBlocked i (gc_run es s)
unfolding gc_run
gc_run-IsBlocked i [] s kept v = v
gc_run-IsBlocked i (e ∷ es) s kept v =
    gc_run-IsBlocked i es _ kept.1 (gc_step-IsBlocked i e s kept.0 v)

-- If the context of a call of `GC` ends after its request has entered `gcCh`, while the event loop is at
-- its collection, then the event loop stays there, whatever calls are made and cancelled, until the store
-- is closed: it takes no other task or request.
pub cancelled_gc_blocks :
    (i : ℕ) (es : List Event) (s : GcCalls)
    → s.loop ≡ collecting i
    → get_elem? s.calls i ≡ some waiting
    → All IsOpen es
    → (gc_run es (gc_step (cancels i) s)).loop ≡ collecting i
unfolding gc_step on_cancels
cancelled_gc_blocks i es s at_call waits kept =
    let gone : IsBlocked i (on_cancels i s) = record {
      loop = ground (arith, at_call, waits);
      gone = ground (arith, waits, get_elem?-set_self s.calls i gave_up waiting waits);
    } in
    (gc_run-IsBlocked i es (on_cancels i s) kept gone).loop
