-- ===== src/Store/GcCalls.antt =====
-- dagstore.go: `GC`, its request to the event loop, and how the result comes back.
pub mod Blocking
mod Tests
use dagstore.Shared.{
  ℕ, Bool, true, false, Option, none, some, List, [], ◌∷◌, ◌++◌, length, get_elem?, set, ltb,
  if◌then◌else◌,
}

-- A call of `GC`: before its request is in `gcCh`, before its result, with the result, and with the error
-- of its context.
pub data GcCall : Type 0 where
  requesting waiting answered gave_up : GcCall

-- The event loop: between two rounds, at the end of the collection of a request, and after it has ended.
pub data Loop : Type 0 where
  idle : Loop
  collecting : (call : ℕ) → Loop
  ended : Loop

pub record GcCalls : Type 0 where
  pub calls : List GcCall
  -- The requests in `gcCh`, by the calls that they come from.
  pub gc_ch : List ℕ
  pub loop : Loop

pub data Event : Type 0 where
  begins : Event
  -- The request of a call enters `gcCh`, or its context ends.
  requests cancels : ℕ → Event
  -- The event loop takes a request, and gives up a result.
  collects hands_over : Event
  -- The event loop processes a task.
  processes : Event
  -- The context of the store ends.
  closes : Event

abbrev pub is_requesting : Option GcCall → Bool
is_requesting (some requesting) = true
is_requesting call = false

abbrev pub is_waiting : Option GcCall → Bool
is_waiting (some waiting) = true
is_waiting call = false

abbrev pub cancelled : GcCall → GcCall
cancelled answered = answered
cancelled call = gave_up

-- `gcCh` has room for eight requests.
unfoldable pub on_requests : ℕ → GcCalls → GcCalls
on_requests i s =
    if is_requesting (get_elem? s.calls i)
    then if ltb (length s.gc_ch) 8
      then record s { calls = set s.calls i waiting; gc_ch = s.gc_ch ++ i ∷ [] }
      else s
    else s

unfoldable pub on_cancels : ℕ → GcCalls → GcCalls
on_cancels i s = elim (get_elem? s.calls i) [
  | none ↦ s
  | some call ↦ record s { calls = set s.calls i (cancelled call) }
]

-- `consumeNext` takes a request.
abbrev pub taken : Loop → List ℕ → GcCalls → GcCalls
taken idle (i ∷ rest) s = record s { gc_ch = rest; loop = collecting i }
taken loop ch s = s

-- The `select` at the end of `gc`: the channel of the result has no buffer, so the call has to receive.
abbrev pub handed : Loop → GcCalls → GcCalls
handed (collecting i) s =
    if is_waiting (get_elem? s.calls i)
    then record s { calls = set s.calls i answered; loop = idle }
    else s
handed loop s = s

-- The event loop looks at its context before a round, and at the end of `gc`.
unfoldable pub gc_step : Event → GcCalls → GcCalls
unfolding on_requests on_cancels
gc_step begins s = record s { calls = s.calls ++ requesting ∷ [] }
gc_step (requests i) s = on_requests i s
gc_step (cancels i) s = on_cancels i s
gc_step collects s = taken s.loop s.gc_ch s
gc_step hands_over s = handed s.loop s
gc_step processes s = s
gc_step closes s = record s { loop = ended }

unfoldable pub gc_run : List Event → GcCalls → GcCalls
unfolding gc_step
gc_run [] s = s
gc_run (e ∷ es) s = gc_run es (gc_step e s)
