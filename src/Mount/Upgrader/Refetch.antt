-- ===== src/Mount/Upgrader/Refetch.antt =====
-- mount/upgrader.go: `refetch`, and the function that `Fetch` gives to its `sync.Once`, cut at its
-- accesses to the file system and to what it shares.
use dagstore.Shared.{
  ℕ, String, Bool, false, not, Option, none, some, List, [], erase, if◌then◌else◌, string_eq,
}
use dagstore.Error.{
  Error, Result, ok, err, stat_failed, source_failed, copy_failed, underlying_gone,
}
use dagstore.Mount.Interface.{Stat}
use dagstore.Throttle.{Throttler, noop, fixed}

abbrev pub Bytes : Type 0
Bytes = List ℕ

-- The transients directory: the content of each file, by its path.
abbrev pub Files : Type 0
Files = List (String × Bytes)

-- What the underlying mount, the context and the file system answer in one step.
pub record Answers : Type 0 where
  pub stat : Result Stat
  -- The context ends before the throttler gives a token.
  pub gave_up : Option Error
  pub source : Result Bytes
  -- `io.Copy` fails, after these bytes.
  pub broken : Option (Bytes × Error)
  pub create : Option Error
  pub rename : Option Error
  pub removed : Option Error
  pub opened : Option Error

-- What is left of a file whose removal is tried.
abbrev pub remove : (removed : Option Error) → String → Files → Files
remove none path files = erase path files
remove (some e) path files = files

abbrev pub throttles : Throttler → Bool → Bool
throttles noop ready = false
throttles (fixed max) ready = ready

-- The bytes that are written, and the error.
abbrev pub copy : Option (Bytes × Error) → Bytes → Bytes × Option Error
copy none bytes = (bytes, none)
copy (some (written, e)) bytes = (written, some (copy_failed e))

abbrev pub fetch_and_copy : Answers → Bytes × Option Error
fetch_and_copy a = elim a.source [
  | err e ↦ ([], some (copy_failed (source_failed e)))
  | ok bytes ↦ copy a.broken bytes
]

abbrev pub throttled : Option Error → Answers → Bytes × Option Error
throttled none a = fetch_and_copy a
throttled (some e) a = ([], some (copy_failed e))

unfoldable pub refetch : Throttler → Answers → Bytes × Option Error
refetch throttler a = elim a.stat [
  | err e ↦ ([], some (stat_failed e))
  | ok stat ↦
      if not stat.exists
      then ([], some underlying_gone)
      else if throttles throttler stat.ready
      then throttled a.gave_up a
      else fetch_and_copy a
]

-- A `sync.Once` before, in and after its function. `closing` is after the new `sync.Once` is set.
pub data Phase : Type 0 where
  idle creating copying renaming publishing closing over : Phase
