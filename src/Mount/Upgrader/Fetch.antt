-- ===== src/Mount/Upgrader/Fetch.antt =====
-- mount/upgrader.go: concurrent calls of `Fetch` on one `Upgrader`, and what else can happen to it.
pub mod Once
pub mod Content
pub mod Writer
pub mod Reader
pub mod Faithful
pub mod Failure
pub mod Numbered
pub mod Ending
pub mod Returns
use dagstore.Shared.{
  ℕ, suc, String, Bool, true, false, Option, none, some, List, [], ◌∷◌, ◌++◌, length, get_elem?,
  set, lookup, insert, erase, if◌then◌else◌, ◌==◌, string_eq,
}
use dagstore.Error.{Error, Result, ok, err, fetch_failed, file_missing}
use dagstore.Mount.Upgrader.{Os, Upgrader, delete_transient}
use dagstore.Mount.Upgrader.Refetch.{
  Bytes, Files, Answers, remove, refetch, Phase, idle, creating, copying, renaming, publishing,
  closing, over,
}

-- A call of `Fetch`: before it, at `once.Do` of a `sync.Once`, after it, and done.
pub data Call : Type 0 where
  starting : Call
  at_once : ℕ → Call
  finishing : Call
  returned : Result Bytes → Call

-- An upgrader with the `sync.Once`s that it had, the one that it has, and the calls under way. A
-- `sync.Once` is known by its number: the current one comes after the older ones.
pub record Fetching (M : Type 0) : Type 0 where
  pub upgrader : Upgrader M
  pub older : List Phase
  pub current : Phase
  pub once_err : Option Error
  pub files : Files
  pub calls : List Call

pub data Event : Type 0 where
  calls : Event
  -- A step of the call, or of the function of the `sync.Once`, at an index.
  proceeds refetches : ℕ → Answers → Event
  -- `DeleteTransient`, and a file that somebody else removes.
  deletes : (removed : Option Error) → Event
  vanishes : String → Event

-- `os.Open`
abbrev pub open_file : (opened : Option Error) → String → Files → Result Bytes
open_file (some e) path files = err e
open_file none path files = elim (lookup path files) [ none ↦ err file_missing | some b ↦ ok b ]

-- Bytes reach a file that was unlinked, but not the directory.
abbrev pub write : String → Bytes → Files → Files
write path bytes files = elim (lookup path files) [
  | none ↦ files
  | some _ ↦ insert path bytes files
]

abbrev pub rename_file : (failed : Option Error) → String → String → Files → Files
rename_file (some e) from to files = files
rename_file none from to files = elim (lookup from files) [
  | none ↦ files
  | some b ↦ erase from (insert to b files)
]

-- An older one has set the new `sync.Once`, and only returns.
abbrev pub close_step : Phase → Phase
close_step closing = over
close_step phase = phase

module _ {M : Type 0} where
  -- After `os.Create`.
  abbrev pub created : (failed : Option Error) → Fetching M → Fetching M
  created (some e) f = record f { once_err = some e; current = over }
  created none f = record f {
    once_err = none;
    current = copying;
    files = insert f.upgrader.path_partial [] f.files;
  }

  -- After `refetch`, of the bytes that it wrote and its error.
  abbrev pub copied : Answers → Bytes × Option Error → Fetching M → Fetching M
  copied a (bytes, some e) f = record f {
    once_err = some e;
    current = over;
    files = remove a.removed f.upgrader.path_partial (write f.upgrader.path_partial bytes f.files);
  }
  copied a (bytes, none) f = record f {
    once_err = none;
    current = renaming;
    files = write f.upgrader.path_partial bytes f.files;
  }

  -- The function of the current `sync.Once`, by its next step.
  unfoldable pub refetch_step : Answers → Phase → Fetching M → Fetching M
  refetch_step a creating f = created a.create f
  refetch_step a copying f = copied a (refetch f.upgrader.throttler a) f
  refetch_step a renaming f = record f {
    current = publishing;
    files = rename_file a.rename f.upgrader.path_partial f.upgrader.path_complete f.files;
  }
  refetch_step a publishing f = record f {
    upgrader = record (f.upgrader) { path = f.upgrader.path_complete; ready = true };
    older = f.older ++ closing ∷ [];
    current = idle;
  }
  refetch_step a phase f = f

  -- The phase of a `sync.Once` by its number.
  abbrev pub phase_of : ℕ → Fetching M → Phase
  phase_of n f = elim (get_elem? f.older n) [ none ↦ f.current | some phase ↦ phase ]

  unfoldable pub on_refetches : ℕ → Answers → Fetching M → Fetching M
  unfolding refetch_step
  on_refetches n a f = elim (get_elem? f.older n) [
    | none ↦ refetch_step a f.current f
    | some phase ↦ record f { older = set f.older n (close_step phase) }
  ]

  -- `Do`: the first call starts the function, and the others wait until it is over.
  abbrev pub do_once : Phase → ℕ → Fetching M → Fetching M × Call
  do_once idle n f = (record f { current = creating }, at_once n)
  do_once over n f = (f, finishing)
  do_once phase n f = (f, at_once n)

  -- The part of `Fetch` under the lock: a transient that is ready is opened, if its file is there.
  abbrev pub look :
      Answers → (ready : Bool) → (there : Option Bytes) → Fetching M → Fetching M × Call
  look a false there f = (f, at_once (length f.older))
  look a true (some _) f = (f, returned (open_file a.opened f.upgrader.path f.files))
  look a true none f = (
    record f {
      upgrader = record (f.upgrader) { ready = false };
      files = remove a.removed f.upgrader.path f.files;
    },
    at_once (length f.older),
  )

  abbrev pub begun : Answers → (passthrough : Bool) → Fetching M → Fetching M × Call
  begun a true f = (f, returned a.source)
  begun a false f = look a f.upgrader.ready (lookup f.upgrader.path f.files) f

  -- After `Do`, of what `onceErr` is then.
  abbrev pub finished : Answers → (once_err : Option Error) → Fetching M → Fetching M × Call
  finished a (some e) f = (f, returned (err (fetch_failed e)))
  finished a none f = (f, returned (open_file a.opened f.upgrader.path_complete f.files))

  unfoldable pub fetch_step : Answers → Call → Fetching M → Fetching M × Call
  fetch_step a starting f = begun a f.upgrader.passthrough f
  fetch_step a (at_once n) f = do_once (phase_of n f) n f
  fetch_step a finishing f = finished a f.once_err f
  fetch_step a (returned r) f = (f, returned r)

  unfoldable pub on_proceeds : ℕ → Answers → Fetching M → Fetching M
  unfolding fetch_step
  on_proceeds i a f = elim (get_elem? f.calls i) [
    | none ↦ f
    | some c ↦ let (f', c') = fetch_step a c f in record f' { calls = set f'.calls i c' }
  ]

  unfoldable pub new_fetching : Upgrader M → Files → Fetching M
  new_fetching u files = record {
    upgrader = u;
    older = [];
    current = idle;
    once_err = none;
    files = files;
    calls = [];
  }

  module _ (os : Os) where
    -- `removed` of `DeleteTransient` is what `os.Remove` answers if it is called.
    unfoldable pub on_deletes : Option Error → Fetching M → Fetching M
    unfolding delete_transient
    on_deletes removed f =
        let u = (delete_transient os removed f.upgrader).0 in
        record f {
          upgrader = u;
          files =
              if u.path == f.upgrader.path then f.files else remove removed f.upgrader.path f.files;
        }

    unfoldable pub fetching_step : Event → Fetching M → Fetching M
    unfolding on_refetches on_proceeds on_deletes
    fetching_step calls f = record f { calls = f.calls ++ starting ∷ [] }
    fetching_step (proceeds i a) f = on_proceeds i a f
    fetching_step (refetches n a) f = on_refetches n a f
    fetching_step (deletes removed) f = on_deletes removed f
    fetching_step (vanishes path) f = record f { files = erase path f.files }

    unfoldable pub fetching_run : List Event → Fetching M → Fetching M
    unfolding fetching_step
    fetching_run [] f = f
    fetching_run (e ∷ es) f = fetching_run es (fetching_step e f)
