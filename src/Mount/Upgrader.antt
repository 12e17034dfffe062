-- ===== src/Mount/Upgrader.antt =====
-- mount/upgrader.go: the state of an `Upgrader`, its constructor and the calls of the event loop.
pub mod Refetch
pub mod Fetch
pub mod Delegates
mod Tests
use dagstore.Shared.{
  String, ◌<>◌, Bool, true, false, not, ◌&&◌, Option, none, if◌then◌else◌, ◌==◌, string_eq,
}
use dagstore.Error.{Error, Result, ok, err, no_sequential_access}
use dagstore.Mount.Interface.{MountOps}
use dagstore.Throttle.{Throttler}

-- The functions of `os` and `path/filepath` whose answer does not change while the program runs.
pub record Os : Type 0 where
  pub temp_dir : String
  pub join : String → String → String
  -- Whether `filepath.Rel(base, target)` is without error.
  pub has_rel : String → String → Bool

pub record Upgrader (M : Type 0) : Type 0 where
  pub rootdir : String
  pub underlying : M
  pub throttler : Throttler
  pub key : String
  pub passthrough : Bool
  pub path_complete : String
  pub path_partial : String
  pub path : String
  pub ready : Bool

module _ {M : Type 0} (os : Os) where
  -- `alive` is whether `os.Stat` finds the file.
  unfoldable pub upgrade :
      MountOps M
      → (alive : String → Bool) → M
      → Throttler
      → (rootdir key initial : String) → Result (Upgrader M)
  upgrade ops alive underlying throttler rootdir key initial =
      let info = ops.info underlying in
      let u : Upgrader M = record {
        rootdir = if rootdir == "" then os.temp_dir else rootdir;
        underlying = underlying;
        throttler = throttler;
        key = key;
        passthrough = false;
        path_complete = os.join rootdir ("transient-" <> key <> ".complete");
        path_partial = os.join rootdir ("transient-" <> key <> ".partial");
        path = "";
        ready = false;
      } in
      if not info.access_sequential
      then err no_sequential_access
      else if info.access_seek && info.access_random
      then ok (record u { passthrough = true })
      else if not (initial == "") && alive initial
      then ok (record u { path = initial; ready = true })
      else ok u

  -- `removed` is what `os.Remove` answers.
  unfoldable pub delete_transient :
      (removed : Option Error) → Upgrader M → Upgrader M × Option Error
  delete_transient removed u =
      if u.path == ""
      then (u, none)
      else if not (os.has_rel u.rootdir u.path)
      then (u, none)
      else (record u { path = ""; ready = false }, removed)

unfoldable pub transient_path : {M : Type 0} → Upgrader M → String
transient_path u = u.path
