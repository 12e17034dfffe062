-- ===== src/Mount/Readers/Access.antt =====
-- mount/upgrader.go: a mount that the upgrader passes through has readers with every access.
use dagstore.Shared.{◌≡◌, ◌≢◌, sym, ◌∙◌, String, Bool, true, ◌&&◌, Option, none, string_eq, arith}
use dagstore.Error.{Error, ok}
use mathlib.Core.Path.{subst}
use dagstore.Throttle.{Throttler}
use dagstore.Mount.BuiltIn.{BuiltIn, bytes_mount, file_mount, fs_mount, Codecs, built_in, info}
use dagstore.Mount.Upgrader.{Os, Upgrader, upgrade}
use dagstore.Mount.Readers.{Bytes, Reader, Files, fetch}

-- A reader that can read at an offset and seek.
pub record IsFull (r : Reader) : Type 0 where
  pub random : r.reader_at ≢ none
  pub seekable : r.seeker ≢ none

pub same_reader : (a b : Reader) → ok a ≡ ok b → a ≡ b
same_reader a b e = ground (arith, e)

module _ {FS : Type 0} (codecs : Codecs FS) (files : Files FS) where
  upgrade_keeps :
      (os : Os) (alive : String → Bool) (m : BuiltIn FS) (throttler : Throttler)
      (rootdir key initial : String) (u : Upgrader (BuiltIn FS))
      → upgrade os (built_in codecs) alive m throttler rootdir key initial ≡ ok u
      → (m ≡ u.underlying) × (u.passthrough ≡ ((info m).access_seek && (info m).access_random))
  unfolding upgrade info
  upgrade_keeps os alive (bytes_mount bytes) throttler rootdir key initial u e = ground arith
  upgrade_keeps os alive (file_mount path) throttler rootdir key initial u e = ground arith
  upgrade_keeps os alive (fs_mount fs path) throttler rootdir key initial u e = ground arith

  module _ (bytes_full : (bytes : Bytes) → IsFull (files.bytes_reader bytes))
      (os_full : (path : String) (r : Reader) → files.os_open path ≡ ok r → IsFull r) where
    fetch-IsFull :
        (ctx_err : Option Error) (m : BuiltIn FS) (r : Reader)
        → (info m).access_seek && (info m).access_random ≡ true
        → fetch files ctx_err m ≡ ok r
        → IsFull r
    unfolding info fetch
    fetch-IsFull ctx_err (bytes_mount bytes) r able e =
        subst IsFull (same_reader (files.bytes_reader bytes) r e) (bytes_full bytes)
    fetch-IsFull ctx_err (file_mount path) r able e = os_full path r e
    fetch-IsFull ctx_err (fs_mount fs path) r able e = cc

  -- If `Upgrade` decides to pass through to a mount of the library, the readers that the mount fetches can
  -- read at an offset and seek; this is so as readers of bytes and files of the operating system can.
  pub passthrough-IsFull :
      ((bytes : Bytes) → IsFull (files.bytes_reader bytes))
      → ((path : String) (r : Reader) → files.os_open path ≡ ok r → IsFull r)
      → (os : Os) (alive : String → Bool) (m : BuiltIn FS) (throttler : Throttler)
        (rootdir key initial : String) (u : Upgrader (BuiltIn FS)) (ctx_err : Option Error)
        (r : Reader)
      → upgrade os (built_in codecs) alive m throttler rootdir key initial ≡ ok u
      → u.passthrough ≡ true
      → fetch files ctx_err u.underlying ≡ ok r
      → IsFull r
  passthrough-IsFull bytes_full os_full os alive m throttler rootdir key initial u ctx_err r made
        passes fetched =
      let (same, able) = upgrade_keeps os alive m throttler rootdir key initial u made in
      fetch-IsFull bytes_full os_full ctx_err m r (sym able ∙ passes) (rw same fetched)
