-- ===== src/Mount/Readers.antt =====
-- mount/bytes.go, mount/file.go, mount/fs.go, mount/counting.go, mount/mount.go: the readers that `Fetch`
-- returns.
pub mod Access
use dagstore.Shared.{ℕ, ◌+◌, ◌%◌, ◌^◌, String, Option, none, some, List, []}
use dagstore.Error.{Error, Result, ok, err, seek_unsupported, random_access_unsupported}
use dagstore.Mount.BuiltIn.{BuiltIn, bytes_mount, file_mount, fs_mount}

abbrev pub Bytes : Type 0
Bytes = List ℕ

-- A `Reader`, with the methods that its file has: `ReadAt` from an offset, and `Seek` to one.
pub record Reader : Type 0 where
  pub content : Bytes
  pub reader_at : Option (ℕ → Result Bytes)
  pub seeker : Option (ℕ → Result ℕ)

-- `bytes.NewReader`, `os.Open`, and `Open` of an `fs.FS`.
pub record Files (FS : Type 0) : Type 0 where
  pub bytes_reader : Bytes → Reader
  pub os_open : String → Result Reader
  pub fs_open : FS → String → Result Reader

-- `fsReader`
unfoldable pub read_at : Reader → (off : ℕ) → Result Bytes
read_at r off = elim r.reader_at [ none ↦ err random_access_unsupported | some f ↦ f off ]

unfoldable pub seek : Reader → (off : ℕ) → Result ℕ
seek r off = elim r.seeker [ none ↦ err seek_unsupported | some f ↦ f off ]

module _ {FS : Type 0} (files : Files FS) where
  abbrev pub fs_fetch : (ctx_err : Option Error) → FS → String → Result Reader
  fs_fetch (some e) fs path = err e
  fs_fetch none fs path = files.fs_open fs path

  -- `ctx_err` is the error of a context that has ended, which only `FSMount` looks at.
  unfoldable pub fetch : (ctx_err : Option Error) → BuiltIn FS → Result Reader
  fetch ctx_err (bytes_mount bytes) = ok (files.bytes_reader bytes)
  fetch ctx_err (file_mount path) = files.os_open path
  fetch ctx_err (fs_mount fs path) = fs_fetch ctx_err fs path

  -- `Close` of the mount.
  unfoldable pub close_mount : BuiltIn FS → BuiltIn FS
  close_mount (bytes_mount bytes) = bytes_mount []
  close_mount m = m

-- `Counting`: the mount and the number of fetches, an int32 as unsigned.
pub record Counting (M : Type 0) : Type 0 where
  pub mount : M
  pub n : ℕ

module _ {M : Type 0} where
  unfoldable pub counted_fetch : (M → Result Reader) → Counting M → Counting M × Result Reader
  counted_fetch fetches c = (record c { n = (c.n + 1) % 2 ^ 32 }, fetches c.mount)

  unfoldable pub count : Counting M → ℕ
  count c = c.n
