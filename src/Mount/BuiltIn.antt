-- ===== src/Mount/BuiltIn.antt =====
-- mount/bytes.go, mount/file.go, mount/fs.go: the mount types of the library.
pub mod Laws
use dagstore.Shared.{
  ℕ, String, Bool, true, false, ◌||◌, Option, none, some, List, length, if◌then◌else◌, ◌==◌,
  string_eq,
}
use dagstore.Error.{Error, Result, ok, err, invalid_host}
use dagstore.Mount.Interface.{Info, local, Stat, Url, MountOps}

-- The bytes, the path, and a file system with a path in it.
pub data BuiltIn (FS : Type 0) : Type 0 where
  bytes_mount : List ℕ → BuiltIn FS
  file_mount : String → BuiltIn FS
  fs_mount : FS → String → BuiltIn FS

-- What `os.Stat` and `fs.Stat` answer.
pub data FileStat : Type 0 where
  there : (name : String) → (size : ℕ) → FileStat
  missing failing : Error → FileStat

-- `encoding/base64`, `net/url` and `fs.Stat`.
pub record Codecs (FS : Type 0) : Type 0 where
  pub encode : List ℕ → String
  pub decode : String → Result (List ℕ)
  -- The encoded query that sets "path", and what a query has under "path".
  pub set_path : String → String
  pub get_path : String → String
  pub fs_stat : FS → String → FileStat
  pub url_text : Url → String

abbrev pub host_url : String → Url
host_url host = record { scheme = ""; host = host; raw_query = "" }

abbrev pub bytes_info : Info
bytes_info = record {
  kind = local;
  access_sequential = true;
  access_seek = true;
  access_random = true;
}

abbrev pub file_info : Info
file_info = record {
  kind = local;
  access_sequential = true;
  access_seek = true;
  access_random = true;
}

abbrev pub fs_info : Info
fs_info = record {
  kind = local;
  access_sequential = true;
  access_seek = false;
  access_random = false;
}

module _ {FS : Type 0} where
  unfoldable pub type_of : BuiltIn FS → String
  type_of (bytes_mount bytes) = "*mount.BytesMount"
  type_of (file_mount path) = "*mount.FileMount"
  type_of (fs_mount fs path) = "*mount.FSMount"

  unfoldable pub info : BuiltIn FS → Info
  info (bytes_mount bytes) = bytes_info
  info (file_mount path) = file_info
  info (fs_mount fs path) = fs_info

  module _ (codecs : Codecs FS) where
    unfoldable pub fs_url : FileStat → String → Url
    fs_url (there name size) path = record {
      scheme = "";
      host = name;
      raw_query = codecs.set_path path;
    }
    fs_url stat path = host_url "irrecoverable"

    abbrev pub bytes_url : List ℕ → Url
    bytes_url bytes = host_url (codecs.encode bytes)

    abbrev pub file_url : String → Url
    file_url path = host_url path

    unfoldable pub serialize : BuiltIn FS → Url
    unfolding fs_url
    serialize (bytes_mount bytes) = bytes_url bytes
    serialize (file_mount path) = file_url path
    serialize (fs_mount fs path) = fs_url (codecs.fs_stat fs path) path

    abbrev pub bytes_from_url : Url → Result (BuiltIn FS)
    bytes_from_url u = elim (codecs.decode u.host) [
      | err e ↦ err e
      | ok decoded ↦ ok (bytes_mount decoded)
    ]

    abbrev pub file_from_url : Url → Result (BuiltIn FS)
    file_from_url u = if u.host == "" then err invalid_host else ok (file_mount u.host)

    abbrev pub fs_from_url : FS → Url → Result (BuiltIn FS)
    fs_from_url fs u =
        if (u.host == "irrecoverable") || (u.host == "")
        then err invalid_host
        else ok (fs_mount fs (codecs.get_path u.raw_query))

    -- `Deserialize` on a copy of a template.
    unfoldable pub deserialize : BuiltIn FS → Url → Result (BuiltIn FS)
    deserialize (bytes_mount old) u = bytes_from_url u
    deserialize (file_mount old) u = file_from_url u
    deserialize (fs_mount fs old) u = fs_from_url fs u

    abbrev pub built_in : MountOps (BuiltIn FS)
    built_in = record {
      type_of = type_of;
      info = info;
      serialize = serialize;
      deserialize = deserialize;
      url_text = codecs.url_text;
    }

unfoldable pub bytes_stat : List ℕ → Stat
bytes_stat bytes = record { exists = true; size = length bytes; ready = false }

-- A `Size` of no `FileInfo` is a crash, `none`.
unfoldable pub file_stat : FileStat → Option (Result Stat)
file_stat (there name size) = some (ok (record { exists = true; size = size; ready = false }))
file_stat (missing e) = some (err e)
file_stat (failing e) = none

unfoldable pub fs_mount_stat : FileStat → Result Stat
fs_mount_stat (there name size) = ok (record { exists = true; size = size; ready = false })
fs_mount_stat (missing e) = ok (record { exists = false; size = 0; ready = false })
fs_mount_stat (failing e) = err e
