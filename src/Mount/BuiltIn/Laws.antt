-- ===== src/Mount/BuiltIn/Laws.antt =====
-- mount/bytes.go, mount/file.go, mount/fs.go: a mount comes back from its URL.
use dagstore.Shared.{ℕ, String, sym, ◌≡◌, ◌≢◌, List, string_eq, arith}
use mathlib.Core.Path.{subst}
use dagstore.Error.{ok}
use dagstore.Mount.BuiltIn.{
  BuiltIn, bytes_mount, file_mount, fs_mount, FileStat, there, missing, failing, Codecs, serialize,
  deserialize, fs_url,
}

module _ {FS : Type 0} (codecs : Codecs FS) where
  -- A file mount has a path, and the file of a file-system mount can be found, under a name that is
  -- not the one that stands for a failure.
  abbrev pub IsNamed : FileStat → Type 0
  IsNamed (there name size) = (name ≢ "") × (name ≢ "irrecoverable")
  IsNamed (missing e) = ⊥
  IsNamed (failing e) = ⊥

  abbrev pub IsRecoverable : BuiltIn FS → Type 0
  IsRecoverable (bytes_mount bytes) = Unit
  IsRecoverable (file_mount path) = path ≢ ""
  IsRecoverable (fs_mount fs path) = IsNamed (codecs.fs_stat fs path)

  -- Whether a mount can be read into a template: it has its type, and its file system.
  abbrev pub IsTemplate : BuiltIn FS → BuiltIn FS → Type 0
  IsTemplate (bytes_mount old) (bytes_mount bytes) = Unit
  IsTemplate (file_mount old) (file_mount path) = Unit
  IsTemplate (fs_mount base old) (fs_mount fs path) = base ≡ fs
  IsTemplate template m = ⊥

  module _ (decodes : (bytes : List ℕ) → codecs.decode (codecs.encode bytes) ≡ ok bytes)
      (gets : (path : String) → codecs.get_path (codecs.set_path path) ≡ path) where
    fs_url-IsNamed :
        (stat : FileStat) (fs : FS) (old path scheme : String)
        → IsNamed stat
        → deserialize codecs
            (fs_mount fs old)
            (record (fs_url codecs stat path) { scheme = scheme })
          ≡ ok (fs_mount fs path)
    unfolding deserialize fs_url
    fs_url-IsNamed (there name size) fs old path scheme named =
        ground (
          arith,
          gets path,
          string_eq.beq_iff name "",
          string_eq.beq_iff name "irrecoverable",
          named,
        )
    fs_url-IsNamed (missing e) fs old path scheme named = absurd named
    fs_url-IsNamed (failing e) fs old path scheme named = absurd named

    -- A mount comes back from its URL, whatever its scheme, read into a copy of a template of its type
    -- and file system: a bytes mount always, a file mount whose path is not empty, and a mount of a file
    -- system if its file is found under a proper name. This needs that base64 decodes what it encodes,
    -- and that a query has the path that was set in it.
    pub deserialize-serialize :
        (template m : BuiltIn FS) (scheme : String)
        → IsTemplate template m
        → IsRecoverable m
        → deserialize codecs template (record (serialize codecs m) { scheme = scheme }) ≡ ok m
    unfolding deserialize serialize
    deserialize-serialize (bytes_mount old) (bytes_mount bytes) scheme same held =
        ground (arith, decodes bytes)
    deserialize-serialize (file_mount old) (file_mount path) scheme same held =
        ground (arith, string_eq.beq_iff path "", held)
    deserialize-serialize (fs_mount base old) (fs_mount fs path) scheme same held =
        subst
          (λ f.
            deserialize codecs (fs_mount f old)
              (record (fs_url codecs (codecs.fs_stat fs path) path) { scheme = scheme })
            ≡ ok (fs_mount fs path))
          (sym same) (fs_url-IsNamed (codecs.fs_stat fs path) fs old path scheme held)
    deserialize-serialize (bytes_mount old) (file_mount path) scheme same held = absurd same
    deserialize-serialize (bytes_mount old) (fs_mount fs path) scheme same held = absurd same
    deserialize-serialize (file_mount old) (bytes_mount bytes) scheme same held = absurd same
    deserialize-serialize (file_mount old) (fs_mount fs path) scheme same held = absurd same
    deserialize-serialize (fs_mount base old) (bytes_mount bytes) scheme same held = absurd same
    deserialize-serialize (fs_mount base old) (file_mount path) scheme same held = absurd same
