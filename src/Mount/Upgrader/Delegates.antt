-- ===== src/Mount/Upgrader/Delegates.antt =====
-- mount/upgrader.go: what an upgraded mount says of itself, most of it in the words of the underlying one.
use dagstore.Shared.{ℕ, String, true, false, Option, none, some, if◌then◌else◌, ◌==◌, string_eq}
use dagstore.Error.{Result, ok, err}
use dagstore.Mount.Interface.{Info, local, Stat, Url, MountOps}
use dagstore.Mount.Upgrader.{Upgrader}

module _ {M : Type 0} where
  unfoldable pub upgraded_info : Upgrader M → Info
  upgraded_info u = record {
    kind = local;
    access_sequential = true;
    access_seek = true;
    access_random = true;
  }

  -- `size` is what `os.Stat` finds at a path; `stat` is what the underlying mount answers.
  unfoldable pub upgraded_stat :
      (size : String → Option ℕ) → (stat : M → Result Stat) → Upgrader M → Result Stat
  upgraded_stat size stat u = if u.path == "" then stat u.underlying else elim (size u.path) [
    | some n ↦ ok (record { exists = true; size = n; ready = false })
    | none ↦ stat u.underlying
  ]

  unfoldable pub underlying_of : Upgrader M → M
  underlying_of u = u.underlying

  module _ (ops : MountOps M) where
    unfoldable pub upgraded_url : Upgrader M → Url
    upgraded_url u = ops.serialize u.underlying

    unfoldable pub upgraded_from_url : Upgrader M → Url → Result (Upgrader M)
    upgraded_from_url u url = elim (ops.deserialize u.underlying url) [
      | err e ↦ err e
      | ok m ↦ ok (record u { underlying = m })
    ]
