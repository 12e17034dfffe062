-- ===== src/Mount/Registry.antt =====
-- mount/registry.go: `Registry` and its operations. The lock makes each of them one step.
pub mod Laws
use dagstore.Shared.{String, Option, none, some, List, [], lookup, insert, string_eq}
use dagstore.Error.{
  Error, Result, ok, err, scheme_registered, type_registered, unrecognized_scheme,
  unrecognized_type, not_instantiated,
}
use dagstore.Mount.Interface.{MountOps, Url}

pub record Registry (M : Type 0) : Type 0 where
  pub by_scheme : List (String × M)
  pub by_type : List (String × String)

module _ {M : Type 0} where
  unfoldable pub new_registry : Registry M
  new_registry = record { by_scheme = []; by_type = [] }

module _ {M : Type 0} (ops : MountOps M) where
  open ops use {type_of, serialize, deserialize, url_text}

  -- The registry after the call, and the error that it returns.
  unfoldable pub register : String → M → Registry M → Registry M × Option Error
  register scheme template r = elim (lookup scheme r.by_scheme) [
    | some _ ↦ (r, some (scheme_registered scheme))
    | none ↦ elim (lookup (type_of template) r.by_type) [
      | some _ ↦ (r, some (type_registered (type_of template)))
      | none ↦ (
        record {
          by_scheme = insert scheme template r.by_scheme;
          by_type = insert (type_of template) scheme r.by_type;
        },
        none,
      )
    ]
  ]

  -- `clone` copies the template, so the copy is the same value.
  unfoldable pub instantiate : Url → Registry M → Result M
  instantiate u r = elim (lookup u.scheme r.by_scheme) [
    | none ↦ err (unrecognized_scheme u.scheme)
    | some template ↦ elim (deserialize template u) [
      | ok copy ↦ ok copy
      | err e ↦ err (not_instantiated (url_text u) (type_of template) e)
    ]
  ]

  -- The mount under an upgrader is what the callers pass.
  unfoldable pub represent : M → Registry M → Result Url
  represent mount r = elim (lookup (type_of mount) r.by_type) [
    | none ↦ err (unrecognized_type (type_of mount))
    | some scheme ↦ ok (record (serialize mount) { scheme = scheme })
  ]
