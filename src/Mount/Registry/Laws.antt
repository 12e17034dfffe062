-- ===== src/Mount/Registry/Laws.antt =====
-- mount/registry.go: a registry finds each mount type by its scheme and by its type.
use dagstore.Shared.{
  ◌≡◌, inl, inr, String, none, some, lookup, lookup-insert, string_eq, arith, Option-cases,
  Bool-cases, ◌==◌, insert,
}
use dagstore.Error.{ok}
use dagstore.Mount.Interface.{MountOps, Url}
use dagstore.Mount.Registry.{Registry, new_registry, register, instantiate, represent}

module _ {M : Type 0} (ops : MountOps M) where
  -- The scheme of a type names a template of that type, and the type of a template its scheme.
  pub record IsPaired (r : Registry M) : Type 0 where
    pub by_type :
        (type scheme : String)
        → lookup type r.by_type ≡ some scheme
        → (template : M) × (lookup scheme r.by_scheme ≡ some template)
          × (ops.type_of template ≡ type)
    pub by_scheme :
        (scheme : String) (template : M)
        → lookup scheme r.by_scheme ≡ some template
        → lookup (ops.type_of template) r.by_type ≡ some scheme

  pub new_registry-IsPaired : IsPaired (new_registry {M = M})
  unfolding new_registry lookup
  new_registry-IsPaired = record {
    by_type = λ type scheme e. cc;
    by_scheme = λ scheme template e. cc;
  }

  module _ (scheme : String) (template : M) (r : Registry M)
      (no_scheme : lookup scheme r.by_scheme ≡ none)
      (no_type : lookup (ops.type_of template) r.by_type ≡ none) (v : IsPaired r) where
    added : Registry M
    added = record {
      by_scheme = insert scheme template r.by_scheme;
      by_type = insert (ops.type_of template) scheme r.by_type;
    }

    added-by_scheme :
        (k : String) (m : M)
        → lookup k added.by_scheme ≡ some m
        → lookup (ops.type_of m) added.by_type ≡ some k
    unfolding added
    added-by_scheme k m e = ground (
      arith,
      lookup-insert scheme k template r.by_scheme,
      lookup-insert (ops.type_of template) (ops.type_of m) scheme r.by_type,
      string_eq.beq_iff scheme k,
      string_eq.beq_iff (ops.type_of template) (ops.type_of m),
      v.by_scheme k m,
    )

    added-by_type :
        (type k : String)
        → lookup type added.by_type ≡ some k
        → (m : M) × (lookup k added.by_scheme ≡ some m) × (ops.type_of m ≡ type)
    unfolding added
    added-by_type type k e = elim (Bool-cases (ops.type_of template == type)) [
      | inl same ↦ (
        template,
        ground (
          arith,
          lookup-insert scheme k template r.by_scheme,
          lookup-insert (ops.type_of template) type scheme r.by_type,
          string_eq.beq_iff scheme k,
        ),
        (string_eq.beq_iff (ops.type_of template) type).0 same,
      )
      | inr other ↦
          let (m, found, of_type) =
            v.by_type type k
              (ground (arith, lookup-insert (ops.type_of template) type scheme r.by_type)) in
          (
            m,
            ground (arith, lookup-insert scheme k template r.by_scheme, string_eq.beq_iff scheme k),
            of_type,
          )
    ]

  -- `Register` keeps the two maps of a registry inverse to one another, on its error paths too: each
  -- scheme that is found names a template by whose type the scheme is found again, and the other way
  -- round.
  pub register-IsPaired :
      (scheme : String) (template : M) (r : Registry M)
      → IsPaired r
      → IsPaired (register ops scheme template r).0
  unfolding register added
  register-IsPaired scheme template r v = elim (Option-cases (lookup scheme r.by_scheme)) [
    | inr (m, e) ↦ rw (e, register) v
    | inl no_scheme ↦ elim (Option-cases (lookup (ops.type_of template) r.by_type)) [
      | inr (k, e) ↦ rw (no_scheme, register) (rw (e, register) v)
      | inl no_type ↦
          rw (no_scheme, register)
            (rw (no_type, register)
              (record {
                by_type = added-by_type scheme template r no_scheme no_type v;
                by_scheme = added-by_scheme scheme template r no_scheme no_type v;
              }))
    ]
  ]

  -- A mount that the registry can represent comes back from its URL, if its type reads back what it
  -- writes, whatever template it is read into.
  pub instantiate-represent :
      (m : M) (r : Registry M) (u : Url)
      → IsPaired r
      → ((template : M) (scheme : String)
          → ops.type_of template ≡ ops.type_of m
          → ops.deserialize template (record (ops.serialize m) { scheme = scheme }) ≡ ok m)
      → represent ops m r ≡ ok u
      → instantiate ops u r ≡ ok m
  unfolding instantiate represent
  instantiate-represent m r u v reads_back e =
      elim (Option-cases (lookup (ops.type_of m) r.by_type)) [
        | inl missing ↦ ground arith
        | inr (scheme, found) ↦
            let (template, at_scheme, same_type) = v.by_type (ops.type_of m) scheme found in
            ground (arith, reads_back template scheme same_type)
      ]
