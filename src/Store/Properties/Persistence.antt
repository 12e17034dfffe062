-- ===== src/Store/Properties/Persistence.antt =====
-- What a shard keeps across a restart.
use dagstore.Shared.{
  ◌≡◌, refl, ap, ◌∙◌, inl, inr, Bool, true, false, String, none, some, [], string_eq, arith,
  if◌then◌else◌, ◌==◌,
}
use dagstore.Error.{Error, ok, external, message, Result-cases, ◌>>=◌, or_wrap}
use dagstore.ShardKey.{key_from_string}
use dagstore.Throttle.{Throttler}
use dagstore.Mount.Interface.{MountOps, Url}
use dagstore.Mount.Registry.Laws.{IsPaired, instantiate-represent}
use dagstore.Mount.Registry.{Registry, represent}
use dagstore.Mount.Upgrader.{Os, Upgrader, upgrade}
use dagstore.Store.Types.{Externals, Shard, PersistedShard}
use dagstore.Store.Persist.{marshal, unmarshal, error_text}

upgrade_total :
    {M : Type 0} (os : Os) (ops : MountOps M) (alive : String → Bool) (m : M)
    (throttler : Throttler) (dir key initial : String)
    → (ops.info m).access_sequential ≡ true
    → (u : Upgrader M) × (upgrade os ops alive m throttler dir key initial ≡ ok u)
      × (u.underlying ≡ m)
unfolding upgrade
upgrade_total os ops alive m throttler dir key initial h =
    elim (Result-cases (upgrade os ops alive m throttler dir key initial)) [
      | inr (e, failed) ↦ absurd (ground arith)
      | inl (u, made) ↦ (u, made, ground arith)
    ]

-- The text of a restored error is the text that was written.
restored_text :
    (text : Error → String) (written : String)
    → ((w : String) → text (external w) ≡ w)
    → error_text text (if written == "" then none else some (external written)) ≡ written
restored_text text written reads = ground (arith, reads written, string_eq.beq_iff written "")

-- `url.Parse` reads back what `String` writes of the URL that the registry gives for a shard's mount. This
-- fails for a URL whose host has a slash: `String` escapes it, and `Parse` refuses the escape.
abbrev pub ReadsUrl : {X : Externals} → Registry X.Mount → Shard X → Type 0
ReadsUrl {X} mounts s =
    (u : Url)
    → represent X.mount s.mount.underlying mounts ≡ ok u
    → X.parse_url (X.mount.url_text u) ≡ ok u

module _ {X : Externals} (mounts : Registry X.Mount) (paired : IsPaired X.mount mounts) where
  -- A shard that was written to the datastore comes back after a restart with its key, state and
  -- lazy flag, the same mount, an error with the same text, and no waiters or references. This needs
  -- a registry whose two maps are inverse to one another, and a mount that can be read sequentially,
  -- whose type reads back what it writes, and whose URL comes back from its text.
  pub unmarshal-marshal :
      (throttler : Throttler) (dir : String) (alive : String → Bool) (s : Shard X)
      (ps : PersistedShard)
      → ((template : X.Mount) (scheme : String)
          → X.mount.type_of template ≡ X.mount.type_of s.mount.underlying
          → X.mount.deserialize template
              (record (X.mount.serialize s.mount.underlying) { scheme = scheme })
            ≡ ok s.mount.underlying)
      → (X.mount.info s.mount.underlying).access_sequential ≡ true
      → ReadsUrl mounts s
      → marshal mounts s ≡ ok ps
      → (s' : Shard X) × (unmarshal mounts throttler dir alive ps ≡ ok s')
        × (s'.key ≡ s.key)
        × (s'.state ≡ s.state)
        × (s'.lazy ≡ s.lazy)
        × (s'.mount.underlying ≡ s.mount.underlying)
        × (error_text (message X.decimal) s'.err ≡ error_text (message X.decimal) s.err)
        × (s'.w_acquire ≡ [])
        × (s'.refs ≡ 0)
  unfolding marshal unmarshal message
  unmarshal-marshal throttler dir alive s ps reads_back sequential reads_url e =
      elim (Result-cases (represent X.mount s.mount.underlying mounts)) [
        | inr (x, failed) ↦ absurd (ground arith)
        | inl (u, represented) ↦
            let revived =
              instantiate-represent X.mount s.mount.underlying mounts u paired reads_back
                represented in
            let (up, made, same) =
              upgrade_total X.os X.mount alive s.mount.underlying throttler dir ps.key
                ps.transient_path sequential in
            let s' : Shard X = record {
              key = key_from_string ps.key;
              mount = up;
              lazy = ps.lazy;
              state = ps.state;
              err = if ps.error == "" then none else some (external ps.error);
              recover_on_next_acquire = false;
              w_register = none;
              w_recover = none;
              w_acquire = [];
              w_destroy = none;
              refs = 0;
            } in
            let url : ps.url ≡ X.mount.url_text u = ground arith in
            let parsed = ap X.parse_url url ∙ reads_url u represented in
            let error : ps.error ≡ error_text (message X.decimal) s.err = ground arith in
            (
              s',
              rw (parsed, ◌>>=◌, or_wrap)
                  (rw (revived, ◌>>=◌, or_wrap) (rw (made, ◌>>=◌, or_wrap) refl)),
              ground arith,
              ground arith,
              ground arith,
              same,
              restored_text (message X.decimal) ps.error (λ w. refl) ∙ error,
              refl,
              refl,
            )
      ]
