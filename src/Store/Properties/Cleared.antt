-- ===== src/Store/Properties/Cleared.antt =====
-- dagstore.go, dagstore_gc.go: what `Start` leaves of the files in the transients directory.
use dagstore.Shared.{
  ℕ, ◌≡◌, refl, sym, ap, ◌∙◌, inl, inr, String, Bool, false, Option, none, some, List, [], ◌∷◌,
  get_elem?, set, arith, Option-cases, ℕ_discrete, get_elem?-set_self, get_elem?-set_ne,
  if◌then◌else◌,
}
use dagstore.Error.{Error, state_not_restored, state_not_recovered}
use dagstore.ShardKey.{Key}
use dagstore.Mount.Upgrader.{transient_path}
use dagstore.Store.Types.{Externals, Shard}
use dagstore.Store.Turn.{index_exists}
use dagstore.Store.System.Defs.{System}
use dagstore.Store.System.Orphans.{
  DirEntry, failed, referenced, is_referenced, clear_orphaned, files_at, clear_orphaned_lem,
  transients_survive,
}
use dagstore.Store.Start.{
  RecoverOnStartPolicy, restore_state, reset, reset_all, start, start_with_files,
}
use dagstore.Store.Properties.Mirrored.Reset.{reset_rest}

module _ {X : Externals} where
  -- A change of a shard that leaves its mount leaves the tracked files.
  referenced-set :
      (heap : List (Shard X)) (p : ℕ) (s t : Shard X) (l : List (Key × ℕ))
      → get_elem? heap p ≡ some s
      → t.mount ≡ s.mount
      → referenced (set heap p t) l ≡ referenced heap l
  unfolding referenced transient_path
  referenced-set heap p s t [] e same = refl
  referenced-set heap p s t ((k, q) ∷ rest) e same = elim (ℕ_discrete p q) [
    | yes here ↦
        let now : get_elem? (set heap p t) q ≡ some t =
          ap (get_elem? (set heap p t)) (sym here) ∙ get_elem?-set_self heap p t s e in
        let was : get_elem? heap q ≡ some s = ap (get_elem? heap) (sym here) ∙ e in
        let path : t.mount.path ≡ s.mount.path = ap (λ u. u.path) same in
        ground (arith, referenced-set heap p s t rest e same)
    | no differ ↦
        let same_there : get_elem? (set heap p t) q ≡ get_elem? heap q =
          get_elem?-set_ne heap p q t differ in
        ground (arith, referenced-set heap p s t rest e same)
  ]

  referenced-reset_all :
      (policy : RecoverOnStartPolicy) (repo : X.Repo) (all l : List (Key × ℕ))
      (heap : List (Shard X)) (to_register to_recover : List ℕ)
      → referenced (reset_all policy repo l (heap, to_register, to_recover)).0 all
        ≡ referenced heap all
  unfolding reset_all
  referenced-reset_all policy repo all [] heap to_register to_recover = refl
  referenced-reset_all policy repo all ((k, p) ∷ rest) heap to_register to_recover =
      elim (Option-cases (get_elem? heap p)) [
        | inl e ↦ rw (e, reset_all) (referenced-reset_all policy repo all rest heap _ _)
        | inr (s, e) ↦
            let has = index_exists (X.repo.stat_full_index repo s.key) in
            let t = (reset policy has s.state s).0 in
            rw (e, reset_all)
              (referenced-reset_all policy repo all rest (set heap p t) _ _
                ∙ referenced-set heap p s t all e (reset_rest policy has s.state s).2)
      ]

module _ {X : Externals} (removed : String → Option Error) (ctx : ℕ) (policy : RecoverOnStartPolicy)
    (alive : String → Bool) (d : System X) (files : List DirEntry) where
  abbrev pub outcome : Option Error → (System X × List DirEntry) × Option Error
  outcome query = start_with_files query removed ctx policy alive (d, files)

  -- A start whose query of the datastore fails returns an error and changes neither the store nor a
  -- file. Else it returns none, every file that a shard of the catalogue tracks as its transient is still
  -- there, and at a path that no shard tracks, the files stay where `os.Remove` fails, and else are gone.
  pub start_clears :
      (e : Error) (i : ℕ) (k : Key) (shard : ℕ) (s : Shard X) (path : String)
      → get_elem? (outcome none).0.0.shards i ≡ some (k, shard)
      → get_elem? (outcome none).0.0.heap shard ≡ some s
      → is_referenced path (referenced (outcome none).0.0.heap (outcome none).0.0.shards) ≡ false
      → (outcome (some e) ≡ ((d, files), some (state_not_restored (state_not_recovered e))))
        × ((outcome none).1 ≡ none)
        × (files_at s.mount.path (outcome none).0.1 ≡ files_at s.mount.path files)
        × (files_at path (outcome none).0.1
            ≡ (if failed (removed path) then files_at path files else 0))
  unfolding start_with_files start
  start_clears e i k shard s path known found free =
      let d' = restore_state alive d.store d in
      let heap = (reset_all policy d'.indices d'.shards (d'.heap, [], [])).0 in
      let same : referenced heap d'.shards ≡ referenced d'.heap d'.shards =
        referenced-reset_all policy d'.indices d'.shards d'.shards d'.heap [] [] in
      let not_tracked : is_referenced path (referenced d'.heap d'.shards) ≡ false =
        ap (is_referenced path) (sym same) ∙ free in
      (
        refl,
        refl,
        ap (λ ps. files_at s.mount.path (clear_orphaned removed ps files)) (sym same)
            ∙ transients_survive removed heap d'.shards i k shard s files known found,
        ground (arith, clear_orphaned_lem removed (referenced d'.heap d'.shards) path files),
      )
