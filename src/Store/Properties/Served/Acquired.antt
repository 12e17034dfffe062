-- ===== src/Store/Properties/Served/Acquired.antt =====
-- dagstore_control.go, dagstore_async.go: an acquisition hands over an accessor.
use dagstore.Shared.{
  ℕ, ◌≡◌, ap, ◌∙◌, false, none, some, List, [], ◌∷◌, ◌++◌, get_elem?, set, lookup,
  get_elem?-set_self,
}
use dagstore.Error.{ok}
use dagstore.ShardKey.{Key, key_eq}
use dagstore.Store.Types.{Externals, Shard, Dispatch, Accessor}
use dagstore.Store.Async.{Send, to_results, acquiring, indexing, sending, acquire_indexed}
use dagstore.Store.System.Defs.{System}
use dagstore.Store.System.Loop.{Answers}
use dagstore.Store.System.Steps.{
  Transient, with_transient, goes_on, sent, fetches, indexes, sends, delivers,
}
use dagstore.Store.Properties.Served.{
  Reaches, here, next, sends_lem, fetches_lem, indexes_lem, delivers_lem,
}
use dagstore.Store.Properties.Served.Begun.{asking, IsReady, acquired, begins}

module _ {X : Externals} (a : Answers) (ctx channel : ℕ) (tr : Transient) (reader : X.Reader)
    (idx : X.Index) (shard : ℕ) where
  abbrev pub handed : Accessor X
  handed = record { reader = reader; idx = idx; shard = shard }

  abbrev delivery : Key → Dispatch X
  delivery k = record {
    w = record (asking ctx channel) { notify_dead = some shard };
    res = record { key = k; error = none; accessor = some handed };
  }

  -- The state after the caller has its accessor.
  pub record HasAccessor (d : System X) (s : Shard X) (d' : System X) : Type 0 where
    pub accessors : d'.accessors ≡ d.accessors ++ handed ∷ []
    pub at_shard : get_elem? d'.heap shard ≡ some (with_transient tr (acquired s))
    pub shards : d'.shards ≡ d.shards

  delivered :
      (d d0 : System X) (s : Shard X)
      → d.dispatch_results_ch ≡ delivery s.key ∷ []
      → d.accessors ≡ d0.accessors
      → get_elem? d.heap shard ≡ some (with_transient tr (acquired s))
      → d.shards ≡ d0.shards
      → Reaches (HasAccessor d0 s) d
  delivered d d0 s queued same at_shard shards =
      next (HasAccessor d0 s) (delivers false) d _ (delivers_lem (delivery s.key) [] d queued) (
        here (HasAccessor d0 s) _ (record {
          accessors = ap (λ l. l ++ handed ∷ []) same;
          at_shard = at_shard;
          shards = shards;
        }))

  -- From the goroutine of the acquisition on.
  served :
      (d d0 : System X) (s : Shard X) (i : ℕ)
      → get_elem? d.goroutines i ≡ some (acquiring (asking ctx channel) shard)
      → get_elem? d.heap shard ≡ some (acquired s)
      → X.repo.get_full_index d.indices s.key ≡ ok idx
      → d.dispatch_results_ch ≡ []
      → d.accessors ≡ d0.accessors
      → d.shards ≡ d0.shards
      → Reaches (HasAccessor d0 s) d
  unfolding acquire_indexed
  served d d0 s i there found read quiet_ch same shards =
      let P = HasAccessor d0 s in
      let now = with_transient tr (acquired s) in
      let w = asking ctx channel in
      let d1 : System X =
        goes_on i (indexing w shard reader) (record d { heap = set d.heap shard now }) in
      let at1 : get_elem? d1.heap shard ≡ some now =
        get_elem?-set_self d.heap shard now (acquired s) found in
      let g1 : get_elem? d1.goroutines i ≡ some (indexing w shard reader) =
        get_elem?-set_self d.goroutines i (indexing w shard reader) (acquiring w shard) there in
      let out : List (Send X) = to_results (delivery s.key) ∷ [] in
      let d2 : System X = goes_on i (sending out) d1 in
      let g2 : get_elem? d2.goroutines i ≡ some (sending out) =
        get_elem?-set_self d1.goroutines i (sending out) (indexing w shard reader) g1 in
      let d3 : System X = goes_on i (sending []) (sent (to_results (delivery s.key)) d2) in
      next P (fetches i tr (ok reader) none) d d1
        (fetches_lem i tr reader w shard d (acquired s) there found)
        (next P (indexes i none) d1 d2 (indexes_lem i w shard reader d1 now (ok idx) g1 at1 read) (
          next P (sends i) d2 d3 (sends_lem i (to_results (delivery s.key)) [] d2 g2)
            (delivered d3 d0 s (ap (λ l. l ++ delivery s.key ∷ []) quiet_ch) same at1 shards)))

  -- If the shard of a key is available or serving, its index is in the repository, and nothing is under
  -- way in the channels, a caller of `AcquireShard` can get an accessor.
  pub acquire_hands_over :
      (d : System X) (s : Shard X) (key : Key)
      → lookup key d.shards ≡ some shard
      → get_elem? d.heap shard ≡ some s
      → IsReady s
      → X.repo.get_full_index d.indices s.key ≡ ok idx
      → d.internal_ch ≡ []
      → d.external_ch ≡ []
      → d.dispatch_results_ch ≡ []
      → Reaches (HasAccessor d s) d
  acquire_hands_over d s key known found ready read internal external results =
      begins a ctx channel shard (HasAccessor d s) d s key known found ready internal external
        (λ d' i v.
          served d' d s i v.goroutine v.at_shard
            (ap (λ r. X.repo.get_full_index r s.key) v.indices ∙ read) (v.results ∙ results)
            v.accessors v.shards)
