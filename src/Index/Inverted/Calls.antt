-- ===== src/Index/Inverted/Calls.antt =====
-- index/inverted_index_impl.go: what any calls of `AddMultihashesForShard` leave to
-- `GetShardsForMultihash`.
use mathlib.Core.Quot
use mathlib.Core.Quot.{Quot, Quot-set}
use mathlib.Core.Path.{subst}
use dagstore.Shared.{
  inl, inr, true, ◌⊎◌, Option-cases, ℕ, ◌+◌, ◌≤◌, String, ◌≡◌, refl, sym, ap, ◌∙◌, false, Option,
  none, some, List, [], ◌∷◌, ◌++◌, lookup, if◌then◌else◌, ◌==◌, ◌||◌, string_eq, arith, Bool-cases,
  All,
}
use dagstore.Error.{Error, Result, ok, err}
use dagstore.ShardKey.{Key, key_eq}
use dagstore.Index.Inverted.{
  Datastore, Faults, has, add_multihashes_for_shard, get_shards_for_multihash,
}
use dagstore.Index.Inverted.Laws.{
  joined, mentions, add_multihashes_for_shard_lem, add_multihashes_for_shard_bounded,
  failed_addition_writes_nothing, is_late, early_failure_writes_nothing,
}

-- A call of `AddMultihashesForShard`, with what the datastore answers in it.
pub record Addition : Type 0 where
  pub mhs : List String
  pub shard : Key
  pub faults : Faults

-- Shards without their order and their number.
abbrev pub SameShards : List Key → List Key → Type 0
SameShards xs ys = (s : Key) → has xs s ≡ has ys s

abbrev pub ShardSet : Type 0
ShardSet = Quot SameShards

abbrev pub set_of : List Key → ShardSet
set_of = Quot.mk

abbrev pub times : Key → List Key → ℕ
times s [] = 0
times s (t ∷ ts) = (if t == s then 1 else 0) + times s ts

abbrev pub entry : Option (List Key) → List Key
entry none = []
entry (some es) = es

abbrev pub listed : Result (List Key) → List Key
listed (ok es) = es
listed (err e) = []

has-append : (xs : List Key) (s t : Key) → has (xs ++ s ∷ []) t ≡ (has xs t || s == t)
unfolding has
has-append [] s t = ground arith
has-append (x ∷ xs) s t = ground (arith, has-append xs s t)

has-joined : (s t : Key) (o : Option (List Key)) → has (joined s o) t ≡ (has (entry o) t || s == t)
unfolding has
has-joined s t none = ground arith
has-joined s t (some es) =
    ground (arith, has-append es s t, Bool-cases (has es s), key_eq.beq_iff s t)

times_absent : (es : List Key) (s : Key) → has es s ≡ false → times s es ≡ 0
unfolding has
times_absent [] s h = refl
times_absent (e ∷ es) s h = ground (arith, times_absent es s)

times-append :
    (xs : List Key) (s t : Key) → times t (xs ++ s ∷ []) ≡ times t xs + (if s == t then 1 else 0)
times-append [] s t = ground arith
times-append (x ∷ xs) s t = ground (arith, times-append xs s t)

times-joined :
    (s t : Key) (o : Option (List Key)) → times t (entry o) ≤ 1 → times t (joined s o) ≤ 1
unfolding has
times-joined s t none h = ground arith
times-joined s t (some es) h =
    ground
      (arith, times-append es s t, Bool-cases (has es s), times_absent es s, key_eq.beq_iff s t)

module _ (new_key mh_text : String → String) where
  -- The shards of the calls that mention the key, in the order of the calls.
  abbrev pub adders : (k : String) → List Addition → List Key
  adders k [] = []
  adders k (a ∷ rest) =
      let more = adders k rest in
      if mentions new_key mh_text a.faults k a.mhs then a.shard ∷ more else more

  abbrev pub kept : Option Error → Addition → List Addition → List Addition
  kept none a done = a ∷ done
  kept (some e) a done = done

  -- Calls one after the other: the datastore after them, and those that returned no error.
  unfoldable pub add_calls : List Addition → Datastore → Datastore × List Addition
  add_calls [] ds = (ds, [])
  add_calls (a ∷ rest) ds =
      let (ds', e) = add_multihashes_for_shard new_key mh_text a.faults a.mhs a.shard ds in
      let (ds'', done) = add_calls rest ds' in (ds'', kept e a done)

  abbrev perhaps : Option Error → Addition → List Addition → List Addition
  perhaps none a l = a ∷ l
  perhaps (some e) a l = if is_late e then a ∷ l else l

  -- The calls but for those that fail before they commit their batch.
  unfoldable pub committing : List Addition → Datastore → List Addition
  committing [] ds = []
  committing (a ∷ rest) ds =
      let (ds', e) = add_multihashes_for_shard new_key mh_text a.faults a.mhs a.shard ds in
      perhaps e a (committing rest ds')

  -- One call: an entry that it leaves, by whether it succeeded.
  module _ (k : String) (a : Addition) (ds ds' : Datastore) (commit : a.faults.commit ≡ none)
      (sync : a.faults.sync ≡ none) where
    entry_after : Option Error → Option (List Key) → Option (List Key)
    entry_after none o =
        if mentions new_key mh_text a.faults k a.mhs then some (joined a.shard o) else o
    entry_after (some e) o = o

    add_one :
        (e : Option Error)
        → add_multihashes_for_shard new_key mh_text a.faults a.mhs a.shard ds ≡ (ds', e)
        → lookup k ds' ≡ entry_after e (lookup k ds)
    unfolding entry_after
    add_one none h = add_multihashes_for_shard_lem new_key mh_text a.faults a.mhs a.shard ds ds' h k
    add_one (some e) h = ap (lookup k) (
        sym (ap (λ p. p.0) h)
        ∙ failed_addition_writes_nothing new_key mh_text a.faults a.mhs a.shard ds commit sync e
            (ap (λ p. p.1) h))

    has-entry_after :
        (t : Key) (e : Option Error) (o : Option (List Key)) (done : List Addition)
        → (has (entry (entry_after e o)) t || has (adders k done) t)
          ≡ (has (entry o) t || has (adders k (kept e a done)) t)
    unfolding entry_after has
    has-entry_after t none o done =
        ground
          (arith, has-joined a.shard t o, Bool-cases (mentions new_key mh_text a.faults k a.mhs))
    has-entry_after t (some e) o done = refl

    times-entry_after :
        (t : Key) (e : Option Error) (o : Option (List Key))
        → times t (entry o) ≤ 1
        → times t (entry (entry_after e o)) ≤ 1
    unfolding entry_after
    times-entry_after t none o h =
        ground (
          arith,
          times-joined a.shard t o h,
          Bool-cases (mentions new_key mh_text a.faults k a.mhs),
        )
    times-entry_after t (some e) o h = h

  module _ (k : String) (t : Key) where
    -- The entry after the calls has the shards that it had and those that were added, each once.
    entry-add_calls :
        (l : List Addition) (ds : Datastore)
        → All (λ a. (a.faults.commit ≡ none) × (a.faults.sync ≡ none)) l
        → times t (entry (lookup k ds)) ≤ 1
        → (has (entry (lookup k (add_calls l ds).0)) t
            ≡ (has (entry (lookup k ds)) t || has (adders k (add_calls l ds).1) t))
          × (times t (entry (lookup k (add_calls l ds).0)) ≤ 1)
    unfolding add_calls has
    entry-add_calls [] ds v h = (ground arith, h)
    entry-add_calls (a ∷ rest) ds v h =
        let call = add_multihashes_for_shard new_key mh_text a.faults a.mhs a.shard ds in
        let one = add_one k a ds call.0 v.0.0 v.0.1 call.1 refl in
        let (later, once) = entry-add_calls rest call.0 v.1 (
          subst (λ o. times t (entry o) ≤ 1) (sym one)
            (times-entry_after k a ds call.0 v.0.0 v.0.1 t call.1 (lookup k ds) h)) in
        (
          later
              ∙ (ap (λ o. (has (entry o) t || has (adders k (add_calls rest call.0).1) t)) one
                  ∙ has-entry_after k a ds call.0 v.0.0 v.0.1 t call.1 (lookup k ds)
                      (add_calls rest call.0).1),
          once,
        )

  listed_lem :
      (faults : Faults) (mh : String) (ds : Datastore)
      → faults.get (new_key mh) ≡ none
      → listed (get_shards_for_multihash new_key mh_text faults mh ds)
        ≡ entry (lookup (new_key mh) ds)
  unfolding get_shards_for_multihash
  listed_lem faults mh ds h = ground arith

  -- One call, whatever fails in it: what it leaves of an entry.
  module _ (k : String) (a : Addition) (ds ds' : Datastore) (e : Option Error)
      (h : add_multihashes_for_shard new_key mh_text a.faults a.mhs a.shard ds ≡ (ds', e)) where
    bounded :
        (lookup k ds' ≡ lookup k ds)
        ⊎ ((lookup k ds' ≡ some (joined a.shard (lookup k ds)))
            × (mentions new_key mh_text a.faults k a.mhs ≡ true))
    bounded =
        subst
          (λ d.
            (lookup k d ≡ lookup k ds)
            ⊎ ((lookup k d ≡ some (joined a.shard (lookup k ds)))
                × (mentions new_key mh_text a.faults k a.mhs ≡ true)))
          (ap (λ p. p.0) h)
          (add_multihashes_for_shard_bounded new_key mh_text a.faults a.mhs a.shard ds k)

    -- Nothing leaves the entry, and a success that mentions it adds the shard.
    grows :
        (t : Key)
        → (has (entry (lookup k ds)) t || has (adders k (kept e a [])) t) ≡ true
        → has (entry (lookup k ds')) t ≡ true
    unfolding has
    grows t g = elim (Option-cases e) [
      | inl none_failed ↦ ground (
        arith,
        add_multihashes_for_shard_lem new_key mh_text a.faults a.mhs a.shard ds ds'
            (h ∙ ap (λ x. (ds', x)) none_failed) k,
        has-joined a.shard t (lookup k ds),
        Bool-cases (mentions new_key mh_text a.faults k a.mhs),
      )
      | inr (x, failed) ↦ ground (arith, bounded, has-joined a.shard t (lookup k ds))
    ]

    joins :
        (t : Key)
        → has (entry (lookup k ds')) t ≡ true
        → (has (entry (lookup k ds)) t || has (adders k (a ∷ [])) t) ≡ true
    unfolding has
    joins t g = ground (arith, bounded, has-joined a.shard t (lookup k ds))

    -- Only the shard of the call joins it, and only if the call commits its batch.
    only :
        (t : Key)
        → has (entry (lookup k ds')) t ≡ true
        → (has (entry (lookup k ds)) t || has (adders k (perhaps e a [])) t) ≡ true
    unfolding has
    only t g = elim (Option-cases e) [
      | inl none_failed ↦
          subst (λ o. (has (entry (lookup k ds)) t || has (adders k (perhaps o a [])) t) ≡ true)
            (sym none_failed) (joins t g)
      | inr (x, failed) ↦
          subst (λ o. (has (entry (lookup k ds)) t || has (adders k (perhaps o a [])) t) ≡ true)
            (sym failed)
            (elim (Bool-cases (is_late x)) [
              | inl late ↦ rw late (joins t g)
              | inr early ↦
                  let same : ds' ≡ ds =
                    early_failure_writes_nothing new_key mh_text a.faults a.mhs a.shard ds ds' x
                      (h ∙ ap (λ o. (ds', o)) failed) early in
                  let before = subst (λ d. has (entry (lookup k d)) t ≡ true) same g in
                  ground (arith, before)
            ])
    ]

    once : (t : Key) → times t (entry (lookup k ds)) ≤ 1 → times t (entry (lookup k ds')) ≤ 1
    once t g = ground (arith, bounded, times-joined a.shard t (lookup k ds))

  has-adders :
      (k : String) (t : Key) (a : Addition) (l : List Addition)
      → has (adders k (a ∷ l)) t ≡ (has (adders k (a ∷ [])) t || has (adders k l) t)
  unfolding has
  has-adders k t a l = ground (arith, Bool-cases (mentions new_key mh_text a.faults k a.mhs))

  has-kept :
      (k : String) (t : Key) (a : Addition) (e : Option Error) (l : List Addition)
      → has (adders k (kept e a l)) t ≡ (has (adders k (kept e a [])) t || has (adders k l) t)
  unfolding has
  has-kept k t a none l = has-adders k t a l
  has-kept k t a (some x) l = refl

  has-perhaps :
      (k : String) (t : Key) (a : Addition) (e : Option Error) (l : List Addition)
      → has (adders k (perhaps e a l)) t ≡ (has (adders k (perhaps e a [])) t || has (adders k l) t)
  unfolding has
  has-perhaps k t a none l = has-adders k t a l
  has-perhaps k t a (some x) l = elim (Bool-cases (is_late x)) [
    | inl e ↦ rw e (has-adders k t a l)
    | inr e ↦ rw e refl
  ]

  -- What calls leave of the shard `t` in an entry.
  record IsBetween (k : String) (t : Key) (ds ds' : Datastore) (done all : List Addition)
      : Type 0 where
    lower :
        (has (entry (lookup k ds)) t || has (adders k done) t) ≡ true
        → has (entry (lookup k ds')) t ≡ true
    upper :
        has (entry (lookup k ds')) t ≡ true
        → (has (entry (lookup k ds)) t || has (adders k all) t) ≡ true
    once : times t (entry (lookup k ds')) ≤ 1

  add_calls-IsBetween :
      (k : String) (t : Key) (l : List Addition) (ds : Datastore)
      → times t (entry (lookup k ds)) ≤ 1
      → IsBetween k t ds (add_calls l ds).0 (add_calls l ds).1 (committing l ds)
  unfolding add_calls committing has
  add_calls-IsBetween k t [] ds h = record {
    lower = λ g. ground arith;
    upper = λ g. ground arith;
    once = h;
  }
  add_calls-IsBetween k t (a ∷ rest) ds h =
      let (ds1, e) = add_multihashes_for_shard new_key mh_text a.faults a.mhs a.shard ds in
      let v = add_calls-IsBetween k t rest ds1 (once k a ds ds1 e refl t h) in
      let done = (add_calls rest ds1).1 in
      record {
        lower = λ g. v.lower (
            ground (
              arith,
              has-kept k t a e done,
              grows k a ds ds1 e refl t,
              Bool-cases (has (entry (lookup k ds)) t),
              Bool-cases (has (adders k (kept e a [])) t),
              Bool-cases (has (adders k done) t),
            ));
        upper = λ g. ground (
          arith,
          v.upper g,
          has-perhaps k t a e (committing rest ds1),
          only k a ds ds1 e refl t,
          Bool-cases (has (entry (lookup k ds1)) t),
          Bool-cases (has (adders k (perhaps e a [])) t),
          Bool-cases (has (adders k (committing rest ds1)) t),
        );
        once = v.once;
      }

  -- After any calls of `AddMultihashesForShard` on an empty datastore, whatever fails in them, commits
  -- that have written a part of their batch among them: `GetShardsForMultihash` returns for a multihash
  -- every shard of a call that returned no error and had a multihash with the same datastore key. It
  -- returns only shards of calls that had one and did not fail before they committed their batch, and
  -- none twice. This needs that reading the entry does not fail.
  pub add_calls_bounded :
      (l : List Addition) (mh : String) (faults : Faults)
      → faults.get (new_key mh) ≡ none
      → let es = listed (get_shards_for_multihash new_key mh_text faults mh (add_calls l []).0) in
        (t : Key)
        → (has (adders (new_key mh) (add_calls l []).1) t ≡ true → has es t ≡ true)
          × (has es t ≡ true → has (adders (new_key mh) (committing l [])) t ≡ true)
          × (times t es ≤ 1)
  unfolding has lookup
  add_calls_bounded l mh faults h t =
      let k = new_key mh in
      let v = add_calls-IsBetween k t l [] (omega arith) in
      rw (listed_lem faults mh (add_calls l []).0 h) (v.lower, v.upper, v.once)

  -- If no commit and no sync fails, these calls refine a set of shards: the shards that
  -- `GetShardsForMultihash` then returns for a multihash are, as a set, those of the calls that returned
  -- no error and had a multihash with the same datastore key, and none is returned twice. Calls may fail
  -- to get the batch, to read an entry or to put one. This needs that reading the entry does not fail.
  pub add_calls_refines :
      (l : List Addition) (mh : String) (faults : Faults)
      → All (λ a. (a.faults.commit ≡ none) × (a.faults.sync ≡ none)) l
      → faults.get (new_key mh) ≡ none
      → let es = listed (get_shards_for_multihash new_key mh_text faults mh (add_calls l []).0) in
        (set_of es ≡ set_of (adders (new_key mh) (add_calls l []).1)) × ((t : Key) → times t es ≤ 1)
  unfolding has lookup
  add_calls_refines l mh faults v h =
      let k = new_key mh in
      let read = listed_lem faults mh (add_calls l []).0 h in
      let start : (t : Key) → times t (entry (lookup k [])) ≤ 1 = λ t. omega arith in
      (
        ap set_of read ∙ Quot.sound (λ t. (entry-add_calls k t l [] v (start t)).0),
        λ t. subst (λ es. times t es ≤ 1) (sym read) (entry-add_calls k t l [] v (start t)).1,
      )
