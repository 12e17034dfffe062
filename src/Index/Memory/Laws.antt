-- ===== src/Index/Memory/Laws.antt =====
-- index/repo_mem.go: reads see the last write, whatever keys were written and dropped in between.
use dagstore.Shared.{
  ℕ, ◌≡◌, true, false, insert, lookup-insert, lookup-erase, arith, ◌==◌, if◌then◌else◌,
}
use dagstore.Error.{Error, Result, ok, err, index_not_found}
use dagstore.ShardKey.{Key, key_eq}
use dagstore.Index.Memory.{
  MemIndexRepo, get_full_index, add_full_index, drop_full_index, stat_full_index,
}

module _ {I : Type 0} (write_to : I → Result ℕ) where
  -- After an index is added under a key and another key is dropped, a lookup finds nothing under the
  -- dropped key, the new index under the added one, and else what it found before.
  pub get-drop-add :
      (m : MemIndexRepo I) (added dropped key : Key) (idx : I)
      → get_full_index write_to
          (drop_full_index write_to (add_full_index write_to m added idx).0 dropped).0
          key
        ≡ (if dropped == key
            then err index_not_found
            else if added == key
            then ok idx
            else get_full_index write_to m key)
  unfolding get_full_index drop_full_index add_full_index
  get-drop-add m added dropped key idx =
      ground (arith, lookup-erase dropped key (insert added idx m), lookup-insert added key idx m)

  -- `StatFullIndex` reports an index exactly where `GetFullIndex` finds one, if its size can be
  -- told, and reports none, without an error, where it does not.
  pub stat-get :
      (m : MemIndexRepo I) (key : Key)
      → ((idx : I) (n : ℕ)
          → get_full_index write_to m key ≡ ok idx
          → write_to idx ≡ ok n
          → stat_full_index write_to m key ≡ ok (record { exists = true; size = n }))
        × ((e : Error)
            → get_full_index write_to m key ≡ err e
            → stat_full_index write_to m key ≡ ok (record { exists = false; size = 0 }))
  unfolding get_full_index stat_full_index
  stat-get m key = (λ idx n h k. ground arith, λ e h. ground arith)
