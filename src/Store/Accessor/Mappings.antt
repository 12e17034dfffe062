-- ===== src/Store/Accessor/Mappings.antt =====
-- accessor.go: which mappings a closed accessor leaves.
use dagstore.Shared.{
  ℕ, ◌≡◌, ◌≢◌, refl, Bool, true, false, List, [], ◌∷◌, nat_beq, nat_beq_iff, if◌then◌else◌, arith,
}
use dagstore.Error.{Result, ok, err}
use dagstore.Store.Accessor.{without, new_views, blockstore, close}

abbrev pub in_list : ℕ → List ℕ → Bool
in_list m [] = false
in_list m (n ∷ rest) = if nat_beq n m then true else in_list m rest

without_absent : (m : ℕ) (l : List ℕ) → in_list m l ≡ false → without m l ≡ l
without_absent m [] h = refl
without_absent m (n ∷ rest) h = ground (arith, h, without_absent m rest)

in_list-without : (m n : ℕ) (l : List ℕ) → m ≢ n → in_list m (without n l) ≡ in_list m l
in_list-without m n [] h = refl
in_list-without m n (k ∷ rest) h =
    ground (arith, h, nat_beq_iff k n, nat_beq_iff k m, in_list-without m n rest h)

-- An accessor that makes at most one view, whether the file can be mapped or not, leaves the mappings of
-- the process as they were when it is closed; the mapping is a new one, and closing it does not fail.
pub close-blockstore :
    (is_file : Bool) (opened : Result ℕ) (mappings : List ℕ)
    → ((m : ℕ) → opened ≡ ok m → in_list m mappings ≡ false)
    → (close false (blockstore opened (new_views is_file mappings)).0).mappings ≡ mappings
unfolding close blockstore new_views
close-blockstore false opened mappings fresh = refl
close-blockstore true (err e) mappings fresh = refl
close-blockstore true (ok m) mappings fresh =
    ground (arith, nat_beq_iff m m, without_absent m mappings (fresh m refl))

-- An accessor of a file that makes two views forgets the mapping of the first: it is still there when the
-- accessor is closed, even if closing does not fail.
pub first_mapping_leaks :
    (first second : ℕ) (mappings : List ℕ)
    → first ≢ second
    → let v = (blockstore (ok first) (new_views true mappings)).0 in
      in_list first (close false (blockstore (ok second) v).0).mappings ≡ true
unfolding close blockstore new_views
first_mapping_leaks first second mappings h = ground (
  arith,
  h,
  nat_beq_iff first first,
  in_list-without first second (second ∷ first ∷ mappings) h,
  nat_beq_iff second first,
)
