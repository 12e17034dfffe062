-- ===== src/Index/Tests.antt =====
-- The inverted index at concrete inputs.
use dagstore.Shared.{
  true, ◌==◌, ◌≤◌, ◌≡◌, refl, String, none, some, List, [], ◌∷◌, lookup, insert, string_eq,
}
use dagstore.Error.{ok, external}
use dagstore.ShardKey.{Key, key_eq}
use dagstore.Index.Inverted.{
  Faults, has, index_one, add_multihashes_for_shard, get_shards_for_multihash,
}
use dagstore.Index.Inverted.Calls.{
  Addition, times, listed, adders, add_calls, add_calls_bounded, committing,
}

abbrev a_key : Key
a_key = record { str = "a" }

abbrev b_key : Key
b_key = record { str = "b" }

abbrev same : String → String
same text = text

abbrev no_faults : Faults
no_faults = record { batch = none; get = λ k. none; put = λ k. none; commit = none; sync = none }

abbrev no_batches : Faults
no_batches = record no_faults { batch = some (external "closed") }

-- A commit that fails after it has written the entry of `x`.
abbrev half_commits : Faults
half_commits = record no_faults { commit = some (λ k. k == "x", external "full") }

-- The second call fails, and the third makes the same addition.
abbrev calls : List Addition
calls =
    record { mhs = "x" ∷ "y" ∷ "x" ∷ []; shard = b_key; faults = no_faults }
    ∷ record { mhs = "x" ∷ []; shard = a_key; faults = no_batches }
    ∷ record { mhs = "x" ∷ []; shard = a_key; faults = no_faults }
    ∷ []

-- The second call fails half way.
abbrev half_calls : List Addition
half_calls =
    record { mhs = "x" ∷ "y" ∷ "x" ∷ []; shard = b_key; faults = no_faults }
    ∷ record { mhs = "x" ∷ "y" ∷ []; shard = a_key; faults = half_commits }
    ∷ []

test_calls :
    get_shards_for_multihash same same no_faults "x" (add_calls same same calls []).0
    ≡ ok (b_key ∷ a_key ∷ [])
unfolding add_calls add_multihashes_for_shard get_shards_for_multihash index_one lookup insert has
test_calls = refl

test_half_calls :
    (get_shards_for_multihash same same no_faults "x" (add_calls same same half_calls []).0
      ≡ ok (b_key ∷ a_key ∷ []))
    × (get_shards_for_multihash same same no_faults "y" (add_calls same same half_calls []).0
        ≡ ok (b_key ∷ []))
unfolding add_calls add_multihashes_for_shard get_shards_for_multihash index_one lookup insert has
test_half_calls = (refl, refl)

add_calls_bounded_example :
    let es =
      listed
        (get_shards_for_multihash same same no_faults "x" (add_calls same same half_calls []).0) in
    (has (adders same same "x" (add_calls same same half_calls []).1) a_key ≡ true
      → has es a_key ≡ true)
    × (has es a_key ≡ true
        → has (adders same same "x" (committing same same half_calls [])) a_key ≡ true)
    × (times a_key es ≤ 1)
add_calls_bounded_example = add_calls_bounded same same half_calls "x" no_faults refl a_key
