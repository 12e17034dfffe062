-- ===== src/ShardKey.antt =====
-- shard/key.go: the key of a shard.
use dagstore.Shared.{String, ◌≡◌, ap, ◌↔◌, Bool, true, Eq, ◌==◌, string_eq, List, ℕ}

pub record Key : Type 0 where
  pub str : String

-- Go compares the struct field by field.
abbrev pub key_beq : Key → Key → Bool
key_beq a b = a.str == b.str

pub key_beq_iff : (a b : Key) → (key_beq a b ≡ true) ↔ (a ≡ b)
key_beq_iff a b = (
  λ h. ap (λ s. record { str = s }) ((string_eq.beq_iff a.str b.str).0 h),
  λ h. (string_eq.beq_iff a.str b.str).1 (ap (λ k. k.str) h),
)

instance abbrev pub key_eq : Eq Key
key_eq = record { beq = key_beq; beq_iff = key_beq_iff }

unfoldable pub key_from_string : String → Key
key_from_string str = record { str = str }

-- `base58.Encode` is a library's.
unfoldable pub key_from_bytes : (List ℕ → String) → List ℕ → Key
key_from_bytes encode b = record { str = encode b }

-- `String()` of the CID is a library's.
unfoldable pub key_from_cid {ℓ} : {Cid : Type ℓ} → (Cid → String) → Cid → Key
key_from_cid to_string cid = record { str = to_string cid }

unfoldable pub to_string : Key → String
to_string k = k.str
