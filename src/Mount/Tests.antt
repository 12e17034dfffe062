-- ===== src/Mount/Tests.antt =====
-- The mount types at concrete inputs, over codecs that drop nothing.
use Prim.Native.Char.{code}
use dagstore.Shared.{
  zero, suc, ◌+◌, ◌≢◌, ◌∙◌, ap, nat_beq, ℕ, String, ◌≡◌, refl, [], ◌∷◌, if◌then◌else◌, string_eq,
  arith, List,
}
use dagstore.Error.{ok}
use dagstore.Mount.BuiltIn.{fs_mount, there, Codecs, serialize, deserialize}
use dagstore.Mount.BuiltIn.Laws.{deserialize-serialize}

-- A byte in unary, with a mark after it.
abbrev encode_byte : ℕ → String → String
encode_byte zero rest = String.◌∷◌ "0" rest
encode_byte (suc n) rest = String.◌∷◌ "1" (encode_byte n rest)

abbrev encode : List ℕ → String
encode [] = ""
encode (b ∷ bs) = encode_byte b (encode bs)

-- The byte under way is `acc` so far.
abbrev decode_from : ℕ → String → List ℕ
decode_from acc String.[] = []
decode_from acc (String.◌∷◌ c s) =
    let mark = decode_from 0 s in
    let more = decode_from (suc acc) s in if nat_beq (code c) b'0' then acc ∷ mark else more

decode_from-encode_byte :
    (acc n : ℕ) (rest : String)
    → decode_from acc (encode_byte n rest) ≡ (acc + n) ∷ decode_from 0 rest
decode_from-encode_byte acc zero rest = ap (λ b. b ∷ decode_from 0 rest) (omega arith)
decode_from-encode_byte acc (suc n) rest =
    decode_from-encode_byte (suc acc) n rest ∙ ap (λ b. b ∷ decode_from 0 rest) (omega arith)

zero_add : (n : ℕ) → 0 + n ≡ n
zero_add n = omega arith

decode_from-encode : (bytes : List ℕ) → decode_from 0 (encode bytes) ≡ bytes
decode_from-encode [] = refl
decode_from-encode (b ∷ bs) =
    cc (decode_from-encode_byte 0 b (encode bs), decode_from-encode bs, zero_add b)

abbrev plain : Codecs ℕ
plain = record {
  encode = encode;
  decode = λ s. ok (decode_from 0 s);
  set_path = λ path. path;
  get_path = λ query. query;
  fs_stat = λ fs path. there "name" 3;
  url_text = λ u. u.host;
}

name_ne_empty : ◌≢◌ {A = String} "name" ""
name_ne_empty = ground (arith, string_eq.beq_iff "name" "")

name_ne_irrecoverable : ◌≢◌ {A = String} "name" "irrecoverable"
name_ne_irrecoverable = ground (arith, string_eq.beq_iff "name" "irrecoverable")

deserialize-serialize_example :
    deserialize plain
      (fs_mount 7 "")
      (record (serialize plain (fs_mount 7 "a.car")) { scheme = "fs" })
    ≡ ok (fs_mount 7 "a.car")
deserialize-serialize_example =
    deserialize-serialize plain (λ bytes. ap ok (decode_from-encode bytes)) (λ path. refl)
      (fs_mount 7 "") (fs_mount 7 "a.car") "fs" refl (name_ne_empty, name_ne_irrecoverable)
