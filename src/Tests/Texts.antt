-- ===== src/Tests/Texts.antt =====
-- Texts: the fields "1" and "22", and the PIN "123456".
use uubang_iot.Base.{
  ℕ, ◌+◌, ◌≡◌, refl, List, [], ◌∷◌, ◌++◌, arith, length, get_or, ltb, if◌then◌else◌,
}
use uubang_iot.Text.Hash.{
  IsTag, djb_hash, djb_hash_injective, opcode_of_hash, opcode_of_tag, opcode_of_hash-tag,
}
use uubang_iot.Text.Split.{str_split}
use uubang_iot.Text.Split.Spec.{join, Avoids, AllAvoid}
use uubang_iot.Text.Split.Laws.{texts, Fit, str_split-join, str_split_of_join}
use uubang_iot.Text.Caesar.{encrypt, decrypt, generate_rand_int_str}
use uubang_iot.Text.Caesar.Laws.{IsPin, decrypt-encrypt, generate_rand_int_str-IsPin}

abbrev fields : List ℕ
fields = b'1' ∷ b'_' ∷ b'2' ∷ b'_' ∷ b'x' ∷ []

str_split-join_example :
    let r = str_split (fields ++ (0 ∷ [])) (length fields) b'_' in
    (r.0 ≡ length r.1)
    × Fit r.1
    × AllAvoid b'_' (texts r.1)
    × ((rest : List ℕ) × (join b'_' (texts r.1) ++ rest ≡ fields) × Avoids b'_' rest)
str_split-join_example = str_split-join b'_' fields (0 ∷ [])

str_split_of_join_example :
    texts (str_split ((b'1' ∷ b'_' ∷ b'2' ∷ b'2' ∷ b'_' ∷ b'x' ∷ []) ++ (0 ∷ [])) 6 b'_').1
    ≡ (b'1' ∷ []) ∷ (b'2' ∷ b'2' ∷ []) ∷ []
str_split_of_join_example =
    str_split_of_join b'_' ((b'1' ∷ []) ∷ (b'2' ∷ b'2' ∷ []) ∷ []) (b'x' ∷ []) (0 ∷ [])
      (
        ((λ e. omega (arith, e)), tt),
        (((λ e. omega (arith, e)), ((λ e. omega (arith, e)), tt)), tt),
      )
      ((λ e. omega (arith, e)), tt)

abbrev pin : List ℕ
pin = generate_rand_int_str (λ k. k + 1) 0 6

pin-IsPin : IsPin pin
pin-IsPin = (generate_rand_int_str-IsPin (λ k. k + 1)).0

abbrev message : List ℕ
message = b'o' ∷ b'n' ∷ []

abbrev buffer : List ℕ
buffer = 0 ∷ 0 ∷ 0 ∷ []

decrypt-encrypt_example :
    get_or (decrypt (encrypt message 2 pin buffer) 2 pin buffer) 1 0
    ≡ (if ltb 1 2 then get_or message 1 0 else get_or buffer 1 0)
decrypt-encrypt_example =
    decrypt-encrypt 2 message pin buffer buffer 1 (omega arith) (omega arith) pin-IsPin
      (omega arith)

sia-IsTag : IsTag b'S' b'I' b'A'
sia-IsTag = record {
  a_low = omega arith;
  a_high = omega arith;
  b_low = omega arith;
  b_high = omega arith;
  c_low = omega arith;
  c_high = omega arith;
}

abbrev Same : ℕ → ℕ → Type 0
Same x y = x ≡ y

djb_hash_injective_example : Same b'S' b'S' × Same b'I' b'I' × Same b'A' b'A'
djb_hash_injective_example =
    djb_hash_injective b'S' b'I' b'A' b'S' b'I' b'A' sia-IsTag sia-IsTag refl

opcode_of_hash-tag_example :
    opcode_of_hash (djb_hash (b'S' ∷ b'I' ∷ b'A' ∷ []) 3) ≡ opcode_of_tag b'S' b'I' b'A'
opcode_of_hash-tag_example = opcode_of_hash-tag b'S' b'I' b'A' sia-IsTag
