-- ===== src/Rsa/Blocks.antt =====
-- A message that is encoded and then decoded.
use uubang_iot.Base.{
  ℕ, zero, suc, ◌+◌, ◌-◌, ◌*◌, ◌/◌, ◌%◌, ◌^◌, ◌≡◌, ◌<◌, ap, ap₂, ◌∙◌, sym, subst, ◌⊎◌, inl, inr,
  List, ◌∷◌, ◌++◌, arith, get_or,
}
use uubang_iot.Text.Split.{cut_loop}
use uubang_iot.Rsa.{
  modpow, pack_loop, unpack_loop, encode_loop, decode_loop, encode_message, decode_message,
}

-- ASCII from position i on.
abbrev pub IsAscii : List ℕ → Type 0
IsAscii message = (k : ℕ) → get_or message k 0 < 128

-- A block of three bytes, its digits to the base 128.
digits :
    (x y z : ℕ)
    → x < 128
    → y < 128
    → z < 128
    → ((x + y * 128 + z * 16384) % 128 ≡ x)
      × ((x + y * 128 + z * 16384) / 128 % 128 ≡ y)
      × ((x + y * 128 + z * 16384) / 16384 % 128 ≡ z)
digits x y z h k l = (omega arith, omega arith, omega arith)

-- A block of one, two or three bytes comes back, and is below 128 to the number of bytes.
abbrev ComesBack : ℕ → List ℕ → ℕ → Type 0
ComesBack i message bytes =
    (unpack_loop bytes 0 (pack_loop bytes 0 message i 0) ≡ cut_loop message bytes i)
    × (pack_loop bytes 0 message i 0 < 2 ^ (7 * bytes))

module _ (i : ℕ) (message : List ℕ) (h : IsAscii message) where
  at : (k n : ℕ) → k ≡ n → get_or message k 0 ≡ get_or message n 0
  at k n e = ap (λ x. get_or message x 0) e

  one_byte : ComesBack i message 1
  unfolding unpack_loop pack_loop cut_loop
  one_byte = ground (arith, h i, at (i + 0) i (omega arith))

  two_bytes : ComesBack i message 2
  unfolding unpack_loop pack_loop cut_loop
  two_bytes = ground (arith, h i, h (i + 1), at (i + 0) i (omega arith))

  three_bytes : ComesBack i message 3
  unfolding unpack_loop pack_loop cut_loop
  three_bytes = ground (
    arith,
    h i,
    h (i + 1),
    h (i + 2),
    at (i + 0) i (omega arith),
    at (i + 1 + 1) (i + 2) (omega arith),
    digits (get_or message i 0) (get_or message (i + 1) 0) (get_or message (i + 2) 0) (h i)
        (h (i + 1)) (h (i + 2)),
  )

  unpack-pack : (bytes : ℕ) → (bytes ≡ 1) ⊎ ((bytes ≡ 2) ⊎ (bytes ≡ 3)) → ComesBack i message bytes
  unpack-pack bytes (inl e) = subst (ComesBack i message) (sym e) one_byte
  unpack-pack bytes (inr (inl e)) = subst (ComesBack i message) (sym e) two_bytes
  unpack-pack bytes (inr (inr e)) = subst (ComesBack i message) (sym e) three_bytes

cut_loop-append :
    (m n i : ℕ) (str : List ℕ) → cut_loop str (m + n) i ≡ cut_loop str m i ++ cut_loop str n (i + m)
unfolding cut_loop
cut_loop-append zero n i str = ap₂ (λ k j. cut_loop str k j) {y = n} (omega arith) (omega arith)
cut_loop-append (suc m) n i str =
    ap (λ k. cut_loop str k i) {y = suc (m + n)} (omega arith)
    ∙ ap (◌∷◌ (get_or str i 0)) (
        cut_loop-append m n (i + 1) str
        ∙ ap (λ j. cut_loop str m (i + 1) ++ cut_loop str n j) (omega arith))

-- The keys undo each other on every block.
abbrev pub IsKeyPair : ℕ → ℕ → ℕ → ℕ → Type 0
IsKeyPair bytes e d modulus =
    (x : ℕ) → x < 2 ^ (7 * bytes) → modpow (modpow x e modulus) d modulus ≡ x

module _ (bytes e d modulus : ℕ) (message : List ℕ) (h : IsAscii message)
    (size : (bytes ≡ 1) ⊎ ((bytes ≡ 2) ⊎ (bytes ≡ 3))) (keys : IsKeyPair bytes e d modulus) where
  encode_loop-at :
      (n i k : ℕ)
      → k < n
      → get_or (encode_loop n i bytes message e modulus) k 0
        ≡ modpow (pack_loop bytes 0 message (i + k * bytes) 0) e modulus
  unfolding encode_loop
  encode_loop-at zero i k lt = absurd (omega arith)
  encode_loop-at (suc n) i zero lt =
      ap (λ x. modpow (pack_loop bytes 0 message x 0) e modulus) {x = i} (omega arith)
  encode_loop-at (suc n) i (suc k) lt =
      encode_loop-at n (i + bytes) k (omega arith)
      ∙ ap (λ x. modpow (pack_loop bytes 0 message x 0) e modulus) (omega arith)

  decode_loop-cut :
      (n k : ℕ) (crypto : List ℕ)
      → ((t : ℕ)
          → t < n
          → get_or crypto (k + t) 0
            ≡ modpow (pack_loop bytes 0 message ((k + t) * bytes) 0) e modulus)
      → decode_loop n k bytes crypto d modulus ≡ cut_loop message (n * bytes) (k * bytes)
  unfolding decode_loop cut_loop
  decode_loop-cut zero k crypto same =
      ap (λ m. cut_loop message m (k * bytes)) {x = 0} (omega arith)
  decode_loop-cut (suc n) k crypto same =
      ap₂ (◌++◌) first (
        decode_loop-cut n (k + 1) crypto (λ t lt.
          ap (λ j. get_or crypto j 0) {y = k + suc t} (omega arith)
          ∙ (same (suc t) (omega arith)
              ∙ ap (λ j. modpow (pack_loop bytes 0 message (j * bytes) 0) e modulus) {y = k + 1 + t}
                  (omega arith)))
        ∙ ap (cut_loop message (n * bytes)) {y = k * bytes + bytes} (omega arith))
      ∙ (sym (cut_loop-append bytes (n * bytes) (k * bytes) message)
          ∙ ap (λ m. cut_loop message m (k * bytes)) (omega arith))
    where
      block : ℕ
      block = pack_loop bytes 0 message (k * bytes) 0

      read : get_or crypto k 0 ≡ modpow block e modulus
      read =
          ap (λ j. get_or crypto j 0) {y = k + 0} (omega arith)
          ∙ (same 0 (omega arith)
              ∙ ap (λ j. modpow (pack_loop bytes 0 message (j * bytes) 0) e modulus) {y = k}
                  (omega arith))

      back : ComesBack (k * bytes) message bytes
      back = unpack-pack (k * bytes) message h bytes size

      first :
          unpack_loop bytes 0 (modpow (get_or crypto k 0) d modulus)
          ≡ cut_loop message bytes (k * bytes)
      first =
          ap (unpack_loop bytes 0) (ap (λ x. modpow x d modulus) read ∙ keys block back.1) ∙ back.0

-- `decodeMessage` gives back the text that `encodeMessage` was given, up to its length, when the
-- text is ASCII, fills its blocks of one to three bytes, and the two keys undo each other on them.
pub decode_message-encode_message :
    (bytes e d modulus blocks : ℕ) (message : List ℕ)
    → IsAscii message
    → (bytes ≡ 1) ⊎ ((bytes ≡ 2) ⊎ (bytes ≡ 3))
    → IsKeyPair bytes e d modulus
    → decode_message blocks bytes
        (encode_message (blocks * bytes) bytes message e modulus)
        d
        modulus
      ≡ cut_loop message (blocks * bytes) 0
unfolding decode_message encode_message
decode_message-encode_message bytes e d modulus blocks message h size keys =
    ap (λ n. decode_loop blocks 0 bytes (encode_loop n 0 bytes message e modulus) d modulus)
      {y = blocks} rounds
    ∙ (decode_loop-cut bytes e d modulus message h size keys blocks 0 _ (λ t lt.
          ap (λ j. get_or (encode_loop blocks 0 bytes message e modulus) j 0) {y = t} (omega arith)
          ∙ (encode_loop-at bytes e d modulus message h size keys blocks 0 t lt
              ∙ ap (λ j. modpow (pack_loop bytes 0 message j 0) e modulus) {y = (0 + t) * bytes}
                  (omega arith)))
        ∙ ap (cut_loop message (blocks * bytes)) {y = 0} (omega arith))
  where
    at_size :
        (b : ℕ)
        → bytes ≡ b
        → (blocks * b + b - 1) / b ≡ blocks
        → (blocks * bytes + bytes - 1) / bytes ≡ blocks
    at_size b q h = subst (λ x. (blocks * x + x - 1) / x ≡ blocks) (sym q) h

    rounds : (blocks * bytes + bytes - 1) / bytes ≡ blocks
    rounds = elim size [
      | inl q ↦ at_size 1 q (omega arith)
      | inr (inl q) ↦ at_size 2 q (omega arith)
      | inr (inr q) ↦ at_size 3 q (omega arith)
    ]
