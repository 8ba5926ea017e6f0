-- ===== src/Rsa.antt =====
-- The RSA of src/RSAUtils.c. Its numbers are never negative on the paths modelled, and its products
-- fit a `long long`: the factors of `modpow` are below the modulus, an `int`. Messages are ASCII.
pub mod Power
pub mod Blocks
pub mod Gcd
pub mod Inverse
pub mod Keys
use uubang_iot.Base.{
  ℕ, zero, suc, ◌+◌, ◌-◌, ◌*◌, ◌/◌, ◌%◌, ◌^◌, List, [], ◌∷◌, ◌++◌, Bool, true, false, ◌==◌, ltb,
  leb, get_or, if◌then◌else◌,
}
use uubang_iot.Base.Int.{ℤ, pos, pos_part, ◌+ℤ◌, ◌-ℤ◌, ◌*ℤ◌, ltb_ℤ}

-- The loop of `modpow`, on fuel: b is halved, so that b rounds are enough.
unfoldable pub modpow_loop : ℕ → ℕ → ℕ → ℕ → ℕ → ℕ
modpow_loop zero a b c res = res
modpow_loop (suc fuel) a b c res = elim (b == 0) [
  | true ↦ res
  | false ↦ modpow_loop fuel ((a * a) % c) (b / 2) c (if b % 2 == 1 then (res * a) % c else res)
]

unfoldable pub modpow : ℕ → ℕ → ℕ → ℕ
unfolding modpow_loop
modpow a b c = modpow_loop b a b c 1

-- The loop of `gcd`, on fuel: b falls.
unfoldable pub gcd_loop : ℕ → ℕ → ℕ → ℕ
gcd_loop zero a b = a
gcd_loop (suc fuel) a b = elim (b == 0) [ true ↦ a | false ↦ gcd_loop fuel b (a % b) ]

unfoldable pub gcd : ℕ → ℕ → ℕ
unfolding gcd_loop
gcd a b = gcd_loop (b + 1) a b

-- The loop of `randExponent`, on the rounds that are allowed.
unfoldable pub rand_exponent_loop : ℕ → ℕ → ℕ → ℕ → ℕ
unfolding gcd
rand_exponent_loop zero e phi n = e
rand_exponent_loop (suc fuel) e phi n = elim (gcd e phi == 1) [
  | true ↦ e
  | false ↦ let next = (e + 1) % n in rand_exponent_loop fuel (if leb next 2 then 3 else next) phi n
]

-- The loop of `inverse`, on fuel: b falls.
unfoldable pub inverse_loop : ℕ → ℕ → ℕ → ℤ → ℤ → ℤ → ℤ → ℤ
inverse_loop zero a b x y x0 y0 = x0
inverse_loop (suc fuel) a b x y x0 y0 = elim (b == 0) [
  | true ↦ x0
  | false ↦ let q = pos (a / b) in inverse_loop fuel b (a % b) (x0 -ℤ q *ℤ x) (y0 -ℤ q *ℤ y) x y
]

unfoldable pub inverse : ℕ → ℕ → ℤ
unfolding inverse_loop
inverse n modulus =
    let x0 = inverse_loop (modulus + 1) n modulus (pos 0) (pos 1) (pos 1) (pos 0) in
    if ltb_ℤ x0 (pos 0) then x0 +ℤ pos modulus else x0

-- The inner loop of `encodeMessage`, on the rounds left, from index j on.
unfoldable pub pack_loop : ℕ → ℕ → List ℕ → ℕ → ℕ → ℕ
pack_loop zero j message i x = x
pack_loop (suc n) j message i x =
    pack_loop n (j + 1) message i (x + get_or message (i + j) 0 * 2 ^ (7 * j))

-- The outer loop, on the rounds left.
unfoldable pub encode_loop : ℕ → ℕ → ℕ → List ℕ → ℕ → ℕ → List ℕ
unfolding modpow pack_loop
encode_loop zero i bytes message exponent modulus = []
encode_loop (suc n) i bytes message exponent modulus =
    modpow (pack_loop bytes 0 message i 0) exponent modulus
    ∷ encode_loop n (i + bytes) bytes message exponent modulus

-- `encodeMessage`: the blocks that it writes.
unfoldable pub encode_message : ℕ → ℕ → List ℕ → ℕ → ℕ → List ℕ
unfolding encode_loop
encode_message len bytes message exponent modulus =
    encode_loop ((len + bytes - 1) / bytes) 0 bytes message exponent modulus

-- The inner loop of `decodeMessage`.
unfoldable pub unpack_loop : ℕ → ℕ → ℕ → List ℕ
unpack_loop zero j x = []
unpack_loop (suc n) j x = (x / 2 ^ (7 * j)) % 128 ∷ unpack_loop n (j + 1) x

unfoldable pub decode_loop : ℕ → ℕ → ℕ → List ℕ → ℕ → ℕ → List ℕ
unfolding modpow unpack_loop
decode_loop zero i bytes cryptogram exponent modulus = []
decode_loop (suc n) i bytes cryptogram exponent modulus =
    unpack_loop bytes 0 (modpow (get_or cryptogram i 0) exponent modulus)
    ++ decode_loop n (i + 1) bytes cryptogram exponent modulus

-- `decodeMessage`: the text that it writes.
unfoldable pub decode_message : ℕ → ℕ → List ℕ → ℕ → ℕ → List ℕ
unfolding decode_loop
decode_message len bytes cryptogram exponent modulus =
    decode_loop len 0 bytes cryptogram exponent modulus

-- The bytes of a block, by the size of the modulus (`InitRSA`).
unfoldable pub block_bytes : ℕ → ℕ
block_bytes n = if leb (2 ^ 21) n then 3 else if leb (2 ^ 14) n then 2 else 1

-- `RSAKey`
pub record RsaKey : Type 0 where
  pub public_key : ℕ
  pub private_key : ℕ
  pub common_key : ℕ
  pub encrypt_block_bytes : ℕ

-- `InitRSA`, with what `randPrime` returned last, and with the `rand() % n` and the rounds of
-- `randExponent`.
unfoldable pub init_rsa : ℕ → ℕ → ℕ → ℕ → RsaKey
unfolding rand_exponent_loop inverse block_bytes
init_rsa p q first rounds =
    let n = p * q in
    let phi = (p - 1) * (q - 1) in
    let e = rand_exponent_loop rounds first phi 10000 in
    record {
      public_key = e;
      private_key = pos_part (inverse e phi);
      common_key = n;
      encrypt_block_bytes = block_bytes n;
    }
