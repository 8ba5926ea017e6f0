-- ===== src/Tests/Keys.antt =====
-- Keys for the modulus 143 = 11 * 13.
use Prim.Native.Nat.{◌∣◌}
use uubang_iot.Base.{
  ℕ, ◌%◌, ◌-◌, ◌*◌, ◌^◌, ◌≡◌, ◌<◌, ◌↔◌, refl, subst, zero, suc, Bool, true, ◌&&◌, ◌==◌, ℕ_discrete,
  List, [], ◌∷◌, inl, arith,
}
use uubang_iot.Text.Split.{cut_loop}
use uubang_iot.Rsa.Keys.{init_rsa-inverse}
use uubang_iot.Rsa.{RsaKey, gcd_loop, init_rsa, rand_exponent_loop, inverse, inverse_loop}
use uubang_iot.Base.Int.{◌+ℤ◌, ◌-ℤ◌, ◌*ℤ◌}
use uubang_iot.Rsa.{modpow, modpow_loop, gcd, encode_message, decode_message}
use uubang_iot.Rsa.Power.{modpow_lem}
use uubang_iot.Rsa.Gcd.{gcd_lem}
use uubang_iot.Rsa.Blocks.{IsAscii, IsKeyPair, decode_message-encode_message}

modpow_lem_example : modpow 65 7 143 ≡ 65 ^ 7 % 143
modpow_lem_example = modpow_lem 65 7 143 (omega arith)

gcd_lem_example : (6 ∣ gcd 120 42) ↔ ((6 ∣ 120) × (6 ∣ 42))
gcd_lem_example = gcd_lem 120 42 6

abbrev text : List ℕ
text = b'4' ∷ b'2' ∷ []

text-IsAscii : IsAscii text
text-IsAscii zero = omega arith
text-IsAscii (suc zero) = omega arith
text-IsAscii (suc (suc k)) = omega arith

-- The keys, tried on every block below n.
abbrev all_back : ℕ → Bool
unfolding modpow
all_back zero = true
all_back (suc n) = (modpow (modpow n 7 143) 103 143 == n) && all_back n

all_back-at : (n x : ℕ) → all_back n ≡ true → x < n → modpow (modpow x 7 143) 103 143 ≡ x
unfolding all_back
all_back-at zero x h lt = absurd (omega arith)
all_back-at (suc n) x h lt = elim (ℕ_discrete n x) [
  | yes e ↦ subst (λ k. modpow (modpow k 7 143) 103 143 ≡ k) e (ground (arith, h))
  | no ne ↦ all_back-at n x (ground (arith, h)) (omega arith)
]

all_back_128 : all_back 128 ≡ true
unfolding all_back modpow modpow_loop
all_back_128 = refl

keys : IsKeyPair 1 7 103 143
keys x h = all_back-at 128 x all_back_128 h

decode_message-encode_message_example :
    decode_message 2 1 (encode_message 2 1 text 7 143) 103 143 ≡ cut_loop text 2 0
decode_message-encode_message_example =
    decode_message-encode_message 1 7 103 143 2 text text-IsAscii (inl refl) keys

-- The key for the primes 11 and 13, where the search for an exponent starts at 5.
abbrev key_5 : RsaKey
key_5 = init_rsa 11 13 5 10

key_5-is : (key_5.public_key ≡ 7) × (key_5.private_key ≡ 103)
unfolding init_rsa rand_exponent_loop gcd gcd_loop inverse inverse_loop ◌-ℤ◌ ◌*ℤ◌ ◌+ℤ◌
key_5-is = (refl, refl)

key_5-coprime : gcd key_5.public_key ((11 - 1) * (13 - 1)) ≡ 1
unfolding init_rsa rand_exponent_loop gcd gcd_loop
key_5-coprime = refl

init_rsa-inverse_example :
    (key_5.public_key * key_5.private_key) % ((11 - 1) * (13 - 1)) ≡ 1 % ((11 - 1) * (13 - 1))
init_rsa-inverse_example =
    init_rsa-inverse 11 13 5 10 (omega arith) (omega arith) (omega (arith, key_5-is.0))
      key_5-coprime
