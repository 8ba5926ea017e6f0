-- ===== src/Rsa/Keys.antt =====
-- The keys that `InitRSA` (src/RSAUtils.c) makes.
use uubang_iot.Base.{ℕ, ◌-◌, ◌*◌, ◌%◌, ◌≡◌, ◌≤◌, ap, ◌∙◌, arith}
use uubang_iot.Base.Int.{pos_part}
use uubang_iot.Rsa.{gcd, init_rsa}
use uubang_iot.Rsa.Inverse.{inverse_lem, le_times}

times_le : (a b : ℕ) → 1 ≤ a → 1 ≤ b → 1 ≤ a * b
times_le a b h g = omega (arith, le_times a b g)

-- The two exponents of a new key undo each other: for the primes p and q that were drawn, their product
-- is 1 modulo (p - 1) * (q - 1), if the search for the public one has ended with a number that has no
-- common divisor with (p - 1) * (q - 1).
pub init_rsa-inverse :
    (p q first rounds : ℕ)
    → 2 ≤ p
    → 2 ≤ q
    → 1 ≤ (init_rsa p q first rounds).public_key
    → gcd (init_rsa p q first rounds).public_key ((p - 1) * (q - 1)) ≡ 1
    → let key = init_rsa p q first rounds in
      (key.public_key * key.private_key) % ((p - 1) * (q - 1)) ≡ 1 % ((p - 1) * (q - 1))
unfolding init_rsa
init_rsa-inverse p q first rounds h g some_e coprime =
    let e = (init_rsa p q first rounds).public_key in
    let phi = (p - 1) * (q - 1) in
    let (d, is_d, small, one) =
      inverse_lem e phi some_e (times_le (p - 1) (q - 1) (omega arith) (omega arith)) coprime in
    ap (λ x. (e * pos_part x) % phi) is_d ∙ one
