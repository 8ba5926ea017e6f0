-- ===== src/Rsa/Power.antt =====
-- `modpow` is the power modulo c.
use native.Mathlib.Nat.{
  mod-lt, mod-eq_of_lt, mod-add-div, pow-zero, pow-suc, add-mul-mod_self_left, mul_assoc, mul_comm,
  mul-one, one-mul,
}
use uubang_iot.Base.{
  ℕ, zero, suc, ◌+◌, ◌*◌, ◌/◌, ◌%◌, ◌^◌, ◌≡◌, ◌≢◌, ◌≤◌, ◌<◌, ap, ◌∙◌, sym, subst, ◌==◌,
  if◌then◌else◌, arith, ℕ_discrete,
}
use uubang_iot.Rsa.{modpow_loop, modpow}

split_product : (m q c y : ℕ) → (m + c * q) * y ≡ m * y + c * (q * y)
split_product m q c y = omega (arith, mul_assoc c q y)

module _ (c : ℕ) where
  -- A factor may be reduced first.
  pub mod-mul : (x y : ℕ) → (x % c) * y % c ≡ x * y % c
  mod-mul x y = sym (
      ap (λ t. t * y % c) (sym (mod-add-div x c))
      ∙ (ap (λ t. t % c) (split_product (x % c) (x / c) c y)
          ∙ add-mul-mod_self_left (x % c * y) c (x / c * y)))

  mul-mod : (x y : ℕ) → x * (y % c) % c ≡ x * y % c
  mul-mod x y =
      ap (λ t. t % c) (mul_comm x (y % c)) ∙ (mod-mul y x ∙ ap (λ t. t % c) (mul_comm y x))

  pow-mod : (x y k : ℕ) → y * (x % c) ^ k % c ≡ y * x ^ k % c
  pow-mod x y zero = ap (λ t. y * t % c) (pow-zero (x % c) ∙ sym (pow-zero x))
  pow-mod x y (suc k) =
      ap (λ t. y * t % c) (pow-suc (x % c) k)
      ∙ (ap (λ t. t % c) (sym (mul_assoc y ((x % c) ^ k) (x % c)))
          ∙ (mul-mod (y * (x % c) ^ k) x
              ∙ (sym (mod-mul (y * (x % c) ^ k) x)
                  ∙ (ap (λ t. t * x % c) (pow-mod x y k)
                      ∙ (mod-mul (y * x ^ k) x
                          ∙ ap (λ t. t % c)
                              (mul_assoc y (x ^ k) x ∙ ap (◌*◌ y) (sym (pow-suc x k))))))))

square : (a k : ℕ) → (a * a) ^ k ≡ a ^ (k + k)
square a zero = pow-zero (a * a) ∙ sym (pow-zero a)
square a (suc k) =
    pow-suc (a * a) k
    ∙ (ap (λ t. t * (a * a)) (square a k)
        ∙ (sym (mul_assoc (a ^ (k + k)) a a)
            ∙ (ap (λ t. t * a) (sym (pow-suc a (k + k)))
                ∙ (sym (pow-suc a (suc (k + k))) ∙ ap (λ n. a ^ n) two_more))))
  where
    two_more : suc (suc (k + k)) ≡ suc k + suc k
    two_more = omega arith

-- One round of the loop keeps res * a ^ b modulo c.
abbrev round : ℕ → ℕ → ℕ → ℕ → ℕ
round a b c res = if b % 2 == 1 then (res * a) % c else res

round-mod : (a b c res : ℕ) → round a b c res * (a * a % c) ^ (b / 2) % c ≡ res * a ^ b % c
round-mod a b c res = elim (ℕ_discrete (b % 2) 1) [
  | yes odd ↦
      ap (λ t. t * (a * a % c) ^ (b / 2) % c) (ground (arith, odd))
      ∙ (mod-mul c (res * a) ((a * a % c) ^ (b / 2))
          ∙ (pow-mod c (a * a) (res * a) (b / 2)
              ∙ ap (λ t. t % c)
                  (ap (λ t. res * a * t) (square a (b / 2))
                    ∙ (mul_assoc res a (a ^ (b / 2 + b / 2))
                        ∙ ap (◌*◌ res) (
                            mul_comm a (a ^ (b / 2 + b / 2))
                            ∙ (sym (pow-suc a (b / 2 + b / 2)) ∙ ap (λ n. a ^ n) (halves odd)))))))
  | no even ↦
      ap (λ t. t * (a * a % c) ^ (b / 2) % c) (ground (arith, even))
      ∙ (pow-mod c (a * a) res (b / 2)
          ∙ ap (λ t. res * t % c) (square a (b / 2) ∙ ap (λ n. a ^ n) (whole even)))
]
  where
    halves : b % 2 ≡ 1 → suc (b / 2 + b / 2) ≡ b
    halves odd = omega arith

    whole : b % 2 ≢ 1 → b / 2 + b / 2 ≡ b
    whole even = omega arith

-- The loop is right once it runs, and b rounds are enough.
modpow_loop_lem :
    (fuel a b c res : ℕ) → 0 < c → b ≤ fuel → modpow_loop fuel a b c res % c ≡ res * a ^ b % c
unfolding modpow_loop
modpow_loop_lem zero a b c res h enough =
    ap (λ t. t % c) (sym (mul-one res) ∙ ap (◌*◌ res) (sym (pow-zero a) ∙ ap (λ n. a ^ n) none))
  where
    none : 0 ≡ b
    none = omega arith
modpow_loop_lem (suc fuel) a b c res h enough = step (ℕ_discrete b 0) (λ some_left.
    modpow_loop_lem fuel ((a * a) % c) (b / 2) c (round a b c res) h (omega (arith, some_left)))
  where
    step :
        Dec (b ≡ 0)
        → (b ≢ 0
            → modpow_loop fuel ((a * a) % c) (b / 2) c (round a b c res) % c
              ≡ round a b c res * ((a * a) % c) ^ (b / 2) % c)
        → modpow_loop (suc fuel) a b c res % c ≡ res * a ^ b % c
    step (yes e) rest =
        ap (λ t. t % c)
          (ground (arith, e)
            ∙ (sym (mul-one res) ∙ ap (◌*◌ res) (sym (pow-zero a) ∙ ap (λ n. a ^ n) (sym e))))
    step (no ne) rest =
        ap (λ t. t % c) {y = modpow_loop fuel ((a * a) % c) (b / 2) c (round a b c res)} unrolled
        ∙ (rest ne ∙ round-mod a b c res)
      where
        unrolled :
            modpow_loop (suc fuel) a b c res
            ≡ modpow_loop fuel ((a * a) % c) (b / 2) c (round a b c res)
        unrolled = ground (arith, ne)

modpow_loop-bound : (fuel a b c res : ℕ) → res < c → modpow_loop fuel a b c res < c
unfolding modpow_loop
modpow_loop-bound zero a b c res h = h
modpow_loop-bound (suc fuel) a b c res h =
    step (ℕ_discrete b 0) (modpow_loop-bound fuel ((a * a) % c) (b / 2) c (round a b c res) below)
  where
    below : round a b c res < c
    below = elim (ℕ_discrete (b % 2) 1) [
      | yes odd ↦ ground (arith, odd, mod-lt (res * a) {m = c} (omega arith))
      | no even ↦ ground (arith, even)
    ]

    step :
        Dec (b ≡ 0)
        → modpow_loop fuel ((a * a) % c) (b / 2) c (round a b c res) < c
        → modpow_loop (suc fuel) a b c res < c
    step (yes e) rest = ground (arith, e)
    step (no ne) rest =
        subst (λ t. t < c) {x = modpow_loop fuel ((a * a) % c) (b / 2) c (round a b c res)} unrolled
          rest
      where
        unrolled :
            modpow_loop fuel ((a * a) % c) (b / 2) c (round a b c res)
            ≡ modpow_loop (suc fuel) a b c res
        unrolled = ground (arith, ne)

-- For a modulus above 1, `modpow` halts after at most b rounds with the power modulo c.
pub modpow_lem : (a b c : ℕ) → 1 < c → modpow a b c ≡ a ^ b % c
unfolding modpow
modpow_lem a b c h =
    sym (mod-eq_of_lt (modpow_loop-bound b a b c 1 h))
    ∙ (modpow_loop_lem b a b c 1 (omega arith) (omega arith) ∙ ap (λ t. t % c) (one-mul (a ^ b)))
