-- ===== src/Rsa/Inverse.antt =====
-- `inverse` (src/RSAUtils.c) is the inverse modulo its second argument.
use native.Mathlib.Nat.{mod-lt, div-add-mod, add-mul-mod_self_right}
use uubang_iot.Base.{
  ℕ, zero, suc, ◌+◌, ◌-◌, ◌*◌, ◌/◌, ◌%◌, ◌==◌, ◌≡◌, ◌≢◌, ◌≤◌, ◌<◌, refl, ap, sym, subst, ◌∙◌, ◌⊎◌,
  inl, inr, arith, Bool-cases, if◌then◌else◌,
}
use uubang_iot.Base.Int.{ℤ, pos, sub_ℕ, pos_part, neg_part, ltb_ℤ, ◌+ℤ◌, ◌-ℤ◌, ◌*ℤ◌}
use uubang_iot.Rsa.{gcd_loop, gcd, inverse_loop, inverse}

abbrev pub neg : ℕ → ℤ
neg v = sub_ℕ 0 v

sub_parts : (a b : ℕ) → pos_part (sub_ℕ a b) + b ≡ neg_part (sub_ℕ a b) + a
sub_parts a b = ground arith

sub_same : (a b c d : ℕ) → a + d ≡ c + b → sub_ℕ a b ≡ sub_ℕ c d
sub_same a b c d h = ground arith

one_part : (v : ℕ) → (pos_part (neg v) ≡ 0) × (neg_part (neg v) ≡ v)
one_part v = (ground arith, ground arith)

sub_zero : (a : ℕ) → sub_ℕ a 0 ≡ pos a
sub_zero a = ground arith

minus-times_neg : (u q v : ℕ) → pos u -ℤ pos q *ℤ neg v ≡ pos (u + q * v)
unfolding ◌-ℤ◌ ◌*ℤ◌
minus-times_neg u q v =
    let (none_there, all) = one_part v in
    let a = q * pos_part (neg v) + 0 * neg_part (neg v) in
    let b = q * neg_part (neg v) + 0 * pos_part (neg v) in
    sub_same (u + neg_part (sub_ℕ a b)) (0 + pos_part (sub_ℕ a b)) (u + q * v) 0
      (omega (arith, sub_parts a b, ap (λ x. q * x) none_there, ap (λ x. q * x) all))
    ∙ sub_zero (u + q * v)

minus-times_pos : (u q v : ℕ) → neg u -ℤ pos q *ℤ pos v ≡ neg (u + q * v)
unfolding ◌-ℤ◌ ◌*ℤ◌
minus-times_pos u q v =
    let (none_there, all) = one_part u in
    let a = q * v + 0 * 0 in
    let b = q * 0 + 0 * v in
    sub_same (pos_part (neg u) + neg_part (sub_ℕ a b)) (neg_part (neg u) + pos_part (sub_ℕ a b)) 0
      (u + q * v) (omega (arith, sub_parts a b, none_there, all))

pub le_times : (v a : ℕ) → 1 ≤ a → v ≤ v * a
le_times v zero h = absurd (omega arith)
le_times v (suc a) h = omega arith

module _ (n m : ℕ) where
  -- u * n is a modulo m, and -u * n is.
  abbrev Plus : ℕ → ℕ → Type 0
  Plus u a = (k : ℕ) × (l : ℕ) × (u * n + k * m ≡ a + l * m)

  abbrev Minus : ℕ → ℕ → Type 0
  Minus u a = (k : ℕ) × (l : ℕ) × (k * m ≡ a + u * n + l * m)

  -- What the loop ends with: a coefficient of g, of either sign, that is not beyond m.
  abbrev Ends : ℕ → ℤ → Type 0
  Ends g x =
      ((u : ℕ) × (x ≡ pos u) × (u ≤ m) × Plus u g) ⊎ ((u : ℕ) × (x ≡ neg u) × (u ≤ m) × Minus u g)

  step-Plus : (a b u v : ℕ) → Plus u a → Minus v b → Plus (u + a / b * v) (a % b)
  step-Plus a b u v (k0, l0, e0) (k1, l1, e1) = step (a / b) (a % b) (div-add-mod a b)
    where
      step : (q r : ℕ) → b * q + r ≡ a → Plus (u + q * v) r
      step q r d = (k0 + q * l1, l0 + q * k1, omega (arith, ap (λ x. q * x) e1))

  step-Minus : (a b u v : ℕ) → Minus u a → Plus v b → Minus (u + a / b * v) (a % b)
  step-Minus a b u v (k0, l0, e0) (k1, l1, e1) = step (a / b) (a % b) (div-add-mod a b)
    where
      step : (q r : ℕ) → b * q + r ≡ a → Minus (u + q * v) r
      step q r d = (k0 + q * l1, l0 + q * k1, omega (arith, ap (λ x. q * x) e1))

  step-product : (a b u v : ℕ) → u * b + v * a ≡ m → v * (a % b) + (u + a / b * v) * b ≡ m
  step-product a b u v e = step (a / b) (a % b) (div-add-mod a b)
    where
      step : (q r : ℕ) → b * q + r ≡ a → v * r + (u + q * v) * b ≡ m
      step q r d = omega (arith, ap (λ x. v * x) d)

  -- The state of the loop, with x0 = u and x = -v, or x0 = -u and x = v.
  record At (fuel a b u v : ℕ) : Type 0 where
    enough : b < fuel
    some_a : 1 ≤ a
    small : u ≤ m
    product : u * b + v * a ≡ m

  next : (fuel a b u v : ℕ) → At (suc fuel) a b u v → b ≢ 0 → At fuel b (a % b) v (u + a / b * v)
  next fuel a b u v s some_b = record {
    enough = omega (arith, mod-lt a {m = b} (omega (arith, some_b)), s.enough);
    some_a = omega (arith, some_b);
    small = omega (arith, le_times v a s.some_a, s.product);
    product = step-product a b u v s.product;
  }

  inverse_loop-Ends :
      (fuel a b u v : ℕ) (y y0 : ℤ)
      → At fuel a b u v
      → (Plus u a
          → Minus v b
          → Ends (gcd_loop fuel a b) (inverse_loop fuel a b (neg v) y (pos u) y0))
        × (Minus u a
            → Plus v b
            → Ends (gcd_loop fuel a b) (inverse_loop fuel a b (pos v) y (neg u) y0))
  unfolding gcd_loop inverse_loop
  inverse_loop-Ends zero a b u v y y0 s = absurd (omega (arith, s.enough))
  inverse_loop-Ends (suc fuel) a b u v y y0 s = elim (Bool-cases (b == 0)) [
    | inl e ↦
        rw (e, inverse_loop, gcd_loop)
          ((λ p q. inl (u, refl, s.small, p)), (λ p q. inr (u, refl, s.small, p)))
    | inr ne ↦
        let further : At fuel b (a % b) v (u + a / b * v) =
          next fuel a b u v s (ground (arith, ne)) in
        rw (ne, inverse_loop, gcd_loop, minus-times_neg u (a / b) v, minus-times_pos u (a / b) v)
          (
            (λ p q.
                (inverse_loop-Ends fuel b (a % b) v (u + a / b * v) _ y further).1 q
                  (step-Plus a b u v p q)),
            (λ p q.
                (inverse_loop-Ends fuel b (a % b) v (u + a / b * v) _ y further).0 q
                  (step-Minus a b u v p q)),
          )
  ]

mod_same : (m a b k l : ℕ) → a + k * m ≡ b + l * m → a % m ≡ b % m
mod_same m a b k l e =
    sym (add-mul-mod_self_right a k m) ∙ (ap (λ x. x % m) e ∙ add-mul-mod_self_right b l m)

-- The line below the loop.
abbrev lifted : ℤ → ℕ → ℤ
lifted x m = if ltb_ℤ x (pos 0) then x +ℤ pos m else x

lifted-pos : (u m : ℕ) → lifted (pos u) m ≡ pos u
lifted-pos u m = ground arith

lifted-neg : (u m : ℕ) → suc u ≤ m → lifted (neg (suc u)) m ≡ pos (m - suc u)
unfolding ◌+ℤ◌
lifted-neg u m h = ground (arith, h)

lifted-Ends :
    (n m : ℕ) (x : ℤ)
    → Ends n m 1 x
    → (d : ℕ) × (lifted x m ≡ pos d) × (d ≤ m) × ((n * d) % m ≡ 1 % m)
lifted-Ends n m x (inl (u, e, small, (k, l, h))) =
    (u, ap (λ x. lifted x m) e ∙ lifted-pos u m, small, mod_same m (n * u) 1 k l (omega arith))
lifted-Ends n m x (inr (zero, e, small, (k, l, h))) = (
  0,
  ap (λ x. lifted x m) e ∙ lifted-pos 0 m,
  omega arith,
  mod_same m (n * 0) 1 k l (omega arith),
)
lifted-Ends n m x (inr (suc u, e, small, (k, l, h))) = (
  m - suc u,
  ap (λ x. lifted x m) e ∙ lifted-neg u m small,
  omega arith,
  mod_same m (n * (m - suc u)) 1 k (l + n) (omega (arith, h, ap (λ x. n * x) split)),
)
  where
    split : (m - suc u) + suc u ≡ m
    split = omega arith

-- `inverse` halts, and for a number and a modulus that have no common divisor but 1, neither of them 0,
-- its result is a number from 0 to the modulus; the product of the two is 1 modulo the modulus.
pub inverse_lem :
    (n m : ℕ)
    → 1 ≤ n
    → 1 ≤ m
    → gcd n m ≡ 1
    → (d : ℕ) × (inverse n m ≡ pos d) × (d ≤ m) × ((n * d) % m ≡ 1 % m)
unfolding inverse gcd
inverse_lem n m some_n some_m coprime = lifted-Ends n m _ (
    subst (λ g. Ends n m g (inverse_loop (m + 1) n m (pos 0) (pos 1) (pos 1) (pos 0))) coprime
      ((inverse_loop-Ends n m (m + 1) n m 1 0 (pos 1) (pos 0) start).0 (0, 0, omega arith)
        (1, 0, omega arith)))
  where
    start : At n m (m + 1) n m 1 0
    start = record { enough = omega arith; some_a = some_n; small = some_m; product = omega arith }
