-- ===== src/Rsa/Gcd.antt =====
-- `gcd` is the greatest common divisor: its divisors are the common divisors.
use native.Mathlib.Nat.{dvd-mod_iff, dvd-zero, mod-lt}
use Prim.Native.Nat.{◌∣◌}
use uubang_iot.Base.{◌↔◌, ℕ, zero, suc, ◌+◌, ◌%◌, ◌≡◌, ◌≢◌, ◌<◌, sym, subst, arith, ℕ_discrete}
use uubang_iot.Rsa.{gcd_loop, gcd}

gcd_loop_lem :
    (fuel a b d : ℕ)
    → b < fuel
    → ((d ∣ gcd_loop fuel a b) → (d ∣ a) × (d ∣ b)) × ((d ∣ a) → (d ∣ b) → d ∣ gcd_loop fuel a b)
unfolding gcd_loop
gcd_loop_lem zero a b d enough = absurd (omega arith)
gcd_loop_lem (suc fuel) a b d enough =
    step (ℕ_discrete b 0)
      (λ ne. gcd_loop_lem fuel b (a % b) d (omega (arith, mod-lt a {m = b} (omega (arith, ne)))))
  where
    Common : ℕ → Type 0
    Common g = ((d ∣ g) → (d ∣ a) × (d ∣ b)) × ((d ∣ a) → (d ∣ b) → d ∣ g)

    step :
        Dec (b ≡ 0)
        → (b ≢ 0
            → ((d ∣ gcd_loop fuel b (a % b)) → (d ∣ b) × (d ∣ a % b))
              × ((d ∣ b) → (d ∣ a % b) → d ∣ gcd_loop fuel b (a % b)))
        → Common (gcd_loop (suc fuel) a b)
    step (yes e) rest =
        subst Common {x = a} (ground (arith, e))
          (λ h. (h, subst (λ x. d ∣ x) (sym e) (dvd-zero d)), λ h k. h)
    step (no ne) rest = subst Common {x = gcd_loop fuel b (a % b)} (ground (arith, ne)) (
      λ h. let k = (rest ne).0 h in ((dvd-mod_iff d {m = a} {n = b} k.0).0 k.1, k.0),
      λ h k. (rest ne).1 k ((dvd-mod_iff d {m = a} {n = b} k).1 h),
    )

-- `gcd` halts, and the divisors of its result are the common divisors of its arguments.
pub gcd_lem : (a b d : ℕ) → (d ∣ gcd a b) ↔ ((d ∣ a) × (d ∣ b))
unfolding gcd
gcd_lem a b d = let r = gcd_loop_lem (b + 1) a b d (omega arith) in (r.0, λ p. r.1 p.0 p.1)
