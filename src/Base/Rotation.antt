-- ===== src/Base/Rotation.antt =====
-- Positions in a ring of n places.
use native.Mathlib.Nat.{mod-eq_of_lt, mod-eq-sub-mod}
use native.Mathlib.Omega.{arith}
use native.Mathlib.Decide.{dec_lt}
use Prim.Native.Nat.{ℕ, suc, ◌+◌, ◌-◌, ◌%◌, ◌<◌}
use mathlib.Core.Path.{◌≡◌}
use mathlib.Core.Logic.{◌≢◌}
use uubang_iot.Base.Tests.{ltb, if◌then◌else◌}

pub mod_twice : (x n : ℕ) → 0 < n → x < n + n → x % n ≡ (if ltb x n then x else x - n)
mod_twice x n h b = elim (dec_lt x n) [
  | yes p ↦ ground (arith, mod-eq_of_lt p)
  | no p ↦ ground (
    arith,
    mod-eq-sub-mod {n = x} {m = n} (omega arith),
    mod-eq_of_lt {n = x - n} {m = n} (omega arith),
  )
]

-- The rounds of one search try different nodes.
pub rotation_ne : (n s i t : ℕ) → s < n → i < t → t < n → (s + t) % n ≢ (s + i) % n
rotation_ne n s i t h lt b = ground (
  arith,
  mod_twice (s + t) n (omega arith) (omega arith),
  mod_twice (s + i) n (omega arith) (omega arith),
)

-- Some round tries node j.
pub rotation_hits : (n s j : ℕ) → s < n → j < n → (t : ℕ) × (t < n) × ((s + t) % n ≡ j)
rotation_hits n s j h b = elim (dec_lt j s) [
  | yes p ↦ (
    j + n - s,
    omega arith,
    ground (arith, mod_twice (s + (j + n - s)) n (omega arith) (omega arith)),
  )
  | no p ↦
      (j - s, omega arith, ground (arith, mod_twice (s + (j - s)) n (omega arith) (omega arith)))
]

-- A rotation by one place and one by k are one by k + 1.
pub rotation_suc : (n s k : ℕ) → s < n → k < n → ((s + 1) % n + k) % n ≡ (s + suc k) % n
rotation_suc n s k h b = ground (
  arith,
  mod_twice (s + 1) n (omega arith) (omega arith),
  mod_twice ((s + 1) % n + k) n (omega arith)
      (omega (arith, mod_twice (s + 1) n (omega arith) (omega arith), at_most)),
  mod_twice (s + suc k) n (omega arith) (omega arith),
)
  where
    at_most : (s + 1) % n < n
    at_most = ground (arith, mod_twice (s + 1) n (omega arith) (omega arith))
