-- ===== src/ThreadPool/Threads.antt =====
-- The threads of the pool, counted, and what the administrator's loop changes.
use uubang_iot.Base.{
  ℕ, zero, suc, ◌+◌, ◌≡◌, ◌≤◌, refl, List, [], ◌∷◌, some, true, arith, length, set, get_elem?, inl,
  inr, Bool-cases, dec_lt,
}
use uubang_iot.ThreadPool.{
  Thread, no_thread, at_lock, waiting, holding, running, leaving, exited, is_dead, grow_loop,
}

-- A thread that has not yet decided to end.
abbrev pub live : Thread → ℕ
live no_thread = 0
live at_lock = 1
live waiting = 1
live (holding t) = 1
live (running t) = 1
live leaving = 0
live exited = 0

abbrev pub busy : Thread → ℕ
busy no_thread = 0
busy at_lock = 0
busy waiting = 0
busy (holding t) = 0
busy (running t) = 1
busy leaving = 0
busy exited = 0

abbrev pub total : (Thread → ℕ) → List Thread → ℕ
total w [] = 0
total w (t ∷ ts) = w t + total w ts

pub total-set :
    (w : Thread → ℕ) (ts : List Thread) (i : ℕ) (t u : Thread)
    → get_elem? ts i ≡ some t
    → total w (set ts i u) + w t ≡ total w ts + w u
total-set w [] i t u e = absurd (grind (arith, e))
total-set w (x ∷ ts) zero t u e = ground (arith, e)
total-set w (x ∷ ts) (suc i) t u e = omega (arith, total-set w ts i t u e)

pub load_le_total :
    (w : Thread → ℕ) (ts : List Thread) (i : ℕ) (t : Thread)
    → get_elem? ts i ≡ some t
    → w t ≤ total w ts
load_le_total w [] i t e = absurd (grind (arith, e))
load_le_total w (x ∷ ts) zero t e = ground (arith, e)
load_le_total w (x ∷ ts) (suc i) t e = omega (arith, load_le_total w ts i t e)

-- What the administrator's loop does to the slots and to the number of live threads.
pub record Grown (max n : ℕ) (ts : List Thread) (r : List Thread × ℕ) : Type 0 where
  pub lives : total live r.0 + n ≡ total live ts + r.1
  pub same_busy : total busy r.0 ≡ total busy ts
  pub slots : length r.0 ≡ length ts
  pub low : n ≤ r.1
  pub high : n ≤ max → r.1 ≤ max

pub dead_live : (t : Thread) → is_dead t ≡ true → (live t ≡ 0) × (busy t ≡ 0)
dead_live no_thread e = (refl, refl)
dead_live at_lock e = absurd (grind (arith, e))
dead_live waiting e = absurd (grind (arith, e))
dead_live (holding t) e = absurd (grind (arith, e))
dead_live (running t) e = absurd (grind (arith, e))
dead_live leaving e = absurd (grind (arith, e))
dead_live exited e = (refl, refl)

pub grow_loop-Grown : (more max n : ℕ) (ts : List Thread) → Grown max n ts (grow_loop more max n ts)
unfolding grow_loop
grow_loop-Grown more max n [] = record {
  lives = omega arith;
  same_busy = refl;
  slots = refl;
  low = omega arith;
  high = λ h. h;
}
grow_loop-Grown zero max n (t ∷ ts) = record {
  lives = omega arith;
  same_busy = refl;
  slots = refl;
  low = omega arith;
  high = λ h. h;
}
grow_loop-Grown (suc more) max n (t ∷ ts) =
    round (grow_loop-Grown more max (n + 1) ts) (grow_loop-Grown (suc more) max n ts)
  where
    round :
        Grown max (n + 1) ts (grow_loop more max (n + 1) ts)
        → Grown max n ts (grow_loop (suc more) max n ts)
        → Grown max n (t ∷ ts) (grow_loop (suc more) max n (t ∷ ts))
    round started passed = elim (dec_lt n max) [
      | no full ↦ record {
        lives = ground arith;
        same_busy = ground arith;
        slots = ground arith;
        low = ground arith;
        high = λ h. ground arith;
      }
      | yes room ↦ elim (Bool-cases (is_dead t)) [
        | inl dead ↦ record {
          lives = ground (arith, started.lives, dead_live t dead);
          same_busy = ground (arith, started.same_busy, dead_live t dead);
          slots = ground (arith, started.slots);
          low = ground (arith, started.low);
          high = λ h. ground (arith, started.high (omega arith));
        }
        | inr alive ↦ record {
          lives = ground (arith, passed.lives);
          same_busy = ground (arith, passed.same_busy);
          slots = ground (arith, passed.slots);
          low = ground (arith, passed.low);
          high = λ h. ground (arith, passed.high h);
        }
      ]
    ]
