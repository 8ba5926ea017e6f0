-- ===== src/Daily.antt =====
-- `CreateDailyMsgdbThread` (src/CreateDailyMsgdb.c): the tries to create the table of the day.
use uubang_iot.Base.{
  ℕ, zero, suc, ◌+◌, ◌≡◌, ◌<◌, refl, ◌⊎◌, inl, inr, Bool, true, false, ◌==◌, leb, if◌then◌else◌,
  arith, Bool-cases, ap, subst, ℕ_discrete, ◌∙◌,
}
use uubang_iot.Base.Int.{ℤ, pos, negsuc}

abbrev pub is_nought : ℤ → Bool
is_nought (pos n) = n == 0
is_nought (negsuc n) = false

-- `while(i++<100&&!flag)`, on the rounds left, where `result k` is what the k-th call of
-- `NewUserMsgTableInSQL` returns, counted from 1: the new `i`, and `flag`.
unfoldable pub create_tries : (ℕ → ℤ) → ℕ → ℕ → ℕ × Bool
create_tries result zero i = (i + 1, false)
create_tries result (suc rounds) i =
    let rest = create_tries result rounds (i + 1) in
    if is_nought (result (i + 1)) then rest else (i + 1, true)

-- One round of the outer loop within a day that has its table to come: the new `flag`, and whether the
-- process exits with -12.
unfoldable pub daily_round : (ℕ → ℤ) → Bool → Bool × Bool
unfolding create_tries
daily_round result flag =
    if flag then (true, false) else let (i, flag') = create_tries result 100 0 in (flag', leb 99 i)

-- How the tries from the one after i on end: with the first that is not 0, or with none.
abbrev Tried : (ℕ → ℤ) → ℕ → ℕ × Bool → Type 0
Tried result i r =
    ((r ≡ (101, false)) × ((k : ℕ) → i < k → k < 101 → is_nought (result k) ≡ true))
    ⊎ ((k : ℕ) × (i < k)
        × (k < 101)
        × (is_nought (result k) ≡ false)
        × (r ≡ (k, true))
        × ((m : ℕ) → i < m → m < k → is_nought (result m) ≡ true))

Tried-later :
    (result : ℕ → ℤ) (i : ℕ) (r : ℕ × Bool)
    → is_nought (result (i + 1)) ≡ true
    → Tried result (i + 1) r
    → Tried result i r
Tried-later result i r nought (inl (e, h)) = inl (e, λ k low high. from k low (λ lt. h k lt high))
  where
    from :
        (k : ℕ) → i < k → ((i + 1) < k → is_nought (result k) ≡ true) → is_nought (result k) ≡ true
    from k low rest = elim (ℕ_discrete (i + 1) k) [
      | yes e ↦ subst (λ x. is_nought (result x) ≡ true) e nought
      | no ne ↦ rest (omega arith)
    ]
Tried-later result i r nought (inr (k, low, high, f, e, h)) =
    inr (k, omega arith, high, f, e, λ m below above. from m below (λ lt. h m lt above))
  where
    from :
        (m : ℕ) → i < m → ((i + 1) < m → is_nought (result m) ≡ true) → is_nought (result m) ≡ true
    from m low rest = elim (ℕ_discrete (i + 1) m) [
      | yes e ↦ subst (λ x. is_nought (result x) ≡ true) e nought
      | no ne ↦ rest (omega arith)
    ]

create_tries-Tried :
    (result : ℕ → ℤ) (rounds i : ℕ)
    → i + rounds ≡ 100
    → Tried result i (create_tries result rounds i)
unfolding create_tries
create_tries-Tried result zero i e =
    inl
      (ap (λ n. (n, false)) {x = i + 1} {y = 101} (omega arith), λ k low high. absurd (omega arith))
create_tries-Tried result (suc rounds) i e = elim (Bool-cases (is_nought (result (i + 1)))) [
  | inl nought ↦
      rw nought
        (Tried-later result i _ nought (create_tries-Tried result rounds (i + 1) (omega arith)))
  | inr there ↦
      rw there
        (inr (i + 1, omega arith, omega arith, there, refl, λ m below above. absurd (omega arith)))
]

-- The thread that creates the table of the day always gets through its tries, and gives the process up
-- exactly when the first 98 of them had no connection or another error: with a table that is created, or
-- was there, at one of those tries, it sets its flag and goes on. A table that is created at the 99th or
-- the 100th try does not save the process.
pub daily_round_lem :
    (result : ℕ → ℤ)
    → (((daily_round result false).1 ≡ true)
        × ((k : ℕ) → 0 < k → k < 99 → is_nought (result k) ≡ true))
      ⊎ (((daily_round result false) ≡ (true, false))
          × (k : ℕ) × (0 < k)
          × (k < 99)
          × (is_nought (result k) ≡ false)
          × ((m : ℕ) → 0 < m → m < k → is_nought (result m) ≡ true))
unfolding daily_round
daily_round_lem result = elim (create_tries-Tried result 100 0 refl) [
  | inl (e, h) ↦ inl (ap (λ (r : ℕ × Bool). leb 99 r.0) e, λ k low high. h k low (omega arith))
  | inr (k, low, high, f, e, h) ↦ elim (Bool-cases (leb 99 k)) [
    | inl late ↦ inl (
      ap (λ (r : ℕ × Bool). leb 99 r.0) e ∙ late,
      λ m below above. h m below (ground (arith, late)),
    )
    | inr early ↦ inr (
      ap (λ (r : ℕ × Bool). (r.1, leb 99 r.0)) e ∙ ap (λ b. (true, b)) early,
      k,
      low,
      ground (arith, early),
      f,
      h,
    )
  ]
]
