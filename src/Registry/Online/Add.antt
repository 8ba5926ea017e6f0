-- ===== src/Registry/Online/Add.antt =====
-- What `newOnlineUserOrIotDev` and `AddtoLocal` add.
use uubang_iot.Base.{
  ℕ, zero, suc, ◌+◌, ◌≤◌, ◌<◌, ◌≡◌, refl, ap, ◌∙◌, ◌⊎◌, inl, inr, Option, none, some, if◌then◌else◌,
  arith, Bool-cases, ltb, dec_lt,
}
use uubang_iot.Base.Int.{pos, negsuc}
use uubang_iot.Registry.{Client, Heads, is_iot_id}
use uubang_iot.Registry.Online.{malloc_loop, new_online_user_or_iot_dev, online_node, push_front}

-- The lists with a new session of the client in front of its kind's list.
abbrev pub with_session : Client → ℕ → Heads → Heads
with_session a p h =
    if is_iot_id a.user_id
    then record h { online_iot = push_front (online_node a p) h.online_iot }
    else record h { online_user = push_front (online_node a p) h.online_user }

malloc_loop-some :
    (malloc : ℕ → Option ℕ) (p rounds n k : ℕ)
    → n + rounds ≡ 100
    → n ≤ k
    → k < 100
    → malloc k ≡ some p
    → ((j : ℕ) → j < k → malloc j ≡ none)
    → malloc_loop malloc rounds n ≡ (some p, k + 1)
unfolding malloc_loop
malloc_loop-some malloc p zero n k e le lt m h = absurd (omega arith)
malloc_loop-some malloc p (suc rounds) n k e le lt m h = elim (dec_lt n k) [
  | yes before ↦ ground (
    arith,
    h n before,
    malloc_loop-some malloc p rounds (n + 1) k (omega arith) (omega arith) lt m h,
  )
  | no at ↦ let here : n ≡ k = omega arith in ground (arith, here, ap malloc here)
]

malloc_loop-none :
    (malloc : ℕ → Option ℕ) (rounds n : ℕ)
    → n + suc rounds ≡ 100
    → ((j : ℕ) → j < 99 → malloc j ≡ none)
    → (malloc_loop malloc (suc rounds) n).1 ≡ 100
unfolding malloc_loop
malloc_loop-none malloc zero n e h = ground arith
malloc_loop-none malloc (suc rounds) n e h =
    ground (arith, h n (omega arith), malloc_loop-none malloc rounds (n + 1) (omega arith) h)

-- The session is added, at the first address that `malloc` returns, if one of its first 99 calls
-- succeeds; if all 99 fail the result is -1 and nothing changes, also when the hundredth call succeeds.
pub new_online_user_or_iot_dev_lem :
    (malloc : ℕ → Option ℕ) (a : Client) (h : Heads)
    → ((k p : ℕ)
        → k < 99
        → malloc k ≡ some p
        → ((j : ℕ) → j < k → malloc j ≡ none)
        → new_online_user_or_iot_dev malloc a h ≡ (pos 1, with_session a p h))
      × (((j : ℕ) → j < 99 → malloc j ≡ none)
          → new_online_user_or_iot_dev malloc a h ≡ (negsuc 0, h))
unfolding new_online_user_or_iot_dev
new_online_user_or_iot_dev_lem malloc a h = (
  λ k p lt m before.
      rw
        (
          malloc_loop-some malloc p 100 0 k (omega arith) (omega arith) (omega arith) m before,
          new_online_user_or_iot_dev,
        )
        (ground arith),
  λ fail. ground (arith, malloc_loop-none malloc 99 0 (omega arith) fail),
)

-- Whatever `malloc` does, the lists stay or get one session in front.
pub new_online_user_or_iot_dev_cases :
    (malloc : ℕ → Option ℕ) (a : Client) (h : Heads)
    → ((new_online_user_or_iot_dev malloc a h).1 ≡ h)
      ⊎ ((p : ℕ) × ((new_online_user_or_iot_dev malloc a h).1 ≡ with_session a p h))
unfolding new_online_user_or_iot_dev
new_online_user_or_iot_dev_cases malloc a h = cases (malloc_loop malloc 100 0).0 refl
  where
    cases :
        (r : Option ℕ)
        → (malloc_loop malloc 100 0).0 ≡ r
        → ((new_online_user_or_iot_dev malloc a h).1 ≡ h)
          ⊎ ((p : ℕ) × ((new_online_user_or_iot_dev malloc a h).1 ≡ with_session a p h))
    cases none e = inl (ground arith)
    cases (some p) e = elim (Bool-cases (ltb 99 (malloc_loop malloc 100 0).1)) [
      | inl late ↦ inl (ground arith)
      | inr good ↦ inr (p, ground arith)
    ]

malloc_loop-from :
    (malloc : ℕ → Option ℕ) (p rounds n : ℕ)
    → (malloc_loop malloc rounds n).0 ≡ some p
    → (k : ℕ) × (malloc k ≡ some p)
unfolding malloc_loop
malloc_loop-from malloc p zero n e = cc
malloc_loop-from malloc p (suc rounds) n e =
    by_call (malloc n) refl (malloc_loop-from malloc p rounds (n + 1))
  where
    by_call :
        (o : Option ℕ)
        → malloc n ≡ o
        → ((malloc_loop malloc rounds (n + 1)).0 ≡ some p → (k : ℕ) × (malloc k ≡ some p))
        → (k : ℕ) × (malloc k ≡ some p)
    by_call (some q) m rest = let same : some q ≡ some p = ground (arith, e, m) in (n, m ∙ same)
    by_call none m rest = elim (Bool-cases (ltb (n + 1) 100)) [
      | inl more ↦ rest (ground (arith, e, m, more))
      | inr full ↦ let no : some p ≡ none = ground (arith, e, m, full) in cc
    ]

-- The same, with the call of `malloc` that gave the memory.
pub new_online_user_or_iot_dev_from :
    (malloc : ℕ → Option ℕ) (a : Client) (h : Heads)
    → ((new_online_user_or_iot_dev malloc a h).1 ≡ h)
      ⊎ ((k p : ℕ) × (malloc k ≡ some p)
          × ((new_online_user_or_iot_dev malloc a h).1 ≡ with_session a p h))
unfolding new_online_user_or_iot_dev
new_online_user_or_iot_dev_from malloc a h = cases (malloc_loop malloc 100 0).0 refl
  where
    cases :
        (r : Option ℕ)
        → (malloc_loop malloc 100 0).0 ≡ r
        → ((new_online_user_or_iot_dev malloc a h).1 ≡ h)
          ⊎ ((k p : ℕ) × (malloc k ≡ some p)
              × ((new_online_user_or_iot_dev malloc a h).1 ≡ with_session a p h))
    cases none e = inl (ground arith)
    cases (some p) e = elim (Bool-cases (ltb 99 (malloc_loop malloc 100 0).1)) [
      | inl late ↦ inl (ground arith)
      | inr good ↦ let (k, m) = malloc_loop-from malloc p 100 0 e in inr (k, p, m, ground arith)
    ]
