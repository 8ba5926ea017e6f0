-- ===== src/Connections/Lifetime.antt =====
-- How long `freeConnMemWait4Free` keeps a connection.
use uubang_iot.Base.{
  ℕ, zero, suc, ◌+◌, ◌*◌, ◌≡◌, ◌≤◌, refl, subst, List, [], ◌∷◌, Option, none, some, true, false,
  arith, Bool-cases, ◌⊎◌, inl, inr, Any,
}
use uubang_iot.Registry.{Client}
use uubang_iot.Connections.{
  ClnLink, Con2FreeArg, Connections, new_link, is_due, aged, reap, free_loop,
  free_conn_mem_wait4_free,
}

-- One pass over one link: none when the connection is freed.
abbrev pub visit : ℕ → ClnLink → Option ClnLink
visit tasks l = elim (is_due tasks l) [ true ↦ none | false ↦ some (aged tasks l) ]

-- The passes one after the other, from pass k on; `work k` is the number of requests then.
abbrev pub visits : (ℕ → ℕ) → ℕ → ℕ → Option ClnLink → Option ClnLink
visits work k n none = none
visits work k zero (some l) = some l
visits work k (suc n) (some l) = visits work (k + 1) n (visit (work k) l)

-- What each pass that keeps a link makes progress towards: 201 is never reached.
abbrev wait : ClnLink → ℕ
wait l = l.left_time * 2 + l.time

record IsWaiting (l : ClnLink) : Type 0 where
  pub time : l.time ≤ 1
  pub left_time : l.left_time ≤ 100

abbrev Progress : ℕ → Option ClnLink → Type 0
Progress n none = Unit
Progress n (some l) = IsWaiting l × (n ≤ wait l)

visit-Progress :
    (tasks n : ℕ) (l : ClnLink) → IsWaiting l → n ≤ wait l → Progress (n + 1) (visit tasks l)
visit-Progress tasks n l w le = elim (Bool-cases (is_due tasks l)) [
  | inl due ↦ subst (Progress (n + 1)) {x = none} (ground arith) tt
  | inr early ↦ subst (Progress (n + 1)) {x = some (aged tasks l)} (ground arith) (
    record { time = ground (arith, w.time); left_time = ground (arith, w.left_time) },
    ground (arith, w.time),
  )
]

visits-Progress :
    (work : ℕ → ℕ) (k n m : ℕ) (l : Option ClnLink)
    → Progress m l
    → Progress (m + n) (visits work k n l)
visits-Progress work k n m none p = tt
visits-Progress work k zero m (some l) (w, le) = (w, omega arith)
visits-Progress work k (suc n) m (some l) (w, le) =
    subst (λ x. Progress x (visits work (k + 1) n (visit (work k) l))) (omega arith)
      (visits-Progress work (k + 1) n (m + 1) _ (visit-Progress (work k) m l w le))

no-Progress : (l : Option ClnLink) → Progress 202 l → l ≡ none
no-Progress none p = refl
no-Progress (some l) (w, le) = absurd (omega (arith, w.time, w.left_time))

-- A link that has just been added is gone after 202 passes, however many requests are in work at
-- each of them.
pub visits-end :
    (work : ℕ → ℕ) (k : ℕ) (arg : Con2FreeArg) → visits work k 202 (some (new_link arg)) ≡ none
visits-end work k arg = no-Progress _ (
    visits-Progress work k 202 0 (some (new_link arg))
      (record { time = omega arith; left_time = omega arith }, omega arith))

-- A connection with no request in work is freed by the second pass.
pub visits-idle :
    (work : ℕ → ℕ) (k : ℕ) (arg : Con2FreeArg)
    → work k ≡ 0
    → work (k + 1) ≡ 0
    → visits work k 2 (some (new_link arg)) ≡ none
visits-idle work k arg e e' = ground (arith, e, e')

abbrev push_some : Option ClnLink → List ClnLink → List ClnLink
push_some none ls = ls
push_some (some l) ls = l ∷ ls

-- The links that a pass keeps.
unfoldable pub survivors : (ℕ → ℕ) → List ClnLink → List ClnLink
survivors tasks [] = []
survivors tasks (l ∷ ls) = elim l.connhandle [
  | none ↦ survivors tasks ls
  | some c ↦ push_some (visit (tasks c) l) (survivors tasks ls)
]

-- The reason to end connection c.
abbrev pub IsEnded : (ℕ → ℕ) → ℕ → ClnLink → Type 0
IsEnded tasks c l = (l.connhandle ≡ some c) × ((tasks c ≡ 0) ⊎ (100 ≤ l.left_time))

module _ (client : ℕ → Client) (tasks : ℕ → ℕ) where
  free_loop-survivors :
      (ls : List ClnLink) (s : Connections) → (free_loop client tasks ls s).0 ≡ survivors tasks ls
  unfolding free_loop survivors
  free_loop-survivors [] s = refl
  free_loop-survivors (l ∷ ls) s =
      handle l.connhandle refl (free_loop-survivors ls s)
        (λ c. free_loop-survivors ls (reap client c l s))
    where
      handle :
          (o : Option ℕ)
          → l.connhandle ≡ o
          → (free_loop client tasks ls s).0 ≡ survivors tasks ls
          → ((c : ℕ) → (free_loop client tasks ls (reap client c l s)).0 ≡ survivors tasks ls)
          → (free_loop client tasks (l ∷ ls) s).0 ≡ survivors tasks (l ∷ ls)
      handle none e stays goes = ground (arith, stays)
      handle (some c) e stays goes = ground (arith, stays, goes c)

  free_loop-closed :
      (x : ℕ) (ls : List ClnLink) (s : Connections)
      → Any (λ c. c ≡ x) (free_loop client tasks ls s).1.closed
      → Any (λ c. c ≡ x) s.closed ⊎ Any (IsEnded tasks x) ls
  unfolding free_loop
  free_loop-closed x [] s m = inl m
  free_loop-closed x (l ∷ ls) s m =
      handle l.connhandle refl (free_loop-closed x ls s)
        (λ c. free_loop-closed x ls (reap client c l s)) m
    where
      here :
          (c : ℕ)
          → l.connhandle ≡ some c
          → is_due (tasks c) l ≡ true
          → (c ≡ x) ⊎ Any (λ c. c ≡ x) s.closed
          → Any (λ c. c ≡ x) s.closed ⊎ Any (IsEnded tasks x) (l ∷ ls)
      here c e due (inl same) = inr (inl (subst (λ y. IsEnded tasks y l) same (e, reason)))
        where
          reason : (tasks c ≡ 0) ⊎ (100 ≤ l.left_time)
          reason = ground (arith, due)
      here c e due (inr before) = inl before

      shift :
          Any (λ c. c ≡ x) s.closed ⊎ Any (IsEnded tasks x) ls
          → Any (λ c. c ≡ x) s.closed ⊎ Any (IsEnded tasks x) (l ∷ ls)
      shift (inl before) = inl before
      shift (inr later) = inr (inr later)

      reaped :
          (c : ℕ)
          → l.connhandle ≡ some c
          → is_due (tasks c) l ≡ true
          → Any (λ c. c ≡ x) (c ∷ s.closed) ⊎ Any (IsEnded tasks x) ls
          → Any (λ c. c ≡ x) s.closed ⊎ Any (IsEnded tasks x) (l ∷ ls)
      reaped c e due (inl m) = here c e due m
      reaped c e due (inr later) = inr (inr later)

      handle :
          (o : Option ℕ)
          → l.connhandle ≡ o
          → (Any (λ c. c ≡ x) (free_loop client tasks ls s).1.closed
              → Any (λ c. c ≡ x) s.closed ⊎ Any (IsEnded tasks x) ls)
          → ((c : ℕ)
              → Any (λ c. c ≡ x) (free_loop client tasks ls (reap client c l s)).1.closed
              → Any (λ c. c ≡ x) (c ∷ s.closed) ⊎ Any (IsEnded tasks x) ls)
          → Any (λ c. c ≡ x) (free_loop client tasks (l ∷ ls) s).1.closed
          → Any (λ c. c ≡ x) s.closed ⊎ Any (IsEnded tasks x) (l ∷ ls)
      handle none e stays goes m = shift (
          stays (
            subst (λ r. Any (λ c. c ≡ x) r) {y = (free_loop client tasks ls s).1.closed}
              (ground arith) m))
      handle (some c) e stays goes m = elim (Bool-cases (is_due (tasks c) l)) [
        | inl due ↦ reaped c e due (
            goes c (
              subst (λ r. Any (λ c. c ≡ x) r)
                {y = (free_loop client tasks ls (reap client c l s)).1.closed} (ground arith) m))
        | inr early ↦ shift (
            stays (
              subst (λ r. Any (λ c. c ≡ x) r) {y = (free_loop client tasks ls s).1.closed}
                (ground arith) m))
      ]

-- A pass of `freeConnMemWait4Free` that gets the mutex keeps the links that are not due, aged, in
-- their order. It ends a connection only if none of its requests is in work, or if its link has
-- already been kept a hundred times because of such requests.
pub free_conn_mem_wait4_free_lem :
    (client : ℕ → Client) (tasks : ℕ → ℕ) (s : Connections)
    → s.free_link_locked ≡ false
    → ((free_conn_mem_wait4_free client tasks s).free_list ≡ survivors tasks s.free_list)
      × ((c : ℕ)
          → Any (λ x. x ≡ c) (free_conn_mem_wait4_free client tasks s).closed
          → Any (λ x. x ≡ c) s.closed ⊎ Any (IsEnded tasks c) s.free_list)
unfolding free_conn_mem_wait4_free
free_conn_mem_wait4_free_lem client tasks s unlocked = (
  ground (arith, unlocked, free_loop-survivors client tasks s.free_list s),
  λ c m. free_loop-closed client tasks c s.free_list s (
      subst (λ r. Any (λ x. x ≡ c) r) {y = (free_loop client tasks s.free_list s).1.closed}
        (ground (arith, unlocked)) m),
)
