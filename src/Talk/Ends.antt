-- ===== src/Talk/Ends.antt =====
-- The releases of a request on a path through `talk`: from the counter, and from memory.
use uubang_iot.Base.{
  ℕ, ◌+◌, ◌≡◌, refl, subst, List, [], ◌∷◌, ◌++◌, Bool, true, false, arith, if◌then◌else◌,
  Bool-cases, inl, inr,
}
use uubang_iot.Talk.{
  Call, Action, Flow, Answers, prefix, and_then, reply, finish, breaks, leaves, crashes, did, send,
  close_socket, task_done, free_node,
}

abbrev pub done_once : Action → ℕ
done_once (did c) = 0
done_once (send c) = 0
done_once close_socket = 0
done_once task_done = 1
done_once free_node = 0

abbrev pub freed_once : Action → ℕ
freed_once (did c) = 0
freed_once (send c) = 0
freed_once close_socket = 0
freed_once task_done = 0
freed_once free_node = 1

-- How often a run takes the request off the counter of its connection, and frees its memory.
abbrev pub times_done : List Action → ℕ
times_done [] = 0
times_done (x ∷ xs) = done_once x + times_done xs

abbrev pub times_freed : List Action → ℕ
times_freed [] = 0
times_freed (x ∷ xs) = freed_once x + times_freed xs

-- The actions of a run that ends by n releases of the request, n being 0 or 1.
abbrev pub Ends : ℕ → Flow → Type 0
Ends n (breaks xs) = (times_done xs ≡ 0) × (times_freed xs ≡ 0)
Ends n (leaves xs) = (times_done xs ≡ n) × (times_freed xs ≡ n)
Ends n (crashes xs) = Unit

-- Each case releases the request once where it returns, save for those that give up early.
pub Ends-reply : (w : Answers) (c : List ℕ) → Ends 1 (reply w c)
unfolding reply
Ends-reply w c = elim (Bool-cases (w.send_ok c)) [
  | inl ok ↦ subst (Ends 1) {x = breaks (send c ∷ [])} (ground arith) (refl, refl)
  | inr fails ↦
      subst (Ends 1) {x = leaves (send c ∷ close_socket ∷ task_done ∷ free_node ∷ [])}
        (ground arith) (refl, refl)
]

pub Ends-did : (n : ℕ) (c : Call) (f : Flow) → Ends n f → Ends n (prefix (did c ∷ []) f)
Ends-did n c (breaks xs) h = (omega (arith, h), omega (arith, h))
Ends-did n c (leaves xs) h = (omega (arith, h), omega (arith, h))
Ends-did n c (crashes xs) h = h

pub Ends-two : (n : ℕ) (c d : Call) (f : Flow) → Ends n f → Ends n (prefix (did c ∷ did d ∷ []) f)
Ends-two n c d (breaks xs) h = (omega (arith, h), omega (arith, h))
Ends-two n c d (leaves xs) h = (omega (arith, h), omega (arith, h))
Ends-two n c d (crashes xs) h = h

pub times-append :
    (xs ys : List Action)
    → (times_done (xs ++ ys) ≡ times_done xs + times_done ys)
      × (times_freed (xs ++ ys) ≡ times_freed xs + times_freed ys)
times-append [] ys = (omega arith, omega arith)
times-append (x ∷ xs) ys = (omega (arith, times-append xs ys), omega (arith, times-append xs ys))

pub Ends-and_then : (n : ℕ) (f g : Flow) → Ends n f → Ends n g → Ends n (and_then f g)
Ends-and_then n (breaks xs) (breaks ys) h k =
    (omega (arith, times-append xs ys), omega (arith, times-append xs ys))
Ends-and_then n (breaks xs) (leaves ys) h k =
    (omega (arith, times-append xs ys), omega (arith, times-append xs ys))
Ends-and_then n (breaks xs) (crashes ys) h k = tt
Ends-and_then n (leaves xs) g h k = h
Ends-and_then n (crashes xs) g h k = h

pub Ends-if : (n : ℕ) (b : Bool) (f g : Flow) → Ends n f → Ends n g → Ends n (if b then f else g)
Ends-if n true f g h k = h
Ends-if n false f g h k = k

pub Ends-cond :
    (n : ℕ) (b : Bool) (f g : Flow)
    → (b ≡ true → Ends n f)
    → (b ≡ false → Ends n g)
    → Ends n (if b then f else g)
Ends-cond n true f g h k = h refl
Ends-cond n false f g h k = k refl

pub Ends-finish : (f : Flow) → Ends 1 f → Ends 1 (finish f)
Ends-finish (breaks xs) h = (
  omega (arith, times-append xs (task_done ∷ free_node ∷ [])),
  omega (arith, times-append xs (task_done ∷ free_node ∷ [])),
)
Ends-finish (leaves xs) h = h
Ends-finish (crashes xs) h = h
