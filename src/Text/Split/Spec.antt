-- ===== src/Text/Split/Spec.antt =====
-- The split of a list at a delimiter, without indices.
use uubang_iot.Base.{
  ℕ, ◌≡◌, ◌≢◌, refl, ap, ◌∙◌, List, [], ◌∷◌, ◌++◌, true, false, ◌==◌, arith, append_assoc,
  append-nil, sym, if◌then◌else◌, ◌+◌, length,
}

-- `acc` holds the bytes since the last delimiter.
unfoldable pub split_list : ℕ → List ℕ → List ℕ → List (List ℕ)
split_list d acc [] = []
split_list d acc (c ∷ s) = elim (c == d) [
  | false ↦ split_list d (acc ++ c ∷ []) s
  | true ↦ acc ∷ split_list d [] s
]

-- What stands after the last delimiter; `StrSplit` drops it.
unfoldable pub rest_list : ℕ → List ℕ → List ℕ → List ℕ
rest_list d acc [] = acc
rest_list d acc (c ∷ s) = elim (c == d) [
  | false ↦ rest_list d (acc ++ c ∷ []) s
  | true ↦ rest_list d [] s
]

-- The text `p1 d p2 d … pn d`, as the program's format strings write it.
abbrev pub join : ℕ → List (List ℕ) → List ℕ
join d [] = []
join d (p ∷ ps) = p ++ d ∷ join d ps

abbrev pub Avoids : ℕ → List ℕ → Type 0
Avoids d [] = Unit {0}
Avoids d (c ∷ s) = (c ≢ d) × Avoids d s

abbrev pub AllAvoid : ℕ → List (List ℕ) → Type 0
AllAvoid d [] = Unit {0}
AllAvoid d (p ∷ ps) = Avoids d p × AllAvoid d ps

unfoldable pub count : ℕ → List ℕ → ℕ
count d [] = 0
count d (c ∷ s) = (if c == d then 1 else 0) + count d s

module _ (d : ℕ) where
  pub split_list-piece :
      (acc p s : List ℕ)
      → Avoids d p
      → split_list d acc (p ++ (d ∷ s)) ≡ (acc ++ p) ∷ split_list d [] s
  unfolding split_list
  split_list-piece acc [] s h = ground (arith, append-nil acc)
  split_list-piece acc (c ∷ p) s h =
      ground (arith, append_assoc acc (c ∷ []) p, split_list-piece (acc ++ c ∷ []) p s h.1)

  pub split_list-Avoids : (acc t : List ℕ) → Avoids d t → split_list d acc t ≡ []
  unfolding split_list
  split_list-Avoids acc [] h = refl
  split_list-Avoids acc (c ∷ t) h = ground (arith, split_list-Avoids (acc ++ c ∷ []) t h.1)

  pub split_list-join :
      (ps : List (List ℕ)) (t : List ℕ)
      → AllAvoid d ps
      → Avoids d t
      → split_list d [] (join d ps ++ t) ≡ ps
  split_list-join [] t h g = split_list-Avoids [] t g
  split_list-join (p ∷ ps) t h g =
      rw (append_assoc p (d ∷ join d ps) t)
        (split_list-piece [] p (join d ps ++ t) h.0 ∙ ap (◌∷◌ p) (split_list-join ps t h.1 g))

  pub join-split_list :
      (acc s : List ℕ) → join d (split_list d acc s) ++ rest_list d acc s ≡ acc ++ s
  unfolding split_list rest_list
  join-split_list acc [] = sym (append-nil acc)
  join-split_list acc (c ∷ s) = ground (
    arith,
    join-split_list (acc ++ c ∷ []) s,
    join-split_list [] s,
    append_assoc acc (c ∷ []) s,
    append_assoc acc (d ∷ join d (split_list d [] s)) (rest_list d [] s),
  )

  Avoids-snoc : (acc : List ℕ) (c : ℕ) → Avoids d acc → c ≢ d → Avoids d (acc ++ c ∷ [])
  Avoids-snoc [] c h n = (n, tt)
  Avoids-snoc (a ∷ acc) c h n = (h.0, Avoids-snoc acc c h.1 n)

  pub AllAvoid-split_list :
      (acc s : List ℕ)
      → Avoids d acc
      → AllAvoid d (split_list d acc s) × Avoids d (rest_list d acc s)
  unfolding split_list rest_list
  AllAvoid-split_list acc [] h = (tt, h)
  AllAvoid-split_list acc (c ∷ s) h = ground (
    arith,
    AllAvoid-split_list [] s tt,
    AllAvoid-split_list (acc ++ c ∷ []) s,
    Avoids-snoc acc c h,
  )

  pub length-split_list : (acc s : List ℕ) → length (split_list d acc s) ≡ count d s
  unfolding split_list count
  length-split_list acc [] = refl
  length-split_list acc (c ∷ s) =
      ground (arith, length-split_list (acc ++ c ∷ []) s, length-split_list [] s)
