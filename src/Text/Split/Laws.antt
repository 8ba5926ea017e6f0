-- ===== src/Text/Split/Laws.antt =====
-- `StrSplit` splits, and its output buffers have the right size.
use uubang_iot.Base.{
  ℕ, zero, suc, ◌+◌, ◌-◌, ◌≡◌, refl, ap, ap₂, ◌∙◌, sym, List, [], ◌∷◌, ◌++◌, map, arith,
  append_assoc, length, get_or, length-append,
}
use uubang_iot.Text.Split.{Piece, cut_loop, string_cut, count_loop, split_loop, str_split}
use uubang_iot.Text.Split.Spec.{
  split_list, rest_list, join, Avoids, AllAvoid, count, split_list-join, join-split_list,
  AllAvoid-split_list, length-split_list,
}

get_or-append : (xs ys : List ℕ) (c d : ℕ) → get_or (xs ++ (c ∷ ys)) (length xs) d ≡ c
get_or-append [] ys c d = refl
get_or-append (x ∷ xs) ys c d = get_or-append xs ys c d

get_or_at :
    (src pre post : List ℕ) (c i : ℕ)
    → src ≡ pre ++ (c ∷ post)
    → i ≡ length pre
    → get_or src i 0 ≡ c
get_or_at src pre post c i e p = rw (e, p) (get_or-append pre post c 0)

module _ (src : List ℕ) where
  shift_right :
      (pre rest : List ℕ) (c : ℕ) → src ≡ pre ++ (c ∷ rest) → src ≡ (pre ++ c ∷ []) ++ rest
  shift_right pre rest c e = e ∙ sym (append_assoc pre (c ∷ []) rest)

  -- Cutting a middle part out.
  cut_loop_lem :
      (pre mid post : List ℕ) (i : ℕ)
      → src ≡ pre ++ (mid ++ post)
      → i ≡ length pre
      → cut_loop src (length mid) i ≡ mid
  unfolding cut_loop
  cut_loop_lem pre [] post i e p = refl
  cut_loop_lem pre (c ∷ mid) post i e p = ap₂ ◌∷◌ (get_or_at src pre (mid ++ post) c i e p) (
      cut_loop_lem (pre ++ c ∷ []) mid post (i + 1) (shift_right pre (mid ++ post) c e)
        (omega (arith, length-append pre (c ∷ []))))

  string_cut_lem :
      (pre mid post : List ℕ) (m i : ℕ)
      → src ≡ pre ++ (mid ++ post)
      → m ≡ length pre
      → i ≡ m + length mid
      → string_cut src m i ≡ mid
  unfolding string_cut
  string_cut_lem pre mid post m i e p q =
      let n : i - m ≡ length mid = omega arith in rw n (cut_loop_lem pre mid post m e p)

  module _ (d : ℕ) where
    -- The loop with `pre` done, `acc` read since the last delimiter, and `rest` to come.
    split_loop-list :
        (pre acc rest tail : List ℕ) (i k m : ℕ)
        → src ≡ pre ++ (acc ++ (rest ++ tail))
        → m ≡ length pre
        → k ≡ length acc
        → i ≡ m + k
        → map (λ (p : Piece). p.text) (split_loop src d (length rest) i k m) ≡ split_list d acc rest
    unfolding split_loop split_list
    split_loop-list pre acc [] tail i k m e p q r = refl
    split_loop-list pre acc (c ∷ rest) tail i k m e p q r = ground (
      arith,
      get_or_at src (pre ++ acc) (rest ++ tail) c i (e ∙ sym assoc),
      length-append pre acc,
      length-append acc (c ∷ []),
      length-append pre (acc ++ c ∷ []),
      string_cut_lem pre acc (c ∷ (rest ++ tail)) m i e p,
      split_loop-list pre (acc ++ c ∷ []) rest tail (i + 1) (k + 1) m
          (e ∙ ap (◌++◌ pre) (sym (append_assoc acc (c ∷ []) (rest ++ tail)))),
      split_loop-list (pre ++ (acc ++ c ∷ [])) [] rest tail (i + 1) 0 (i + 1) (e ∙ regroup),
    )
      where
        assoc : (pre ++ acc) ++ (c ∷ (rest ++ tail)) ≡ pre ++ (acc ++ (c ∷ (rest ++ tail)))
        assoc = append_assoc pre acc (c ∷ (rest ++ tail))

        regroup : pre ++ (acc ++ (c ∷ (rest ++ tail))) ≡ (pre ++ (acc ++ c ∷ [])) ++ (rest ++ tail)
        regroup = simp append_assoc

    count_loop_lem :
        (pre rest tail : List ℕ) (i j : ℕ)
        → src ≡ pre ++ (rest ++ tail)
        → i ≡ length pre
        → count_loop src d (length rest) i j ≡ j + count d rest
    unfolding count_loop count
    count_loop_lem pre [] tail i j e p = omega arith
    count_loop_lem pre (c ∷ rest) tail i j e p = ground (
      arith,
      get_or_at src pre (rest ++ tail) c i e p,
      length-append pre (c ∷ []),
      count_loop_lem (pre ++ c ∷ []) rest tail (i + 1) j (shift_right pre (rest ++ tail) c e),
      count_loop_lem (pre ++ c ∷ []) rest tail (i + 1) (j + 1) (shift_right pre (rest ++ tail) c e),
    )

-- Every entry has room for its text and the NUL, and for no more.
abbrev pub Fit : List Piece → Type 0
Fit [] = Unit {0}
Fit (p ∷ ps) = (p.allocated ≡ length p.text + 1) × Fit ps

length-cut_loop : (src : List ℕ) (n i : ℕ) → length (cut_loop src n i) ≡ n
unfolding cut_loop
length-cut_loop src zero i = refl
length-cut_loop src (suc n) i = ap suc (length-cut_loop src n (i + 1))

split_loop-Fit : (src : List ℕ) (d n i k m : ℕ) → i ≡ m + k → Fit (split_loop src d n i k m)
unfolding split_loop string_cut
split_loop-Fit src d zero i k m e = tt
split_loop-Fit src d (suc n) i k m e = ground (
  arith,
  length-cut_loop src (i - m) m,
  split_loop-Fit src d n (i + 1) (k + 1) m,
  split_loop-Fit src d n (i + 1) 0 (i + 1),
)

abbrev pub texts : List Piece → List (List ℕ)
texts = map (λ (p : Piece). p.text)

str_split-list :
    (d : ℕ) (msg tail : List ℕ)
    → texts (str_split (msg ++ tail) (length msg) d).1 ≡ split_list d [] msg
unfolding str_split
str_split-list d msg tail = split_loop-list (msg ++ tail) d [] [] msg tail 0 0 0 refl refl refl refl

length-texts : (ps : List Piece) → length (texts ps) ≡ length ps
length-texts [] = refl
length-texts (p ∷ ps) = ap suc (length-texts ps)

-- Of the first `length msg` bytes of a buffer, `StrSplit` returns the texts that end in a
-- delimiter: none of them holds a delimiter, and written out again, each with a delimiter behind
-- it, they give the bytes back up to a rest with no delimiter. The count that it stores is the number of the
-- entries, and each entry has room for exactly its text and a NUL.
pub str_split-join :
    (d : ℕ) (msg tail : List ℕ)
    → let (n, ps) = str_split (msg ++ tail) (length msg) d in
      (n ≡ length ps)
      × Fit ps
      × AllAvoid d (texts ps)
      × ((rest : List ℕ) × (join d (texts ps) ++ rest ≡ msg) × Avoids d rest)
str_split-join d msg tail = (
  counted,
  fits,
  rw (listed) (parts.0),
  (rest_list d [] msg, rw (listed) (join-split_list d [] msg), parts.1),
)
  where
    listed : texts (str_split (msg ++ tail) (length msg) d).1 ≡ split_list d [] msg
    listed = str_split-list d msg tail

    parts : AllAvoid d (split_list d [] msg) × Avoids d (rest_list d [] msg)
    parts = AllAvoid-split_list d [] msg tt

    stored : (str_split (msg ++ tail) (length msg) d).0 ≡ 0 + count d msg
    stored = unfold str_split in count_loop_lem (msg ++ tail) d [] msg tail 0 0 refl refl

    counted :
        (str_split (msg ++ tail) (length msg) d).0
        ≡ length (str_split (msg ++ tail) (length msg) d).1
    counted = omega (
      arith,
      stored,
      length-split_list d [] msg,
      ap length listed,
      length-texts (str_split (msg ++ tail) (length msg) d).1,
    )

    fits : Fit (str_split (msg ++ tail) (length msg) d).1
    fits = unfold str_split in split_loop-Fit (msg ++ tail) d (length msg) 0 0 0 refl

-- Fields that hold no delimiter survive: `StrSplit` gives them back from the text that writes each
-- with a delimiter behind it, whatever stands behind the last delimiter.
pub str_split_of_join :
    (d : ℕ) (fields : List (List ℕ)) (rest tail : List ℕ)
    → AllAvoid d fields
    → Avoids d rest
    → let msg = join d fields ++ rest in texts (str_split (msg ++ tail) (length msg) d).1 ≡ fields
str_split_of_join d fields rest tail h g =
    str_split-list d (join d fields ++ rest) tail ∙ split_list-join d fields rest h g
