-- ===== src/Text/Split.antt =====
-- `Stringcut` (src/String.c) and `StrSplit` (src/StrSplit.c). Its allocations are taken to succeed.
pub mod Spec
pub mod Laws
use uubang_iot.Base.{
  ℕ, zero, suc, ◌+◌, ◌-◌, List, [], ◌∷◌, true, false, ◌==◌, get_or, if◌then◌else◌,
}

-- The loop of `Stringcut` on the rounds that are left: the bytes of `str` from index i on.
unfoldable pub cut_loop : List ℕ → ℕ → ℕ → List ℕ
cut_loop str zero i = []
cut_loop str (suc n) i = get_or str i 0 ∷ cut_loop str n (i + 1)

-- `Stringcut(str, m, past - 1, des)`: the text that it leaves in `des`, before the NUL. The last
-- index is given as the one past it, since the call of `StrSplit` may pass -1.
unfoldable pub string_cut : List ℕ → ℕ → ℕ → List ℕ
unfolding cut_loop
string_cut str m past = cut_loop str (past - m) m

-- One entry of `outStr`: the bytes allocated for it, and the text that is copied there.
pub record Piece : Type 0 where
  pub allocated : ℕ
  pub text : List ℕ

-- The first loop: `j`, the number of delimiters among the bytes that are left.
unfoldable pub count_loop : List ℕ → ℕ → ℕ → ℕ → ℕ → ℕ
count_loop src delim zero i j = j
count_loop src delim (suc n) i j =
    count_loop src delim n (i + 1) (if get_or src i 0 == delim then j + 1 else j)

-- The second loop. `k` counts the bytes since the last delimiter, `m` is the index after it.
unfoldable pub split_loop : List ℕ → ℕ → ℕ → ℕ → ℕ → ℕ → List Piece
unfolding string_cut
split_loop src delim zero i k m = []
split_loop src delim (suc n) i k m = elim (get_or src i 0 == delim) [
  | false ↦ split_loop src delim n (i + 1) (k + 1) m
  | true ↦
      record { allocated = k + 1; text = string_cut src m i }
      ∷ split_loop src delim n (i + 1) 0 (i + 1)
]

-- `StrSplit(src, len, &n, delim)`: `*outBufferLen`, the slots allocated, and the vector's entries.
unfoldable pub str_split : List ℕ → ℕ → ℕ → ℕ × List Piece
unfolding count_loop split_loop
str_split src len delim = (count_loop src delim len 0 0, split_loop src delim len 0 0 0)
