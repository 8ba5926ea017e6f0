-- ===== src/Packets/Strings.antt =====
-- C strings in arrays of `char`: what copies and `sprintf` leave of them (src/CopyCln2Sendbag.c and
-- src/CopyIotData.c).
use uubang_iot.Base.{
  ℕ, zero, suc, ◌+◌, ◌-◌, ◌≡◌, ◌≤◌, ◌<◌, refl, ap, ◌∙◌, subst, inl, inr, List, [], ◌∷◌, ◌++◌, ◌==◌,
  arith, length, take, drop, set, replicate, length-take, length-drop, length-set, length-append,
  length-replicate, Bool-cases,
}
use uubang_iot.Talk.{c_text, overwrite}
use uubang_iot.Packets.{array_at, memory, copy_array}

-- An array of n + 1 bytes with a NUL in the last.
abbrev pub IsString : ℕ → List ℕ → Type 0
IsString n xs = (length xs ≡ n + 1) × (drop n xs ≡ 0 ∷ [])

pub c_text-zero : (xs ys : List ℕ) → c_text (xs ++ (0 ∷ ys)) ≡ c_text xs
c_text-zero [] ys = refl
c_text-zero (x ∷ xs) ys = rw (c_text-zero xs ys) refl

pub c_text-zeros : (xs : List ℕ) (n : ℕ) → c_text (xs ++ replicate n 0) ≡ c_text xs
c_text-zeros [] zero = refl
c_text-zeros [] (suc n) = refl
c_text-zeros (x ∷ xs) n = rw (c_text-zeros xs n) refl

pub c_text-overwrite : (xs ys : List ℕ) → c_text (c_text xs ++ (0 ∷ ys)) ≡ c_text xs
c_text-overwrite [] ys = refl
c_text-overwrite (x ∷ xs) ys = elim (Bool-cases (x == 0)) [
  | inl nul ↦ rw nul refl
  | inr other ↦ ground (arith, other, c_text-overwrite xs ys)
]

pub length-c_text : (xs : List ℕ) → length (c_text xs) ≤ length xs
length-c_text [] = omega arith
length-c_text (x ∷ xs) = elim (Bool-cases (x == 0)) [
  | inl nul ↦ rw nul (omega arith)
  | inr other ↦ rw other (omega (arith, length-c_text xs))
]

-- A copy of xs to the front of an array, which leaves what is behind it.
drop-replace :
    (n : ℕ) (xs target : List ℕ)
    → length xs ≤ n
    → length xs ≤ length target
    → drop n (xs ++ drop (length xs) target) ≡ drop n target
drop-replace n [] target h g = refl
drop-replace zero (x ∷ xs) target h g = absurd (omega arith)
drop-replace (suc n) (x ∷ xs) [] h g = absurd (omega arith)
drop-replace (suc n) (x ∷ xs) (t ∷ ts) h g = drop-replace n xs ts (omega arith) (omega arith)

replace-IsString :
    (n : ℕ) (xs target : List ℕ)
    → length xs ≤ n
    → IsString n target
    → IsString n (xs ++ drop (length xs) target)
replace-IsString n xs target h (size, nul) = (
  omega (arith, length-append xs (drop (length xs) target), length-drop (length xs) target),
  drop-replace n xs target h (omega arith) ∙ nul,
)

pub copy-IsString :
    (n k : ℕ) (xs target : List ℕ)
    → length xs ≡ k
    → k ≤ n
    → IsString n target
    → IsString n (xs ++ drop k target)
copy-IsString n k xs target e h to =
    subst (λ m. IsString n (xs ++ drop m target)) e (replace-IsString n xs target (omega arith) to)

pub overwrite-IsString :
    (n : ℕ) (buffer text : List ℕ)
    → IsString n buffer
    → length text ≤ n
    → IsString n (overwrite buffer text)
overwrite-IsString n [] text (size, nul) h = absurd (omega arith)
overwrite-IsString zero (b ∷ []) [] (size, nul) h = (refl, refl)
overwrite-IsString zero (b ∷ c ∷ bs) [] (size, nul) h = absurd (omega arith)
overwrite-IsString (suc n) (b ∷ bs) [] (size, nul) h = (size, nul)
overwrite-IsString zero (b ∷ bs) (c ∷ cs) (size, nul) h = absurd (omega arith)
overwrite-IsString (suc n) (b ∷ bs) (c ∷ cs) (size, nul) h =
    let (size', nul') = overwrite-IsString n bs cs (omega arith, nul) (omega arith) in
    rw (next) (omega (arith, size'), nul')
  where
    next : suc (length cs) + 1 ≡ suc (length cs + 1)
    next = omega arith

take-set : (n : ℕ) (xs : List ℕ) → take n (set xs n 0) ≡ take n xs
take-set zero xs = refl
take-set (suc n) [] = refl
take-set (suc n) (x ∷ xs) = ap (◌∷◌ x) (take-set n xs)

-- `copy_array`, from an array of the same size.
module _ (n : ℕ) (source target : List ℕ) (from : length source ≡ n + 1)
    (to : IsString n target) where
  copied : copy_array n source target ≡ take n source ++ (0 ∷ [])
  unfolding copy_array
  copied = rw (take-set n source, to.1) refl

  pub copy_array-IsString : IsString n (copy_array n source target)
  unfolding copy_array
  copy_array-IsString =
      copy-IsString n n (take n (set source n 0)) target
        (omega (arith, length-take n (set source n 0), length-set source n 0)) (omega arith) to

  pub c_text-copy_array : c_text (copy_array n source target) ≡ c_text (take n source)
  c_text-copy_array = ap c_text copied ∙ c_text-zero (take n source) []

pub length-array_at :
    (bytes : List ℕ) (offset n : ℕ)
    → offset + n ≤ length bytes
    → length (array_at bytes offset n) ≡ n
length-array_at bytes offset n h =
    omega (arith, length-take n (drop offset bytes), length-drop offset bytes)

pub length-memory :
    (size len : ℕ) (buffer : List ℕ)
    → len ≤ length buffer
    → len ≤ size
    → length (memory size len buffer) ≡ size
length-memory size len buffer h g = omega (
  arith,
  length-append (take len buffer) (replicate (size - len) 0),
  length-take len buffer,
  length-replicate {A = ℕ} (size - len) 0,
)

pub take-take-append :
    (m p : ℕ) (xs zs : List ℕ)
    → m ≤ length xs
    → m ≤ p
    → take m (take p (take m xs ++ zs)) ≡ take m xs
take-take-append zero p xs zs h g = refl
take-take-append (suc m) p [] zs h g = absurd (omega arith)
take-take-append (suc m) zero (x ∷ xs) zs h g = absurd (omega arith)
take-take-append (suc m) (suc p) (x ∷ xs) zs h g =
    ap (◌∷◌ x) (take-take-append m p xs zs (omega arith) (omega arith))

pub drop-replicate : (k n : ℕ) → drop {A = ℕ} k (replicate n 0) ≡ replicate (n - k) 0
drop-replicate zero n = ap (λ m. replicate m 0) {x = n} {y = n - 0} (omega arith)
drop-replicate (suc k) zero = ap (λ m. replicate m 0) {x = 0} {y = 0 - suc k} (omega arith)
drop-replicate (suc k) (suc n) =
    drop-replicate k n ∙ ap (λ m. replicate m 0) {x = n - k} {y = suc n - suc k} (omega arith)

pub take-append :
    (m n : ℕ) (xs zs : List ℕ) → m ≤ n → n ≤ length xs → take m (take n xs ++ zs) ≡ take m xs
take-append zero n xs zs h g = refl
take-append (suc m) zero xs zs h g = absurd (omega arith)
take-append (suc m) (suc n) [] zs h g = absurd (omega arith)
take-append (suc m) (suc n) (x ∷ xs) zs h g =
    ap (◌∷◌ x) (take-append m n xs zs (omega arith) (omega arith))

pub drop-append :
    (k n : ℕ) (xs zs : List ℕ)
    → k ≤ n
    → n ≤ length xs
    → drop k (take n xs ++ zs) ≡ take (n - k) (drop k xs) ++ zs
drop-append zero n xs zs h g = rw (minus_zero n) refl
  where
    minus_zero : (n : ℕ) → n - 0 ≡ n
    minus_zero n = omega arith
drop-append (suc k) zero xs zs h g = absurd (omega arith)
drop-append (suc k) (suc n) [] zs h g = absurd (omega arith)
drop-append (suc k) (suc n) (x ∷ xs) zs h g =
    drop-append k n xs zs (omega arith) (omega arith)
    ∙ ap (λ m. take m (drop k xs) ++ zs) {x = n - k} {y = suc n - suc k} (omega arith)

pub set-take :
    (n : ℕ) (xs : List ℕ) → n < length xs → set (take (suc n) xs) n 0 ≡ take n xs ++ (0 ∷ [])
set-take n [] h = absurd (omega arith)
set-take zero (x ∷ xs) h = refl
set-take (suc n) (x ∷ xs) h = ap (◌∷◌ x) (set-take n xs (omega arith))
