-- ===== src/Text/Caesar/Laws.antt =====
-- `Decrypt` undoes `Encrypt`, also in place, and an encrypted text holds no NUL.
use uubang_iot.Base.{
  ℕ, zero, suc, ◌+◌, ◌%◌, ◌≤◌, ◌<◌, ◌≡◌, ◌≢◌, refl, List, [], ◌∷◌, arith, ap, ◌∙◌, get_or, set,
  length, length-set, ◌&&◌, ltb, leb, if◌then◌else◌, ◌==◌,
}
use uubang_iot.Text.Caesar.{
  add_char, sub_char, encrypt_loop, decrypt_loop, encrypt, decrypt, encrypt_in_place,
  decrypt_in_place, digit_chars, generate_rand_int_str,
}

get_or-set :
    (xs : List ℕ) (i j v : ℕ)
    → i < length xs
    → get_or (set xs i v) j 0 ≡ (if i == j then v else get_or xs j 0)
get_or-set [] i j v h = absurd (omega arith)
get_or-set (x ∷ xs) zero zero v h = refl
get_or-set (x ∷ xs) zero (suc j) v h = ground arith
get_or-set (x ∷ xs) (suc i) zero v h = ground arith
get_or-set (x ∷ xs) (suc i) (suc j) v h = ground (arith, get_or-set xs i j v)

-- Byte j of the output: shifted if the loop passes j, else as before.
get_or-encrypt_loop :
    (n i : ℕ) (src pin out : List ℕ) (j : ℕ)
    → i + n ≤ length out
    → get_or (encrypt_loop n i src pin out) j 0 ≡ (
        if leb i j && ltb j (i + n)
        then add_char (get_or src j 0) (get_or pin (j % 6) 0)
        else get_or out j 0)
unfolding encrypt_loop
get_or-encrypt_loop zero i src pin out j h = ground arith
get_or-encrypt_loop (suc n) i src pin out j h = ground (
  arith,
  get_or-encrypt_loop n (i + 1) src pin
      (set out i (add_char (get_or src i 0) (get_or pin (i % 6) 0))) j,
  length-set out i (add_char (get_or src i 0) (get_or pin (i % 6) 0)),
  get_or-set out i j (add_char (get_or src i 0) (get_or pin (i % 6) 0)),
)

get_or-decrypt_loop :
    (n i : ℕ) (src pin out : List ℕ) (j : ℕ)
    → i + n ≤ length out
    → get_or (decrypt_loop n i src pin out) j 0 ≡ (
        if leb i j && ltb j (i + n)
        then sub_char (get_or src j 0) (get_or pin (j % 6) 0)
        else get_or out j 0)
unfolding decrypt_loop
get_or-decrypt_loop zero i src pin out j h = ground arith
get_or-decrypt_loop (suc n) i src pin out j h = ground (
  arith,
  get_or-decrypt_loop n (i + 1) src pin
      (set out i (sub_char (get_or src i 0) (get_or pin (i % 6) 0))) j,
  length-set out i (sub_char (get_or src i 0) (get_or pin (i % 6) 0)),
  get_or-set out i j (sub_char (get_or src i 0) (get_or pin (i % 6) 0)),
)

-- The six digits of a PIN.
abbrev pub IsPin : List ℕ → Type 0
IsPin pin = (k : ℕ) → k < 6 → (b'0' ≤ get_or pin k 0) × (get_or pin k 0 ≤ b'9')

get_or-set_ne : (xs : List ℕ) (i j v : ℕ) → i ≢ j → get_or (set xs i v) j 0 ≡ get_or xs j 0
get_or-set_ne [] i j v h = refl
get_or-set_ne (x ∷ xs) zero zero v h = absurd (h refl)
get_or-set_ne (x ∷ xs) zero (suc j) v h = refl
get_or-set_ne (x ∷ xs) (suc i) zero v h = refl
get_or-set_ne (x ∷ xs) (suc i) (suc j) v h = get_or-set_ne xs i j v (λ e. h (ap suc e))

-- Each byte is read before it is written, so one buffer for both pointers changes nothing.
encrypt_in_place-loop :
    (n i : ℕ) (src pin buf : List ℕ)
    → ((j : ℕ) → i ≤ j → get_or buf j 0 ≡ get_or src j 0)
    → encrypt_in_place n i pin buf ≡ encrypt_loop n i src pin buf
unfolding encrypt_in_place encrypt_loop
encrypt_in_place-loop zero i src pin buf h = refl
encrypt_in_place-loop (suc n) i src pin buf h = rw (h i (omega arith)) (
    encrypt_in_place-loop n (i + 1) src pin
      (set buf i (add_char (get_or src i 0) (get_or pin (i % 6) 0)))
      λ j le. get_or-set_ne buf i j _ (omega arith) ∙ h j (omega arith))

decrypt_in_place-loop :
    (n i : ℕ) (src pin buf : List ℕ)
    → ((j : ℕ) → i ≤ j → get_or buf j 0 ≡ get_or src j 0)
    → decrypt_in_place n i pin buf ≡ decrypt_loop n i src pin buf
unfolding decrypt_in_place decrypt_loop
decrypt_in_place-loop zero i src pin buf h = refl
decrypt_in_place-loop (suc n) i src pin buf h = rw (h i (omega arith)) (
    decrypt_in_place-loop n (i + 1) src pin
      (set buf i (sub_char (get_or src i 0) (get_or pin (i % 6) 0)))
      λ j le. get_or-set_ne buf i j _ (omega arith) ∙ h j (omega arith))

length-encrypt_loop :
    (n i : ℕ) (src pin out : List ℕ) → length (encrypt_loop n i src pin out) ≡ length out
unfolding encrypt_loop
length-encrypt_loop zero i src pin out = refl
length-encrypt_loop (suc n) i src pin out =
    length-encrypt_loop n (i + 1) src pin _
    ∙ length-set out i (add_char (get_or src i 0) (get_or pin (i % 6) 0))

-- `Encrypt` gives the same bytes whether its two pointers name one buffer or two equal ones, and so does `Decrypt`.
pub encrypt-in_place :
    (len : ℕ) (pin buf : List ℕ)
    → (encrypt_in_place len 0 pin buf ≡ encrypt buf len pin buf)
      × (decrypt_in_place len 0 pin buf ≡ decrypt buf len pin buf)
unfolding encrypt decrypt
encrypt-in_place len pin buf = (
  encrypt_in_place-loop len 0 buf pin buf (λ j h. refl),
  decrypt_in_place-loop len 0 buf pin buf (λ j h. refl),
)

-- `Decrypt` with the same PIN gives back every byte that `Encrypt` changed, in another buffer that is long
-- enough, and leaves the bytes from `len` on as they were there.
pub decrypt-encrypt :
    (len : ℕ) (src pin mid out : List ℕ) (j : ℕ)
    → len ≤ length mid
    → len ≤ length out
    → IsPin pin
    → get_or src j 0 < 256
    → get_or (decrypt (encrypt src len pin mid) len pin out) j 0
      ≡ (if ltb j len then get_or src j 0 else get_or out j 0)
unfolding encrypt decrypt
decrypt-encrypt len src pin mid out j h g p b = ground (
  arith,
  get_or-decrypt_loop len 0 (encrypt_loop len 0 src pin mid) pin out j,
  get_or-encrypt_loop len 0 src pin mid j,
  p (j % 6) (omega arith),
)

-- An encrypted text of ASCII characters holds no NUL, so `strlen` of it is the length of the text:
-- the receiver's `Decrypt(data, strlen(data), …)` covers all of it.
pub encrypt-ne-zero :
    (len : ℕ) (src pin out : List ℕ) (j : ℕ)
    → len ≤ length out
    → IsPin pin
    → j < len
    → get_or src j 0 < 128
    → get_or (encrypt src len pin out) j 0 ≢ 0
unfolding encrypt
encrypt-ne-zero len src pin out j h p lt b = omega (arith, shifted, p (j % 6) (omega arith))
  where
    shifted :
        get_or (encrypt_loop len 0 src pin out) j 0
        ≡ add_char (get_or src j 0) (get_or pin (j % 6) 0)
    shifted = ground (arith, get_or-encrypt_loop len 0 src pin out j)

digit_chars_lem : (d : ℕ) → d < 10 → get_or digit_chars d 0 ≡ b'0' + d
digit_chars_lem d h = ground arith

get_or-generate :
    (rand : ℕ → ℕ) (n cnt k : ℕ)
    → k < n
    → get_or (generate_rand_int_str rand cnt n) k 0 ≡ b'0' + rand (cnt + k) % 10
unfolding generate_rand_int_str
get_or-generate rand zero cnt k h = elim h [ ]
get_or-generate rand (suc n) cnt zero h =
    let e : cnt + 0 ≡ cnt = omega arith in rw e (digit_chars_lem (rand cnt % 10) (omega arith))
get_or-generate rand (suc n) cnt (suc k) h =
    let e : cnt + 1 + k ≡ cnt + suc k = omega arith in
    rw (← e) (get_or-generate rand n (cnt + 1) k (omega arith))

length-generate : (rand : ℕ → ℕ) (cnt n : ℕ) → length (generate_rand_int_str rand cnt n) ≡ n
unfolding generate_rand_int_str
length-generate rand cnt zero = refl
length-generate rand cnt (suc n) = ap suc (length-generate rand (cnt + 1) n)

-- `generateRandIntStr(dest, n)` writes n characters, all decimal digits, whatever `rand` returns:
-- the k-th is the last digit of the k-th number. For n = 6 they are a PIN.
pub generate_rand_int_str-IsPin :
    (rand : ℕ → ℕ)
    → IsPin (generate_rand_int_str rand 0 6)
      × ((n : ℕ) → length (generate_rand_int_str rand 0 n) ≡ n)
      × ((n k : ℕ) → k < n → get_or (generate_rand_int_str rand 0 n) k 0 ≡ b'0' + rand (0 + k) % 10)
generate_rand_int_str-IsPin rand = (
  λ k h. omega (arith, get_or-generate rand 6 0 k h),
  length-generate rand 0,
  λ n k h. get_or-generate rand n 0 k h,
)
