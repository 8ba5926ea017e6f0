-- ===== src/Text/Caesar.antt =====
-- `Encrypt` and `Decrypt` of src/kaisaEncrypt.c, the pair that the project file compiles: each byte
-- is shifted by a digit of the six-digit PIN, in `char` arithmetic (modulo 256). Also
-- `generateRandIntStr` of src/GenerateRandStr.c, which makes the PIN.
pub mod Laws
use uubang_iot.Base.{ℕ, zero, suc, ◌+◌, ◌-◌, ◌%◌, List, [], ◌∷◌, get_or, set}

abbrev pub add_char : ℕ → ℕ → ℕ
add_char a b = (a + b) % 256

abbrev pub sub_char : ℕ → ℕ → ℕ
sub_char a b = (a + 256 - b) % 256

-- The loops, on the rounds that are left. `source_out` is returned as it then stands.
unfoldable pub encrypt_loop : ℕ → ℕ → List ℕ → List ℕ → List ℕ → List ℕ
encrypt_loop zero i source_in pin source_out = source_out
encrypt_loop (suc n) i source_in pin source_out =
    encrypt_loop n (i + 1) source_in pin
      (set source_out i (add_char (get_or source_in i 0) (get_or pin (i % 6) 0)))

unfoldable pub decrypt_loop : ℕ → ℕ → List ℕ → List ℕ → List ℕ → List ℕ
decrypt_loop zero i source_in pin source_out = source_out
decrypt_loop (suc n) i source_in pin source_out =
    decrypt_loop n (i + 1) source_in pin
      (set source_out i (sub_char (get_or source_in i 0) (get_or pin (i % 6) 0)))

unfoldable pub encrypt : List ℕ → ℕ → List ℕ → List ℕ → List ℕ
encrypt source_in len pin source_out = encrypt_loop len 0 source_in pin source_out

unfoldable pub decrypt : List ℕ → ℕ → List ℕ → List ℕ → List ℕ
decrypt source_in len pin source_out = decrypt_loop len 0 source_in pin source_out

-- The same loops where both pointers name one buffer, as most callers pass them.
unfoldable pub encrypt_in_place : ℕ → ℕ → List ℕ → List ℕ → List ℕ
encrypt_in_place zero i pin buf = buf
encrypt_in_place (suc n) i pin buf =
    encrypt_in_place n (i + 1) pin (set buf i (add_char (get_or buf i 0) (get_or pin (i % 6) 0)))

unfoldable pub decrypt_in_place : ℕ → ℕ → List ℕ → List ℕ → List ℕ
decrypt_in_place zero i pin buf = buf
decrypt_in_place (suc n) i pin buf =
    decrypt_in_place n (i + 1) pin (set buf i (sub_char (get_or buf i 0) (get_or pin (i % 6) 0)))

-- `const unsigned char allChar[11]`
abbrev digit_chars : List ℕ
digit_chars = b'0' ∷ b'1' ∷ b'2' ∷ b'3' ∷ b'4' ∷ b'5' ∷ b'6' ∷ b'7' ∷ b'8' ∷ b'9' ∷ []

-- `generateRandIntStr`: the text left at `dest`; `rand k` is the result of the k-th call of `rand`.
unfoldable pub generate_rand_int_str : (ℕ → ℕ) → ℕ → ℕ → List ℕ
generate_rand_int_str rand cnt zero = []
generate_rand_int_str rand cnt (suc n) =
    get_or digit_chars (rand cnt % 10) 0 ∷ generate_rand_int_str rand (cnt + 1) n
