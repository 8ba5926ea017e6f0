-- ===== src/Text/Hash.antt =====
-- `DJBHash` (src/hash.c) and the operation codes that `talk` (src/Talk.c) switches on.
use uubang_iot.Base.{
  ℕ, zero, suc, ◌+◌, ◌-◌, ◌*◌, ◌%◌, ◌^◌, ◌≤◌, ◌≡◌, refl, ◌&&◌, Bool, List, [], ◌∷◌, arith, ltb,
  if◌then◌else◌, ◌==◌,
}

-- A `char` that is added to an `unsigned int`: the bytes from 128 on are negative.
abbrev sign_extend : ℕ → ℕ
sign_extend c = if ltb c 128 then c else c + (2 ^ 32 - 256)

-- The loop of `DJBHash`, on the rounds that are left.
unfoldable pub djb_loop : ℕ → List ℕ → ℕ → ℕ
djb_loop zero str hash = hash
djb_loop (suc n) [] hash = hash
djb_loop (suc n) (c ∷ str) hash =
    djb_loop n str (((hash * 32) % 2 ^ 32 + hash + sign_extend c) % 2 ^ 32)

unfoldable pub djb_hash : List ℕ → ℕ → ℕ
unfolding djb_loop
djb_hash str len = djb_loop len str 5381 % 193400000

-- The cases of the switch.
pub data Opcode : Type 0 where
  hba rsa pin sib sia rea rme sce iot taa sto upd add ads icm dsc ioc rco rpa other : Opcode

-- The switch of `talk`, by the constants of its case labels.
unfoldable pub opcode_of_hash : ℕ → Opcode
opcode_of_hash h =
    if h == 57648
    then Opcode.hba
    else if h == 69099
    then Opcode.rsa
    else if h == 66604
    then Opcode.pin
    else if h == 69859
    then Opcode.sib
    else if h == 69858
    then Opcode.sia
    else if h == 68637
    then Opcode.rea
    else if h == 68905
    then Opcode.rme
    else if h == 69664
    then Opcode.sce
    else if h == 59185
    then Opcode.iot
    else if h == 70683
    then Opcode.taa
    else if h == 70235
    then Opcode.sto
    else if h == 72270
    then Opcode.upd
    else if h == 50094
    then Opcode.add
    else if h == 50109
    then Opcode.ads
    else if h == 58782
    then Opcode.icm
    else if h == 53855
    then Opcode.dsc
    else if h == 59168
    then Opcode.ioc
    else if h == 68585
    then Opcode.rco
    else if h == 69000
    then Opcode.rpa
    else Opcode.other

-- A tag of three upper-case letters.
pub record IsTag (a b c : ℕ) : Type 0 where
  pub a_low : b'A' ≤ a
  pub a_high : a ≤ b'Z'
  pub b_low : b'A' ≤ b
  pub b_high : b ≤ b'Z'
  pub c_low : b'A' ≤ c
  pub c_high : c ≤ b'Z'

-- On such tags the hash is linear: it wraps once at 193400000 and never at 2 ^ 32.
pub djb_hash-tag :
    (a b c : ℕ) → IsTag a b c → djb_hash (a ∷ b ∷ c ∷ []) 3 + 23003 ≡ 1089 * a + 33 * b + c
unfolding djb_hash
djb_hash-tag a b c t = ground arith

-- Two different tags of three upper-case letters never share a hash.
pub djb_hash_injective :
    (a b c x y z : ℕ)
    → IsTag a b c
    → IsTag x y z
    → djb_hash (a ∷ b ∷ c ∷ []) 3 ≡ djb_hash (x ∷ y ∷ z ∷ []) 3
    → (a ≡ x) × (b ≡ y) × (c ≡ z)
djb_hash_injective a b c x y z t u e = omega (arith, djb_hash-tag a b c t, djb_hash-tag x y z u)

abbrev pub is_tag : ℕ → ℕ → ℕ → ℕ → ℕ → ℕ → Bool
is_tag a b c x y z = a == x && (b == y && c == z)

-- The comments beside the case labels: the tag that each constant stands for.
unfoldable pub opcode_of_tag : ℕ → ℕ → ℕ → Opcode
opcode_of_tag a b c =
    if is_tag a b c b'H' b'B' b'A'
    then Opcode.hba
    else if is_tag a b c b'R' b'S' b'A'
    then Opcode.rsa
    else if is_tag a b c b'P' b'I' b'N'
    then Opcode.pin
    else if is_tag a b c b'S' b'I' b'B'
    then Opcode.sib
    else if is_tag a b c b'S' b'I' b'A'
    then Opcode.sia
    else if is_tag a b c b'R' b'E' b'A'
    then Opcode.rea
    else if is_tag a b c b'R' b'M' b'E'
    then Opcode.rme
    else if is_tag a b c b'S' b'C' b'E'
    then Opcode.sce
    else if is_tag a b c b'I' b'O' b'T'
    then Opcode.iot
    else if is_tag a b c b'T' b'A' b'A'
    then Opcode.taa
    else if is_tag a b c b'S' b'T' b'O'
    then Opcode.sto
    else if is_tag a b c b'U' b'P' b'D'
    then Opcode.upd
    else if is_tag a b c b'A' b'D' b'D'
    then Opcode.add
    else if is_tag a b c b'A' b'D' b'S'
    then Opcode.ads
    else if is_tag a b c b'I' b'C' b'M'
    then Opcode.icm
    else if is_tag a b c b'D' b'S' b'C'
    then Opcode.dsc
    else if is_tag a b c b'I' b'O' b'C'
    then Opcode.ioc
    else if is_tag a b c b'R' b'C' b'O'
    then Opcode.rco
    else if is_tag a b c b'R' b'P' b'A'
    then Opcode.rpa
    else Opcode.other

tag_test :
    (a b c x y z h k : ℕ)
    → IsTag a b c
    → IsTag x y z
    → h + 23003 ≡ 1089 * a + 33 * b + c
    → k + 23003 ≡ 1089 * x + 33 * y + z
    → (h == k) ≡ is_tag a b c x y z
tag_test a b c x y z h k t u p q = ground arith

-- On a tag of three upper-case letters the switch of `talk` takes the case whose comment names that
-- tag, and the default case when no comment does.
pub opcode_of_hash-tag :
    (a b c : ℕ) → IsTag a b c → opcode_of_hash (djb_hash (a ∷ b ∷ c ∷ []) 3) ≡ opcode_of_tag a b c
unfolding opcode_of_hash opcode_of_tag
opcode_of_hash-tag a b c t =
    rw
      (
        test b'H' b'B' b'A' 57648 (omega arith) (omega arith),
        test b'R' b'S' b'A' 69099 (omega arith) (omega arith),
        test b'P' b'I' b'N' 66604 (omega arith) (omega arith),
        test b'S' b'I' b'B' 69859 (omega arith) (omega arith),
        test b'S' b'I' b'A' 69858 (omega arith) (omega arith),
        test b'R' b'E' b'A' 68637 (omega arith) (omega arith),
        test b'R' b'M' b'E' 68905 (omega arith) (omega arith),
        test b'S' b'C' b'E' 69664 (omega arith) (omega arith),
        test b'I' b'O' b'T' 59185 (omega arith) (omega arith),
        test b'T' b'A' b'A' 70683 (omega arith) (omega arith),
        test b'S' b'T' b'O' 70235 (omega arith) (omega arith),
        test b'U' b'P' b'D' 72270 (omega arith) (omega arith),
        test b'A' b'D' b'D' 50094 (omega arith) (omega arith),
        test b'A' b'D' b'S' 50109 (omega arith) (omega arith),
        test b'I' b'C' b'M' 58782 (omega arith) (omega arith),
        test b'D' b'S' b'C' 53855 (omega arith) (omega arith),
        test b'I' b'O' b'C' 59168 (omega arith) (omega arith),
        test b'R' b'C' b'O' 68585 (omega arith) (omega arith),
        test b'R' b'P' b'A' 69000 (omega arith) (omega arith),
      )
      refl
  where
    test :
        (x y z k : ℕ)
        → IsTag x y z
        → k + 23003 ≡ 1089 * x + 33 * y + z
        → (djb_hash (a ∷ b ∷ c ∷ []) 3 == k) ≡ is_tag a b c x y z
    test x y z k u q = tag_test a b c x y z _ k t u (djb_hash-tag a b c t) q
