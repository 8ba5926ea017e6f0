-- ===== src/Text.antt =====
-- The text helpers: src/hash.c, src/String.c, src/StrSplit.c, src/kaisaEncrypt.c and
-- src/GenerateRandStr.c. A buffer is the list of its bytes (numbers below 256); `char` is signed.
pub mod Hash
pub mod Split
pub mod Caesar
