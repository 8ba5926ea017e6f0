-- ===== src/Iot/Login.antt =====
-- The requests RSA, PIN and REG_SIGN of `IoTtalk` (src/IoT_Talk.c): the key, the PIN and the login.
use uubang_iot.Base.{
  ℕ, zero, suc, ◌+◌, ◌*◌, ◌/◌, ◌%◌, ◌^◌, List, [], ◌∷◌, ◌++◌, Option, none, some, true, ◌&&◌, not,
  ltb, ◌==◌, if◌then◌else◌, get_or, take, replicate,
}
use uubang_iot.Base.Int.{ℤ, pos}
use uubang_iot.Base.Bytes.{codes, decimal}
use uubang_iot.Text.Split.{Piece}
use uubang_iot.Text.Caesar.{generate_rand_int_str}
use uubang_iot.Rsa.{encode_message, decode_message}
use uubang_iot.Talk.{field, c_text}
use uubang_iot.Registry.{Client, UserNode}
use uubang_iot.Registry.SignIn.{sign_in, SignedIn}
use uubang_iot.Sql.{Cln, Run, ◌>>=◌, ◌>>◌, registered, returns}
use uubang_iot.Sql.Reads.{joined}
use uubang_iot.Registration.{register, is_one}
use uubang_iot.Iot.{Conn, Device, Chance, send_op_back, ends, answers, fields_of}
use uubang_iot.Rsa.{RsaKey}

-- 1: RSA
unfoldable pub case_rsa : Chance → Device → Run (ℤ × Conn)
unfolding send_op_back
case_rsa r a =
    let k = r.new_key in
    answers (record a.conn { key = k }) (codes "01")
      (joined (decimal k.public_key ∷ decimal k.common_key ∷ decimal k.encrypt_block_bytes ∷ []))

-- An `int` in memory.
abbrev pub int_bytes : ℕ → List ℕ
int_bytes n = n % 256 ∷ n / 256 % 256 ∷ n / 2 ^ 16 % 256 ∷ n / 2 ^ 24 % 256 ∷ []

abbrev pub all_bytes : List ℕ → List ℕ
all_bytes [] = []
all_bytes (n ∷ ns) = int_bytes n ++ all_bytes ns

-- `encodedCrypto`, whose first ints are copied, with the '_' behind them.
unfoldable pub pin_text : RsaKey → List ℕ → List ℕ
pin_text k pin =
    all_bytes (
      take (6 * k.encrypt_block_bytes)
        (encode_message 6 k.encrypt_block_bytes pin k.private_key k.common_key ++ replicate 30 0))
    ++ codes "_"

-- 2: PIN
unfoldable pub case_pin : Chance → Device → Run (ℤ × Conn)
unfolding send_op_back pin_text
case_pin r a =
    let pin = generate_rand_int_str r.rand 0 6 in
    if a.key.encrypt_block_bytes == 0
    then ends a.conn (pos 0)
    else answers (record a.conn { conn_pin = pin }) (codes "02") (pin_text a.key pin)

-- The int at index i of a buffer; behind its end the code reads whatever is there, here 0.
abbrev pub int_at : List ℕ → ℕ → ℕ
int_at bytes i =
    get_or bytes (4 * i) 0
    + get_or bytes (4 * i + 1) 0 * 256
    + get_or bytes (4 * i + 2) 0 * 2 ^ 16
    + get_or bytes (4 * i + 3) 0 * 2 ^ 24

abbrev pub ints_from : List ℕ → ℕ → ℕ → List ℕ
ints_from bytes zero i = []
ints_from bytes (suc n) i = int_at bytes i ∷ ints_from bytes n (i + 1)

-- The request with the name and the password that its two fields carry; the `int`s of `encodedCrypto` are read
-- as not negative.
unfoldable pub with_login : Device → List Piece → Cln
with_login a out_str =
    let k = a.key in
    let crypto =
      ints_from (get_or out_str 1 (record { allocated = 0; text = [] })).text
        (7 * k.encrypt_block_bytes) 0 in
    record a.cln {
      client = record a.cln.client {
        user_id = field out_str 0;
        user_password =
            c_text (decode_message 7 k.encrypt_block_bytes crypto k.private_key k.common_key);
      };
    }

-- `SIGNIN`, on the lists of the session
unfoldable pub sign_in_now : Cln → Run SignedIn
sign_in_now a w s =
    let r = sign_in (w.malloc s.log) a.client s.heads in (returns r, record s { heads = r.heads })

-- The connection after a sign-in; a name that is among the users gives its key.
abbrev pub signed : Conn → Client → Option UserNode → Conn
signed conn a none = record conn {
  conn_signed_in = true;
  conn_user_id = a.user_id;
  conn_key_id = a.conn_userkey_id;
}
signed conn a (some u) = record conn {
  conn_signed_in = true;
  conn_user_id = a.user_id;
  conn_key_id = u.userkey_id;
}

-- From `if(SIGNIN(a)==1)` on, with the login in `b`.
unfoldable pub sign_and_answer : Device → Cln → Run (ℤ × Conn)
unfolding send_op_back sign_in_now
sign_and_answer a b = sign_in_now b >>= λ res.
    if is_one res.result
    then (registered 0 (some b.client.user_id) 0 >>= λ found.
        answers (signed a.conn res.client found) (codes "03") [])
    else answers a.conn (codes "23") []

-- 3: REG_SIGN
unfoldable pub case_reg_sign : Chance → Device → Run (ℤ × Conn)
unfolding with_login sign_and_answer
case_reg_sign r a =
    let (out_str_size, out_str) = fields_of a.data_buffer in
    let b = with_login a out_str in
    if not a.conn.conn_signed_in && not (a.key.encrypt_block_bytes == 0)
    then if ltb out_str_size 2
      then ends a.conn (pos 0)
      else register r.raw b 1 >> sign_and_answer a b
    else answers a.conn (codes "23") []
