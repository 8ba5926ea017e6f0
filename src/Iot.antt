-- ===== src/Iot.antt =====
-- `IoTtalk` (src/IoT_Talk.c): what a worker does with one request of a device, on the sessions of `Sql`.
-- What stays on the connection is returned; the request itself is freed by `talk` afterwards.
pub mod Login
pub mod Data
pub mod Relay
pub mod Cases
pub mod Balance
pub mod Access
pub mod Numbers
use uubang_iot.Base.{
  ℕ, zero, suc, ◌+◌, ◌*◌, ◌/◌, ◌%◌, ◌^◌, List, [], ◌∷◌, ◌++◌, Option, none, some, Bool, true, false,
  ◌&&◌, not, ltb, ◌==◌, if◌then◌else◌, get_or, take, replicate, length,
}
use uubang_iot.Base.Int.{ℤ, pos, negsuc}
use uubang_iot.Base.Bytes.{codes, decimal}
use uubang_iot.Text.Split.{Piece, str_split}
use uubang_iot.Text.Caesar.{encrypt_in_place, decrypt_in_place, generate_rand_int_str}
use uubang_iot.Rsa.{RsaKey}
use uubang_iot.Talk.{atoi, field, c_text}
use uubang_iot.Registry.{Client, UserNode, Heads}
use uubang_iot.Registry.Find.{find_online_user_or_iot}
use uubang_iot.Registry.SignIn.{sign_in, SignedIn}
use uubang_iot.Sql.{
  Cln, Run, Event, World, Session, Ended, UserPacket, IotPacket, pure, crash, note, ◌>>=◌, ◌>>◌,
  on_some, registered, send_iot, next_seq_num, returns,
}
use uubang_iot.Sql.Writes.{
  iot_update_status, iot_read_cmd, iot_delete_cmd, new_iot_cmd_to_be_execute,
}
use uubang_iot.Sql.Reads.{iot_get_iot_data, iot_read_self_scene_cmd, joined, encrypted}
use uubang_iot.Registration.{register, is_one}

-- The fields of the connection that a request changes, without `SeqNum`, which is in the session.
pub record Conn : Type 0 where
  pub key : RsaKey
  pub conn_pin : List ℕ
  pub conn_signed_in : Bool
  pub conn_user_id : List ℕ
  pub conn_key_id : ℕ

-- A request: `data_buffer` is all of `data`, `signed_in` is `info[0] == 'Y'`.
pub record Device : Type 0 where
  pub cln : Cln
  pub key : RsaKey
  pub signed_in : Bool
  pub data_buffer : List ℕ
  pub conn : Conn

-- What chance decides: the key that the last `InitRSA` makes, the results of `rand` for the PIN, and what
-- a variable holds that `Register` leaves uninitialised.
pub record Chance : Type 0 where
  pub new_key : RsaKey
  pub rand : ℕ → ℕ
  pub raw : Client

-- `SEND_OP_BACK`, with the text in `payLoad`
unfoldable pub send_op_back : List ℕ → List ℕ → Run (Unit {0})
send_op_back code text = next_seq_num >>= λ seq.
    send_iot (record { op_code = code; seq_num = seq; pay_load = text }) >>= λ sent.
    if sent then pure tt else note Event.close_socket

abbrev pub ends : Conn → ℤ → Run (ℤ × Conn)
ends conn code = pure (code, conn)

-- The answer, and `break`.
abbrev pub answers : Conn → List ℕ → List ℕ → Run (ℤ × Conn)
answers conn code text = send_op_back code text >> ends conn (pos 1)

abbrev pub fields_of : List ℕ → ℕ × List Piece
fields_of buffer = str_split buffer 200 b'_'

-- `Decrypt(a->data, strlen(a->data), a->Pin, a->data)`
unfoldable pub decrypted : Device → List ℕ
decrypted a = decrypt_in_place (length (c_text a.data_buffer)) 0 a.cln.pin a.data_buffer
