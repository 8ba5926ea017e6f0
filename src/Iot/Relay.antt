-- ===== src/Iot/Relay.antt =====
-- The requests of `IoTtalk` (src/IoT_Talk.c) with a command for another device.
use uubang_iot.Base.{ℕ, List, [], ◌∷◌, Option, none, ltb, ◌==◌, if◌then◌else◌, length}
use uubang_iot.Base.Int.{ℤ, pos}
use uubang_iot.Base.Bytes.{codes}
use uubang_iot.Text.Caesar.{encrypt_in_place}
use uubang_iot.Talk.{atoi, field}
use uubang_iot.Registry.{UserNode}
use uubang_iot.Registry.Find.{find_online_user_or_iot}
use uubang_iot.Sql.{
  Cln, Run, Event, IotPacket, crash, note, ◌>>=◌, ◌>>◌, on_some, registered, next_seq_num, returns,
}
use uubang_iot.Sql.Writes.{new_iot_cmd_to_be_execute}
use uubang_iot.Sql.Reads.{joined}
use uubang_iot.Registration.{is_one}
use uubang_iot.Iot.{Conn, Device, send_op_back, ends, answers, fields_of, decrypted}

-- `FindOnlineUserOrIot(10, NULL, id)`
abbrev pub online_iot_now : ℕ → Run (Option UserNode)
online_iot_now id w s = (returns (find_online_user_or_iot 10 none id s.heads), s)

-- The packet to the other device: the number and the lock are those of the sender's connection.
unfoldable pub send_op_to : UserNode → List ℕ → Run (Unit {0})
send_op_to temp text w s =
    (next_seq_num >>= λ seq w s.
    let pin = w.pin_at s.log temp.conn_handle in
    let p : IotPacket = record {
      op_code = codes "00";
      seq_num = seq;
      pay_load = encrypt_in_place (length text) 0 pin text;
    } in
    (
      returns tt,
      record s {
        log =
            if w.send_ok s.log
            then Event.sent_to temp.user_socket p ∷ s.log
            else Event.close_other temp.user_socket ∷ Event.sent_to temp.user_socket p ∷ s.log;
      },
    ))
      w s

-- `Send2OnlineUserViaTopServer`; its result is not used.
unfoldable pub send_via_top : Cln → Run (Unit {0})
send_via_top a = note (
    Event.sent_top (record {
      checkcode = a.client.checkcode;
      user_id = a.client.user_id;
      talkto_id = a.talkto_id;
      data_text = a.data_text;
      save = a.client.info;
    }))

-- `CLN tmpw`
abbrev pub blank_cln : Cln
blank_cln = record {
  client = record {
    socket = 0;
    addr = 0;
    user_id = [];
    userkey_id = 0;
    user_password = [];
    checkcode = [];
    info = [];
    conn = 0;
    conn_userkey_id = 0;
  };
  talkto_id = [];
  data_text = [];
  re_user_password = [];
  pin = [];
}

-- 8: SEND CMD TO OTHER DEV. A device that is not online is looked up without a test.
unfoldable pub case_send_cmd : Device → Run (ℤ × Conn)
unfolding send_op_to send_via_top decrypted
case_send_cmd a =
    let (out_str_size, out_str) = fields_of (decrypted a) in
    let id = atoi (field out_str 0) in
    let text = joined (field out_str 1 ∷ field out_str 2 ∷ []) in
    if ltb out_str_size 3
    then ends a.conn (pos 0)
    else online_iot_now id >>= λ temp.
        on_some temp
          (registered 10 none id >>= λ node. on_some node crash λ u.
            send_via_top (record blank_cln {
              client = record blank_cln.client { checkcode = codes "00"; userkey_id = id };
              data_text = text;
              talkto_id = u.user_id;
            })
            >> ends a.conn (pos 1))
          λ temp. send_op_to temp text >> ends a.conn (pos 1)

-- 9: STORE CMD 4 OTHER DEV
unfoldable pub case_store_cmd : Device → Run (ℤ × Conn)
unfolding send_op_back decrypted
case_store_cmd a =
    let (out_str_size, out_str) = fields_of (decrypted a) in
    let class = atoi (field out_str 1) in
    if out_str_size == 3
    then (registered 10 none (atoi (field out_str 0)) >>= λ tmp.
        on_some tmp (send_op_back (codes "29") [] >> ends a.conn (pos 0)) λ u.
          new_iot_cmd_to_be_execute (record a.cln { talkto_id = u.user_id }) (field out_str 2) class
            (if class == 0 then atoi (field out_str 2) else 0) (codes "00:00:00")
          >>= λ res.
              if is_one res
              then answers a.conn (codes "09") []
              else send_op_back (codes "29") [] >> ends a.conn (pos 0))
    else ends a.conn (pos 0)
