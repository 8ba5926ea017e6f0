-- ===== src/Iot/Numbers.antt =====
-- The sequence numbers of the packets to devices.
pub mod Rules
pub mod Commands
use uubang_iot.Base.{
  ℕ, zero, suc, ◌+◌, ◌≡◌, ◌<◌, refl, sym, subst, inl, inr, List, [], ◌∷◌, Option, none, some, Bool,
  true, false, ◌==◌, if◌then◌else◌, arith, All, Bool-cases, ltb, ◌&&◌, not,
}
use uubang_iot.Base.Int.{ℤ, pos, negsuc}
use uubang_iot.SqlPool.{SqlPool, get_db_connect}
use uubang_iot.Text.Split.{Piece}
use uubang_iot.Registry.{Client, UserNode, Heads}
use uubang_iot.Registry.Online.{addto_local}
use uubang_iot.Sql.{
  Cln, Run, Row, Reply, Event, World, Session, Ended, UserPacket, IotPacket, pure, crash, note,
  after, ◌>>=◌, ◌>>◌, got, get_node, release, query, on_some, on_reply, registered, failed,
  answered, returns, crashes, send_iot, next_seq_num,
}
use uubang_iot.Sql.Writes.{
  iot_update_status, iot_read_cmd, first_cmd, iot_delete_cmd, new_iot_cmd_to_be_execute,
}
use uubang_iot.Sql.Reads.{
  row_loop, send_iot_row, for_rows, release_and_free, free_and_release, iot_get_iot_data,
  iot_read_self_scene_cmd, iot_event_packet, iot_scene_packet,
}
use uubang_iot.Registration.{
  user_regiter, iot_register, put_added, add_client, add_rows, first_key, heads_now, update_iots,
  update_local_reg_user_and_iotlist, register,
}
use uubang_iot.Iot.{Device, Chance, Conn, ends, answers, send_op_back}
use uubang_iot.Iot.Relay.{send_op_to, send_via_top, online_iot_now, case_store_cmd, case_send_cmd}
use uubang_iot.Iot.Login.{sign_in_now, sign_and_answer, case_rsa, case_pin, case_reg_sign}
use uubang_iot.Iot.Data.{
  update_pair, update_loop, case_update, case_read_cmd, case_read_scene, read_loop, case_read_data,
}
use uubang_iot.Iot.Cases.{signed_in_case, iot_talk}
use uubang_iot.Iot.Numbers.Rules.{
  IsSeqNum, IsGood, IsNumbered, Keeps, Keeps-pure, Keeps-if, Keeps-on_reply, Keeps-crash, Keeps->>=,
  Keeps-on_some, Keeps-note, Keeps-get_node, Keeps-release, Keeps-query, Keeps-registered,
  Keeps-heads_now, Keeps-online_iot_now, Keeps-add_client, Keeps-sign_in_now, taken, Keeps-send,
  Keeps-send_op_back, Keeps-send_op_to, Keeps-send_via_top, keeping,
}
use uubang_iot.Iot.Numbers.Commands.{
  Keeps-iot_update_status, Keeps-row_loop, Keeps-send_iot_row, Keeps-for_rows, freed_after,
  freed_before, Keeps-iot_get_iot_data, Keeps-iot_read_self_scene_cmd, Keeps-first_cmd,
  Keeps-iot_read_cmd, Keeps-iot_delete_cmd, Keeps-new_iot_cmd, Keeps-add_rows, Keeps-first_key,
  Keeps-update_iots, Keeps-update_local, Keeps-user_regiter, Keeps-iot_register, Keeps-register,
  commands,
}

-- The loops over the fields of a request.
Keeps-update_pair : (a : Cln) (class value : List ℕ) → Keeps (update_pair a class value)
unfolding update_pair
Keeps-update_pair a class value = search (keeping, commands) depth 16

Keeps-update_loop :
    (a : Cln) (out_str : List Piece) (pairs i : ℕ) → Keeps (update_loop a out_str pairs i)
unfolding update_loop
Keeps-update_loop a out_str zero i = Keeps-pure tt
Keeps-update_loop a out_str (suc pairs) i =
    Keeps->>= _ _ (Keeps-update_pair a _ _) λ x. Keeps-update_loop a out_str pairs (i + 2)

Keeps-read_loop : (a : Cln) (out_str : List Piece) (n i : ℕ) → Keeps (read_loop a out_str n i)
unfolding read_loop
Keeps-read_loop a out_str zero i = Keeps-pure tt
Keeps-read_loop a out_str (suc n) i =
    Keeps->>= _ _ (Keeps-iot_get_iot_data a _) λ x. Keeps-read_loop a out_str n (i + 1)

module _ (a : Device) where
  Keeps-case_update : Keeps (case_update a)
  unfolding case_update
  Keeps-case_update = search (keeping, Keeps-update_loop) depth 9

  Keeps-case_read_cmd : Keeps (case_read_cmd a)
  unfolding case_read_cmd
  Keeps-case_read_cmd = search (keeping, commands) depth 16

  Keeps-case_read_scene : Keeps (case_read_scene a)
  unfolding case_read_scene
  Keeps-case_read_scene = search (keeping, commands) depth 9

  Keeps-case_read_data : Keeps (case_read_data a)
  unfolding case_read_data
  Keeps-case_read_data = search (keeping, Keeps-read_loop) depth 9

  Keeps-case_send_cmd : Keeps (case_send_cmd a)
  unfolding case_send_cmd
  Keeps-case_send_cmd = search keeping depth 16

  Keeps-case_store_cmd : Keeps (case_store_cmd a)
  unfolding case_store_cmd
  Keeps-case_store_cmd = search (keeping, commands) depth 16

  Keeps-signed_in_case : (code : ℕ) → Keeps (signed_in_case a code)
  unfolding signed_in_case
  Keeps-signed_in_case code =
      search
        (
          keeping, Keeps-case_update, Keeps-case_read_cmd, Keeps-case_read_scene,
          Keeps-case_read_data, Keeps-case_send_cmd, Keeps-case_store_cmd,
        )
        depth 12

  Keeps-sign_and_answer : (b : Cln) → Keeps (sign_and_answer a b)
  unfolding sign_and_answer
  Keeps-sign_and_answer b = search keeping depth 16

  Keeps-case_rsa : (r : Chance) → Keeps (case_rsa r a)
  unfolding case_rsa
  Keeps-case_rsa r = search keeping depth 9

  Keeps-case_pin : (r : Chance) → Keeps (case_pin r a)
  unfolding case_pin
  Keeps-case_pin r = search keeping depth 9

  Keeps-case_reg_sign : (r : Chance) → Keeps (case_reg_sign r a)
  unfolding case_reg_sign
  Keeps-case_reg_sign r = search (keeping, commands, Keeps-sign_and_answer) depth 12

  Keeps-iot_talk : (r : Chance) → Keeps (iot_talk r a)
  unfolding iot_talk
  Keeps-iot_talk r =
      search
        (keeping, Keeps-case_rsa r, Keeps-case_pin r, Keeps-case_reg_sign r, Keeps-signed_in_case)
        depth 12

-- Every packet that `IoTtalk` sends to a device, the requester or another, has a sequence number from 1
-- to 127, which fits its one `char`, and the counter of the requester's connection is below 127 when the
-- request ends: so it is after any request, on every path, also one that crashes, if the counter was
-- below 127 before and nothing else sends on the connection meanwhile.
pub iot_talk-IsNumbered :
    (r : Chance) (a : Device) (w : World) (s : Session)
    → s.seq_num < 127
    → IsNumbered s.log (iot_talk r a w s).1
unfolding Keeps
iot_talk-IsNumbered r a w s h = Keeps-iot_talk a r w s.log s (h, ([], refl, tt))
