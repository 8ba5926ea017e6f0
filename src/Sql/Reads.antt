-- ===== src/Sql/Reads.antt =====
-- The commands that send the rows of a result to the peer, each row in a packet of its own.
use uubang_iot.Base.{ℕ, List, [], ◌∷◌, ◌++◌, Option, none, some, ◌==◌, if◌then◌else◌, length}
use uubang_iot.Base.Int.{ℤ, pos}
use uubang_iot.Base.Bytes.{codes, decimal}
use uubang_iot.Text.Caesar.{encrypt_in_place}
use uubang_iot.Talk.{atoi}
use uubang_iot.Registry.{UserNode}
use uubang_iot.Sql.{
  store_result, Cln, Run, Row, Event, UserPacket, IotPacket, pure, crash, note, ◌>>=◌, ◌>>◌,
  get_node, release, query, with_conn, on_some, on_reply, query_or, registered, column, send_user,
  send_iot, next_seq_num,
}
use uubang_iot.Sql.Selects.{
  select_user_scenes, select_iot_scenes, select_evt, select_friends, select_iots, select_msgs,
  select_server_info,
}

-- `while ((row = mysql_fetch_row(res)))`: a row goes on with the rest, or returns.
unfoldable pub row_loop : (Row → Run ℤ → Run ℤ) → Run ℤ → List Row → Run ℤ
row_loop on_row end [] = end
row_loop on_row end (row ∷ rows) = on_row row (row_loop on_row end rows)

-- `release_node(…); mysql_free_result(res); return code;`, and the same the other way round
abbrev pub release_and_free : ℕ → ℤ → Run ℤ
release_and_free temmp code = release temmp >> note Event.result_freed >> pure code

abbrev pub free_and_release : ℕ → ℤ → Run ℤ
free_and_release temmp code = note Event.result_freed >> release temmp >> pure code

-- `SyncSend` and the test of its result, before the next row.
abbrev pub send_row : Run ℤ → UserPacket → Run ℤ → Run ℤ
send_row give_up p rest =
    send_user p >>= λ sent. if sent then rest else note Event.close_socket >> give_up

abbrev pub send_iot_row : Run ℤ → (ℕ → IotPacket) → Run ℤ → Run ℤ
send_iot_row give_up p rest = next_seq_num >>= λ seq.
    send_iot (p seq) >>= λ sent. if sent then rest else note Event.close_socket >> give_up

-- A command that sends what a statement selects.
abbrev pub for_rows : List ℕ → (ℕ → Row → Run ℤ → Run ℤ) → (ℕ → Run ℤ) → Run ℤ
for_rows text on_row end = with_conn λ temmp.
    query_or temmp text (pos 0) λ rows. store_result >> row_loop (on_row temmp) (end temmp) rows

-- The columns, each with a '_' behind it.
abbrev pub joined : List (List ℕ) → List ℕ
joined [] = []
joined (x ∷ xs) = x ++ codes "_" ++ joined xs

abbrev pub encrypted : Cln → List ℕ → List ℕ
encrypted a text = encrypt_in_place (length text) 0 a.pin text

unfoldable pub friend_packet : Cln → Row → UserNode → UserPacket
friend_packet a row temp = record {
  checkcode = codes "RCO";
  user_id = a.client.user_id;
  talkto_id = temp.user_id;
  data_text = [];
  save = column row 2;
}

-- `UserReqFriendRel`
unfoldable pub user_req_friend_rel : Cln → Run ℤ
unfolding row_loop
user_req_friend_rel a =
    for_rows (select_friends a.client.userkey_id)
      (λ temmp row rest. registered 0 none (atoi (column row 1)) >>= λ temp.
        on_some temp (release_and_free temmp (pos 0))
          λ u. send_row (release_and_free temmp (pos 0)) (friend_packet a row u) rest)
      λ temmp. release_and_free temmp (pos 1)

unfoldable pub bond_packet : Cln → Row → UserNode → UserPacket
bond_packet a row temp = record {
  checkcode = codes "RCI";
  user_id = a.client.user_id;
  talkto_id = temp.user_id;
  data_text = temp.info;
  save = column row 2;
}

-- `UserReqIotRel`
unfoldable pub user_req_iot_rel : Cln → Run ℤ
unfolding row_loop
user_req_iot_rel a =
    for_rows (select_iots a.client.userkey_id)
      (λ temmp row rest. registered 10 none (atoi (column row 1)) >>= λ temp.
        on_some temp (release_and_free temmp (pos 0))
          λ u. send_row (free_and_release temmp (pos 0)) (bond_packet a row u) rest)
      λ temmp. release_and_free temmp (pos 1)

unfoldable pub event_packet : Cln → Row → UserPacket
event_packet a row = record {
  checkcode = codes "IOT";
  user_id = a.client.user_id;
  talkto_id = a.talkto_id;
  data_text = joined (
      decimal (atoi (column row 1))
      ∷ decimal (atoi (column row 2))
      ∷ column row 3
      ∷ column row 4
      ∷ []);
  save = column row 4;
}

-- `UserGetIotData`: the device is read without a test.
unfoldable pub user_get_iot_data : Cln → Run ℤ
unfolding row_loop
user_get_iot_data a = registered 10 (some a.talkto_id) 0 >>= λ node. on_some node crash λ u.
    for_rows (select_evt u.userkey_id)
      (λ temmp row rest. send_row (release_and_free temmp (pos 0)) (event_packet a row) rest)
      λ temmp. release_and_free temmp (pos 1)

-- devclass_cmdcontent_status_cmdTime_Exedate_cmdgroup_fromUserid
abbrev pub scene_text : Row → List ℕ
scene_text row = joined (
    column row 2
    ∷ column row 3
    ∷ column row 4
    ∷ column row 5
    ∷ column row 6
    ∷ column row 7
    ∷ column row 8
    ∷ [])

unfoldable pub scene_packet : Cln → Row → UserNode → UserPacket
scene_packet a row temp = record {
  checkcode = codes "SCENE DATA";
  user_id = a.client.user_id;
  talkto_id = temp.user_id;
  data_text = scene_text row;
  save = [];
}

-- `ReadOrDeleteUserScene` with a del that is not 1: the user is read without a test.
unfoldable pub read_user_scene : Cln → List ℕ → Run ℤ
unfolding row_loop
read_user_scene a user_id = registered 0 (some user_id) 0 >>= λ node. on_some node crash λ v.
    for_rows (select_user_scenes v.userkey_id)
      (λ temmp row rest. registered 10 none (atoi (column row 1)) >>= λ temp.
        on_some temp (free_and_release temmp (pos 0))
          λ u. send_row (release_and_free temmp (pos 0)) (scene_packet a row u) rest)
      λ temmp. free_and_release temmp (pos 1)

unfoldable pub message_packet : Cln → ℕ → Row → UserPacket
message_packet a direction row = record {
  checkcode = codes "NME";
  user_id = if direction == 0 then a.client.user_id else a.talkto_id;
  talkto_id = if direction == 0 then a.talkto_id else a.client.user_id;
  data_text = column row 2;
  save = column row 3;
}

-- `UserRequestMessage`, with the text of `SqlTime`: the partner is read without a test.
unfoldable pub user_request_message : Cln → ℕ → List ℕ → List ℕ → List ℕ → Run ℤ
unfolding row_loop
user_request_message a direction date_first date_last time_now =
    registered 0 (some a.talkto_id) 0 >>= λ node. on_some node crash λ u.
      for_rows
        (if direction == 0
          then select_msgs time_now a.client.userkey_id u.userkey_id date_first date_last
          else select_msgs time_now u.userkey_id a.client.userkey_id date_first date_last)
        (λ temmp row rest.
          send_row (release_and_free temmp (pos 0)) (message_packet a direction row) rest)
        λ temmp. release_and_free temmp (pos 1)

-- Packets to devices are encrypted with the PIN.
unfoldable pub iot_event_packet : Cln → Row → ℕ → IotPacket
iot_event_packet a row seq = record {
  op_code = codes "07";
  seq_num = seq;
  pay_load = encrypted a (
      joined (
        decimal (atoi (column row 0))
        ∷ decimal (atoi (column row 1))
        ∷ decimal (atoi (column row 2))
        ∷ column row 3
        ∷ column row 4
        ∷ []));
}

-- `IotGetIotData`
unfoldable pub iot_get_iot_data : Cln → ℕ → Run ℤ
unfolding row_loop
iot_get_iot_data a read_iot_id =
    for_rows (select_evt read_iot_id)
      (λ temmp row rest.
        send_iot_row (release_and_free temmp (pos 0)) (iot_event_packet a row) rest)
      λ temmp. release_and_free temmp (pos 1)

unfoldable pub iot_scene_packet : Cln → Row → ℕ → IotPacket
iot_scene_packet a row seq = record {
  op_code = codes "06";
  seq_num = seq;
  pay_load = encrypted a (scene_text row);
}

-- `IotReadSelfSceneCmd`
unfoldable pub iot_read_self_scene_cmd : Cln → ℕ → Run ℤ
unfolding row_loop
iot_read_self_scene_cmd a iot_key =
    for_rows (select_iot_scenes iot_key)
      (λ temmp row rest.
        send_iot_row (release_and_free temmp (pos 0)) (iot_scene_packet a row) rest)
      λ temmp. free_and_release temmp (pos 1)

abbrev pub first_column : List Row → ℕ → Run (Option (List ℕ))
first_column [] index = crash
first_column (row ∷ rows) index = pure (some (column row index))

-- `GetUpdateTimeStamp`: the column of the first row, read after the result is freed; NULL is `none`.
unfoldable pub get_update_time_stamp : ℕ → ℕ → Run (Option (List ℕ))
get_update_time_stamp user_id index = get_node >>= λ node. on_some node (pure none) λ temmp.
    query temmp (select_server_info user_id) >>= λ r.
    on_reply r (λ e. release temmp >> pure none)
      λ n rows.
        store_result >> (release temmp >> (note Event.result_freed >> first_column rows index))
