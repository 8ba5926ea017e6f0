-- ===== src/Sql/Commands.antt =====
-- The commands of the folder, each a call with its arguments, but for `IotReadCmd` where it reads (it
-- returns a changed request and keeps its result) and `GetUpdateTimeStamp` (it returns a text).
use uubang_iot.Base.{ℕ, List, some, ◌≡◌}
use uubang_iot.Base.Int.{ℤ}
use uubang_iot.Registry.{UserNode, Heads}
use uubang_iot.Registry.Find.{find_register_user_or_iot_node}
use uubang_iot.Sql.{Cln, Run}
use uubang_iot.Sql.Writes.{
  update_sql_info_timestamp, new_user_friend, new_user_iot, new_user_msg_storage,
  new_iot_cmd_to_be_execute, new_user_scene_cmd_store, iot_delete_cmd, iot_update_status,
  user_delete_sce, delete_user_scene, new_user_msg_table_in_sql, create_server_info_in_sql,
  update_server_run_info,
}
use uubang_iot.Sql.Reads.{
  user_req_friend_rel, user_req_iot_rel, user_get_iot_data, read_user_scene, user_request_message,
  iot_get_iot_data, iot_read_self_scene_cmd,
}

pub data Command : Type 0 where
  stamp : ℕ → ℕ → ℕ → Command
  add_friend add_iot store_message : Cln → ℕ → Command
  store_iot_cmd : Cln → List ℕ → ℕ → ℕ → List ℕ → Command
  store_scene : Cln → List ℕ → ℕ → ℕ → ℕ → List ℕ → List ℕ → Command
  drop_iot_cmd : Cln → ℕ → Command
  update_status : Cln → ℕ → ℕ → Command
  drop_scene : ℕ → Command
  drop_user_scene : List ℕ → ℕ → Command
  daily_table : Command
  insert_server : List ℕ → List ℕ → Command
  update_server : List ℕ → List ℕ → ℕ → ℕ → ℕ → ℕ → ℕ → Command
  send_friends send_iots send_iot_events : Cln → Command
  send_scenes : Cln → List ℕ → Command
  send_messages : Cln → ℕ → List ℕ → List ℕ → List ℕ → Command
  send_events_to_iot send_scenes_to_iot : Cln → ℕ → Command

abbrev pub perform : Command → Run ℤ
perform (Command.stamp user_id index flag) = update_sql_info_timestamp user_id index flag
perform (Command.add_friend a id) = new_user_friend a id
perform (Command.add_iot a id) = new_user_iot a id
perform (Command.store_message a id) = new_user_msg_storage a id
perform (Command.store_iot_cmd a cmd dev_class status time) =
    new_iot_cmd_to_be_execute a cmd dev_class status time
perform (Command.store_scene a cmd status devclass group time date) =
    new_user_scene_cmd_store a cmd status devclass group time date
perform (Command.drop_iot_cmd a dev_class) = iot_delete_cmd a dev_class
perform (Command.update_status a evt_class status) = iot_update_status a evt_class status
perform (Command.drop_scene iot_id) = user_delete_sce iot_id
perform (Command.drop_user_scene user_id group) = delete_user_scene user_id group
perform Command.daily_table = new_user_msg_table_in_sql
perform (Command.insert_server id ip) = create_server_info_in_sql id ip
perform (Command.update_server id ip cpu mem tasks users iots) =
    update_server_run_info id ip cpu mem tasks users iots
perform (Command.send_friends a) = user_req_friend_rel a
perform (Command.send_iots a) = user_req_iot_rel a
perform (Command.send_iot_events a) = user_get_iot_data a
perform (Command.send_scenes a user_id) = read_user_scene a user_id
perform (Command.send_messages a direction first last day) =
    user_request_message a direction first last day
perform (Command.send_events_to_iot a id) = iot_get_iot_data a id
perform (Command.send_scenes_to_iot a key) = iot_read_self_scene_cmd a key

abbrev IsRegistered : ℕ → List ℕ → Heads → Type 0
IsRegistered n name h = (u : UserNode) × (find_register_user_or_iot_node n (some name) 0 h ≡ some u)

-- The node that a command reads without a test is registered.
abbrev pub Finds : Command → Heads → Type 0
Finds (Command.store_iot_cmd a cmd dev_class status time) h = IsRegistered 10 a.talkto_id h
Finds (Command.drop_user_scene user_id group) h = IsRegistered 0 user_id h
Finds (Command.send_iot_events a) h = IsRegistered 10 a.talkto_id h
Finds (Command.send_scenes a user_id) h = IsRegistered 0 user_id h
Finds (Command.send_messages a direction first last day) h = IsRegistered 0 a.talkto_id h
Finds _ h = Unit
