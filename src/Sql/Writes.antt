-- ===== src/Sql/Writes.antt =====
-- The commands that write to the database, and `IotReadCmd`, which reads one row.
use uubang_iot.Base.{ℕ, ◌-◌, ◌^◌, List, [], ◌∷◌, ◌++◌, some, ◌==◌, if◌then◌else◌}
use uubang_iot.Base.Int.{ℤ, pos, negsuc}
use uubang_iot.Base.Bytes.{codes, contains}
use uubang_iot.Sql.{
  Cln, Run, Row, Reply, pure, crash, get_node, ◌>>=◌, ◌>>◌, release, query, store_result, with_conn,
  on_some, on_reply, query_or, registered, column, failed, answered, returns,
}
use uubang_iot.Sql.Statements.{
  insert_friend, insert_iot, insert_msg, insert_iot_cmd, insert_scene, delete_iot_cmd, insert_evt,
  update_evt, delete_scene, delete_scene_group, update_server_info, create_table, insert_run_info,
  update_run_info,
}
use uubang_iot.Sql.Selects.{select_iot_cmd}

-- A statement that is the whole command: 0 if it cannot be sent, `code` if it fails, else 1.
abbrev pub one_statement : List ℕ → ℤ → Run ℤ
one_statement text code =
    with_conn λ temmp. query_or temmp text code λ rows. release temmp >> pure (pos 1)

-- `UpdateSqlInfoTimestamp`
unfoldable pub update_sql_info_timestamp : ℕ → ℕ → ℕ → Run ℤ
update_sql_info_timestamp user_id index flag =
    one_statement (update_server_info user_id index flag) (negsuc 0)

-- The end of `NewUserFriend`, `NewUserIot` and `NewUserMsgStorage`: the statement, and then with the
-- node still held the time of the change, whose result is not looked at.
abbrev pub write_and_stamp : List ℕ → ℕ → ℕ → Run ℤ
write_and_stamp text user_id index = with_conn λ temmp.
    query_or temmp text (pos 0)
      λ rows. update_sql_info_timestamp user_id index 0 >> (release temmp >> pure (pos 1))

-- `NewUserFriend`
unfoldable pub new_user_friend : Cln → ℕ → Run ℤ
unfolding update_sql_info_timestamp
new_user_friend a friend_id =
    let key = a.client.userkey_id in
    if friend_id == 0
    then (registered 0 (some a.talkto_id) 0 >>= λ friend_node.
        on_some friend_node (pure (pos 0))
          λ u. write_and_stamp (insert_friend key u.userkey_id) key 1)
    else write_and_stamp (insert_friend key friend_id) key 1

-- `NewUserIot`
unfoldable pub new_user_iot : Cln → ℕ → Run ℤ
unfolding update_sql_info_timestamp
new_user_iot a iot_id =
    let key = a.client.userkey_id in
    if iot_id == 0
    then (registered 10 (some a.talkto_id) 0 >>= λ iot_node.
        on_some iot_node (pure (pos 0)) λ u. write_and_stamp (insert_iot key u.userkey_id) key 2)
    else write_and_stamp (insert_iot key iot_id) key 2

-- `time` and `strftime`
unfoldable pub today_text : Run (List ℕ)
today_text w s = (returns (w.today s.log), s)

-- `NewUserMsgStorage`
unfoldable pub new_user_msg_storage : Cln → ℕ → Run ℤ
unfolding update_sql_info_timestamp
new_user_msg_storage a to_id = today_text >>= λ time_now.
    write_and_stamp (insert_msg time_now a.client.userkey_id to_id a.data_text) a.client.userkey_id
      3

-- `NewIotCmdToBeExecute`: the device is read without a test.
unfoldable pub new_iot_cmd_to_be_execute : Cln → List ℕ → ℕ → ℕ → List ℕ → Run ℤ
new_iot_cmd_to_be_execute a cmd dev_class status time_to_be_exe =
    registered 10 (some a.talkto_id) 0 >>= λ node. on_some node crash λ u.
      one_statement
        (insert_iot_cmd u.userkey_id dev_class status cmd a.client.userkey_id time_to_be_exe)
        (pos 0)

-- `NewUserSceneCmdStore`
unfoldable pub new_user_scene_cmd_store : Cln → List ℕ → ℕ → ℕ → ℕ → List ℕ → List ℕ → Run ℤ
new_user_scene_cmd_store a cmd status devclass cmd_group time_stamp exe_date =
    registered 10 (some a.talkto_id) 0 >>= λ tmp. on_some tmp (pure (pos 0)) λ u.
      one_statement
        (insert_scene u.userkey_id devclass cmd status time_stamp exe_date cmd_group
          a.client.userkey_id)
        (pos 0)

-- `sprintf(a->data, "%s_%s_%s_%s_%s_", row[1], row[2], row[3], row[4], row[5])`
abbrev pub cmd_text : Row → List ℕ
cmd_text row =
    column row 1
    ++ codes "_"
    ++ column row 2
    ++ codes "_"
    ++ column row 3
    ++ codes "_"
    ++ column row 4
    ++ codes "_"
    ++ column row 5
    ++ codes "_"

-- The command that is read, and the result, which is not freed.
abbrev pub first_cmd : ℕ → Cln → List Row → Run (ℤ × Cln)
first_cmd temmp a [] = release temmp >> pure (pos 0, a)
first_cmd temmp a (row ∷ rows) =
    release temmp >> pure (pos 1, record a { data_text = cmd_text row })

-- `IotReadCmd` with del = 0, which writes to `a->data`
unfoldable pub iot_read_cmd : Cln → ℕ → Run (ℤ × Cln)
iot_read_cmd a dev_class = get_node >>= λ node. on_some node (pure (pos 0, a)) λ temmp.
    query temmp (select_iot_cmd a.client.userkey_id dev_class) >>= λ r.
    on_reply r (λ e. release temmp >> pure (pos 0, a))
      λ n rows. store_result >> first_cmd temmp a rows

-- `IotReadCmd` with any other del
unfoldable pub iot_delete_cmd : Cln → ℕ → Run ℤ
iot_delete_cmd a dev_class = one_statement (delete_iot_cmd a.client.userkey_id dev_class) (pos 0)

-- `mysql_affected_rows`, which is -1 as an unsigned number after a failure
abbrev pub affected_rows : Reply → ℕ
affected_rows (failed e) = 2 ^ 64 - 1
affected_rows (answered n rows) = n

-- `IotUpdateStatus`: an insertion, and an update on another connection if the row is there.
unfoldable pub iot_update_status : Cln → ℕ → ℕ → Run ℤ
iot_update_status a evt_class status =
    let key = a.client.userkey_id in
    with_conn λ temmp. query temmp (insert_evt key evt_class status a.data_text) >>= λ r.
    on_reply r
      (λ e.
        if contains e (codes "Duplicate")
        then release temmp
          >> (with_conn λ other. query other (update_evt key evt_class status a.data_text) >>= λ u.
              release other >> pure (if affected_rows u == 0 then pos 0 else pos 1))
        else release temmp >> pure (pos 0))
      λ n rows. release temmp >> pure (pos 1)

-- `UserDeleteSce`
unfoldable pub user_delete_sce : ℕ → Run ℤ
user_delete_sce iot_id = one_statement (delete_scene iot_id) (pos 0)

-- `ReadOrDeleteUserScene` with del = 1: the user is read without a test.
unfoldable pub delete_user_scene : List ℕ → ℕ → Run ℤ
delete_user_scene user_id cmd_group_id = registered 0 (some user_id) 0 >>= λ node.
    on_some node crash λ u. one_statement (delete_scene_group cmd_group_id u.userkey_id) (pos 0)

-- `NewUserMsgTableInSQL`: -1 if the table is there.
unfoldable pub new_user_msg_table_in_sql : Run ℤ
new_user_msg_table_in_sql = today_text >>= λ time_now. with_conn λ temmp.
    query temmp (create_table time_now) >>= λ r.
    on_reply r
      (λ err. release temmp >> pure (if contains err (codes "already") then negsuc 0 else pos 0))
      λ n rows. release temmp >> pure (pos 1)

-- `CreateServerInfoInSQL`, with `ServerID` and `NetIP`; `isCreated` is never set. It returns nothing.
unfoldable pub create_server_info_in_sql : List ℕ → List ℕ → Run ℤ
create_server_info_in_sql server_id net_ip = with_conn λ temmp.
    query_or temmp (insert_run_info server_id net_ip) (pos 0) λ rows. release temmp >> pure (pos 0)

-- `UpdateServerRunInfo`, with `ServerID` and `NetIP`
unfoldable pub update_server_run_info : List ℕ → List ℕ → ℕ → ℕ → ℕ → ℕ → ℕ → Run ℤ
update_server_run_info server_id net_ip cpu_rate mem task_num online_user_num online_iot_num =
    one_statement
      (update_run_info server_id net_ip cpu_rate mem task_num online_user_num online_iot_num)
      (pos 0)
