-- ===== src/Sql/Balance.antt =====
-- Every command gives back the connections it takes and frees the results it stores.
use uubang_iot.Base.{ℕ, ◌≡◌, refl, List, [], some, arith, ap, ◌∙◌}
use uubang_iot.Base.Int.{ℤ, pos}
use uubang_iot.SqlPool.{node_at}
use uubang_iot.SqlPool.Outcome.{IsOpen}
use uubang_iot.Sql.{Cln, Run, World, Session, Ended, returns, crashes}
use uubang_iot.Sql.Account.{Debt, owed, Owes, Returns, Moves}
use uubang_iot.Sql.Settled.{
  Settles, released_freed, freed_released, released, Moves-query_or, Moves-with_conn,
  Moves-send_row, Moves-send_iot_row, one_statement-Settles, for_rows-Settles, lookup_row, tested,
  untested, update_sql_info_timestamp-Settles, new_user_friend-Settles, new_user_iot-Settles,
  new_user_msg_storage-Settles, iot_update_status-Settles, new_user_msg_table_in_sql-Settles,
}
use uubang_iot.Sql.Writes.{
  new_iot_cmd_to_be_execute, new_user_scene_cmd_store, iot_delete_cmd, user_delete_sce,
  delete_user_scene, create_server_info_in_sql, update_server_run_info,
}
use uubang_iot.Sql.Reads.{
  user_req_friend_rel, user_req_iot_rel, user_get_iot_data, read_user_scene, user_request_message,
  iot_get_iot_data, iot_read_self_scene_cmd,
}
use uubang_iot.Sql.Commands.{Command, perform, Finds}

-- The same of a command from one session.
SettlesAt : Run ℤ → World → (s0 s : Session) → (base d : Debt) → Type 0
SettlesAt m w s0 s base d = Owes s0 base d s → Returns w (λ r s'. Owes s0 base d s') (m w s)

at :
    (m : Run ℤ)
    → Settles m
    → (w : World) (s0 s : Session) (base d : Debt) → SettlesAt m w s0 s base d
unfolding Moves SettlesAt
at m h w s0 s base d = h d w s0 s base

create_server_info_in_sql-Settles : (id ip : List ℕ) → Settles (create_server_info_in_sql id ip)
unfolding create_server_info_in_sql
create_server_info_in_sql-Settles id ip d =
    Moves-with_conn d _ λ j. Moves-query_or d.0 d.1 j _ (pos 0) _ λ rows. released d.0 d.1 j (pos 0)

update_server_run_info-Settles :
    (id ip : List ℕ) (cpu mem tasks users iots : ℕ)
    → Settles (update_server_run_info id ip cpu mem tasks users iots)
unfolding update_server_run_info
update_server_run_info-Settles id ip cpu mem tasks users iots = one_statement-Settles _ _

new_user_scene_cmd_store-Settles :
    (a : Cln) (cmd : List ℕ) (status devclass group : ℕ) (time date : List ℕ)
    → Settles (new_user_scene_cmd_store a cmd status devclass group time date)
unfolding new_user_scene_cmd_store
new_user_scene_cmd_store-Settles a cmd status devclass group time date =
    tested 10 a.talkto_id _ λ u. one_statement-Settles _ _

iot_delete_cmd-Settles : (a : Cln) (dev_class : ℕ) → Settles (iot_delete_cmd a dev_class)
unfolding iot_delete_cmd
iot_delete_cmd-Settles a dev_class = one_statement-Settles _ _

user_delete_sce-Settles : (iot_id : ℕ) → Settles (user_delete_sce iot_id)
unfolding user_delete_sce
user_delete_sce-Settles iot_id = one_statement-Settles _ _

user_req_friend_rel-Settles : (a : Cln) → Settles (user_req_friend_rel a)
unfolding user_req_friend_rel
user_req_friend_rel-Settles a =
    for_rows-Settles _ _ _
      (λ ks n j row rest h.
        lookup_row ks n j 0 _ _ _ (released_freed ks n j _)
          λ u. Moves-send_row ks n j _ _ rest (released_freed ks n j _) h)
      λ ks n j. released_freed ks n j _

user_req_iot_rel-Settles : (a : Cln) → Settles (user_req_iot_rel a)
unfolding user_req_iot_rel
user_req_iot_rel-Settles a =
    for_rows-Settles _ _ _
      (λ ks n j row rest h.
        lookup_row ks n j 10 _ _ _ (released_freed ks n j _)
          λ u. Moves-send_row ks n j _ _ rest (freed_released ks n j _) h)
      λ ks n j. released_freed ks n j _

pub iot_get_iot_data-Settles : (a : Cln) (id : ℕ) → Settles (iot_get_iot_data a id)
unfolding iot_get_iot_data
iot_get_iot_data-Settles a id =
    for_rows-Settles _ _ _
      (λ ks n j row rest h. Moves-send_iot_row ks n j _ _ rest (released_freed ks n j _) h)
      λ ks n j. released_freed ks n j _

pub iot_read_self_scene_cmd-Settles : (a : Cln) (key : ℕ) → Settles (iot_read_self_scene_cmd a key)
unfolding iot_read_self_scene_cmd
iot_read_self_scene_cmd-Settles a key =
    for_rows-Settles _ _ _
      (λ ks n j row rest h. Moves-send_iot_row ks n j _ _ rest (released_freed ks n j _) h)
      λ ks n j. freed_released ks n j _

perform-Settles :
    (c : Command) (w : World) (s0 s : Session) (base d : Debt)
    → Finds c s.heads
    → SettlesAt (perform c) w s0 s base d
unfolding new_iot_cmd_to_be_execute delete_user_scene user_get_iot_data read_user_scene
    user_request_message SettlesAt
perform-Settles (Command.stamp user_id index flag) w s0 s base d f =
    at _ (update_sql_info_timestamp-Settles user_id index flag) w s0 s base d
perform-Settles (Command.add_friend a id) w s0 s base d f =
    at _ (new_user_friend-Settles a id) w s0 s base d
perform-Settles (Command.add_iot a id) w s0 s base d f =
    at _ (new_user_iot-Settles a id) w s0 s base d
perform-Settles (Command.store_message a id) w s0 s base d f =
    at _ (new_user_msg_storage-Settles a id) w s0 s base d
perform-Settles (Command.store_iot_cmd a cmd dev_class status time) w s0 s base d (u, e) =
    untested 10 a.talkto_id _ (λ u. one_statement-Settles _ _) w s0 s base d u e
perform-Settles (Command.store_scene a cmd status devclass group time date) w s0 s base d f =
    at _ (new_user_scene_cmd_store-Settles a cmd status devclass group time date) w s0 s base d
perform-Settles (Command.drop_iot_cmd a dev_class) w s0 s base d f =
    at _ (iot_delete_cmd-Settles a dev_class) w s0 s base d
perform-Settles (Command.update_status a evt_class status) w s0 s base d f =
    at _ (iot_update_status-Settles a evt_class status) w s0 s base d
perform-Settles (Command.drop_scene iot_id) w s0 s base d f =
    at _ (user_delete_sce-Settles iot_id) w s0 s base d
perform-Settles (Command.drop_user_scene user_id group) w s0 s base d (u, e) =
    untested 0 user_id _ (λ u. one_statement-Settles _ _) w s0 s base d u e
perform-Settles Command.daily_table w s0 s base d f =
    at _ new_user_msg_table_in_sql-Settles w s0 s base d
perform-Settles (Command.insert_server id ip) w s0 s base d f =
    at _ (create_server_info_in_sql-Settles id ip) w s0 s base d
perform-Settles (Command.update_server id ip cpu mem tasks users iots) w s0 s base d f =
    at _ (update_server_run_info-Settles id ip cpu mem tasks users iots) w s0 s base d
perform-Settles (Command.send_friends a) w s0 s base d f =
    at _ (user_req_friend_rel-Settles a) w s0 s base d
perform-Settles (Command.send_iots a) w s0 s base d f =
    at _ (user_req_iot_rel-Settles a) w s0 s base d
perform-Settles (Command.send_iot_events a) w s0 s base d (u, e) =
    untested 10 a.talkto_id _
      (λ u.
        for_rows-Settles _ _ _
          (λ ks n j row rest h. Moves-send_row ks n j _ _ rest (released_freed ks n j _) h)
          λ ks n j. released_freed ks n j _)
      w s0 s base d u e
perform-Settles (Command.send_scenes a user_id) w s0 s base d (u, e) =
    untested 0 user_id _
      (λ u.
        for_rows-Settles _ _ _
          (λ ks n j row rest h.
            lookup_row ks n j 10 _ _ _ (freed_released ks n j _)
              λ u. Moves-send_row ks n j _ _ rest (released_freed ks n j _) h)
          λ ks n j. freed_released ks n j _)
      w s0 s base d u e
perform-Settles (Command.send_messages a direction first last day) w s0 s base d (u, e) =
    untested 0 a.talkto_id _
      (λ u.
        for_rows-Settles _ _ _
          (λ ks n j row rest h. Moves-send_row ks n j _ _ rest (released_freed ks n j _) h)
          λ ks n j. released_freed ks n j _)
      w s0 s base d u e
perform-Settles (Command.send_events_to_iot a id) w s0 s base d f =
    at _ (iot_get_iot_data-Settles a id) w s0 s base d
perform-Settles (Command.send_scenes_to_iot a key) w s0 s base d f =
    at _ (iot_read_self_scene_cmd-Settles a key) w s0 s base d

-- What it means that code gives back everything that it takes, unless it has no result of MySQL to read.
abbrev pub Balanced : {A : Type 0} → World → Session → Debt → Ended A × Session → Type 0
Balanced w s d = Returns w λ a s'.
    (owed s'.log ≡ some d)
    × ((k : ℕ) → (node_at s'.pool k).locked ≡ (node_at s.pool k).locked)
    × IsOpen s'.pool

Owes-start : (s : Session) (d : Debt) → IsOpen s.pool → owed s.log ≡ some d → Owes s d ([], 0) s
Owes-start s d o e = record {
  open_pool = o;
  debt = e ∙ ap some (ap (λ x. (d.0, x)) (omega arith));
  untouched = λ k free. refl;
  was_free = λ k h. absurd h;
}

Balanced-end :
    {A : Type 0} (w : World) (s : Session) (d : Debt) (r : Ended A × Session)
    → Returns w (λ a s'. Owes s d ([], 0) s') r
    → Balanced w s d r
Balanced-end w s d (returns a, s') o =
    (o.debt ∙ ap some (ap (λ x. (d.0, x)) (omega arith)), λ k. o.untouched k (λ h. h), o.open_pool)
Balanced-end w s d (crashes, s') o = o

pub balanced :
    {A : Type 0} (w : World) (s : Session) (d : Debt) (m : Run A)
    → IsOpen s.pool
    → owed s.log ≡ some d
    → Moves ([], 0) m (λ r. ([], 0))
    → Balanced w s d (m w s)
unfolding Moves
balanced w s d m o e h = Balanced-end w s d (m w s) (h w s s d (Owes-start s d o e))

-- Each SQL command of `Command` returns, whatever the database, the pool and the peer answer, unless MySQL
-- has no memory for a result (`mysql_store_result` gives NULL, which the code reads through): it releases
-- exactly the nodes it was lent, sends statements only to the node it holds, and frees each result once;
-- the mutex of every node of the pool is then as it was before. It starts from a working pool, and where
-- it reads a user or a device without a test, that one is registered. Two commands are not among them,
-- since it does not hold of them: `IotReadCmd` where it reads, which never frees its result, and
-- `GetUpdateTimeStamp`, which reads a row that may not be there.
pub perform-Balanced :
    (c : Command) (w : World) (s : Session) (d : Debt)
    → IsOpen s.pool
    → owed s.log ≡ some d
    → Finds c s.heads
    → Balanced w s d (perform c w s)
unfolding SettlesAt
perform-Balanced c w s d o e f =
    Balanced-end w s d (perform c w s) (perform-Settles c w s s d ([], 0) f (Owes-start s d o e))
