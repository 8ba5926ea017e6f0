-- ===== src/Registration.antt =====
-- Registration and change of password: `Register` (src/Register.c), `UserRegiter` (src/UserRegister.c),
-- `IotRegister` (src/IotDevRegister.c), `UpdateLocalRegUserAndIotlist` (src/UpdateRegiterIotAndUser.c) and
-- `UserRePwd` (src/UserRePwd.c), on the sessions of `Sql`.
pub mod Password
pub mod Lease
pub mod Refresh
use uubang_iot.Base.{
  ℕ, List, [], ◌∷◌, Option, none, some, Bool, true, false, ◌==◌, if◌then◌else◌, get_or,
}
use uubang_iot.Base.Int.{ℤ, pos, negsuc, is_minus_one}
use uubang_iot.Base.Bytes.{codes, contains}
use uubang_iot.Talk.{atoi}
use uubang_iot.Registry.{Client, UserNode, UserList, Heads, has_id}
use uubang_iot.Registry.Check.{check_id_pwd}
use uubang_iot.Registry.Online.{addto_local}
use uubang_iot.Sql.{
  store_result, Cln, Run, Row, Event, World, Session, Ended, pure, crash, note, ◌>>=◌, ◌>>◌,
  release, query, with_conn, on_reply, query_or, column, returns, crashes,
}
use uubang_iot.Sql.Statements.{insert_user, insert_server_info, insert_iot_node, update_password}
use uubang_iot.Sql.Selects.{select_new_users, select_new_iots}

-- `UserRegiter`: the node is not released on success.
unfoldable pub user_regiter : Cln → Run ℤ
user_regiter a = with_conn λ temmp.
    query_or temmp (insert_user a.client.user_id a.client.info a.client.user_password a.data_text)
      (negsuc 0) λ rows. query_or temmp insert_server_info (negsuc 0) λ rows. pure (pos 1)

-- `IotRegister`
unfoldable pub iot_register : Cln → ℕ → Run ℤ
iot_register a dev_class = with_conn λ temmp.
    query temmp (insert_iot_node a.client.user_id dev_class a.client.user_password) >>= λ r.
    on_reply r
      (λ e.
        if contains e (codes "Duplicate")
        then release temmp >> pure (pos 1)
        else release temmp >> pure (negsuc 0))
      λ n rows. release temmp >> pure (pos 1)

-- `AddtoLocal` in a session
abbrev pub put_added : Session → Option (ℤ × Heads) → Ended (Unit {0}) × Session
put_added s none = (crashes, s)
put_added s (some (r, h)) = (returns tt, record s { heads = h; log = Event.added_local ∷ s.log })

unfoldable pub add_client : Client → Run (Unit {0})
add_client a w s = put_added s (addto_local (w.malloc s.log) a s.heads)

-- The request that the loops fill from a row; `a` is what it held before.
unfoldable pub user_of_row : Client → Row → Client
user_of_row a row = record a {
  user_id = column row 1;
  user_password = column row 3;
  userkey_id = atoi (column row 0);
  info = column row 4;
}

unfoldable pub iot_of_row : Client → Row → Client
iot_of_row a row = record a {
  user_id = column row 1;
  user_password = column row 3;
  userkey_id = atoi (column row 0);
  info = column row 4;
  checkcode = column row 2;
}

-- The loops over the rows; they leave the last request.
unfoldable pub add_rows : (Client → Row → Client) → Client → List Row → Run Client
unfolding add_client
add_rows fill a [] = pure a
add_rows fill a (row ∷ rows) = add_client (fill a row) >> add_rows fill (fill a row) rows

abbrev pub first_key : List UserNode → Run ℕ
first_key [] = crash
first_key (u ∷ us) = pure u.userkey_id

abbrev pub heads_now : Run Heads
heads_now w s = (returns s.heads, s)

-- From the devices on: the statement goes to the node that was released.
unfoldable pub update_iots : ℕ → Client → List UserNode → Run ℤ
unfolding add_rows
update_iots temmp a [] = pure (pos 1)
update_iots temmp a (u ∷ us) =
    note Event.locked_iots
    >> (query_or temmp (select_new_iots u.userkey_id) (negsuc 0) λ rows.
        store_result
        >> (add_rows iot_of_row a rows >>= λ a'.
            note Event.unlocked_iots
            >> (release temmp >> (note Event.result_freed >> pure (pos 1)))))

-- `UpdateLocalRegUserAndIotlist`, with what the uninitialised request holds. The early returns leave the
-- lists locked.
unfoldable pub update_local_reg_user_and_iotlist : Client → Run ℤ
unfolding add_rows update_iots
update_local_reg_user_and_iotlist a =
    note Event.locked_users
    >> (heads_now >>= λ h. first_key h.registed_user.nodes >>= λ key. with_conn λ temmp.
        query_or temmp (select_new_users key) (negsuc 0) λ rows.
          store_result
          >> (add_rows user_of_row a rows >>= λ a'.
              note Event.unlocked_users
              >> (release temmp
                  >> (note Event.result_freed
                      >> (heads_now >>= λ h'. update_iots temmp a' h'.registed_iot.nodes)))))

abbrev pub is_one : ℤ → Bool
is_one (pos n) = n == 1
is_one (negsuc n) = false

-- `Register`: a registration that found no connection (0) passes for a success.
unfoldable pub register : Client → Cln → ℕ → Run ℤ
unfolding user_regiter iot_register update_local_reg_user_and_iotlist
register raw a method = heads_now >>= λ h.
    if is_one (check_id_pwd 1 a.client h)
    then pure (negsuc 0)
    else (if method == 1 then iot_register a (get_or a.client.info 3 0) else user_regiter a)
      >>= λ r.
          if is_minus_one r
          then pure (negsuc 0)
          else update_local_reg_user_and_iotlist raw >> pure (pos 1)

-- `strcpy(Tag->USERPASSWORD, a->REUSERPASSWORD)` at the first node of the list with this name.
unfoldable pub with_password : List ℕ → List ℕ → List UserNode → List UserNode
with_password name password [] = []
with_password name password (u ∷ us) =
    let rest = with_password name password us in
    if has_id name u then record u { user_password = password } ∷ us else u ∷ rest

abbrev pub put_users : List UserNode → Run (Unit {0})
put_users nodes w s = (
  returns tt,
  record s {
    heads = record s.heads { registed_user = record s.heads.registed_user { nodes = nodes } };
  },
)

-- The walk over `Tag->next`: whether it meets the name.
unfoldable pub is_behind : List ℕ → List UserNode → Bool
is_behind name [] = false
is_behind name (u ∷ us) = let rest = is_behind name us in if has_id name u then true else rest

-- A user that is not the first: the database is asked, and then the list is changed.
unfoldable pub change_behind : Cln → UserNode → List UserNode → Run ℤ
unfolding with_password is_behind
change_behind a tag us =
    if is_behind a.client.user_id us
    then (with_conn λ temmp.
        query_or temmp (update_password a.re_user_password a.client.userkey_id) (negsuc 0) λ rows.
          put_users (tag ∷ with_password a.client.user_id a.re_user_password us)
          >> (release temmp >> pure (pos 1)))
    else pure (pos 0)

unfoldable pub change_in : Cln → List UserNode → Run ℤ
unfolding change_behind
change_in a [] = pure (negsuc 0)
change_in a (tag ∷ us) =
    if has_id a.client.user_id tag
    then put_users (record tag { user_password = a.re_user_password } ∷ us) >> pure (pos 1)
    else change_behind a tag us

-- `UserRePwd`: for the first user of the list the database is not asked.
unfoldable pub user_re_pwd : Cln → Run ℤ
unfolding change_in
user_re_pwd a = heads_now >>= λ h.
    if is_one (check_id_pwd 0 a.client h)
    then change_in a h.registed_user.nodes
    else pure (negsuc 0)
