-- ===== src/Registry.antt =====
-- The user lists of head/SERVER.h: who is registered and who is online, users and IoT devices
-- apart. A list is its nodes in order, each with the address of its `struct user`, beside the
-- addresses that were given to `free`: the functions follow a pointer to freed memory as if it
-- kept its content, and the theorems say when no such pointer is left.
pub mod Find
pub mod Check
pub mod Online
pub mod SignIn
use uubang_iot.Base.{ℕ, ◌<◌, ◌≤◌, List, [], ◌∷◌, Bool, ltb, length, ◌≢◌}
use uubang_iot.Base.Int.{ℤ}
use uubang_iot.Base.Bytes.{str_eq}

-- The fields of `CLN` that the lists use. Strings are the bytes before the NUL; `addr` and `info`
-- are only copied.
pub record Client : Type 0 where
  pub socket : ℕ
  pub addr : ℕ
  pub user_id : List ℕ
  pub userkey_id : ℕ
  pub user_password : List ℕ
  pub checkcode : List ℕ
  pub info : List ℕ
  pub conn : ℕ
  pub conn_userkey_id : ℕ

-- `struct user`, with its own address
pub record UserNode : Type 0 where
  pub self : ℕ
  pub user_socket : ℕ
  pub user_addr : ℕ
  pub user_id : List ℕ
  pub userkey_id : ℕ
  pub user_password : List ℕ
  pub info : List ℕ
  pub conn_handle : ℕ

-- `struct OnlineUserHead`
pub record UserList : Type 0 where
  pub nodes : List UserNode
  pub online_user_num : ℤ
  pub freed : List ℕ

-- The four list heads.
pub record Heads : Type 0 where
  pub online_user : UserList
  pub online_iot : UserList
  pub registed_user : UserList
  pub registed_iot : UserList

-- `!strcmp(id, node->USERID)`
abbrev pub has_id : List ℕ → UserNode → Bool
has_id id u = str_eq id u.user_id

-- Identifiers of fewer than 11 characters belong to IoT devices.
abbrev pub is_iot_id : List ℕ → Bool
is_iot_id id = ltb (length id) 11
