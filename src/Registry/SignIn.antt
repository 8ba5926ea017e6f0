-- ===== src/Registry/SignIn.antt =====
-- `SIGNIN` (src/SIGN_IN.c).
pub mod Laws
pub mod Safe
pub mod Access
pub mod Accounts
use uubang_iot.Base.{ℕ, List, [], ◌∷◌, Option, none, some, if◌then◌else◌}
use uubang_iot.Base.Int.{ℤ, pos, negsuc, is_minus_one}
use uubang_iot.Registry.{Client, UserNode, Heads, is_iot_id}
use uubang_iot.Registry.Find.{find_online_user_or_iot, find_register_user_or_iot_node}
use uubang_iot.Registry.Check.{check_id_pwd}
use uubang_iot.Registry.Online.{new_online_user_or_iot_dev, delete_out_user}

-- What a call leaves: its result, the lists, the request, and the sockets that were sent "STO".
pub record SignedIn : Type 0 where
  pub result : ℤ
  pub heads : Heads
  pub client : Client
  pub told : List ℕ

abbrev pub refused : Heads → Client → SignedIn
refused h a = record { result = negsuc 0; heads = h; client = a; told = [] }

abbrev pub with_key : ℕ → Client → Client
with_key k a = record a { userkey_id = k; conn_userkey_id = k }

-- `newOnlineUserOrIotDev(a); return 1;`: its result is not looked at. A node that was freed and is still linked
-- keeps its content here, also when `malloc` gives its memory again.
unfoldable pub put_online : (ℕ → Option ℕ) → Client → Heads → List ℕ → SignedIn
put_online malloc a h told =
    let (_, h') = new_online_user_or_iot_dev malloc a h in
    record { result = pos 1; heads = h'; client = a; told = told }

-- `memcpy(&b, a, sizeof(CLN)); b.SOCKET = checkuser->USER_SOCKET; delete_out_user(&b);`
abbrev pub drop_session : Client → UserNode → Heads → Heads
drop_session a u h = (delete_out_user (record a { socket = u.user_socket }) h).1

-- No session yet: the key comes from the registered node, if there is one.
unfoldable pub sign_in_new : (ℕ → Option ℕ) → Client → Heads → Option UserNode → SignedIn
sign_in_new malloc a h none = refused h a
sign_in_new malloc a h (some temp) = put_online malloc (with_key temp.userkey_id a) h []

-- The branches on `checkuser`, for a user.
unfoldable pub user_branches : (ℕ → Option ℕ) → Client → Heads → Option UserNode → SignedIn
user_branches malloc a h none =
    sign_in_new malloc a h (find_register_user_or_iot_node 0 (some a.user_id) 0 h)
user_branches malloc a h (some checkuser) =
    let a' = record a { userkey_id = checkuser.userkey_id } in
    put_online malloc a' (drop_session a' checkuser h) (checkuser.user_socket ∷ [])

unfoldable pub sign_in_user : (ℕ → Option ℕ) → Client → Heads → SignedIn
sign_in_user malloc a h =
    if is_minus_one (check_id_pwd 0 a h)
    then refused h a
    else user_branches malloc a h (find_online_user_or_iot 0 (some a.user_id) 0 h)

-- `if (temp != NULL)` the keys are taken from it.
abbrev pub registered_key : Option UserNode → Client → Client
registered_key none a = a
registered_key (some temp) a = with_key temp.userkey_id a

-- The branches on `checkuser`, for a device.
unfoldable pub iot_branches : (ℕ → Option ℕ) → Client → Heads → Option UserNode → SignedIn
iot_branches malloc a h none =
    sign_in_new malloc a h (find_register_user_or_iot_node 10 (some a.user_id) 0 h)
iot_branches malloc a h (some checkuser) =
    let a' = registered_key (find_register_user_or_iot_node 10 (some a.user_id) 0 h) a in
    put_online malloc a' (drop_session a' checkuser h) []

unfoldable pub sign_in_iot : (ℕ → Option ℕ) → Client → Heads → SignedIn
sign_in_iot malloc a h =
    if is_minus_one (check_id_pwd 0 a h)
    then refused h a
    else iot_branches malloc a h (find_online_user_or_iot 10 (some a.user_id) 0 h)

unfoldable pub sign_in : (ℕ → Option ℕ) → Client → Heads → SignedIn
unfolding sign_in_user sign_in_iot
sign_in malloc a h = if is_iot_id a.user_id then sign_in_iot malloc a h else sign_in_user malloc a h
