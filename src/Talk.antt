-- ===== src/Talk.antt =====
-- `talk` (src/Talk.c): what a worker of the message pool does with one user request. A run is the
-- list of its actions in order. What the functions it calls return comes as `Answers`; the text
-- functions are those of `Text`. Of a stored scene command the device class and the time stay.
pub mod Handlers
pub mod Ends
pub mod Release
use uubang_iot.Base.{
  ℕ, zero, suc, ◌+◌, List, [], ◌∷◌, ◌++◌, Bool, true, false, ltb, leb, ◌==◌, ◌&&◌, ◌||◌, ◌*◌, ◌-◌,
  length, get_or, if◌then◌else◌, take, drop,
}
use uubang_iot.Base.Bytes.{str_eq}
use uubang_iot.Text.Split.{Piece, str_split}

-- The calls of `talk` that change something outside the request. `sign_in` stands for SIGNIN with the
-- fields that a success sets in the request and its connection, `send_to_iot` for the packet to a
-- device, whose socket is closed when it does not go out.
pub data Call : Type 0 where
  init_rsa generate_pin email_pin sign_in update_local_lists register user_re_pwd : Call
  delete_out_user new_user_msg_storage user_get_iot_data user_req_friend_rel : Call
  user_req_iot_rel new_user_iot new_user_friend send_to_iot send_via_top_server : Call
  iot_talk user_delete_sce : Call
  -- `NewUserSceneCmdStore` with its device class, its time and its days
  new_user_scene_cmd_store : ℕ → List ℕ → List ℕ → Call

pub data Action : Type 0 where
  did : Call → Action
  -- a packet with this `checkcode`
  send : List ℕ → Action
  close_socket : Action
  -- `InterlockedDecrement` of `conn->info[2]`
  task_done : Action
  -- `freeNode(a->MemMark, a)`
  free_node : Action

-- How a case of the switch ends.
pub data Flow : Type 0 where
  -- `break`
  breaks : List Action → Flow
  -- `return 0`
  leaves : List Action → Flow
  -- a field of NULL is read
  crashes : List Action → Flow

-- The fields of `CLN` that decide. `checkcode` is the bytes before the NUL, `data_buffer` all of `data`.
pub record Request : Type 0 where
  pub checkcode : List ℕ
  pub signed_in : Bool
  pub encrypt_block_bytes : ℕ
  pub data_buffer : List ℕ

-- What the calls return. `send_ok` says whether the packet with that code goes out.
pub record Answers : Type 0 where
  pub send_ok : List ℕ → Bool
  pub signs_in : Bool
  pub pin_matches : Bool
  pub registers : Bool
  pub changes_password : Bool
  -- `FindRegisterUserOrIotNode(0, a->TalktoID, 0)`, `(0, a->USERID, 0)` and `(10, a->TalktoID, 0)`
  pub partner_found : Bool
  pub self_found : Bool
  pub device_found : Bool
  -- `FindRegisterUserOrIotNode(10, NULL, id)`
  pub key_found : ℕ → Bool
  -- `FindOnlineUserOrIot(10, a->TalktoID, 0)`
  pub device_online : Bool
  pub friend_stored : Bool
  pub friend_back_stored : Bool
  pub iot_stored : Bool
  pub scene_deleted : Bool
  pub scene_stored : Bool

abbrev pub prefix : List Action → Flow → Flow
prefix xs (breaks ys) = breaks (xs ++ ys)
prefix xs (leaves ys) = leaves (xs ++ ys)
prefix xs (crashes ys) = crashes (xs ++ ys)

abbrev pub and_then : Flow → Flow → Flow
and_then (breaks xs) f = prefix xs f
and_then (leaves xs) f = leaves xs
and_then (crashes xs) f = crashes xs

-- The end of a case whose packet cannot be sent.
abbrev pub hang_up : List Action
hang_up = close_socket ∷ task_done ∷ free_node ∷ []

-- A packet with a code, sent with `SyncSend`, and the test of its result.
unfoldable pub reply : Answers → List ℕ → Flow
reply w code = if w.send_ok code then breaks (send code ∷ []) else leaves (send code ∷ hang_up)

-- `atoi`, on texts without a sign '-': the fields of `outStr` in `talk` are split at '-'; in `IoTtalk`, which
-- splits at '_', a field with '-' in front is read as 0 and not as negative.
unfoldable pub atoi_loop : ℕ → List ℕ → ℕ
atoi_loop n [] = n
atoi_loop n (c ∷ cs) =
    if ltb c b'0' then n else if ltb b'9' c then n else atoi_loop (n * 10 + (c - b'0')) cs

abbrev is_space : ℕ → Bool
is_space c = c == 32 || (leb 9 c && leb c 13)

unfoldable pub atoi : List ℕ → ℕ
unfolding atoi_loop
atoi [] = 0
atoi (c ∷ cs) =
    let rest = atoi cs in
    if is_space c then rest else if c == b'+' then atoi_loop 0 cs else atoi_loop 0 (c ∷ cs)

-- The bytes before the NUL.
abbrev pub c_text : List ℕ → List ℕ
c_text [] = []
c_text (c ∷ cs) = if c == 0 then [] else c ∷ c_text cs

-- `sprintf(buffer, "%s", text)`: what follows the new NUL stays.
abbrev pub overwrite : List ℕ → List ℕ → List ℕ
overwrite buffer text = text ++ (0 ∷ drop (length text + 1) buffer)

-- `outStr[i]`; past the end of the vector the code reads whatever is there, here the empty text.
abbrev pub field : List Piece → ℕ → List ℕ
field ps i = c_text (get_or ps i (record { allocated = 0; text = [] })).text

-- The result of a case, after the lines below the switch.
abbrev pub finish : Flow → Flow
finish (breaks xs) = leaves (xs ++ (task_done ∷ free_node ∷ []))
finish (leaves xs) = leaves xs
finish (crashes xs) = crashes xs
