-- ===== src/TopServer.antt =====
-- `HandleTopServerMsg` and the loop of `ReceiveMsgFromTopServer` (src/Send2OnlineUserViaAllServer.c): what
-- other servers ask of this one, on the sessions of `Sql`.
pub mod Frees
use uubang_iot.Base.{
  ℕ, ◌+◌, List, [], ◌∷◌, Option, none, some, Bool, true, false, ◌==◌, ltb, if◌then◌else◌, length,
  take,
}
use uubang_iot.Base.Bytes.{codes}
use uubang_iot.Text.Hash.{djb_hash}
use uubang_iot.Text.Split.{string_cut}
use uubang_iot.Text.Caesar.{encrypt_in_place}
use uubang_iot.Talk.{atoi, c_text}
use uubang_iot.Registry.{UserNode, Heads}
use uubang_iot.Registry.Find.{find_online_user_or_iot}
use uubang_iot.Registry.Online.{delete_out_user}
use uubang_iot.Sql.{
  Cln, Run, Event, World, Session, Ended, IotPacket, pure, note, ◌>>=◌, ◌>>◌, on_some, returns,
}

-- Whether `free(a)` at the end is reached.
pub data Fate : Type 0 where
  freed kept : Fate

-- `FindOnlineUserOrIot(n, a->TalktoID, 0)`
abbrev pub online : ℕ → List ℕ → Run (Option UserNode)
online n name w s = (returns (find_online_user_or_iot n (some name) 0 s.heads), s)

-- `send`, with the event for the packet; the result says whether it went out.
abbrev pub send_event : Event → Run Bool
send_event e w s = (returns (w.send_ok s.log), record s { log = e ∷ s.log })

-- `delete_out_user(&ReUseCLN)`, with the name and the socket of the session
unfoldable pub delete_session : Cln → UserNode → Run (Unit {0})
delete_session a temp w s = (
  returns tt,
  record s {
    heads =
        (delete_out_user (record a.client { socket = temp.user_socket; user_id = temp.user_id })
          s.heads).1;
  },
)

-- STO: the macro returns when the packet does not go out.
unfoldable pub top_sto : Cln → Run Fate
unfolding delete_session
top_sto a = online 0 a.talkto_id >>= λ temp. on_some temp (pure kept) λ u.
    send_event (Event.sent_sto u.user_socket) >>= λ sent.
    if sent
    then delete_session a u >> pure freed
    else note (Event.close_other u.user_socket) >> pure kept

-- The packet of a command for a device of this server.
unfoldable pub top_packet : World → List Event → UserNode → List ℕ → IotPacket
top_packet w log u buffer =
    let text = c_text (string_cut buffer 0 200) in
    record {
      op_code = codes "00";
      seq_num = 0;
      pay_load = encrypt_in_place (length text) 0 (w.pin_at log u.conn_handle) text;
    }

unfoldable pub send_to_device : UserNode → List ℕ → Run Bool
send_to_device u buffer w s =
    send_event (Event.sent_to u.user_socket (top_packet w s.log u buffer)) w s

-- Code 0: a command for a device.
unfoldable pub top_command : Cln → Run Fate
unfolding send_to_device
top_command a = online 10 a.talkto_id >>= λ tmp. on_some tmp (pure kept) λ u.
    send_to_device u a.data_text >>= λ sent.
    if sent then pure freed else note (Event.close_other u.user_socket) >> pure freed

-- `opCode`
abbrev pub top_code : List ℕ → ℕ
top_code checkcode = if length checkcode == 2 then atoi checkcode else djb_hash (take 3 checkcode) 3

unfoldable pub handle_top_server_msg : Cln → Run Fate
unfolding top_sto top_command
handle_top_server_msg a =
    let op_code = top_code a.client.checkcode in
    if op_code == 70235 then top_sto a else if op_code == 0 then top_command a else pure freed

-- The link to the top server: `isConnected`, and of the requests that were allocated how many were put
-- into the task queue.
pub record TopLink : Type 0 where
  pub is_connected : Bool
  pub allocated : ℕ
  pub put_in_queue : ℕ

-- A round of the loop, by whether `recv` fails and whether the heartbeat is then sent. The request of a
-- failed read stays allocated.
unfoldable pub receive_round : Bool → Bool → TopLink → TopLink
receive_round recv_fails heartbeat_ok l =
    let l' = record l { allocated = l.allocated + 1 } in
    if recv_fails
    then if heartbeat_ok then l' else record l' { is_connected = false }
    else record l' { put_in_queue = l.put_in_queue + 1 }
