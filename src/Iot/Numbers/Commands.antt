-- ===== src/Iot/Numbers/Commands.antt =====
-- The SQL commands and the registration keep the sequence numbers in order.
use uubang_iot.Base.{ℕ, ◌≡◌, refl, List, [], ◌∷◌, Option}
use uubang_iot.Base.Int.{ℤ, pos}
use uubang_iot.Registry.{Client, UserNode}
use uubang_iot.Sql.{Cln, Run, Row, Reply, Event, IotPacket}
use uubang_iot.Sql.Writes.{
  iot_update_status, iot_read_cmd, first_cmd, iot_delete_cmd, new_iot_cmd_to_be_execute,
}
use uubang_iot.Sql.Reads.{
  row_loop, send_iot_row, for_rows, release_and_free, free_and_release, iot_get_iot_data,
  iot_read_self_scene_cmd, iot_event_packet, iot_scene_packet,
}
use uubang_iot.Registration.{
  user_regiter, iot_register, add_rows, first_key, update_iots, update_local_reg_user_and_iotlist,
  register,
}
use uubang_iot.Iot.Numbers.Rules.{
  Keeps, Keeps-pure, Keeps-if, Keeps-on_reply, Keeps-crash, Keeps->>=, Keeps-on_some, Keeps-note,
  Keeps-get_node, Keeps-store_result, Keeps-query, Keeps-add_client, Keeps-send, keeping,
}

pub Keeps-iot_update_status :
    (a : Cln) (evt_class status : ℕ) → Keeps (iot_update_status a evt_class status)
unfolding iot_update_status
Keeps-iot_update_status a evt_class status = search keeping depth 14

pub Keeps-row_loop :
    (on_row : Row → Run ℤ → Run ℤ) (end : Run ℤ)
    → ((row : Row) (rest : Run ℤ) → Keeps rest → Keeps (on_row row rest))
    → Keeps end
    → (rows : List Row) → Keeps (row_loop on_row end rows)
unfolding row_loop
Keeps-row_loop on_row end h k [] = k
Keeps-row_loop on_row end h k (row ∷ rows) =
    h row (row_loop on_row end rows) (Keeps-row_loop on_row end h k rows)

pub Keeps-send_iot_row :
    (give_up : Run ℤ) (p : ℕ → IotPacket) (rest : Run ℤ)
    → ((n : ℕ) → (p n).seq_num ≡ n)
    → Keeps give_up
    → Keeps rest
    → Keeps (send_iot_row give_up p rest)
Keeps-send_iot_row give_up p rest same h k =
    Keeps-send p _ same
      λ sent. Keeps-if sent _ _ k (Keeps->>= _ _ (Keeps-note Event.close_socket tt) λ x. h)

pub Keeps-for_rows :
    (text : List ℕ) (on_row : ℕ → Row → Run ℤ → Run ℤ) (end : ℕ → Run ℤ)
    → ((j : ℕ) (row : Row) (rest : Run ℤ) → Keeps rest → Keeps (on_row j row rest))
    → ((j : ℕ) → Keeps (end j))
    → Keeps (for_rows text on_row end)
Keeps-for_rows text on_row end h k = Keeps->>= _ _ Keeps-get_node λ (node : Option ℕ).
    Keeps-on_some node _ _ (Keeps-pure _) λ j. Keeps->>= _ _ (Keeps-query j text) λ (r : Reply).
      Keeps-on_reply r _ _ (λ e. search keeping)
        λ n rows.
          Keeps->>= _ _ Keeps-store_result λ x. Keeps-row_loop (on_row j) (end j) (h j) (k j) rows

pub freed_after : (j : ℕ) (code : ℤ) → Keeps (release_and_free j code)
freed_after j code = search keeping depth 9

pub freed_before : (j : ℕ) (code : ℤ) → Keeps (free_and_release j code)
freed_before j code = search keeping depth 9

pub Keeps-iot_get_iot_data : (a : Cln) (id : ℕ) → Keeps (iot_get_iot_data a id)
unfolding iot_get_iot_data iot_event_packet
Keeps-iot_get_iot_data a id =
    Keeps-for_rows _ _ _
      (λ j row rest h.
        Keeps-send_iot_row _ (iot_event_packet a row) rest (λ n. refl) (freed_after j (pos 0)) h)
      λ j. freed_after j (pos 1)

pub Keeps-iot_read_self_scene_cmd : (a : Cln) (key : ℕ) → Keeps (iot_read_self_scene_cmd a key)
unfolding iot_read_self_scene_cmd iot_scene_packet
Keeps-iot_read_self_scene_cmd a key =
    Keeps-for_rows _ _ _
      (λ j row rest h.
        Keeps-send_iot_row _ (iot_scene_packet a row) rest (λ n. refl) (freed_after j (pos 0)) h)
      λ j. freed_before j (pos 1)

pub Keeps-first_cmd : (j : ℕ) (a : Cln) (rows : List Row) → Keeps (first_cmd j a rows)
Keeps-first_cmd j a [] = search keeping depth 9
Keeps-first_cmd j a (row ∷ rows) = search keeping depth 9

pub Keeps-iot_read_cmd : (a : Cln) (class : ℕ) → Keeps (iot_read_cmd a class)
unfolding iot_read_cmd
Keeps-iot_read_cmd a class = search (keeping, Keeps-first_cmd) depth 14

pub Keeps-iot_delete_cmd : (a : Cln) (class : ℕ) → Keeps (iot_delete_cmd a class)
unfolding iot_delete_cmd
Keeps-iot_delete_cmd a class = search keeping depth 14

pub Keeps-new_iot_cmd :
    (a : Cln) (cmd : List ℕ) (class status : ℕ) (time : List ℕ)
    → Keeps (new_iot_cmd_to_be_execute a cmd class status time)
unfolding new_iot_cmd_to_be_execute
Keeps-new_iot_cmd a cmd class status time = search keeping depth 14

-- Registration.
pub Keeps-add_rows :
    (fill : Client → Row → Client) (a : Client) (rows : List Row) → Keeps (add_rows fill a rows)
unfolding add_rows
Keeps-add_rows fill a [] = Keeps-pure a
Keeps-add_rows fill a (row ∷ rows) =
    Keeps->>= _ _ (Keeps-add_client _) λ x. Keeps-add_rows fill (fill a row) rows

pub Keeps-first_key : (us : List UserNode) → Keeps (first_key us)
Keeps-first_key [] = Keeps-crash ℕ
Keeps-first_key (u ∷ us) = Keeps-pure u.userkey_id

pub Keeps-update_iots : (j : ℕ) (a : Client) (us : List UserNode) → Keeps (update_iots j a us)
unfolding update_iots
Keeps-update_iots j a [] = Keeps-pure (pos 1)
Keeps-update_iots j a (u ∷ us) = search (keeping, Keeps-add_rows) depth 16

pub Keeps-update_local : (a : Client) → Keeps (update_local_reg_user_and_iotlist a)
unfolding update_local_reg_user_and_iotlist
Keeps-update_local a = search (keeping, Keeps-add_rows, Keeps-first_key, Keeps-update_iots) depth 20

pub Keeps-user_regiter : (a : Cln) → Keeps (user_regiter a)
unfolding user_regiter
Keeps-user_regiter a = search keeping depth 16

pub Keeps-iot_register : (a : Cln) (class : ℕ) → Keeps (iot_register a class)
unfolding iot_register
Keeps-iot_register a class = search keeping depth 16

pub Keeps-register : (raw : Client) (a : Cln) (method : ℕ) → Keeps (register raw a method)
unfolding register
Keeps-register raw a method =
    search (keeping, Keeps-update_local, Keeps-user_regiter, Keeps-iot_register) depth 16

pub ruleset commands = (
  Keeps-iot_update_status, Keeps-iot_get_iot_data, Keeps-iot_read_self_scene_cmd,
  Keeps-iot_read_cmd, Keeps-iot_delete_cmd, Keeps-new_iot_cmd, Keeps-register,
)
