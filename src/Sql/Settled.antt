-- ===== src/Sql/Settled.antt =====
-- What a command owes when it has returned: nothing more than before.
use uubang_iot.Base.{ℕ, suc, ◌≡◌, refl, List, [], ◌∷◌, Option, none, some, ◌==◌}
use uubang_iot.Base.Int.{ℤ, pos}
use uubang_iot.Base.Bytes.{codes, contains}
use uubang_iot.Registry.{UserNode}
use uubang_iot.Registry.Find.{find_register_user_or_iot_node}
use uubang_iot.Sql.{
  Cln, Run, Row, Event, World, Session, UserPacket, IotPacket, pure, crash, note, ◌>>=◌, ◌>>◌,
  get_node, release, with_conn, on_some, query_or, registered,
}
use uubang_iot.Sql.Account.{Debt, Owes, Returns, Moves}
use uubang_iot.Sql.Rules.{
  Moves-pure, Moves->>=, Moves->>, Moves-result_freed, Moves-store_result, Moves-if, Moves-on_some,
  Moves-on_reply, Moves-note, Moves-registered, Moves-send_user, Moves-send_iot, Moves-next_seq_num,
  Moves-query, Moves-get_node, Moves-release, with_node_of,
}
use uubang_iot.Sql.Writes.{
  one_statement, write_and_stamp, today_text, update_sql_info_timestamp, new_user_friend,
  new_user_iot, new_user_msg_storage, iot_update_status, new_user_msg_table_in_sql,
}
use uubang_iot.Sql.Reads.{
  row_loop, release_and_free, free_and_release, send_row, send_iot_row, for_rows,
}

-- A command that gives back what it takes.
abbrev pub Settles : Run ℤ → Type 0
Settles m = (d : Debt) → Moves d m (λ r. d)

module _ (ks : List ℕ) (n j : ℕ) where
  -- The ends of the branches.
  pub released : (code : ℤ) → Moves (j ∷ ks, n) (release j >> pure code) (λ r. (ks, n))
  released code = Moves->> _ (ks, n) _ _ _ (Moves-release ks n j) (Moves-pure (ks, n) code)

  pub Moves-query_or :
      (text : List ℕ) (code : ℤ) (good : List Row → Run ℤ)
      → ((rows : List Row) → Moves (j ∷ ks, n) (good rows) (λ r. (ks, n)))
      → Moves (j ∷ ks, n) (query_or j text code good) (λ r. (ks, n))
  Moves-query_or text code good h =
      Moves->>= _ _ _ (λ r. (j ∷ ks, n)) _ (Moves-query ks n j text)
        λ r. Moves-on_reply _ r _ _ _ (λ e. released code) λ m rows. h rows

  pub released_freed : (code : ℤ) → Moves (j ∷ ks, suc n) (release_and_free j code) (λ r. (ks, n))
  released_freed code =
      Moves->> _ (ks, n) _ _ _
        (Moves->> _ (ks, suc n) _ _ _ (Moves-release ks (suc n) j) (Moves-result_freed ks n))
        (Moves-pure (ks, n) code)

  pub freed_released : (code : ℤ) → Moves (j ∷ ks, suc n) (free_and_release j code) (λ r. (ks, n))
  freed_released code =
      Moves->> _ (ks, n) _ _ _
        (Moves->> _ (j ∷ ks, n) _ _ _ (Moves-result_freed (j ∷ ks) n) (Moves-release ks n j))
        (Moves-pure (ks, n) code)

  abbrev pub Mid : Run ℤ → Type 0
  Mid m = Moves (j ∷ ks, suc n) m (λ r. (ks, n))

  closed : (give_up : Run ℤ) → Mid give_up → Mid (note Event.close_socket >> give_up)
  closed give_up h =
      Moves->> _ (j ∷ ks, suc n) _ _ _
        (Moves-note (j ∷ ks, suc n) _ Event.close_socket (λ base. refl) refl) h

  pub Moves-send_row :
      (give_up : Run ℤ) (p : UserPacket) (rest : Run ℤ)
      → Mid give_up
      → Mid rest
      → Mid (send_row give_up p rest)
  Moves-send_row give_up p rest h k =
      Moves->>= _ _ _ (λ r. (j ∷ ks, suc n)) _ (Moves-send_user _ p)
        λ sent. Moves-if _ sent _ _ _ k (closed give_up h)

  pub Moves-send_iot_row :
      (give_up : Run ℤ) (p : ℕ → IotPacket) (rest : Run ℤ)
      → Mid give_up
      → Mid rest
      → Mid (send_iot_row give_up p rest)
  Moves-send_iot_row give_up p rest h k =
      Moves->>= _ _ _ (λ r. (j ∷ ks, suc n)) _ (Moves-next_seq_num _)
        λ seq.
          Moves->>= _ _ _ (λ r. (j ∷ ks, suc n)) _ (Moves-send_iot _ (p seq))
            λ sent. Moves-if _ sent _ _ _ k (closed give_up h)

  Moves-row_loop :
      (on_row : Row → Run ℤ → Run ℤ) (end : Run ℤ)
      → ((row : Row) (rest : Run ℤ) → Mid rest → Mid (on_row row rest))
      → Mid end
      → (rows : List Row) → Mid (row_loop on_row end rows)
  unfolding row_loop
  Moves-row_loop on_row end h k [] = k
  Moves-row_loop on_row end h k (row ∷ rows) =
      h row (row_loop on_row end rows) (Moves-row_loop on_row end h k rows)

pub Moves-with_conn :
    (d : Debt) (body : ℕ → Run ℤ)
    → ((j : ℕ) → Moves (j ∷ d.0, d.1) (body j) (λ r. d))
    → Moves d (with_conn body) (λ r. d)
Moves-with_conn d body h =
    Moves->>= d get_node (λ temmp. on_some temmp (pure (pos 0)) body) (with_node_of d) (λ r. d)
      (Moves-get_node d) each
  where
    each :
        (temmp : Option ℕ)
        → Moves (with_node_of d temmp) (on_some temmp (pure (pos 0)) body) (λ r. d)
    each none = Moves-pure d (pos 0)
    each (some j) = h j

pub one_statement-Settles : (text : List ℕ) (code : ℤ) → Settles (one_statement text code)
one_statement-Settles text code d =
    Moves-with_conn d _ λ j. Moves-query_or d.0 d.1 j text code _ λ rows. released d.0 d.1 j (pos 1)

pub update_sql_info_timestamp-Settles :
    (user_id index flag : ℕ) → Settles (update_sql_info_timestamp user_id index flag)
unfolding update_sql_info_timestamp
update_sql_info_timestamp-Settles user_id index flag = one_statement-Settles _ _

pub write_and_stamp-Settles :
    (text : List ℕ) (user_id index : ℕ) → Settles (write_and_stamp text user_id index)
write_and_stamp-Settles text user_id index d = Moves-with_conn d _ λ j.
    Moves-query_or d.0 d.1 j text (pos 0) _ λ rows.
      Moves->> _ (j ∷ d.0, d.1) _ _ _
        (update_sql_info_timestamp-Settles user_id index 0 (j ∷ d.0, d.1))
        (released d.0 d.1 j (pos 1))

-- A command that sends rows, if it goes on from each row as it should.
pub for_rows-Settles :
    (text : List ℕ) (on_row : ℕ → Row → Run ℤ → Run ℤ) (end : ℕ → Run ℤ)
    → ((ks : List ℕ) (n j : ℕ) (row : Row) (rest : Run ℤ)
        → Mid ks n j rest
        → Mid ks n j (on_row j row rest))
    → ((ks : List ℕ) (n j : ℕ) → Mid ks n j (end j))
    → Settles (for_rows text on_row end)
for_rows-Settles text on_row end h k d = Moves-with_conn d _ λ j.
    Moves-query_or d.0 d.1 j text (pos 0) _ λ rows.
      Moves->> _ (j ∷ d.0, suc d.1) _ _ _ (Moves-store_result (j ∷ d.0) d.1)
        (Moves-row_loop d.0 d.1 j (on_row j) (end j) (h d.0 d.1 j) (k d.0 d.1 j) rows)

-- The rows that name another user or device, and those that do not.
module _ (ks : List ℕ) (n j : ℕ) where
  pub lookup_row :
      (kind : ℕ) (key : ℕ) (missing : Run ℤ) (found : UserNode → Run ℤ)
      → Mid ks n j missing
      → ((u : UserNode) → Mid ks n j (found u))
      → Mid ks n j (registered kind none key >>= λ temp. on_some temp missing found)
  lookup_row kind key missing found h k =
      Moves->>= _ _ _ (λ r. (j ∷ ks, suc n)) _ (Moves-registered _ kind none key)
        λ temp. Moves-on_some _ temp missing found _ h k

module _ (n : ℕ) (name : List ℕ) (found : UserNode → Run ℤ)
    (all_settle : (u : UserNode) → Settles (found u)) where
  -- A command that looks for a node first: NULL is answered with 0.
  pub tested : Settles (registered n (some name) 0 >>= λ node. on_some node (pure (pos 0)) found)
  tested d =
      Moves->>= d _ _ (λ r. d) _ (Moves-registered d n (some name) 0)
        λ node. Moves-on_some d node _ found _ (Moves-pure d (pos 0)) λ u. all_settle u d

  -- The same without a test, where the node is there.
  pub untested :
      (w : World) (s0 s : Session) (base d : Debt) (u : UserNode)
      → find_register_user_or_iot_node n (some name) 0 s.heads ≡ some u
      → Owes s0 base d s
      → Returns w
          (λ r s'. Owes s0 base d s')
          ((registered n (some name) 0 >>= λ node. on_some node crash found) w s)
  unfolding Moves
  untested w s0 s base d u e o = rw e (all_settle u d w s0 s base o)

pub new_user_friend-Settles : (a : Cln) (id : ℕ) → Settles (new_user_friend a id)
unfolding new_user_friend
new_user_friend-Settles a id d =
    Moves-if d (id == 0) _ _ _ (tested 0 a.talkto_id _ (λ u. write_and_stamp-Settles _ _ _) d)
      (write_and_stamp-Settles _ _ _ d)

pub new_user_iot-Settles : (a : Cln) (id : ℕ) → Settles (new_user_iot a id)
unfolding new_user_iot
new_user_iot-Settles a id d =
    Moves-if d (id == 0) _ _ _ (tested 10 a.talkto_id _ (λ u. write_and_stamp-Settles _ _ _) d)
      (write_and_stamp-Settles _ _ _ d)

Moves-today_text : (d : Debt) → Moves d today_text (λ r. d)
unfolding Moves today_text
Moves-today_text d w s0 s base o = o

pub new_user_msg_storage-Settles : (a : Cln) (to_id : ℕ) → Settles (new_user_msg_storage a to_id)
unfolding new_user_msg_storage
new_user_msg_storage-Settles a to_id d =
    Moves->>= _ _ _ (λ r. d) _ (Moves-today_text d) λ t. write_and_stamp-Settles _ _ _ d

pub iot_update_status-Settles :
    (a : Cln) (evt_class status : ℕ) → Settles (iot_update_status a evt_class status)
unfolding iot_update_status
iot_update_status-Settles a evt_class status d = Moves-with_conn d _ λ j.
    Moves->>= _ _ _ (λ r. (j ∷ d.0, d.1)) _ (Moves-query d.0 d.1 j _)
      λ r.
        Moves-on_reply _ r _ _ _
          (λ e.
            Moves-if _ (contains e (codes "Duplicate")) _ _ _
              (Moves->> _ d _ _ _ (Moves-release d.0 d.1 j) (
                Moves-with_conn d _ λ k.
                  Moves->>= _ _ _ (λ r. (k ∷ d.0, d.1)) _ (Moves-query d.0 d.1 k _)
                    λ u. released d.0 d.1 k _))
              (released d.0 d.1 j _))
          λ m rows. released d.0 d.1 j _

pub new_user_msg_table_in_sql-Settles : Settles new_user_msg_table_in_sql
unfolding new_user_msg_table_in_sql
new_user_msg_table_in_sql-Settles d =
    Moves->>= _ _ _ (λ r. d) _ (Moves-today_text d)
      λ t. Moves-with_conn d _ λ j.
        Moves->>= _ _ _ (λ r. (j ∷ d.0, d.1)) _ (Moves-query d.0 d.1 j _)
          λ r. Moves-on_reply _ r _ _ _ (λ e. released d.0 d.1 j _) λ m rows. released d.0 d.1 j _
