-- ===== src/Sql/Packets.antt =====
-- The packets that a command sends for the rows of a result.
use uubang_iot.Base.{
  ℕ, ◌≡◌, refl, sym, ◌∙◌, ◌⊎◌, inl, inr, List, [], ◌∷◌, ◌++◌, Option, none, some, Bool, true, false,
  ◌<◌, ◌==◌, if◌then◌else◌, map, append_assoc, append-nil, Bool-cases,
}
use uubang_iot.Base.Int.{ℤ, pos}
use uubang_iot.SqlPool.{SqlPool}
use uubang_iot.SqlPool.Outcome.{IsOpen}
use uubang_iot.SqlPool.Lease.{usable}
use uubang_iot.SqlPool.Search.{Gets}
use uubang_iot.SqlPool.Open.{get_db_connect-IsOpen}
use uubang_iot.Registry.Find.{find_register_user_or_iot_node}
use uubang_iot.Sql.Account.{Returns}
use uubang_iot.Sql.Selects.{select_msgs}
use uubang_iot.Registry.{UserNode}
use uubang_iot.Sql.{
  Cln, Run, Row, Event, World, Session, Ended, UserPacket, pure, after, ◌>>◌, release, returns,
  crashes, get_node, got, query, query_or, on_some, on_reply, Reply, failed, answered, send_user,
  store_result,
}
use uubang_iot.Sql.Reads.{
  row_loop, send_row, release_and_free, for_rows, user_request_message, message_packet,
}

-- The packets to the peer in a log, the first one first.
abbrev pub sent : List Event → List UserPacket
sent [] = []
sent (Event.sent_user p ∷ es) = sent es ++ (p ∷ [])
sent (e ∷ es) = sent es

-- Which of these packets go out one after another from a log on, and whether all do: the first that the
-- peer does not take is the last.
abbrev pub delivered : World → List Event → List UserPacket → List UserPacket × Bool
delivered w log [] = ([], true)
delivered w log (p ∷ ps) =
    let rest = delivered w (Event.sent_user p ∷ log) ps in
    if w.send_ok log then (p ∷ rest.0, rest.1) else (p ∷ [], false)

-- They are what was sent, and the result says whether all of them went out.
abbrev pub Delivers : List UserPacket → List UserPacket × Bool → ℤ → Session → Type 0
Delivers before d r s' = (r ≡ (if d.1 then pos 1 else pos 0)) × (sent s'.log ≡ before ++ d.0)

module _ (j : ℕ) (packet : Row → UserPacket) where
  -- The loop of a command that sends one packet for each row.
  abbrev sending : List Row → Run ℤ
  sending =
      row_loop (λ row rest. send_row (release_and_free j (pos 0)) (packet row) rest)
        (release_and_free j (pos 1))

  sending-Delivers :
      (rows : List Row) (w : World) (s : Session)
      → Returns w (Delivers (sent s.log) (delivered w s.log (map packet rows))) (sending rows w s)
  unfolding row_loop release send_user
  sending-Delivers [] w s = (refl, sym (append-nil (sent s.log)))
  sending-Delivers (row ∷ rows) w s = elim (Bool-cases (w.send_ok s.log)) [
    | inl good ↦ rw good (more (sending rows w next) (sending-Delivers rows w next))
    | inr bad ↦ rw bad (refl, refl)
  ]
    where
      next : Session
      next = record s { log = Event.sent_user (packet row) ∷ s.log }

      after_one : List UserPacket × Bool
      after_one = delivered w (Event.sent_user (packet row) ∷ s.log) (map packet rows)

      more :
          (r : Ended ℤ × Session)
          → Returns w (Delivers (sent s.log ++ (packet row ∷ [])) after_one) r
          → Returns w (Delivers (sent s.log) (packet row ∷ after_one.0, after_one.1)) r
      more (returns a, s') (e, f) = (e, f ∙ append_assoc (sent s.log) (packet row ∷ []) after_one.0)
      more (crashes, s') h = h

-- What a command sends when its statement is answered so: nothing if it failed, and else the packets of
-- all its rows, up to the first that does not go out.
abbrev pub AfterReply :
    World → Session → List Event → (Row → UserPacket) → Reply → ℤ → Session → Type 0
AfterReply w s log packet (failed e) r s' = (r ≡ pos 0) × (sent s'.log ≡ sent s.log)
AfterReply w s log packet (answered n rows) r s' =
    Delivers (sent s.log) (delivered w (Event.stored ∷ log) (map packet rows)) r s'

-- It gives up with 0 where no node of the pool can be lent; else it asks one that can.
abbrev pub SendsRows : World → Session → List ℕ → (Row → UserPacket) → ℤ → Session → Type 0
SendsRows w s text packet r s' =
    (((k : ℕ) → k < s.pool.pool_number → usable (w.db s.log) s.pool k ≡ false)
      × (r ≡ pos 0)
      × (sent s'.log ≡ sent s.log))
    ⊎ ((j : ℕ) × (j < s.pool.pool_number)
        × (usable (w.db s.log) s.pool j ≡ true)
        × AfterReply w s (Event.asked j text ∷ Event.leased j ∷ s.log) packet
            (w.reply_to (Event.leased j ∷ s.log) text) r s')

module _ (text : List ℕ) (packet : Row → UserPacket) (w : World) (s : Session) where
  on_answer :
      (j : ℕ) (sp : SqlPool) (r : Reply)
      → Returns w (AfterReply w s (Event.asked j text ∷ Event.leased j ∷ s.log) packet r) (
          on_reply r
            (λ e. release j >> pure (pos 0))
            (λ n rows. store_result >> sending j packet rows)
            w
            (record s { pool = sp; log = Event.asked j text ∷ Event.leased j ∷ s.log }))
  unfolding release store_result
  on_answer j sp (failed e) = (refl, refl)
  on_answer j sp (answered n rows) =
      elim (Bool-cases (w.store_ok (Event.asked j text ∷ Event.leased j ∷ s.log))) [
        | inl good ↦ rw good (
            sending-Delivers j packet rows w (record s {
              pool = sp;
              log = Event.stored ∷ Event.asked j text ∷ Event.leased j ∷ s.log;
            }))
        | inr bad ↦ rw bad bad
      ]

  for_rows-SendsRows :
      IsOpen s.pool
      → Returns w (SendsRows w s text packet) (
          for_rows text
            (λ temmp row rest. send_row (release_and_free temmp (pos 0)) (packet row) rest)
            (λ temmp. release_and_free temmp (pos 1))
            w
            s)
  unfolding get_node query
  for_rows-SendsRows o =
      let (r, e, g, open') = get_db_connect-IsOpen (w.db s.log) (w.random s.log) s.pool o in
      rw e (by_node r g)
    where
      lent :
          (j : ℕ)
          → j < s.pool.pool_number
          → usable (w.db s.log) s.pool j ≡ true
          → (x : Ended ℤ × Session)
          → Returns w
              (AfterReply w s
                (Event.asked j text ∷ Event.leased j ∷ s.log)
                packet
                (w.reply_to (Event.leased j ∷ s.log) text))
              x
          → Returns w (SendsRows w s text packet) x
      lent j below can (returns a, s') h = inr (j, below, can, h)
      lent j below can (crashes, s') h = h

      by_node :
          (r : Option ℕ × SqlPool)
          → Gets (w.db s.log) s.pool r
          → Returns w (SendsRows w s text packet) (
              after
                (λ node. on_some node (pure (pos 0)) λ temmp.
                  query_or temmp text (pos 0) λ rows. store_result >> sending temmp packet rows)
                w
                (got s (some r)))
      by_node (none, sp) g = inl (g.0, refl, refl)
      by_node (some j, sp) g =
          lent j g.0 g.1 _ (on_answer j sp (w.reply_to (Event.leased j ∷ s.log) text))

-- The statement of `UserRequestMessage`.
abbrev pub msgs_text : Cln → ℕ → List ℕ → List ℕ → List ℕ → UserNode → List ℕ
msgs_text a direction date_first date_last time_now u =
    if direction == 0
    then select_msgs time_now a.client.userkey_id u.userkey_id date_first date_last
    else select_msgs time_now u.userkey_id a.client.userkey_id date_first date_last

-- `UserRequestMessage` answers with the stored messages: with 0 and no packet where no node of the pool
-- can be lent or the statement fails; else it sends one packet for each row of the answer, in the order of
-- the rows and nothing else, and returns 1 if the peer takes all of them; the first that it does not take
-- is the last, and the result is then 0. It starts from a working pool, the partner is a registered user,
-- and the only other end is a crash where MySQL has no memory for the result.
pub user_request_message-SendsRows :
    (a : Cln) (direction : ℕ) (date_first date_last time_now : List ℕ) (w : World) (s : Session)
    (u : UserNode)
    → IsOpen s.pool
    → find_register_user_or_iot_node 0 (some a.talkto_id) 0 s.heads ≡ some u
    → Returns w
        (SendsRows w s
          (msgs_text a direction date_first date_last time_now u)
          (message_packet a direction))
        (user_request_message a direction date_first date_last time_now w s)
unfolding user_request_message
user_request_message-SendsRows a direction date_first date_last time_now w s u o known = rw known (
    for_rows-SendsRows (msgs_text a direction date_first date_last time_now u)
      (message_packet a direction) w s o)
