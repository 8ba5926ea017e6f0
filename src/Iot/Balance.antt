-- ===== src/Iot/Balance.antt =====
-- What a request of a device owes when `IoTtalk` has returned.
use uubang_iot.Base.{
  ℕ, zero, suc, ◌+◌, ◌≡◌, ◌≢◌, ◌<◌, refl, List, [], some, ◌==◌, ltb, ◌&&◌, not, if◌then◌else◌,
  arith,
}
use uubang_iot.Base.Int.{ℤ, pos}
use uubang_iot.Base.Bytes.{codes}
use uubang_iot.SqlPool.Outcome.{IsOpen}
use uubang_iot.Text.Split.{Piece}
use uubang_iot.Talk.{atoi}
use uubang_iot.Sql.{Cln, Run, Event, World, Session, pure, ◌>>=◌, ◌>>◌}
use uubang_iot.Sql.Account.{Debt, owed, Moves}
use uubang_iot.Sql.Rules.{
  Moves-pure, Moves->>=, Moves->>, Moves-if, Moves-cond, Moves-note, Moves-send_iot,
  Moves-next_seq_num,
}
use uubang_iot.Sql.Settled.{iot_update_status-Settles}
use uubang_iot.Sql.Balance.{
  balanced, Balanced, iot_get_iot_data-Settles, iot_read_self_scene_cmd-Settles,
}
use uubang_iot.Iot.{Device, Chance, Conn, answers, send_op_back}
use uubang_iot.Iot.Login.{case_rsa, case_pin}
use uubang_iot.Iot.Data.{
  update_pair, update_loop, case_update, case_read_scene, read_loop, case_read_data, is_true,
}
use uubang_iot.Iot.Cases.{signed_in_case, iot_talk}

-- Code that leaves the debt as it was.
abbrev Level : {A : Type 0} → Run A → Type 0
Level m = (d : Debt) → Moves d m (λ r. d)

Level-send_op_back : (code text : List ℕ) → Level (send_op_back code text)
unfolding send_op_back
Level-send_op_back code text d =
    Moves->>= d _ _ (λ r. d) _ (Moves-next_seq_num d)
      λ seq.
        Moves->>= d _ _ (λ r. d) _ (Moves-send_iot d _)
          λ sent.
            Moves-if d sent _ _ _ (Moves-pure d tt)
              (Moves-note d d Event.close_socket (λ base. refl) refl)

Level-answers : (conn : Conn) (code text : List ℕ) → Level (answers conn code text)
Level-answers conn code text d =
    Moves->> d d _ _ _ (Level-send_op_back code text d) (Moves-pure d (pos 1, conn))

Level-then : {A : Type 0} (m : Run A) (r : ℤ × Conn) → Level m → Level (m >> pure r)
Level-then m r h d = Moves->> d d _ _ _ (h d) (Moves-pure d r)

Level-update_pair : (a : Cln) (class value : List ℕ) → Level (update_pair a class value)
unfolding update_pair
Level-update_pair a class value d =
    Moves-if d (atoi class == 0) _ _ _ (write _ (iot_update_status-Settles _ _ _ d)) (
      Moves-if d (atoi class == 1) _ _ _ (write _ (iot_update_status-Settles _ _ _ d)) (
        Moves-if d (atoi class == 3) _ _ _ (write _ (iot_update_status-Settles _ _ _ d))
          (Moves-pure d tt)))
  where
    write :
        (m : Run ℤ)
        → Moves d m (λ r. d)
        → Moves d
            (m >>= λ res.
              if is_true res then send_op_back (codes "04") [] else send_op_back (codes "24") [])
            (λ r. d)
    write m h =
        Moves->>= d m _ (λ r. d) _ h
          λ res.
            Moves-if d (is_true res) _ _ _ (Level-send_op_back _ _ d) (Level-send_op_back _ _ d)

Level-update_loop :
    (a : Cln) (out_str : List Piece) (pairs i : ℕ) → Level (update_loop a out_str pairs i)
unfolding update_loop
Level-update_loop a out_str zero i d = Moves-pure d tt
Level-update_loop a out_str (suc pairs) i d =
    Moves->> d d _ _ _ (Level-update_pair a _ _ d) (Level-update_loop a out_str pairs (i + 2) d)

Level-read_loop : (a : Cln) (out_str : List Piece) (n i : ℕ) → Level (read_loop a out_str n i)
unfolding read_loop
Level-read_loop a out_str zero i d = Moves-pure d tt
Level-read_loop a out_str (suc n) i d =
    Moves->> d d _ _ _ (iot_get_iot_data-Settles a _ d) (Level-read_loop a out_str n (i + 1) d)

Level-case_rsa : (r : Chance) (a : Device) → Level (case_rsa r a)
unfolding case_rsa
Level-case_rsa r a = Level-answers _ _ _

Level-case_pin : (r : Chance) (a : Device) → Level (case_pin r a)
unfolding case_pin
Level-case_pin r a d =
    Moves-if d (a.key.encrypt_block_bytes == 0) _ _ _ (Moves-pure d _) (Level-answers _ _ _ d)

Level-case_update : (a : Device) → Level (case_update a)
unfolding case_update
Level-case_update a d =
    Moves-if d _ _ _ _ (Level-then _ _ (Level-update_loop a.cln _ _ _) d) (Moves-pure d _)

Level-case_read_scene : (a : Device) → Level (case_read_scene a)
unfolding case_read_scene
Level-case_read_scene a = Level-then _ _ (iot_read_self_scene_cmd-Settles _ _)

Level-case_read_data : (a : Device) → Level (case_read_data a)
unfolding case_read_data
Level-case_read_data a = Level-then _ _ (Level-read_loop _ _ _ _)

-- The requests that settle: a registration and a read command do not, and a command for another device
-- or to be stored for one looks that device up.
abbrev pub Settling : ℕ → Type 0
Settling code = (code ≢ 3) × (code ≢ 5) × (code ≢ 8) × (code ≢ 9)

Level-signed_in_case :
    (a : Device) (code : ℕ) → Settling code → 3 < code → code < 10 → Level (signed_in_case a code)
unfolding signed_in_case
Level-signed_in_case a code (not3, not5, not8, not9) low high d =
    Moves-cond d (not a.signed_in) _ _ _ (λ out. Moves-pure d _)
      λ signed.
        Moves-cond d (code == 4) _ _ _ (λ is4. Level-case_update a d)
          λ not4.
            Moves-cond d (code == 5) _ _ _ (λ is5. absurd (ground arith))
              λ no5.
                Moves-cond d (code == 6) _ _ _ (λ is6. Level-case_read_scene a d)
                  λ not6.
                    Moves-cond d (code == 7) _ _ _ (λ is7. Level-case_read_data a d)
                      λ not7. absurd (ground arith)

Level-iot_talk :
    (r : Chance) (a : Device) → Settling (atoi a.cln.client.checkcode) → Level (iot_talk r a)
unfolding iot_talk
Level-iot_talk r a h d =
    let code = atoi a.cln.client.checkcode in
    Moves-cond d (code == 1) _ _ _ (λ is1. Level-case_rsa r a d)
      λ not1.
        Moves-cond d (code == 2) _ _ _ (λ is2. Level-case_pin r a d)
          λ not2.
            Moves-cond d (code == 3) _ _ _ (λ is3. absurd (ground (arith, h)))
              λ not3.
                Moves-cond d (ltb 3 code && ltb code 10) _ _ _
                  (λ inside. Level-signed_in_case a code h (ground arith) (ground arith) d)
                  λ outside. Moves-pure d _

-- `IoTtalk` returns from a working pool, whatever the database, the pool and the device answer, unless
-- MySQL has no memory for a result (`mysql_store_result` gives NULL, which the code reads through), and has
-- then released each node and freed each result that it took; no mutex of the pool has changed. The codes
-- are those other than 3 (registration), 5 (read a command) and 8 and 9 (a command for another device).
pub iot_talk-Balanced :
    (r : Chance) (a : Device) (w : World) (s : Session) (d : Debt)
    → IsOpen s.pool
    → owed s.log ≡ some d
    → Settling (atoi a.cln.client.checkcode)
    → Balanced w s d (iot_talk r a w s)
iot_talk-Balanced r a w s d o e h = balanced w s d (iot_talk r a) o e (Level-iot_talk r a h ([], 0))
