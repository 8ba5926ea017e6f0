-- ===== src/Tests/Commands.antt =====
-- A database that answers every statement with two rows, and a pool of one node.
use uubang_iot.Timer.{timer_round, count_after, jobs_of, jobs_of_lem}
use uubang_iot.Base.{
  ◌≢◌, ℕ, ◌+◌, ◌==◌, ◌%◌, ◌&&◌, ◌||◌, ◌<◌, ◌≡◌, refl, [], ◌∷◌, some, true, false, arith, ◌⊎◌,
}
use uubang_iot.Base.Int.{pos}
use uubang_iot.Base.Bytes.{codes, str_eq, decimal, digits}
use uubang_iot.SqlPool.Outcome.{IsOpen}
use uubang_iot.Text.Hash.{djb_hash, djb_loop}
use uubang_iot.Registry.{UserNode, UserList, Heads}
use uubang_iot.Registry.Find.{find_register_user_or_iot_node, find_in, find_node}
use uubang_iot.Sql.{Cln, World, Session, Row, answered}
use uubang_iot.Sql.Account.{After, Returns}
use uubang_iot.Sql.Statements.{delete_scene}
use uubang_iot.Sql.Commands.{Command, perform}
use uubang_iot.Sql.Reads.{user_request_message, message_packet}
use uubang_iot.Sql.Balance.{Balanced, perform-Balanced}
use uubang_iot.Sql.Packets.{SendsRows, msgs_text, user_request_message-SendsRows}
use uubang_iot.Registration.{user_regiter}
use uubang_iot.Registration.Lease.{Keeps, user_regiter-Keeps}
use uubang_iot.TopServer.{handle_top_server_msg, top_code}
use uubang_iot.TopServer.Frees.{SignsOut, handle_top_server_msg_lem}
use uubang_iot.Daily.{daily_round, is_nought, daily_round_lem}

abbrev pub partner : UserNode
partner = record {
  self = 9;
  user_socket = 4;
  user_addr = 0;
  user_id = codes "22222222222";
  userkey_id = 8;
  user_password = codes "secret";
  info = [];
  conn_handle = 0;
}

abbrev pub nobody : UserList
nobody = record { nodes = []; online_user_num = pos 0; freed = [] }

abbrev pub lists : Heads
lists = record {
  online_user = record { nodes = partner ∷ []; online_user_num = pos 1; freed = [] };
  online_iot = nobody;
  registed_user = record { nodes = partner ∷ []; online_user_num = pos 1; freed = [] };
  registed_iot = nobody;
}

abbrev pub start : Session
start = record {
  pool = record {
    shutdown = false;
    sql_pool =
        record { has_sock = true; locked = false; used = false; index = 0; connected = true } ∷ [];
    pool_number = 1;
    busy_number = pos 0;
  };
  heads = lists;
  seq_num = 126;
  log = [];
}

abbrev pub start-IsOpen : IsOpen start.pool
start-IsOpen = record { open_pool = refl; some_node = omega arith; in_array = omega arith }

abbrev hello_row : Row
hello_row = codes "5" ∷ codes "8" ∷ codes "hello" ∷ codes "2020-01-01" ∷ []

abbrev pub world : World
world = record {
  db = λ log. record { init_ok = λ i. true; connect_ok = λ i. true; ping_ok = λ i. true };
  random = λ log. 3;
  store_ok = λ log. true;
  reply_to = λ log text. answered 1 (hello_row ∷ hello_row ∷ []);
  send_ok = λ log. true;
  malloc = λ log k. some 70;
  pin_at = λ log conn. codes "123456";
  today = λ log. codes "2020-01-01";
}

abbrev pub asker : Cln
asker = record {
  client = record {
    socket = 3;
    addr = 0;
    user_id = codes "11111111111";
    userkey_id = 5;
    user_password = [];
    checkcode = codes "STO";
    info = [];
    conn = 0;
    conn_userkey_id = 5;
  };
  talkto_id = codes "22222222222";
  data_text = codes "hello";
  re_user_password = [];
  pin = codes "123456";
}

abbrev partner_registered :
    find_register_user_or_iot_node 0 (some asker.talkto_id) 0 start.heads ≡ some partner
unfolding find_register_user_or_iot_node find_in find_node str_eq
partner_registered = refl

abbrev ask : Command
ask = Command.send_messages asker 0 (codes "2019-12-31") (codes "2020-01-02") (codes "2020-01-01")

perform-Balanced_example : Balanced world start ([], 0) (perform ask world start)
perform-Balanced_example =
    perform-Balanced ask world start ([], 0) start-IsOpen refl (partner, partner_registered)

user_request_message-SendsRows_example :
    Returns world
      (SendsRows world start
        (msgs_text asker 0 (codes "2019-12-31") (codes "2020-01-02") (codes "2020-01-01") partner)
        (message_packet asker 0))
      (user_request_message asker 0
        (codes "2019-12-31")
        (codes "2020-01-02")
        (codes "2020-01-01")
        world
        start)
user_request_message-SendsRows_example =
    user_request_message-SendsRows asker 0 (codes "2019-12-31") (codes "2020-01-02")
      (codes "2020-01-01") world start partner start-IsOpen partner_registered

-- The text of a statement.
scene_of_seven :
    delete_scene 7 ≡ codes "DELETE FROM `userscenecmd` WHERE `userscenecmd`.`iotid`  = 7"
unfolding delete_scene decimal digits
scene_of_seven = refl

user_regiter-Keeps_example : After (Keeps ([], 0)) (user_regiter asker world start)
user_regiter-Keeps_example = user_regiter-Keeps asker world start ([], 0) start-IsOpen refl

asks_sto : top_code asker.client.checkcode ≡ 70235
unfolding djb_hash djb_loop
asks_sto = refl

handle_top_server_msg_lem_example :
    ((top_code asker.client.checkcode ≡ 70235)
      × SignsOut asker world start (handle_top_server_msg asker world start))
    ⊎ ((top_code asker.client.checkcode ≢ 70235)
        × ((handle_top_server_msg asker world start).1.heads ≡ start.heads))
handle_top_server_msg_lem_example = handle_top_server_msg_lem asker world start (omega arith)

daily_round_lem_example :
    (((daily_round (λ k. pos 1) false).1 ≡ true)
      × ((k : ℕ) → 0 < k → k < 99 → is_nought (pos 1) ≡ true))
    ⊎ ((daily_round (λ k. pos 1) false ≡ (true, false))
        × (k : ℕ) × (0 < k)
        × (k < 99)
        × (is_nought (pos 1) ≡ false)
        × ((m : ℕ) → 0 < m → m < k → is_nought (pos 1) ≡ true))
daily_round_lem_example = daily_round_lem (λ k. pos 1)

-- The tenth round, with a link that is down.
jobs_of_lem_example :
    let r = (9 + 1) % 100 in
    jobs_of (λ k. true) 9
    ≡ record { reconnects = r == 0 && true; sweeps = r == 10 || r == 23; reports = r == 24 }
jobs_of_lem_example = jobs_of_lem (λ k. true) 9

sweeps_now : (jobs_of (λ k. true) 9).sweeps ≡ true
unfolding timer_round count_after
sweeps_now = refl
