-- ===== src/Sql.antt =====
-- The SQL commands: one file of src/ each, from src/NewUserFriend.c to src/UserRequestMessage.c. This
-- module has what they share: the request, the state they change, and the calls they make, in a monad
-- for code that changes a session and may crash. Each file of the folder has a part of the commands.
pub mod Statements
pub mod Selects
pub mod Writes
pub mod Reads
pub mod Account
pub mod Rules
pub mod Commands
pub mod Settled
pub mod Balance
pub mod Packets
use uubang_iot.Base.{
  ℕ, ◌+◌, List, get_or, [], ◌∷◌, Option, none, some, Bool, true, false, ◌==◌, if◌then◌else◌,
}
use uubang_iot.Base.Int.{ℤ, pos, negsuc}
use uubang_iot.SqlPool.{Db, SqlPool, get_db_connect, release_node}
use uubang_iot.Registry.{Client, UserNode, Heads}
use uubang_iot.Registry.Find.{find_register_user_or_iot_node}

-- The rest of `CLN` that the commands use: `client` has the fields that the user lists use. Strings are
-- the bytes before the NUL.
pub record Cln : Type 0 where
  pub client : Client
  pub talkto_id : List ℕ
  pub data_text : List ℕ
  pub re_user_password : List ℕ
  pub pin : List ℕ

-- `UserPacketInterface`, without the two passwords, which these packets leave empty
pub record UserPacket : Type 0 where
  pub checkcode : List ℕ
  pub user_id : List ℕ
  pub talkto_id : List ℕ
  pub data_text : List ℕ
  pub save : List ℕ

-- `IotPacketInterface`
pub record IotPacket : Type 0 where
  pub op_code : List ℕ
  pub seq_num : ℕ
  pub pay_load : List ℕ

-- What a command has done, for the database, the peer and the locks of the lists.
pub data Event : Type 0 where
  -- `get_db_connect` gave this node, `release_node` gave it back
  leased released : ℕ → Event
  -- `mysql_real_query` on the connection of a node
  asked : ℕ → List ℕ → Event
  -- `mysql_store_result` and `mysql_free_result`
  stored result_freed : Event
  sent_user : UserPacket → Event
  sent_iot : IotPacket → Event
  close_socket : Event
  -- the same on the socket of another device
  sent_to : ℕ → IotPacket → Event
  close_other : ℕ → Event
  -- "STO" to the socket of a user
  sent_sto : ℕ → Event
  -- `send` to the top server
  sent_top : UserPacket → Event
  -- `pthread_mutex_lock` and `pthread_mutex_unlock` of the list of registered users, or devices
  locked_users unlocked_users locked_iots unlocked_iots : Event
  -- a node that `AddtoLocal` made
  added_local : Event

-- The shared state: the pool, the user lists, the counter `conn->SeqNum` of the requester's connection,
-- and what was done so far, the last event first.
pub record Session : Type 0 where
  pub pool : SqlPool
  pub heads : Heads
  pub seq_num : ℕ
  pub log : List Event

abbrev pub Row : Type 0
Row = List (List ℕ)

-- How MySQL answers a statement: with the text of `mysql_error`, or with the number of affected rows
-- and the rows of its result.
pub data Reply : Type 0 where
  failed : List ℕ → Reply
  answered : ℕ → List Row → Reply

-- What the code outside answers, which may depend on all that was done before.
pub record World : Type 0 where
  pub db : List Event → Db
  pub random : List Event → ℕ
  pub reply_to : List Event → List ℕ → Reply
  -- whether `mysql_store_result` gives a result, for a statement that went well
  pub store_ok : List Event → Bool
  pub send_ok : List Event → Bool
  pub malloc : List Event → ℕ → Option ℕ
  -- `CONNHANDLE->Pin`, by the address of the connection
  pub pin_at : List Event → ℕ → List ℕ
  -- `strftime` of the time with "%Y-%m-%d"
  pub today : List Event → List ℕ

pub data Ended {ℓ} (A : Type ℓ) : Type ℓ where
  returns : A → Ended A
  -- a read through NULL, or a division by zero
  crashes : Ended A

abbrev pub Run {ℓ} : Type ℓ → Type ℓ
Run A = World → Session → Ended A × Session

module _ {ℓ} {A : Type ℓ} where
  abbrev pub pure : A → Run A
  pure a w s = (returns a, s)

  abbrev pub crash : Run A
  crash w s = (crashes, s)

abbrev pub after {ℓ κ} :
    {A : Type ℓ} {B : Type κ} → (A → Run B) → World → Ended A × Session → Ended B × Session
after f w (returns a, s) = f a w s
after f w (crashes, s) = (crashes, s)

infixl 5 ◌>>=◌ ◌>>◌
abbrev pub ◌>>=◌ {ℓ κ} : {A : Type ℓ} {B : Type κ} → Run A → (A → Run B) → Run B
◌>>=◌ m f w s = after f w (m w s)

abbrev pub ◌>>◌ {ℓ κ} : {A : Type ℓ} {B : Type κ} → Run A → Run B → Run B
m >> k = m >>= λ _. k

abbrev pub note : Event → Run (Unit {0})
note e w s = (returns tt, record s { log = e ∷ s.log })

-- The session after a call of `get_db_connect`.
abbrev pub with_lease : Session → Option ℕ × SqlPool → Session
with_lease s (none, sp) = record s { pool = sp }
with_lease s (some j, sp) = record s { pool = sp; log = leased j ∷ s.log }

abbrev pub got : Session → Option (Option ℕ × SqlPool) → Ended (Option ℕ) × Session
got s none = (crashes, s)
got s (some r) = (returns r.0, with_lease s r)

-- `get_db_connect(MySqlConnPool)`
unfoldable pub get_node : Run (Option ℕ)
get_node w s = got s (get_db_connect (w.db s.log) (w.random s.log) s.pool)

-- `release_node(MySqlConnPool, temmp)`
unfoldable pub release : ℕ → Run (Unit {0})
release j w s = (returns tt, record s { pool = release_node s.pool j; log = released j ∷ s.log })

-- `mysql_real_query(mysql, text, strlen(text))`
unfoldable pub query : ℕ → List ℕ → Run Reply
query j text w s = (returns (w.reply_to s.log text), record s { log = asked j text ∷ s.log })

-- `if((temmp=get_db_connect(MySqlConnPool))==NULL) return 0;` and the code after it
abbrev pub on_some {ℓ κ} : {A : Type ℓ} {B : Type κ} → Option A → Run B → (A → Run B) → Run B
on_some none m f = m
on_some (some a) m f = f a

abbrev pub with_conn : (ℕ → Run ℤ) → Run ℤ
with_conn body = get_node >>= λ temmp. on_some temmp (pure (pos 0)) body

-- The two branches on the result of a query.
abbrev pub on_reply {ℓ} : {A : Type ℓ} → Reply → (List ℕ → Run A) → (ℕ → List Row → Run A) → Run A
on_reply (failed e) bad good = bad e
on_reply (answered n rows) bad good = good n rows

-- `if(mysql_real_query(…)) { release_node(…); return code; }` and the code after it
abbrev pub query_or : ℕ → List ℕ → ℤ → (List Row → Run ℤ) → Run ℤ
query_or j text code good =
    query j text >>= λ r. on_reply r (λ e. release j >> pure code) (λ n rows. good rows)

-- `res = mysql_store_result(mysql)`, up to the first `mysql_fetch_row(res)`: a result that is NULL is not
-- tested, and read.
unfoldable pub store_result : Run (Unit {0})
store_result w s =
    if w.store_ok s.log then (returns tt, record s { log = stored ∷ s.log }) else (crashes, s)

-- `FindRegisterUserOrIotNode`
abbrev pub registered : ℕ → Option (List ℕ) → ℕ → Run (Option UserNode)
registered n user_id id w s = (returns (find_register_user_or_iot_node n user_id id s.heads), s)

-- `SyncSend`, or `send`, of a packet: whether it went out
unfoldable pub send_user : UserPacket → Run Bool
send_user p w s = (returns (w.send_ok s.log), record s { log = sent_user p ∷ s.log })

unfoldable pub send_iot : IotPacket → Run Bool
send_iot p w s = (returns (w.send_ok s.log), record s { log = sent_iot p ∷ s.log })

-- `InterlockedIncrement(&conn->SeqNum); SeqNum[0] = conn->SeqNum; if(conn->SeqNum==127) conn->SeqNum = 1;`
unfoldable pub next_seq_num : Run ℕ
next_seq_num w s =
    let n = s.seq_num + 1 in (returns n, record s { seq_num = if n == 127 then 1 else n })

-- A column of a row; the statements select rows that have the columns read, and none of them is taken to be NULL.
abbrev pub column : Row → ℕ → List ℕ
column row i = get_or row i []
