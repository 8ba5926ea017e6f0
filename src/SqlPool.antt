-- ===== src/SqlPool.antt =====
-- The MySQL connection pool: head/sqlpool.h, src/sqlpool.c and src/MySqlConnInit.c. Each function
-- returns the new pool. What the MySQL client library answers comes in a `Db`, by the index of the
-- node: a call of `get_db_connect` tries a node once.
pub mod Lease
pub mod Outcome
pub mod Search
pub mod Destroy
pub mod Create
pub mod Resize
pub mod Open
use uubang_iot.Base.{
  ℕ, zero, suc, ◌+◌, ◌-◌, ◌%◌, List, [], ◌∷◌, Option, none, some, Bool, true, false, ◌&&◌, not,
  ◌==◌, ltb, if◌then◌else◌, get_or, set, min,
}
use uubang_iot.Base.Int.{ℤ, pos, negsuc, ◌+ℤ◌, ◌-ℤ◌}

-- The answers of mysql_init, mysql_real_connect and mysql_ping for each node.
pub record Db : Type 0 where
  pub init_ok : ℕ → Bool
  pub connect_ok : ℕ → Bool
  pub ping_ok : ℕ → Bool

-- `SQL_NODE`: `connected` is `sql_state == DB_CONN`, `has_sock` is `mysql_sock != NULL`, and
-- `locked` is the state of the mutex.
pub record SqlNode : Type 0 where
  pub has_sock : Bool
  pub locked : Bool
  pub used : Bool
  pub index : ℕ
  pub connected : Bool

-- `SQL_CONN_POOL`
pub record SqlPool : Type 0 where
  pub shutdown : Bool
  pub sql_pool : List SqlNode
  pub pool_number : ℕ
  pub busy_number : ℤ

abbrev pub pool_max_number : ℕ
pool_max_number = 30

-- A read outside the array; no theorem rests on what it gives.
abbrev pub stray : SqlNode
stray = record { has_sock = false; locked = false; used = false; index = 0; connected = false }

abbrev pub node_at : SqlPool → ℕ → SqlNode
node_at sp i = get_or sp.sql_pool i stray

abbrev pub put : SqlPool → ℕ → SqlNode → SqlPool
put sp i n = record sp { sql_pool = set sp.sql_pool i n }

-- `MySqlInit`: whether it returns a connection.
abbrev pub my_sql_init : Db → ℕ → Bool
my_sql_init db i = db.init_ok i && db.connect_ok i

-- `create_db_connect(sp, &sp->sql_pool[i])`. The mutex is initialised again on a reconnection too.
unfoldable pub create_db_connect : Db → SqlPool → ℕ → ℤ × SqlPool
create_db_connect db sp i =
    if sp.shutdown
    then (negsuc 0, sp)
    else if my_sql_init db i
    then (
      pos 1,
      put sp i (record (node_at sp i) {
        has_sock = true;
        locked = false;
        used = false;
        connected = true;
      }),
    )
    else (
      pos 0,
      put sp i (record (node_at sp i) { has_sock = false; locked = false; connected = false }),
    )

unfoldable pub release_node : SqlPool → ℕ → SqlPool
release_node sp i = record sp {
  sql_pool = set sp.sql_pool i (record (node_at sp i) { used = false; locked = false });
  busy_number = sp.busy_number -ℤ pos 1;
}

-- `!create_db_connect(…)`
abbrev pub is_zero : ℤ → Bool
is_zero (pos zero) = true
is_zero (pos (suc n)) = false
is_zero (negsuc n) = false

-- From `mysql_ping` on, with the node locked.
unfoldable pub ping_node : Db → SqlPool → ℕ → Bool × SqlPool
unfolding release_node
ping_node db sp i =
    if db.ping_ok i
    then (
      true,
      record sp {
        sql_pool = set sp.sql_pool i (record (node_at sp i) { used = true });
        busy_number = sp.busy_number +ℤ pos 1;
      },
    )
    else (false, release_node (put sp i (record (node_at sp i) { connected = false })) i)

-- The body of the loop of `get_db_connect`: whether it breaks out with the node.
unfoldable pub try_node : Db → SqlPool → ℕ → Bool × SqlPool
unfolding create_db_connect release_node ping_node
try_node db sp i =
    if (node_at sp i).locked
    then (false, sp)
    else let sp1 = put sp i (record (node_at sp i) { locked = true }) in
      if (node_at sp i).connected
      then ping_node db sp1 i
      else let (res, sp2) = create_db_connect db sp1 i in
        if is_zero res then (false, release_node sp2 i) else ping_node db sp2 i

-- The loop, on the rounds that are left.
unfoldable pub get_loop : Db → ℕ → ℕ → ℕ → SqlPool → Option ℕ × SqlPool
get_loop db zero start i sp = (none, sp)
get_loop db (suc rounds) start i sp =
    let index = (start + i) % sp.pool_number in
    let (got, sp') = try_node db sp index in
    elim got [ true ↦ (some index, sp') | false ↦ get_loop db rounds start (i + 1) sp' ]

-- `get_db_connect`, with the number that `rand` returns. The outer `none` is the division by zero
-- of an empty pool, the inner one is NULL.
unfoldable pub get_db_connect : Db → ℕ → SqlPool → Option (Option ℕ × SqlPool)
unfolding get_loop
get_db_connect db random sp =
    if sp.shutdown
    then some (none, sp)
    else if sp.pool_number == 0
    then none
    else some (get_loop db sp.pool_number (random % sp.pool_number) 0 sp)

-- `mysql_close`, for a node that has a connection.
abbrev pub closed : SqlNode → SqlNode
closed n = record n { has_sock = false; connected = false }

-- The loop of `sql_pool_destroy`: `index` rises while `pool_number` falls.
unfoldable pub destroy_loop : ℕ → ℕ → SqlPool → SqlPool
destroy_loop zero index sp = sp
destroy_loop (suc fuel) index sp = elim (ltb index sp.pool_number) [
  | false ↦ sp
  | true ↦ destroy_loop fuel (index + 1) (record sp {
    sql_pool = set sp.sql_pool index (closed (node_at sp index));
    pool_number = sp.pool_number - 1;
  })
]

-- One round more than there are nodes is enough fuel.
unfoldable pub sql_pool_destroy : SqlPool → SqlPool
unfolding destroy_loop
sql_pool_destroy sp = destroy_loop (sp.pool_number + 1) 0 (record sp { shutdown = true })

-- `sp->sql_pool[index].index = index; sp->pool_number++;`
abbrev pub count_in : SqlPool → ℕ → SqlPool
count_in sp i = record sp {
  sql_pool = set sp.sql_pool i (record (node_at sp i) { index = i });
  pool_number = sp.pool_number + 1;
}

-- The loop of `sql_pool_create` and of `changeNodeNum`, on the rounds left: none for NULL, with the pool that is left behind.
unfoldable pub create_loop : Db → ℕ → ℕ → SqlPool → Bool × SqlPool
unfolding create_db_connect sql_pool_destroy
create_loop db zero index sp = (true, sp)
create_loop db (suc rounds) index sp =
    let (res, sp1) = create_db_connect db sp index in
    elim (is_zero res) [
      | true ↦ (false, sql_pool_destroy sp1)
      | false ↦ create_loop db rounds (index + 1) (count_in sp1 index)
    ]

-- `connect_pool_number`, a signed argument, after the two corrections.
abbrev pub pool_size : ℤ → ℕ
pool_size (negsuc n) = 1
pool_size (pos zero) = 1
pool_size (pos (suc n)) = min (suc n) pool_max_number

-- `sql_pool_create`; `memory` is the array that `malloc` gives, with what it holds, if it gives any. The
-- result is none where there is no memory, else whether a pool is returned, with the one that was made.
unfoldable pub sql_pool_create : Db → Option (List SqlNode) → ℤ → Option (Bool × SqlPool)
unfolding create_loop
sql_pool_create db none number = none
sql_pool_create db (some raw) number = some (
    create_loop db (pool_size number) 0
      (record { shutdown = false; sql_pool = raw; pool_number = 0; busy_number = pos 0 }))

-- The loop that closes nodes from the end, on the rounds left: it stops below index 0.
unfoldable pub shrink_loop : ℕ → SqlPool → SqlPool
shrink_loop zero sp = sp
shrink_loop (suc rounds) sp = elim (sp.pool_number == 0) [
  | true ↦ sp
  | false ↦ shrink_loop rounds (record sp {
    sql_pool = set sp.sql_pool (sp.pool_number - 1) (closed (node_at sp (sp.pool_number - 1)));
    pool_number = sp.pool_number - 1;
  })
]

-- `changeNodeNum`: five nodes more for op = 1 and fewer for op = 0.
unfoldable pub change_node_num : Db → SqlPool → ℕ → Bool × SqlPool
unfolding create_loop shrink_loop
change_node_num db sp op =
    if op == 1
    then create_loop db 5 sp.pool_number sp
    else if op == 0
    then (true, shrink_loop 5 sp)
    else (true, sp)
