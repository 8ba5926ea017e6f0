-- ===== src/Tests/Pool.antt =====
-- The connection pool on two nodes: one that someone holds, and one that lost its connection.
use uubang_iot.Base.{
  ℕ, ◌+◌, ◌/◌, ◌≡◌, ◌<◌, refl, ◌∷◌, Option, some, true, false, arith, ltb, if◌then◌else◌, replicate,
}
use uubang_iot.Base.Int.{pos, ◌+ℤ◌}
use uubang_iot.SqlPool.{
  Db, SqlNode, SqlPool, stray, node_at, closed, get_db_connect, sql_pool_destroy, sql_pool_create,
  change_node_num, create_db_connect, try_node, get_loop, release_node, ping_node,
}
use uubang_iot.SqlPool.Outcome.{IsOpen}
use uubang_iot.SqlPool.Search.{Gets, get_db_connect-Gets}
use uubang_iot.SqlPool.Destroy.{sql_pool_destroy_lem}
use uubang_iot.SqlPool.Create.{fresh, is_null, sql_pool_create-connected, sql_pool_create-fails}
use uubang_iot.SqlPool.Resize.{change_node_num-back}

abbrev up : Db
up = record { init_ok = λ i. true; connect_ok = λ i. true; ping_ok = λ i. true }

abbrev down : Db
down = record { init_ok = λ i. true; connect_ok = λ i. false; ping_ok = λ i. true }

abbrev held : SqlNode
held = record { has_sock = true; locked = true; used = true; index = 0; connected = true }

abbrev idle : SqlNode
idle = record { has_sock = false; locked = false; used = false; index = 1; connected = false }

abbrev two_nodes : SqlPool
two_nodes = record {
  shutdown = false;
  sql_pool = held ∷ idle ∷ replicate 28 stray;
  pool_number = 2;
  busy_number = pos 1;
}

abbrev two_nodes-IsOpen : IsOpen two_nodes
two_nodes-IsOpen = record { open_pool = refl; some_node = omega arith; in_array = omega arith }

get_db_connect-Gets_example :
    (r : Option ℕ × SqlPool) × (get_db_connect up 6 two_nodes ≡ some r) × Gets up two_nodes r
get_db_connect-Gets_example = get_db_connect-Gets up 6 two_nodes two_nodes-IsOpen

-- The node that was reconnected is lent with its mutex free.
reconnected :
    get_db_connect up 6 two_nodes
    ≡ some (
      some 1,
      record two_nodes {
        sql_pool =
            held
            ∷ record idle { has_sock = true; used = true; connected = true }
            ∷ replicate 28 stray;
        busy_number = pos 2;
      },
    )
unfolding get_db_connect get_loop try_node create_db_connect release_node ping_node ◌+ℤ◌
reconnected = refl

sql_pool_destroy_lem_example :
    ((sql_pool_destroy two_nodes).shutdown ≡ true)
    × ((sql_pool_destroy two_nodes).pool_number ≡ 2 / 2)
    × ((k : ℕ)
        → node_at (sql_pool_destroy two_nodes) k
          ≡ (if ltb (k + k) 2 then closed (node_at two_nodes k) else node_at two_nodes k))
sql_pool_destroy_lem_example = sql_pool_destroy_lem two_nodes (omega arith)

sql_pool_create-connected_example :
    (sp : SqlPool) × (sql_pool_create up (some (replicate 30 stray)) (pos 40) ≡ some (true, sp))
    × (sp.shutdown ≡ false)
    × (sp.busy_number ≡ pos 0)
    × (sp.pool_number ≡ 30)
    × ((k : ℕ) → k < sp.pool_number → node_at sp k ≡ fresh k)
sql_pool_create-connected_example =
    sql_pool_create-connected up (replicate 30 stray) (pos 40) refl (λ k lt. refl)

sql_pool_create-fails_example :
    is_null (sql_pool_create down (some (replicate 30 stray)) (pos 4)) ≡ true
sql_pool_create-fails_example =
    sql_pool_create-fails down (some (replicate 30 stray)) (pos 4) 3 refl (omega arith) refl

change_node_num-back_example :
    let more = change_node_num up two_nodes 1 in
    let back = change_node_num up more.1 0 in
    (more.0 ≡ true)
    × (more.1.pool_number ≡ 7)
    × (back.1.pool_number ≡ 2)
    × ((k : ℕ) → k < 2 → node_at back.1 k ≡ node_at two_nodes k)
change_node_num-back_example =
    change_node_num-back up two_nodes refl (omega arith) (λ k le lt. refl)
