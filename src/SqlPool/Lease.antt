-- ===== src/SqlPool/Lease.antt =====
-- One try of a node by `get_db_connect`.
use uubang_iot.Base.{
  ℕ, ◌≡◌, ◌<◌, Bool, true, false, ◌&&◌, ◌||◌, not, if◌then◌else◌, arith, length, set, set-set,
  get_or-set_self,
}
use uubang_iot.Base.Int.{ℤ, pos, ◌+ℤ◌, ◌-ℤ◌}
use uubang_iot.SqlPool.{
  Db, SqlNode, SqlPool, node_at, stray, put, my_sql_init, create_db_connect, release_node,
  ping_node, try_node,
}

-- The pool with node i and the counter replaced.
abbrev pub with_node : SqlPool → ℕ → SqlNode → ℤ → SqlPool
with_node sp i n busy = record sp { sql_pool = set sp.sql_pool i n; busy_number = busy }

abbrev pub lost : SqlNode → Bool → SqlNode
lost n sock = record n { has_sock = sock; connected = false; used = false; locked = false }

-- A node that `get_db_connect` can lend: not locked, connected or reconnecting, and answering.
abbrev pub usable : Db → SqlPool → ℕ → Bool
usable db sp i =
    not (node_at sp i).locked && (((node_at sp i).connected || my_sql_init db i) && db.ping_ok i)

module _ (db : Db) (sp : SqlPool) (i : ℕ) (inside : i < length sp.sql_pool) where
  release_node-put :
      (n : SqlNode)
      → release_node (put sp i n) i
        ≡ with_node sp i (record n { used = false; locked = false }) (sp.busy_number -ℤ pos 1)
  unfolding release_node
  release_node-put n = ground (
    arith,
    get_or-set_self sp.sql_pool i n stray inside,
    set-set sp.sql_pool i n (record n { used = false; locked = false }),
  )

  ping_node-put :
      (n : SqlNode)
      → ping_node db (put sp i n) i ≡ (
          if db.ping_ok i
          then (true, with_node sp i (record n { used = true }) (sp.busy_number +ℤ pos 1))
          else (false, with_node sp i (lost n n.has_sock) (sp.busy_number -ℤ pos 1)))
  unfolding ping_node
  ping_node-put n = ground (
    arith,
    get_or-set_self sp.sql_pool i n stray inside,
    set-set sp.sql_pool i n (record n { used = true }),
    set-set sp.sql_pool i n (record n { connected = false }),
    release_node-put (record n { connected = false }),
  )

  create_put :
      (n : SqlNode)
      → sp.shutdown ≡ false
      → create_db_connect db (put sp i n) i ≡ (
          if my_sql_init db i
          then (
            pos 1,
            put sp i (record n { has_sock = true; locked = false; used = false; connected = true }),
          )
          else (pos 0, put sp i (record n { has_sock = false; locked = false; connected = false })))
  unfolding create_db_connect
  create_put n open_pool = ground (
    arith,
    open_pool,
    get_or-set_self sp.sql_pool i n stray inside,
    set-set sp.sql_pool i n
        (record n { has_sock = true; locked = false; used = false; connected = true }),
    set-set sp.sql_pool i n (record n { has_sock = false; locked = false; connected = false }),
  )

  -- What one try does to the pool, on every path.
  pub try_node_lem :
      sp.shutdown ≡ false
      → let n = node_at sp i in
        try_node db sp i ≡ (
          if n.locked
          then (false, sp)
          else if n.connected || my_sql_init db i
          then (if db.ping_ok i
              then (
                true,
                with_node sp i
                    (record n {
                      has_sock = (n.has_sock || not n.connected);
                      used = true;
                      locked = n.connected;
                      connected = true;
                    })
                    (sp.busy_number +ℤ pos 1),
              )
              else (
                false,
                with_node sp i (lost n (n.has_sock || not n.connected)) (sp.busy_number -ℤ pos 1),
              ))
          else (false, with_node sp i (lost n false) (sp.busy_number -ℤ pos 1)))
  unfolding try_node
  try_node_lem open_pool = ground (
    arith,
    create_put held open_pool,
    ping_node-put held,
    ping_node-put back,
    release_node-put (record held { has_sock = false; locked = false; connected = false }),
  )
    where
      held : SqlNode
      held = record (node_at sp i) { locked = true }

      back : SqlNode
      back = record held { has_sock = true; locked = false; used = false; connected = true }
