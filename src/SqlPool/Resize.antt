-- ===== src/SqlPool/Resize.antt =====
-- How `changeNodeNum` changes the nodes of the pool.
use uubang_iot.Base.{
  ℕ, zero, suc, ◌+◌, ◌-◌, ◌≡◌, ◌≤◌, ◌<◌, refl, subst, true, false, ◌&&◌, if◌then◌else◌, arith,
  length, set, get_or-set_self, get_or-set_ne, length-set, dec_lt, ltb, leb, ℕ_discrete,
}
use uubang_iot.SqlPool.{
  Db, SqlPool, node_at, stray, my_sql_init, closed, create_loop, shrink_loop, change_node_num,
}
use uubang_iot.SqlPool.Create.{IsGrown, create_loop-IsGrown}

-- What `shrink_loop` leaves.
record IsShrunk (rounds : ℕ) (sp sp' : SqlPool) : Type 0 where
  pub flag : sp'.shutdown ≡ sp.shutdown
  pub count : sp'.pool_number ≡ sp.pool_number - rounds
  pub nodes :
      (k : ℕ)
      → node_at sp' k ≡ (
          if leb (sp.pool_number - rounds) k && ltb k sp.pool_number
          then closed (node_at sp k)
          else node_at sp k)

abbrev close_last : SqlPool → SqlPool
close_last sp = record sp {
  sql_pool = set sp.sql_pool (sp.pool_number - 1) (closed (node_at sp (sp.pool_number - 1)));
  pool_number = sp.pool_number - 1;
}

close_last-IsShrunk :
    (rounds : ℕ) (sp sp' : SqlPool)
    → sp.pool_number ≤ length sp.sql_pool
    → 0 < sp.pool_number
    → IsShrunk rounds (close_last sp) sp'
    → IsShrunk (suc rounds) sp sp'
close_last-IsShrunk rounds sp sp' room some_left d = record {
  flag = d.flag;
  count = omega (arith, d.count);
  nodes = λ k. elim (ℕ_discrete (sp.pool_number - 1) k) [
    | yes e ↦
        subst
          (λ x. node_at sp' x ≡ (
            if leb (sp.pool_number - suc rounds) x && ltb x sp.pool_number
            then closed (node_at sp x)
            else node_at sp x))
          e
          (ground (
            arith,
            d.nodes (sp.pool_number - 1),
            get_or-set_self sp.sql_pool (sp.pool_number - 1)
                (closed (node_at sp (sp.pool_number - 1))) stray (omega arith),
          ))
    | no ne ↦ ground (
      arith,
      d.nodes k,
      get_or-set_ne sp.sql_pool (sp.pool_number - 1) k (closed (node_at sp (sp.pool_number - 1)))
          stray ne,
    )
  ];
}

shrink_loop-IsShrunk :
    (rounds : ℕ) (sp : SqlPool)
    → sp.pool_number ≤ length sp.sql_pool
    → IsShrunk rounds sp (shrink_loop rounds sp)
unfolding shrink_loop
shrink_loop-IsShrunk zero sp room = record {
  flag = refl;
  count = omega arith;
  nodes = λ k. ground arith;
}
shrink_loop-IsShrunk (suc rounds) sp room = step (dec_lt 0 sp.pool_number) (
    shrink_loop-IsShrunk rounds (close_last sp) (
      omega (
        arith,
        length-set sp.sql_pool (sp.pool_number - 1) (closed (node_at sp (sp.pool_number - 1))),
      )))
  where
    step :
        Dec (0 < sp.pool_number)
        → IsShrunk rounds (close_last sp) (shrink_loop rounds (close_last sp))
        → IsShrunk (suc rounds) sp (shrink_loop (suc rounds) sp)
    step (yes lt) rest =
        subst (IsShrunk (suc rounds) sp) (ground arith)
          (close_last-IsShrunk rounds sp _ room lt rest)
    step (no ge) rest = record {
      flag = ground arith;
      count = ground arith;
      nodes = λ k. ground arith;
    }

-- Five more nodes and then five fewer leave as many nodes as before, and each of these as it was,
-- for an open pool with room for five more whose connections can all be made.
pub change_node_num-back :
    (db : Db) (sp : SqlPool)
    → sp.shutdown ≡ false
    → sp.pool_number + 5 ≤ length sp.sql_pool
    → ((k : ℕ) → sp.pool_number ≤ k → k < sp.pool_number + 5 → my_sql_init db k ≡ true)
    → let more = change_node_num db sp 1 in
      let back = change_node_num db more.1 0 in
      (more.0 ≡ true)
      × (more.1.pool_number ≡ sp.pool_number + 5)
      × (back.1.pool_number ≡ sp.pool_number)
      × ((k : ℕ) → k < sp.pool_number → node_at back.1 k ≡ node_at sp k)
unfolding change_node_num
change_node_num-back db sp o room ok = (
  g.0,
  g.1.count,
  omega (arith, d.count, g.1.count),
  λ k lt. ground (arith, d.nodes k, g.1.nodes k, g.1.count),
)
  where
    g :
        ((create_loop db 5 sp.pool_number sp).0 ≡ true)
        × IsGrown sp.pool_number 5 sp (create_loop db 5 sp.pool_number sp).1
    g = create_loop-IsGrown db 5 sp.pool_number sp o room ok

    d :
        IsShrunk 5
          (create_loop db 5 sp.pool_number sp).1
          (shrink_loop 5 (create_loop db 5 sp.pool_number sp).1)
    d = shrink_loop-IsShrunk 5 _ (omega (arith, g.1.count, g.1.size))
