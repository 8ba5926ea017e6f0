-- ===== src/SqlPool/Destroy.antt =====
-- What `sql_pool_destroy` closes.
use uubang_iot.Base.{
  ℕ, zero, suc, ◌+◌, ◌-◌, ◌/◌, ◌≡◌, ◌≤◌, ◌<◌, refl, subst, true, ◌&&◌, if◌then◌else◌, arith, length,
  set, get_or-set_self, get_or-set_ne, length-set, dec_lt, ltb, leb, ℕ_discrete,
}
use uubang_iot.SqlPool.{SqlPool, node_at, stray, closed, destroy_loop, sql_pool_destroy}

-- What `destroy_loop` leaves, started at `index`.
record IsDestroyed (index : ℕ) (sp sp' : SqlPool) : Type 0 where
  pub flag : sp'.shutdown ≡ sp.shutdown
  pub count : sp'.pool_number ≡ sp.pool_number - (sp.pool_number + 1 - index) / 2
  pub nodes :
      (k : ℕ)
      → node_at sp' k ≡ (
          if leb index k && ltb (k + k) (index + sp.pool_number)
          then closed (node_at sp k)
          else node_at sp k)

-- One round of the loop.
abbrev close_first : ℕ → SqlPool → SqlPool
close_first index sp = record sp {
  sql_pool = set sp.sql_pool index (closed (node_at sp index));
  pool_number = sp.pool_number - 1;
}

close_first-IsDestroyed :
    (index : ℕ) (sp sp' : SqlPool)
    → sp.pool_number ≤ length sp.sql_pool
    → index < sp.pool_number
    → IsDestroyed (index + 1) (close_first index sp) sp'
    → IsDestroyed index sp sp'
close_first-IsDestroyed index sp sp' room lt d = record {
  flag = d.flag;
  count = omega (arith, d.count);
  nodes = λ k. elim (ℕ_discrete index k) [
    | yes e ↦
        subst
          (λ x. node_at sp' x ≡ (
            if leb index x && ltb (x + x) (index + sp.pool_number)
            then closed (node_at sp x)
            else node_at sp x))
          e
          (ground (
            arith,
            d.nodes index,
            get_or-set_self sp.sql_pool index (closed (node_at sp index)) stray (omega arith),
          ))
    | no ne ↦
        ground
          (arith, d.nodes k, get_or-set_ne sp.sql_pool index k (closed (node_at sp index)) stray ne)
  ];
}

destroy_loop-IsDestroyed :
    (fuel index : ℕ) (sp : SqlPool)
    → sp.pool_number ≤ length sp.sql_pool
    → sp.pool_number < fuel + index
    → IsDestroyed index sp (destroy_loop fuel index sp)
unfolding destroy_loop
destroy_loop-IsDestroyed zero index sp room enough = record {
  flag = refl;
  count = omega arith;
  nodes = λ k. ground arith;
}
destroy_loop-IsDestroyed (suc fuel) index sp room enough = step (dec_lt index sp.pool_number) λ lt.
    destroy_loop-IsDestroyed fuel (index + 1) (close_first index sp)
      (omega (arith, length-set sp.sql_pool index (closed (node_at sp index)))) (omega arith)
  where
    step :
        Dec (index < sp.pool_number)
        → (index < sp.pool_number
            → IsDestroyed
                (index + 1)
                (close_first index sp)
                (destroy_loop fuel (index + 1) (close_first index sp)))
        → IsDestroyed index sp (destroy_loop (suc fuel) index sp)
    step (yes lt) rest =
        subst (IsDestroyed index sp) (ground arith)
          (close_first-IsDestroyed index sp _ room lt (rest lt))
    step (no ge) rest = record {
      flag = ground arith;
      count = ground arith;
      nodes = λ k. ground arith;
    }

-- Once a pool is destroyed it is shut down, but only the nodes of the first half, the middle one
-- included, are closed: the others keep their connection, and half of the nodes stay counted.
pub sql_pool_destroy_lem :
    (sp : SqlPool)
    → sp.pool_number ≤ length sp.sql_pool
    → ((sql_pool_destroy sp).shutdown ≡ true)
      × ((sql_pool_destroy sp).pool_number ≡ sp.pool_number / 2)
      × ((k : ℕ)
          → node_at (sql_pool_destroy sp) k
            ≡ (if ltb (k + k) sp.pool_number then closed (node_at sp k) else node_at sp k))
unfolding sql_pool_destroy
sql_pool_destroy_lem sp room = (d.flag, omega (arith, d.count), λ k. ground (arith, d.nodes k))
  where
    d : IsDestroyed 0 (record sp { shutdown = true }) (sql_pool_destroy sp)
    d =
        destroy_loop-IsDestroyed (sp.pool_number + 1) 0 (record sp { shutdown = true }) room
          (omega arith)
