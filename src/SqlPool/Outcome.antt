-- ===== src/SqlPool/Outcome.antt =====
-- The three outcomes of one try of `get_db_connect`.
use uubang_iot.Base.{
  ℕ, ◌≡◌, ◌≤◌, ◌<◌, refl, ◌⊎◌, inl, inr, Bool, true, false, ◌||◌, not, arith, length, Bool-cases,
}
use uubang_iot.Base.Int.{pos, ◌+ℤ◌, ◌-ℤ◌}
use uubang_iot.SqlPool.{Db, SqlNode, SqlPool, node_at, my_sql_init, try_node}
use uubang_iot.SqlPool.Lease.{usable, with_node, lost, try_node_lem}

-- A working pool: not shut down, its nodes within the array.
pub record IsOpen (sp : SqlPool) : Type 0 where
  pub open_pool : sp.shutdown ≡ false
  pub some_node : 0 < sp.pool_number
  pub in_array : sp.pool_number ≤ length sp.sql_pool

-- The node that is lent. The mutex is held only if the node needed no reconnection.
abbrev pub lent : SqlNode → SqlNode
lent n = record n {
  has_sock = n.has_sock || not n.connected;
  used = true;
  locked = n.connected;
  connected = true;
}

-- The three outcomes of a try: the node is held by someone, it is lent, or it fails.
abbrev pub Held : Db → SqlPool → ℕ → Bool × SqlPool → Type 0
Held db sp i r = ((node_at sp i).locked ≡ true) × (usable db sp i ≡ false) × (r ≡ (false, sp))

abbrev pub Lent : Db → SqlPool → ℕ → Bool × SqlPool → Type 0
Lent db sp i r =
    ((node_at sp i).locked ≡ false)
    × (usable db sp i ≡ true)
    × (r ≡ (true, with_node sp i (lent (node_at sp i)) (sp.busy_number +ℤ pos 1)))

abbrev pub Failed : Db → SqlPool → ℕ → Bool × SqlPool → Type 0
Failed db sp i r =
    (m : SqlNode) × ((node_at sp i).locked ≡ false)
    × (usable db sp i ≡ false)
    × (m.locked ≡ false)
    × (r ≡ (false, with_node sp i m (sp.busy_number -ℤ pos 1)))

module _ (db : Db) (sp : SqlPool) (i : ℕ) (o : IsOpen sp) (inside : i < length sp.sql_pool) where
  pub try_node-cases :
      Held db sp i (try_node db sp i)
      ⊎ (Lent db sp i (try_node db sp i) ⊎ Failed db sp i (try_node db sp i))
  try_node-cases = elim (Bool-cases (node_at sp i).locked) [
    | inl held ↦ inl (held, ground arith, ground (arith, try_node_lem db sp i inside o.open_pool))
    | inr free ↦ inr (elim (Bool-cases ((node_at sp i).connected || my_sql_init db i)) [
      | inr refused ↦ inr (
        lost (node_at sp i) false,
        free,
        ground arith,
        refl,
        ground (arith, try_node_lem db sp i inside o.open_pool),
      )
      | inl made ↦ elim (Bool-cases (db.ping_ok i)) [
        | inl answers ↦
            inl (free, ground arith, ground (arith, try_node_lem db sp i inside o.open_pool))
        | inr silent ↦ inr (
          lost (node_at sp i) ((node_at sp i).has_sock || not (node_at sp i).connected),
          free,
          ground arith,
          refl,
          ground (arith, try_node_lem db sp i inside o.open_pool),
        )
      ]
    ])
  ]
