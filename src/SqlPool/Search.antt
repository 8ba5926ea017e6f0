-- ===== src/SqlPool/Search.antt =====
-- `get_db_connect`: which node it lends, and that it finds one whenever there is one.
use uubang_iot.Base.{
  ℕ, zero, suc, ◌+◌, ◌%◌, ◌≡◌, ◌≢◌, ◌≤◌, ◌<◌, refl, ap, ◌∙◌, sym, subst, ◌⊎◌, inl, inr, true, false,
  ◌&&◌, ◌||◌, not, Option, none, some, arith, length, get_or-set_self, get_or-set_ne, length-set,
  ℕ_discrete,
}
use uubang_iot.Base.Rotation.{rotation_ne, rotation_hits}
use uubang_iot.SqlPool.{
  Db, SqlNode, SqlPool, node_at, stray, my_sql_init, try_node, get_loop, get_db_connect,
}
use uubang_iot.SqlPool.Lease.{usable}
use uubang_iot.SqlPool.Outcome.{IsOpen, lent, Held, Lent, Failed, try_node-cases}

-- What a search with the pool `sp` may change: nodes that are held keep everything, and only a node
-- that is lent changes its mutex.
record Kept (sp sp' : SqlPool) (r : Option ℕ) : Type 0 where
  pub held_nodes : (k : ℕ) → (node_at sp k).locked ≡ true → node_at sp' k ≡ node_at sp k
  pub mutexes : (k : ℕ) → r ≢ some k → (node_at sp' k).locked ≡ (node_at sp k).locked

-- The result of a search from round i on.
record IsLease (db : Db) (sp : SqlPool) (start i j : ℕ) (sp' : SqlPool) : Type 0 where
  pub round : ℕ
  pub round_low : i ≤ round
  pub round_high : round < sp.pool_number
  pub at_round : j ≡ (start + round) % sp.pool_number
  pub was_usable : usable db sp j ≡ true
  pub now_lent : node_at sp' j ≡ lent (node_at sp j)

abbrev Searched : Db → SqlPool → ℕ → ℕ → Option ℕ × SqlPool → Type 0
Searched db sp start i (none, sp') =
    ((t : ℕ) → i ≤ t → t < sp.pool_number → usable db sp ((start + t) % sp.pool_number) ≡ false)
    × Kept sp sp' none
Searched db sp start i (some j, sp') = IsLease db sp start i j sp' × Kept sp sp' (some j)

-- What a try that lends nothing leaves alone.
record IsMiss (db : Db) (sp : SqlPool) (i : ℕ) (sp' : SqlPool) : Type 0 where
  pub number : sp'.pool_number ≡ sp.pool_number
  pub still_open : IsOpen sp'
  pub unusable : usable db sp i ≡ false
  pub others : (k : ℕ) → i ≢ k → node_at sp' k ≡ node_at sp k
  pub mutex : (node_at sp' i).locked ≡ (node_at sp i).locked
  pub held_node : (node_at sp i).locked ≡ true → node_at sp' i ≡ node_at sp i

Held-IsMiss :
    (db : Db) (sp : SqlPool) (i : ℕ)
    → IsOpen sp
    → Held db sp i (try_node db sp i)
    → ((try_node db sp i).0 ≡ false) × IsMiss db sp i (try_node db sp i).1
Held-IsMiss db sp i o (l, u, e) = (
  ap (λ r. r.0) e,
  rw e (record {
    number = refl;
    still_open = o;
    unusable = u;
    others = λ k ne. refl;
    mutex = refl;
    held_node = λ h. refl;
  }),
)

Failed-IsMiss :
    (db : Db) (sp : SqlPool) (i : ℕ)
    → IsOpen sp
    → i < length sp.sql_pool
    → Failed db sp i (try_node db sp i)
    → ((try_node db sp i).0 ≡ false) × IsMiss db sp i (try_node db sp i).1
Failed-IsMiss db sp i o inside (m, l, u, free, e) = (
  ap (λ r. r.0) e,
  rw e (record {
    number = refl;
    still_open = record {
      open_pool = o.open_pool;
      some_node = o.some_node;
      in_array = omega (arith, length-set sp.sql_pool i m, o.in_array);
    };
    unusable = u;
    others = λ k ne. get_or-set_ne sp.sql_pool i k m stray ne;
    mutex = rw (get_or-set_self sp.sql_pool i m stray inside, free) (sym l);
    held_node = λ h. cc;
  }),
)

module _ (db : Db) (sp sp' : SqlPool) (i : ℕ) (m : IsMiss db sp i sp') where
  miss-mutex : (k : ℕ) → (node_at sp' k).locked ≡ (node_at sp k).locked
  miss-mutex k = elim (ℕ_discrete i k) [
    | yes e ↦ subst (λ x. (node_at sp' x).locked ≡ (node_at sp x).locked) e m.mutex
    | no ne ↦ ap (λ (n : SqlNode). n.locked) (m.others k ne)
  ]

  miss-held : (k : ℕ) → (node_at sp k).locked ≡ true → node_at sp' k ≡ node_at sp k
  miss-held k h = elim (ℕ_discrete i k) [
    | yes e ↦
        subst (λ x. node_at sp' x ≡ node_at sp x) e
          (m.held_node (subst (λ x. (node_at sp x).locked ≡ true) (sym e) h))
    | no ne ↦ m.others k ne
  ]

  Kept-miss : (sp'' : SqlPool) (r : Option ℕ) → Kept sp' sp'' r → Kept sp sp'' r
  Kept-miss sp'' r kept = record {
    held_nodes = λ k h. kept.held_nodes k (miss-mutex k ∙ h) ∙ miss-held k h;
    mutexes = λ k ne. kept.mutexes k ne ∙ miss-mutex k;
  }

  usable-miss : (k : ℕ) → i ≢ k → usable db sp' k ≡ usable db sp k
  usable-miss k ne =
      ap (λ (n : SqlNode). not n.locked && ((n.connected || my_sql_init db k) && db.ping_ok k))
        (m.others k ne)

module _ (db : Db) (sp sp' : SqlPool) (start i : ℕ) (below : start < sp.pool_number) where
  -- The rest of the search, seen from before a miss.
  Searched-miss :
      IsMiss db sp ((start + i) % sp.pool_number) sp'
      → (r : Option ℕ × SqlPool) → Searched db sp' start (i + 1) r
      → Searched db sp start i r
  Searched-miss m (none, sp'') (h, kept) = (
    λ t le lt. elim (ℕ_discrete i t) [
      | yes e ↦ rw (← e) m.unusable
      | no ne ↦
          sym (
            usable-miss db sp sp' _ m ((start + t) % sp.pool_number)
              (λ e. rotation_ne sp.pool_number start i t below (omega arith) lt (sym e)))
          ∙ rw m.number at (h t (omega arith) (omega (arith, m.number)))
    ],
    Kept-miss db sp sp' _ m sp'' none kept,
  )
  Searched-miss m (some j, sp'') (l, kept) = (
    record {
      round = l.round;
      round_low = omega (arith, l.round_low);
      round_high = omega (arith, l.round_high, m.number);
      at_round = at;
      was_usable = sym (usable-miss db sp sp' _ m j ne) ∙ l.was_usable;
      now_lent = l.now_lent ∙ ap lent (m.others j ne);
    },
    Kept-miss db sp sp' _ m sp'' (some j) kept,
  )
    where
      at : j ≡ (start + l.round) % sp.pool_number
      at = rw m.number at l.at_round

      ne : (start + i) % sp.pool_number ≢ j
      ne e =
          rotation_ne sp.pool_number start i l.round below (omega (arith, l.round_low))
            (omega (arith, l.round_high, m.number)) (sym (e ∙ at))

Lent-Searched :
    (db : Db) (sp : SqlPool) (start i : ℕ)
    → IsOpen sp
    → i < sp.pool_number
    → let k = (start + i) % sp.pool_number in
      k < length sp.sql_pool
      → Lent db sp k (try_node db sp k)
      → Searched db sp start i (some k, (try_node db sp k).1)
Lent-Searched db sp start i o room inside (l, u, e) = rw e (
  record {
    round = i;
    round_low = omega arith;
    round_high = room;
    at_round = refl;
    was_usable = u;
    now_lent = get_or-set_self sp.sql_pool _ _ stray inside;
  },
  record {
    held_nodes =
        λ j h. get_or-set_ne sp.sql_pool _ j _ stray (λ q. cc (ap (λ x. (node_at sp x).locked) q));
    mutexes = λ j ne.
        ap (λ (n : SqlNode). n.locked)
          (get_or-set_ne sp.sql_pool _ j _ stray (λ q. ne (ap some q)));
  },
)

-- One round of the loop, by what the try gives.
pub get_loop-miss :
    (db : Db) (sp : SqlPool) (rounds start i : ℕ)
    → let k = (start + i) % sp.pool_number in
      (try_node db sp k).0 ≡ false
      → get_loop db (suc rounds) start i sp ≡ get_loop db rounds start (i + 1) (try_node db sp k).1
unfolding get_loop
get_loop-miss db sp rounds start i e = rw (e, get_loop) refl

pub get_loop-hit :
    (db : Db) (sp : SqlPool) (rounds start i : ℕ)
    → let k = (start + i) % sp.pool_number in
      (try_node db sp k).0 ≡ true
      → get_loop db (suc rounds) start i sp ≡ (some k, (try_node db sp k).1)
unfolding get_loop
get_loop-hit db sp rounds start i e = rw (e, get_loop) refl

get_loop-Searched :
    (db : Db) (sp : SqlPool) (rounds start i : ℕ)
    → IsOpen sp
    → start < sp.pool_number
    → i + rounds ≡ sp.pool_number
    → Searched db sp start i (get_loop db rounds start i sp)
unfolding get_loop
get_loop-Searched db sp zero start i o below e =
    (λ t le lt. absurd (omega arith), record { held_nodes = λ k h. refl; mutexes = λ k ne. refl })
get_loop-Searched db sp (suc rounds) start i o below e =
    missed_or_lent (try_node-cases db sp k o inside) λ m.
      get_loop-Searched db (try_node db sp k).1 rounds start (i + 1) m.still_open
        (omega (arith, m.number)) (omega (arith, m.number))
  where
    k : ℕ
    k = (start + i) % sp.pool_number

    inside : k < length sp.sql_pool
    inside = omega (arith, o.in_array, o.some_node)

    next : Option ℕ × SqlPool
    next = get_loop db rounds start (i + 1) (try_node db sp k).1

    missed :
        ((try_node db sp k).0 ≡ false) × IsMiss db sp k (try_node db sp k).1
        → (IsMiss db sp k (try_node db sp k).1
            → Searched db (try_node db sp k).1 start (i + 1) next)
        → Searched db sp start i (get_loop db (suc rounds) start i sp)
    missed (no_luck, m) rest =
        subst (Searched db sp start i) (sym (get_loop-miss db sp rounds start i no_luck))
          (Searched-miss db sp (try_node db sp k).1 start i below m next (rest m))

    missed_or_lent :
        Held db sp k (try_node db sp k)
          ⊎ (Lent db sp k (try_node db sp k) ⊎ Failed db sp k (try_node db sp k))
        → (IsMiss db sp k (try_node db sp k).1
            → Searched db (try_node db sp k).1 start (i + 1) next)
        → Searched db sp start i (get_loop db (suc rounds) start i sp)
    missed_or_lent (inl held) rest = missed (Held-IsMiss db sp k o held) rest
    missed_or_lent (inr (inl free)) rest =
        subst (Searched db sp start i)
          (sym (get_loop-hit db sp rounds start i (ap (λ r. r.0) free.2)))
          (Lent-Searched db sp start i o (omega arith) inside free)
    missed_or_lent (inr (inr fails)) rest = missed (Failed-IsMiss db sp k o inside fails) rest

-- What `get_db_connect` promises of a pool that works.
abbrev pub Gets : Db → SqlPool → Option ℕ × SqlPool → Type 0
Gets db sp (none, sp') =
    ((j : ℕ) → j < sp.pool_number → usable db sp j ≡ false)
    × ((k : ℕ) → (node_at sp k).locked ≡ true → node_at sp' k ≡ node_at sp k)
    × ((k : ℕ) → (node_at sp' k).locked ≡ (node_at sp k).locked)
Gets db sp (some j, sp') =
    (j < sp.pool_number)
    × (usable db sp j ≡ true)
    × (node_at sp' j ≡ lent (node_at sp j))
    × ((k : ℕ) → (node_at sp k).locked ≡ true → node_at sp' k ≡ node_at sp k)
    × ((k : ℕ) → j ≢ k → (node_at sp' k).locked ≡ (node_at sp k).locked)

Gets-of_Searched :
    (db : Db) (sp : SqlPool) (start : ℕ)
    → IsOpen sp
    → start < sp.pool_number
    → (r : Option ℕ × SqlPool) → Searched db sp start 0 r
    → Gets db sp r
Gets-of_Searched db sp start o below (none, sp') (h, kept) = (
  λ j lt.
      let (t, lt', e) = rotation_hits sp.pool_number start j below lt in
      subst (λ x. usable db sp x ≡ false) e (h t (omega arith) lt'),
  kept.held_nodes,
  λ k. kept.mutexes k (λ q. cc),
)
Gets-of_Searched db sp start o below (some j, sp') (l, kept) = (
  omega (arith, l.at_round, o.some_node),
  l.was_usable,
  l.now_lent,
  kept.held_nodes,
  λ k ne. kept.mutexes k (λ q. ne cc),
)

-- From a working pool `get_db_connect` returns, whatever number `rand` gives. It lends a node of the pool
-- whose mutex is free and that is connected or can be reconnected, and answers the ping; it returns NULL
-- only if the pool has no such node. A node that was connected is then locked; one that had to be
-- reconnected is lent in use but with its mutex free. The
-- nodes whose mutex is locked stay as they are, and no other mutex changes.
pub get_db_connect-Gets :
    (db : Db) (random : ℕ) (sp : SqlPool)
    → IsOpen sp
    → (r : Option ℕ × SqlPool) × (get_db_connect db random sp ≡ some r) × Gets db sp r
unfolding get_db_connect
get_db_connect-Gets db random sp o = (
  get_loop db sp.pool_number (random % sp.pool_number) 0 sp,
  ground (arith, o.open_pool, o.some_node),
  Gets-of_Searched db sp (random % sp.pool_number) o (omega (arith, o.some_node)) _ (
      get_loop-Searched db sp sp.pool_number (random % sp.pool_number) 0 o
        (omega (arith, o.some_node)) (omega arith)),
)
