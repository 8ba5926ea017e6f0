-- ===== src/SqlPool/Create.antt =====
-- The nodes that `sql_pool_create` connects.
use uubang_iot.Base.{
  ℕ, zero, suc, ◌+◌, ◌≡◌, ◌≢◌, ◌≤◌, ◌<◌, refl, ap, ◌∙◌, sym, subst, true, false, ◌&&◌,
  if◌then◌else◌, arith, length, set, get_or-set_self, get_or-set_ne, length-set, ltb, leb, not,
  Bool, Option, none, some, ℕ_discrete, List, set-set, Bool-cases, ◌⊎◌, inl, inr,
}
use uubang_iot.Base.Int.{ℤ, pos, negsuc}
use uubang_iot.SqlPool.{
  Db, SqlNode, SqlPool, node_at, stray, my_sql_init, create_loop, create_db_connect,
  sql_pool_create, pool_size, pool_max_number,
}

-- A node that has just been connected.
abbrev pub fresh : ℕ → SqlNode
fresh k = record { has_sock = true; locked = false; used = false; index = k; connected = true }

-- What `create_loop` leaves when all its nodes can be connected.
pub record IsGrown (index rounds : ℕ) (sp sp' : SqlPool) : Type 0 where
  pub flag : sp'.shutdown ≡ sp.shutdown
  pub busy : sp'.busy_number ≡ sp.busy_number
  pub count : sp'.pool_number ≡ sp.pool_number + rounds
  pub size : length sp'.sql_pool ≡ length sp.sql_pool
  pub nodes :
      (k : ℕ)
      → node_at sp' k ≡ (if leb index k && ltb k (index + rounds) then fresh k else node_at sp k)

-- One round of the loop, with a node that can be connected.
abbrev grown_once : ℕ → SqlPool → SqlPool
grown_once index sp = record sp {
  sql_pool = set sp.sql_pool index (fresh index);
  pool_number = sp.pool_number + 1;
}

module _ (db : Db) (index rounds : ℕ) (sp : SqlPool) where
  create_loop-connected :
      sp.shutdown ≡ false
      → my_sql_init db index ≡ true
      → index < length sp.sql_pool
      → create_loop db (suc rounds) index sp
        ≡ create_loop db rounds (index + 1) (grown_once index sp)
  unfolding create_loop create_db_connect
  create_loop-connected o ok inside = ground (
    arith,
    get_or-set_self sp.sql_pool index made stray inside,
    set-set sp.sql_pool index made (fresh index),
  )
    where
      made : SqlNode
      made = record (node_at sp index) {
        has_sock = true;
        locked = false;
        used = false;
        connected = true;
      }

  create_loop-refused :
      sp.shutdown ≡ false
      → my_sql_init db index ≡ false
      → (create_loop db (suc rounds) index sp).0 ≡ false
  unfolding create_loop create_db_connect
  create_loop-refused o bad = ground arith

  grown_once-IsGrown :
      (sp' : SqlPool)
      → index < length sp.sql_pool
      → IsGrown (index + 1) rounds (grown_once index sp) sp'
      → IsGrown index (suc rounds) sp sp'
  grown_once-IsGrown sp' inside g = record {
    flag = g.flag;
    busy = g.busy;
    count = omega (arith, g.count);
    size = g.size ∙ length-set sp.sql_pool index (fresh index);
    nodes = λ k. elim (ℕ_discrete index k) [
      | yes e ↦
          subst
            (λ x.
              node_at sp' x
              ≡ (if leb index x && ltb x (index + suc rounds) then fresh x else node_at sp x))
            e
            (ground
              (arith, g.nodes index, get_or-set_self sp.sql_pool index (fresh index) stray inside))
      | no ne ↦ ground (arith, g.nodes k, get_or-set_ne sp.sql_pool index k (fresh index) stray ne)
    ];
  }

pub create_loop-IsGrown :
    (db : Db) (rounds index : ℕ) (sp : SqlPool)
    → sp.shutdown ≡ false
    → index + rounds ≤ length sp.sql_pool
    → ((k : ℕ) → index ≤ k → k < index + rounds → my_sql_init db k ≡ true)
    → ((create_loop db rounds index sp).0 ≡ true)
      × IsGrown index rounds sp (create_loop db rounds index sp).1
unfolding create_loop
create_loop-IsGrown db zero index sp o room ok = (
  refl,
  record { flag = refl; busy = refl; count = omega arith; size = refl; nodes = λ k. ground arith },
)
create_loop-IsGrown db (suc rounds) index sp o room ok =
    let rest =
      create_loop-IsGrown db rounds (index + 1) (grown_once index sp) o
        (omega (arith, length-set sp.sql_pool index (fresh index)))
        (λ k le lt. ok k (omega arith) (omega arith)) in
    let e =
      create_loop-connected db index rounds sp o (ok index (omega arith) (omega arith))
        (omega arith) in
    (
      ap (λ r. r.0) e ∙ rest.0,
      subst (λ r. IsGrown index (suc rounds) sp r.1) (sym e)
          (grown_once-IsGrown db index rounds sp _ (omega arith) rest.1),
    )

create_loop-fails :
    (db : Db) (rounds index k : ℕ) (sp : SqlPool)
    → sp.shutdown ≡ false
    → index + rounds ≤ length sp.sql_pool
    → index ≤ k
    → k < index + rounds
    → my_sql_init db k ≡ false
    → (create_loop db rounds index sp).0 ≡ false
create_loop-fails db zero index k sp o room le lt bad = absurd (omega arith)
create_loop-fails db (suc rounds) index k sp o room le lt bad =
    here_or_later (Bool-cases (my_sql_init db index)) λ ne.
      create_loop-fails db rounds (index + 1) k (grown_once index sp) o
        (omega (arith, length-set sp.sql_pool index (fresh index))) (omega arith) (omega arith) bad
  where
    here_or_later :
        (my_sql_init db index ≡ true) ⊎ (my_sql_init db index ≡ false)
        → (index ≢ k → (create_loop db rounds (index + 1) (grown_once index sp)).0 ≡ false)
        → (create_loop db (suc rounds) index sp).0 ≡ false
    here_or_later (inl ok) rest =
        ap (λ r. r.0) (create_loop-connected db index rounds sp o ok (omega arith))
        ∙ rest (λ e. cc (ap (my_sql_init db) e))
    here_or_later (inr no_luck) rest = create_loop-refused db index rounds sp o no_luck

pool_size_max : (number : ℤ) → pool_size number ≤ pool_max_number
pool_size_max (pos zero) = omega arith
pool_size_max (pos (suc n)) = omega arith
pool_size_max (negsuc n) = omega arith

-- When `malloc` gives memory and each connection can be made, `sql_pool_create` returns an open pool with
-- none busy. It has as many nodes as were asked for, at least 1 and at most 30, each connected, free and
-- numbered.
pub sql_pool_create-connected :
    (db : Db) (raw : List SqlNode) (number : ℤ)
    → length raw ≡ pool_max_number
    → ((k : ℕ) → k < pool_size number → my_sql_init db k ≡ true)
    → (sp : SqlPool) × (sql_pool_create db (some raw) number ≡ some (true, sp))
      × (sp.shutdown ≡ false)
      × (sp.busy_number ≡ pos 0)
      × (sp.pool_number ≡ pool_size number)
      × ((k : ℕ) → k < sp.pool_number → node_at sp k ≡ fresh k)
unfolding sql_pool_create
sql_pool_create-connected db raw number room ok =
    let r =
      create_loop-IsGrown db (pool_size number) 0 _ refl (omega (arith, pool_size_max number))
        (λ k le lt. ok k (omega arith)) in
    (
      (create_loop db (pool_size number) 0 (start raw)).1,
      ap (λ b. some (b, (create_loop db (pool_size number) 0 (start raw)).1)) r.0,
      r.1.flag,
      r.1.busy,
      omega (arith, r.1.count),
      λ k lt. ground (arith, r.1.nodes k, r.1.count),
    )
  where
    start : List SqlNode → SqlPool
    start raw = record { shutdown = false; sql_pool = raw; pool_number = 0; busy_number = pos 0 }

-- Whether `sql_pool_create` returns NULL.
abbrev pub is_null : Option (Bool × SqlPool) → Bool
is_null none = true
is_null (some (made, sp)) = not made

abbrev pub IsArray : Option (List SqlNode) → Type 0
IsArray none = Unit
IsArray (some raw) = length raw ≡ pool_max_number

-- `sql_pool_create` returns NULL when one of the connections it needs cannot be made, whether or not there
-- is memory.
pub sql_pool_create-fails :
    (db : Db) (memory : Option (List SqlNode)) (number : ℤ) (k : ℕ)
    → IsArray memory
    → k < pool_size number
    → my_sql_init db k ≡ false
    → is_null (sql_pool_create db memory number) ≡ true
unfolding sql_pool_create
sql_pool_create-fails db none number k room lt bad = refl
sql_pool_create-fails db (some raw) number k room lt bad = ap not (
    create_loop-fails db (pool_size number) 0 k _ refl (omega (arith, pool_size_max number))
      (omega arith) (omega arith) bad)
