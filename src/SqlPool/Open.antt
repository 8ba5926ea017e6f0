-- ===== src/SqlPool/Open.antt =====
-- A working pool stays one: `get_db_connect` and `release_node` keep its size and its nodes.
use uubang_iot.Base.{
  ℕ, zero, suc, ◌+◌, ◌%◌, ◌≡◌, ◌<◌, refl, ap, subst, ◌⊎◌, inl, inr, true, false, Option, some,
  arith, length, length-set,
}
use uubang_iot.Base.Int.{ℤ}
use uubang_iot.SqlPool.{Db, SqlNode, SqlPool, try_node, get_loop, get_db_connect, release_node}
use uubang_iot.SqlPool.Lease.{with_node}
use uubang_iot.SqlPool.Outcome.{IsOpen, try_node-cases}
use uubang_iot.SqlPool.Search.{Gets, get_db_connect-Gets, get_loop-miss, get_loop-hit}

with_node-IsOpen :
    (sp : SqlPool) (i : ℕ) (n : SqlNode) (busy : ℤ) → IsOpen sp → IsOpen (with_node sp i n busy)
with_node-IsOpen sp i n busy o = record {
  open_pool = o.open_pool;
  some_node = o.some_node;
  in_array = omega (arith, length-set sp.sql_pool i n, o.in_array);
}

pub release_node-IsOpen : (sp : SqlPool) (i : ℕ) → IsOpen sp → IsOpen (release_node sp i)
unfolding release_node
release_node-IsOpen sp i o = with_node-IsOpen sp i _ _ o

-- What a try does to the pool, by whether it breaks out of the loop.
abbrev Tried : Db → SqlPool → ℕ → Type 0
Tried db sp i =
    (((try_node db sp i).0 ≡ true) ⊎ ((try_node db sp i).0 ≡ false))
    × IsOpen (try_node db sp i).1
    × ((try_node db sp i).1.pool_number ≡ sp.pool_number)

try_node-IsOpen :
    (db : Db) (sp : SqlPool) (i : ℕ) → IsOpen sp → i < length sp.sql_pool → Tried db sp i
try_node-IsOpen db sp i o inside = elim (try_node-cases db sp i o inside) [
  | inl (l, u, e) ↦ (inr (ap (λ r. r.0) e), rw e o, rw e refl)
  | inr (inl (l, u, e)) ↦ (inl (ap (λ r. r.0) e), rw e (with_node-IsOpen sp i _ _ o), rw e refl)
  | inr (inr (m, l, u, free, e)) ↦
      (inr (ap (λ r. r.0) e), rw e (with_node-IsOpen sp i _ _ o), rw e refl)
]

get_loop-IsOpen :
    (db : Db) (rounds start i : ℕ) (sp : SqlPool)
    → IsOpen sp
    → IsOpen (get_loop db rounds start i sp).1
unfolding get_loop
get_loop-IsOpen db zero start i sp o = o
get_loop-IsOpen db (suc rounds) start i sp o =
    next (try_node-IsOpen db sp k o (omega (arith, o.some_node, o.in_array)))
      λ o'. get_loop-IsOpen db rounds start (i + 1) (try_node db sp k).1 o'
  where
    k : ℕ
    k = (start + i) % sp.pool_number

    next :
        Tried db sp k
        → (IsOpen (try_node db sp k).1
            → IsOpen (get_loop db rounds start (i + 1) (try_node db sp k).1).1)
        → IsOpen (get_loop db (suc rounds) start i sp).1
    next (inl hit, o', e) rest = rw (get_loop-hit db sp rounds start i hit) o'
    next (inr miss, o', e) rest = rw (get_loop-miss db sp rounds start i miss) (rest o')

-- `get_db_connect` from a working pool, with what the pool is afterwards.
pub get_db_connect-IsOpen :
    (db : Db) (random : ℕ) (sp : SqlPool)
    → IsOpen sp
    → (r : Option ℕ × SqlPool) × (get_db_connect db random sp ≡ some r) × Gets db sp r × IsOpen r.1
unfolding get_db_connect
get_db_connect-IsOpen db random sp o =
    let (r, e, g) = get_db_connect-Gets db random sp o in (r, e, g, some_inj r e)
  where
    some_inj : (r : Option ℕ × SqlPool) → get_db_connect db random sp ≡ some r → IsOpen r.1
    some_inj r e =
        let same : get_loop db sp.pool_number (random % sp.pool_number) 0 sp ≡ r =
          ground (arith, o.open_pool, o.some_node, e) in
        subst (λ (x : Option ℕ × SqlPool). IsOpen x.1) same (get_loop-IsOpen db _ _ 0 sp o)
