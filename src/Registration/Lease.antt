-- ===== src/Registration/Lease.antt =====
-- The node of the pool that a registration uses.
use uubang_iot.Base.{
  ℕ, ◌≡◌, ◌≢◌, refl, ap, ◌∙◌, ◌⊎◌, inl, inr, List, ◌∷◌, Option, none, some, true, arith, ◌==◌,
}
use uubang_iot.Base.Int.{ℤ, pos, negsuc}
use uubang_iot.SqlPool.{SqlPool}
use uubang_iot.SqlPool.Outcome.{IsOpen}
use uubang_iot.SqlPool.Open.{get_db_connect-IsOpen}
use uubang_iot.Sql.{
  Cln, Reply, Event, World, Session, pure, after, ◌>>=◌, ◌>>◌, get_node, got, release, query,
  on_some, on_reply, failed, answered, leased, asked, released,
}
use uubang_iot.Sql.Account.{Debt, owed, After, settle}
use uubang_iot.Sql.Statements.{insert_user, insert_server_info}
use uubang_iot.Registration.{user_regiter}

-- 1 with one node more that is owed, or another result and nothing more.
abbrev pub Keeps : Debt → ℤ → Session → Type 0
Keeps d r s' =
    ((r ≡ pos 1) × (j : ℕ) × (owed s'.log ≡ some (j ∷ d.0, d.1)))
    ⊎ ((r ≢ pos 1) × (owed s'.log ≡ some d))

self_eq : (j : ℕ) → (j == j) ≡ true
self_eq j = ground arith

module _ (d : Debt) (j : ℕ) where
  owed-asked :
      (text : List ℕ) (es : List Event)
      → owed es ≡ some (j ∷ d.0, d.1)
      → owed (asked j text ∷ es) ≡ some (j ∷ d.0, d.1)
  owed-asked text es e = ap (settle (asked j text)) e ∙ rw (self_eq j) refl

  owed-released :
      (es : List Event) → owed es ≡ some (j ∷ d.0, d.1) → owed (released j ∷ es) ≡ some d
  owed-released es e = ap (settle (released j)) e ∙ rw (self_eq j) refl

  -- The two statements of `UserRegiter` on a node that is held.
  on_second :
      (w : World) (s : Session) (r : Reply)
      → owed s.log ≡ some (j ∷ d.0, d.1)
      → After
          (Keeps d)
          (on_reply r (λ e. release j >> pure (negsuc 0)) (λ n rows. pure (pos 1)) w s)
  unfolding release
  on_second w s (failed e) h = inr (λ q. cc, owed-released s.log h)
  on_second w s (answered n rows) h = inl (refl, j, h)

  on_first :
      (w : World) (s : Session) (r : Reply)
      → owed s.log ≡ some (j ∷ d.0, d.1)
      → After (Keeps d) (
          on_reply r
            (λ e. release j >> pure (negsuc 0))
            (λ n rows. query j insert_server_info >>= λ r'.
              on_reply r' (λ e. release j >> pure (negsuc 0)) λ n rows. pure (pos 1))
            w
            s)
  unfolding release query
  on_first w s (failed e) h = inr (λ q. cc, owed-released s.log h)
  on_first w s (answered n rows) h = on_second w _ _ (owed-asked insert_server_info s.log h)

-- `UserRegiter` returns, from a working pool, and gives the node of the pool back on every path but one:
-- when it returns 1, a node is still lent.
pub user_regiter-Keeps :
    (a : Cln) (w : World) (s : Session) (d : Debt)
    → IsOpen s.pool
    → owed s.log ≡ some d
    → After (Keeps d) (user_regiter a w s)
unfolding user_regiter get_node query
user_regiter-Keeps a w s d o e =
    let (r, f, g, open') = get_db_connect-IsOpen (w.db s.log) (w.random s.log) s.pool o in
    rw f (by_node r)
  where
    text : List ℕ
    text = insert_user a.client.user_id a.client.info a.client.user_password a.data_text

    by_node :
        (r : Option ℕ × SqlPool)
        → After (Keeps d) (
            after
              (λ temmp. on_some temmp (pure (pos 0)) λ j. query j text >>= λ r.
                on_reply r
                  (λ e. release j >> pure (negsuc 0))
                  λ n rows. query j insert_server_info >>= λ r'.
                    on_reply r' (λ e. release j >> pure (negsuc 0)) λ n rows. pure (pos 1))
              w
              (got s (some r)))
    by_node (none, sp) = inr (λ q. cc, e)
    by_node (some j, sp) =
        let s1 : Session = record s { pool = sp; log = asked j text ∷ leased j ∷ s.log } in
        on_first d j w s1 (w.reply_to (leased j ∷ s.log) text)
          (owed-asked d j text (leased j ∷ s.log) (ap (settle (leased j)) e))
