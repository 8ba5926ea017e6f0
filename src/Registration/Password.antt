-- ===== src/Registration/Password.antt =====
-- `UserRePwd`: what a change of password does to the list of registered users.
use uubang_iot.Base.{
  ℕ, ◌≡◌, ◌≢◌, refl, ap, sym, subst, ◌∙◌, ◌⊎◌, inl, inr, List, [], ◌∷◌, Option, none, some, false,
  arith, Bool-cases,
}
use uubang_iot.Base.Int.{ℤ, pos, negsuc}
use uubang_iot.Base.Bytes.{str_eq_refl}
use uubang_iot.SqlPool.{SqlPool}
use uubang_iot.SqlPool.Outcome.{IsOpen}
use uubang_iot.SqlPool.Open.{get_db_connect-IsOpen}
use uubang_iot.Registry.{Client, UserNode, Heads, has_id, is_iot_id}
use uubang_iot.Registry.Check.{check_id_pwd, login_scan}
use uubang_iot.Sql.{
  Cln, Reply, World, Session, pure, after, ◌>>◌, get_node, got, release, query, with_conn, on_some,
  on_reply, query_or, returns, failed, answered,
}
use uubang_iot.Sql.Account.{After}
use uubang_iot.Sql.Statements.{update_password}
use uubang_iot.Registration.{
  is_one, user_re_pwd, change_in, change_behind, with_password, is_behind, put_users,
}

-- The lists with the password of the first user of this name replaced.
abbrev pub with_new_password : Cln → Heads → Heads
with_new_password a h = record h {
  registed_user = record h.registed_user {
    nodes = with_password a.client.user_id a.re_user_password h.registed_user.nodes;
  };
}

-- A result of 1 with the new password in the list, or another result and the lists as they were.
abbrev pub Changes : Cln → Heads → ℤ → Session → Type 0
Changes a h r s' =
    ((r ≡ pos 1) × (s'.heads ≡ with_new_password a h)) ⊎ ((r ≢ pos 1) × (s'.heads ≡ h))

one_ne_zero : ◌≢◌ {A = ℤ} (pos 0) (pos 1)
one_ne_zero e = cc

minus_ne_one : ◌≢◌ {A = ℤ} (negsuc 0) (pos 1)
minus_ne_one e = cc

-- The answer of the database, and what the list is made after it.
on_answer :
    (a : Cln) (h : Heads) (w : World) (s : Session) (j : ℕ) (nodes : List UserNode) (r : Reply)
    → s.heads ≡ h
    → record h { registed_user = record h.registed_user { nodes = nodes } } ≡ with_new_password a h
    → After (Changes a h) (
        on_reply r
          (λ e. release j >> pure (negsuc 0))
          (λ n rows. put_users nodes >> (release j >> pure (pos 1)))
          w
          s)
unfolding release
on_answer a h w s j nodes (failed e) same new = inr (minus_ne_one, same)
on_answer a h w s j nodes (answered n rows) same new = inl (
  refl,
  ap (λ (x : Heads). record x { registed_user = record x.registed_user { nodes = nodes } }) same
      ∙ new,
)

changed :
    (a : Cln) (w : World) (s : Session) (nodes : List UserNode)
    → IsOpen s.pool
    → record s.heads { registed_user = record s.heads.registed_user { nodes = nodes } }
      ≡ with_new_password a s.heads
    → After (Changes a s.heads) (
        (with_conn λ temmp.
            query_or temmp
              (update_password a.re_user_password a.client.userkey_id)
              (negsuc 0)
              λ rows. put_users nodes >> (release temmp >> pure (pos 1)))
          w s)
unfolding get_node query
changed a w s nodes o new =
    let (r, e, g, open') = get_db_connect-IsOpen (w.db s.log) (w.random s.log) s.pool o in
    rw e (by_node r)
  where
    by_node :
        (r : Option ℕ × SqlPool)
        → After (Changes a s.heads) (
            after
              (λ temmp. on_some temmp (pure (pos 0)) λ temmp.
                query_or temmp
                  (update_password a.re_user_password a.client.userkey_id)
                  (negsuc 0)
                  λ rows. put_users nodes >> (release temmp >> pure (pos 1)))
              w
              (got s (some r)))
    by_node (none, sp) = inr (one_ne_zero, refl)
    by_node (some j, sp) = on_answer a s.heads w _ j nodes _ refl new

-- The lists with other nodes of registered users.
abbrev with_nodes : Heads → List UserNode → Heads
with_nodes h nodes = record h { registed_user = record h.registed_user { nodes = nodes } }

new_nodes :
    (a : Cln) (h : Heads) (old new : List UserNode)
    → h.registed_user.nodes ≡ old
    → with_password a.client.user_id a.re_user_password old ≡ new
    → with_nodes h new ≡ with_new_password a h
new_nodes a h old new e f =
    ap (with_nodes h) (sym (ap (with_password a.client.user_id a.re_user_password) e ∙ f))

change_in-Changes :
    (a : Cln) (w : World) (s : Session) (nodes : List UserNode)
    → IsOpen s.pool
    → s.heads.registed_user.nodes ≡ nodes
    → After (Changes a s.heads) (change_in a nodes w s)
unfolding change_in change_behind
change_in-Changes a w s [] o e = inr (minus_ne_one, refl)
change_in-Changes a w s (tag ∷ us) o e = elim (Bool-cases (has_id a.client.user_id tag)) [
  | inl mine ↦ rw mine (
      inl (
        refl,
        new_nodes a s.heads (tag ∷ us) (record tag { user_password = a.re_user_password } ∷ us) e
            (rw (mine, with_password) refl),
      ))
  | inr other ↦ elim (Bool-cases (is_behind a.client.user_id us)) [
    | inl behind ↦
        rw (other, behind)
          (changed a w s _ o (
            new_nodes a s.heads (tag ∷ us)
              (tag ∷ with_password a.client.user_id a.re_user_password us) e
              (rw (other, with_password) refl)))
    | inr missing ↦ rw (other, missing) (inr (one_ne_zero, refl))
  ]
]

-- `UserRePwd` returns 1 exactly when it has put the new password into the list of registered users, at the
-- first node of this name; in every other case it leaves all lists as they were. From a working pool it
-- never crashes.
pub user_re_pwd-Changes :
    (a : Cln) (w : World) (s : Session)
    → IsOpen s.pool
    → After (Changes a s.heads) (user_re_pwd a w s)
unfolding user_re_pwd
user_re_pwd-Changes a w s o = elim (Bool-cases (is_one (check_id_pwd 0 a.client s.heads))) [
  | inr refused ↦ rw refused (inr (minus_ne_one, refl))
  | inl known ↦ rw known (change_in-Changes a w s s.heads.registed_user.nodes o refl)
]

login_new :
    (a : Client) (us : List UserNode) (name : List ℕ)
    → login_scan a us ≡ pos 1
    → login_scan (record a { user_password = name }) (with_password a.user_id name us) ≡ pos 1
unfolding login_scan with_password
login_new a [] name h = h
login_new a (u ∷ us) name h = elim (Bool-cases (has_id a.user_id u)) [
  | inl mine ↦ ground (arith, mine, str_eq_refl name)
  | inr other ↦ ground (arith, other, h, login_new a us name)
]

-- A user whose old password `Check_Id_Pwd` accepts, and whose change of password succeeds, can sign in
-- with the new password: `Check_Id_Pwd` then accepts it. (A user has a name of eleven characters or more.)
pub user_re_pwd-check_id_pwd :
    (a : Cln) (w : World) (s s' : Session)
    → IsOpen s.pool
    → is_iot_id a.client.user_id ≡ false
    → check_id_pwd 0 a.client s.heads ≡ pos 1
    → user_re_pwd a w s ≡ (returns (pos 1), s')
    → check_id_pwd 0 (record a.client { user_password = a.re_user_password }) s'.heads ≡ pos 1
unfolding check_id_pwd
user_re_pwd-check_id_pwd a w s s' o user old run =
    done (subst (After (Changes a s.heads)) run (user_re_pwd-Changes a w s o))
  where
    new_client : Client
    new_client = record a.client { user_password = a.re_user_password }

    old_scan : login_scan a.client s.heads.registed_user.nodes ≡ pos 1
    old_scan = rw (user) at old

    accepted : check_id_pwd 0 new_client (with_new_password a s.heads) ≡ pos 1
    accepted =
        rw (user, check_id_pwd)
          (login_new a.client s.heads.registed_user.nodes a.re_user_password old_scan)

    done : Changes a s.heads (pos 1) s' → check_id_pwd 0 new_client s'.heads ≡ pos 1
    done (inl (one, e)) = rw e accepted
    done (inr (other, e)) = absurd (other refl)
