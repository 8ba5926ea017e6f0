-- ===== src/Registry/SignIn/Access.antt =====
-- Who gets in by `SIGNIN`, and what the lookup of online sessions returns then.
use uubang_iot.Base.{
  ℕ, ◌≡◌, refl, ◌⊎◌, inl, inr, List, [], ◌∷◌, Option, none, some, if◌then◌else◌, arith, All, Any,
}
use uubang_iot.Base.Int.{pos, negsuc}
use uubang_iot.Base.Bytes.{str_eq_refl}
use uubang_iot.Registry.{Client, UserNode, UserList, Heads, is_iot_id}
use uubang_iot.Registry.Find.{
  find_node, find_in, find_online_user_or_iot, find_register_user_or_iot_node,
}
use uubang_iot.Registry.Find.Laws.{Found, find_in-Found}
use uubang_iot.Registry.Check.{check_id_pwd}
use uubang_iot.Registry.Check.Laws.{Login, accounts, check_id_pwd-Login}
use uubang_iot.Registry.Online.{online_node}
use uubang_iot.Registry.Online.Add.{with_session, new_online_user_or_iot_dev_lem}
use uubang_iot.Registry.SignIn.{
  put_online, drop_session, sign_in_new, user_branches, iot_branches, registered_key, with_key,
  sign_in,
}

-- The number that the two lookups take for the client's kind.
abbrev pub kind : Client → ℕ
kind a = if is_iot_id a.user_id then 10 else 0

no-Login :
    (a : Client) (us : List UserNode)
    → Any (Login a) us
    → All (λ u. ¬ (a.user_id ≡ u.user_id)) us
    → ⊥
no-Login a [] l n = elim l [ ]
no-Login a (u ∷ us) (inl l) n = n.0 l.0
no-Login a (u ∷ us) (inr l) n = no-Login a us l n.1

in_list :
    (a : Client) (l : UserList)
    → Any (Login a) l.nodes
    → (temp : UserNode) × (find_in l (some a.user_id) 0 ≡ some temp)
in_list a l login = by_found (find_in l (some a.user_id) 0) (find_in-Found l a.user_id 0).0
  where
    by_found :
        (r : Option UserNode)
        → Found (λ u. a.user_id ≡ u.user_id) l.nodes r
        → (temp : UserNode) × (r ≡ some temp)
    by_found none (inl f) = absurd (no-Login a l.nodes login f.1)
    by_found none (inr (pre, u, post, e, n, same, is)) = cc
    by_found (some u) f = (u, refl)

find-kind :
    (a : Client) (h : Heads)
    → find_register_user_or_iot_node (kind a) (some a.user_id) 0 h
      ≡ find_in (if is_iot_id a.user_id then h.registed_iot else h.registed_user) (some a.user_id) 0
unfolding find_register_user_or_iot_node
find-kind a h = ground arith

-- An account that logs in is found among the registered ones.
registered :
    (a : Client) (h : Heads)
    → Any (Login a) (accounts a h)
    → (temp : UserNode) × (find_register_user_or_iot_node (kind a) (some a.user_id) 0 h ≡ some temp)
registered a h l =
    rw (find-kind a h)
      (in_list a (if is_iot_id a.user_id then h.registed_iot else h.registed_user) l)

put_online_lem :
    (malloc : ℕ → Option ℕ) (a : Client) (h : Heads) (told : List ℕ) (p : ℕ)
    → malloc 0 ≡ some p
    → put_online malloc a h told
      ≡ record { result = pos 1; heads = with_session a p h; client = a; told = told }
unfolding put_online
put_online_lem malloc a h told p m =
    rw ((new_online_user_or_iot_dev_lem malloc a h).0 0 p (omega arith) m (λ j lt. elim lt [ ]))
      refl

find-with_session :
    (a : Client) (h : Heads) (p : ℕ)
    → find_online_user_or_iot (kind a) (some a.user_id) 0 (with_session a p h)
      ≡ some (online_node a p)
unfolding find_online_user_or_iot find_in find_node
find-with_session a h p = ground (arith, str_eq_refl a.user_id)

-- The branches behind a login that was accepted.
users_accepted :
    (malloc : ℕ → Option ℕ) (a : Client) (h : Heads) (temp : UserNode) (r : Option UserNode)
    → find_register_user_or_iot_node 0 (some a.user_id) 0 h ≡ some temp
    → (user_branches malloc a h r).result ≡ pos 1
unfolding user_branches sign_in_new put_online
users_accepted malloc a h temp none e = rw e refl
users_accepted malloc a h temp (some u) e = refl

devices_accepted :
    (malloc : ℕ → Option ℕ) (a : Client) (h : Heads) (temp : UserNode) (r : Option UserNode)
    → find_register_user_or_iot_node 10 (some a.user_id) 0 h ≡ some temp
    → (iot_branches malloc a h r).result ≡ pos 1
unfolding iot_branches sign_in_new put_online
devices_accepted malloc a h temp none e = rw e refl
devices_accepted malloc a h temp (some u) e = refl

sign_in_accepted :
    (malloc : ℕ → Option ℕ) (a : Client) (h : Heads)
    → check_id_pwd 0 a h ≡ pos 1
    → Any (Login a) (accounts a h)
    → (sign_in malloc a h).result ≡ pos 1
unfolding sign_in
sign_in_accepted malloc a h e l =
    let (temp, f) = registered a h l in
    ground (
      arith,
      e,
      f,
      users_accepted malloc a h temp (find_online_user_or_iot 0 (some a.user_id) 0 h),
      devices_accepted malloc a h temp (find_online_user_or_iot 10 (some a.user_id) 0 h),
    )

-- `SIGNIN` returns 1 exactly if an account of the client's kind has its name and password, and otherwise -1
-- with the lists as they were and nobody told to sign out.
pub sign_in-Login :
    (malloc : ℕ → Option ℕ) (a : Client) (h : Heads)
    → (((sign_in malloc a h).result ≡ pos 1) × Any (Login a) (accounts a h))
      ⊎ (((sign_in malloc a h).result ≡ negsuc 0)
          × All (λ u. ¬ Login a u) (accounts a h)
          × ((sign_in malloc a h).heads ≡ h)
          × ((sign_in malloc a h).told ≡ []))
unfolding sign_in
sign_in-Login malloc a h = elim (check_id_pwd-Login a h) [
  | inl (e, l) ↦ inl (sign_in_accepted malloc a h e l, l)
  | inr (e, l) ↦ inr (ground (arith, e), l, ground (arith, e), ground (arith, e))
]

new_session :
    (malloc : ℕ → Option ℕ) (a : Client) (h : Heads) (r : Option UserNode) (p : ℕ)
    → malloc 0 ≡ some p
    → (sign_in_new malloc a h r).result ≡ pos 1
    → let s = sign_in_new malloc a h r in
      find_online_user_or_iot (kind a) (some a.user_id) 0 s.heads ≡ some (online_node s.client p)
unfolding sign_in_new
new_session malloc a h none p m ok = cc
new_session malloc a h (some temp) p m ok =
    rw (put_online_lem malloc (with_key temp.userkey_id a) h [] p m)
      (find-with_session (with_key temp.userkey_id a) h p)

user_session :
    (malloc : ℕ → Option ℕ) (a : Client) (h : Heads) (r : Option UserNode) (p : ℕ)
    → malloc 0 ≡ some p
    → (user_branches malloc a h r).result ≡ pos 1
    → let s = user_branches malloc a h r in
      find_online_user_or_iot (kind a) (some a.user_id) 0 s.heads ≡ some (online_node s.client p)
unfolding user_branches
user_session malloc a h none p m ok =
    new_session malloc a h (find_register_user_or_iot_node 0 (some a.user_id) 0 h) p m ok
user_session malloc a h (some u) p m ok =
    let a' : Client = record a { userkey_id = u.userkey_id } in
    rw (put_online_lem malloc a' (drop_session a' u h) (u.user_socket ∷ []) p m)
      (find-with_session a' (drop_session a' u h) p)

iot_session :
    (malloc : ℕ → Option ℕ) (a : Client) (h : Heads) (r : Option UserNode) (p : ℕ)
    → malloc 0 ≡ some p
    → (iot_branches malloc a h r).result ≡ pos 1
    → let s = iot_branches malloc a h r in
      find_online_user_or_iot (kind a) (some a.user_id) 0 s.heads ≡ some (online_node s.client p)
unfolding iot_branches
iot_session malloc a h none p m ok =
    new_session malloc a h (find_register_user_or_iot_node 10 (some a.user_id) 0 h) p m ok
iot_session malloc a h (some u) p m ok =
    keyed (find_register_user_or_iot_node 10 (some a.user_id) 0 h)
  where
    placed :
        (b : Client)
        → find_online_user_or_iot
            (kind b)
            (some b.user_id)
            0
            (put_online malloc b (drop_session b u h) []).heads
          ≡ some (online_node (put_online malloc b (drop_session b u h) []).client p)
    placed b =
        rw (put_online_lem malloc b (drop_session b u h) [] p m)
          (find-with_session b (drop_session b u h) p)

    keyed :
        (temp : Option UserNode)
        → let s =
            put_online malloc
              (registered_key temp a)
              (drop_session (registered_key temp a) u h)
              [] in
          find_online_user_or_iot (kind a) (some a.user_id) 0 s.heads
          ≡ some (online_node s.client p)
    keyed none = placed a
    keyed (some temp) = placed (with_key temp.userkey_id a)

-- After a sign-in that returned 1, where the first `malloc` gave the address p, the lookup by
-- the client's name returns the new session at p, with the fields of the client as it then is.
pub sign_in-find :
    (malloc : ℕ → Option ℕ) (a : Client) (h : Heads) (p : ℕ)
    → malloc 0 ≡ some p
    → (sign_in malloc a h).result ≡ pos 1
    → let s = sign_in malloc a h in
      find_online_user_or_iot (kind a) (some a.user_id) 0 s.heads ≡ some (online_node s.client p)
unfolding sign_in
sign_in-find malloc a h p m ok = ground (
  arith,
  user_session malloc a h (find_online_user_or_iot 0 (some a.user_id) 0 h) p m,
  iot_session malloc a h (find_online_user_or_iot 10 (some a.user_id) 0 h) p m,
)
