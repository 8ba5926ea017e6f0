-- ===== src/Registry/SignIn/Laws.antt =====
-- What `SIGNIN` guarantees.
use uubang_iot.Base.{
  ℕ, ◌≤◌, ◌≡◌, ◌≢◌, refl, ap, subst, inl, inr, List, [], ◌∷◌, ◌++◌, Option, none, some, true, false,
  if◌then◌else◌, arith, All, Bool-cases, length,
}
use uubang_iot.Registry.{Client, UserNode, UserList, Heads, is_iot_id}
use uubang_iot.Registry.Find.{find_online_user_or_iot, find_register_user_or_iot_node}
use uubang_iot.Registry.Find.Laws.{Found, find_in-Found}
use uubang_iot.Registry.Online.{delete_out_user, delete_from}
use uubang_iot.Registry.Online.Delete.{delete_from_at, Session}
use uubang_iot.Registry.Online.Add.{with_session, new_online_user_or_iot_dev_cases}
use uubang_iot.Registry.SignIn.{
  put_online, drop_session, sign_in_new, user_branches, iot_branches, registered_key, with_key,
  sign_in,
}

-- No two sessions of a list have one name.
abbrev pub NameApart : List ℕ → List UserNode → Type 0
NameApart id us = All (λ u. id ≢ u.user_id) us

abbrev pub UniqueNames : List UserNode → Type 0
UniqueNames [] = Unit {0}
UniqueNames (u ∷ us) = NameApart u.user_id us × UniqueNames us

abbrev pub OneSession : Heads → Type 0
OneSession h = UniqueNames h.online_user.nodes × UniqueNames h.online_iot.nodes

-- Taking the named node out of unique names leaves unique names without it.
UniqueNames-remove :
    (id : List ℕ) (pre post : List UserNode) (u : UserNode)
    → UniqueNames (pre ++ (u ∷ post))
    → NameApart id pre
    → id ≡ u.user_id
    → UniqueNames (pre ++ post) × NameApart id (pre ++ post)
UniqueNames-remove id [] post u h n e = (h.1, rw e h.0)
UniqueNames-remove id (v ∷ pre) post u h n e =
    let (us, ns) = UniqueNames-remove id pre post u h.1 n.1 e in ((drop pre h.0, us), (n.0, ns))
  where
    drop :
        (xs : List UserNode)
        → NameApart v.user_id (xs ++ (u ∷ post))
        → NameApart v.user_id (xs ++ post)
    drop [] k = k.1
    drop (x ∷ xs) k = (k.0, drop xs k.1)

with_session-OneSession :
    (a : Client) (p : ℕ) (h : Heads)
    → OneSession h
    → (is_iot_id a.user_id ≡ true → NameApart a.user_id h.online_iot.nodes)
    → (is_iot_id a.user_id ≡ false → NameApart a.user_id h.online_user.nodes)
    → OneSession (with_session a p h)
with_session-OneSession a p h u i n = ground arith

put_online-OneSession :
    (malloc : ℕ → Option ℕ) (a : Client) (h : Heads) (told : List ℕ)
    → OneSession h
    → (is_iot_id a.user_id ≡ true → NameApart a.user_id h.online_iot.nodes)
    → (is_iot_id a.user_id ≡ false → NameApart a.user_id h.online_user.nodes)
    → OneSession (put_online malloc a h told).heads
unfolding put_online
put_online-OneSession malloc a h told u i n = elim (new_online_user_or_iot_dev_cases malloc a h) [
  | inl e ↦ rw e u
  | inr (p, e) ↦ rw e (with_session-OneSession a p h u i n)
]

-- The list of the client's kind.
abbrev pub sessions : Client → Heads → List UserNode
sessions a h = (if is_iot_id a.user_id then h.online_iot else h.online_user).nodes

pub names-sessions :
    (a : Client) (us : List UserNode) → NameApart a.user_id us → All (λ v. ¬ Session a v) us
names-sessions a [] n = tt
names-sessions a (u ∷ us) n = (λ s. n.0 s.0, names-sessions a us n.1)

pub nodes-drop :
    (a : Client) (l : UserList) (pre post : List UserNode) (u : UserNode)
    → l.nodes ≡ pre ++ (u ∷ post)
    → NameApart a.user_id pre
    → a.user_id ≡ u.user_id
    → (delete_from (record a { socket = u.user_socket }) l).1.nodes ≡ pre ++ post
nodes-drop a l pre post u e n same =
    ap (λ r. r.1.nodes)
      (delete_from_at (record a { socket = u.user_socket }) l pre post u e
        (names-sessions (record a { socket = u.user_socket }) pre n) (same, refl))

-- Dropping the session that the lookup by name found.
drop_session-OneSession :
    (a : Client) (h : Heads) (pre post : List UserNode) (u : UserNode)
    → 6 ≤ length a.user_id
    → OneSession h
    → sessions a h ≡ pre ++ (u ∷ post)
    → NameApart a.user_id pre
    → a.user_id ≡ u.user_id
    → OneSession (drop_session a u h) × NameApart a.user_id (sessions a (drop_session a u h))
unfolding delete_out_user
drop_session-OneSession a h pre post u len o e n same = elim (Bool-cases (is_iot_id a.user_id)) [
  | inl iot ↦
      let e' : h.online_iot.nodes ≡ pre ++ (u ∷ post) = ground arith in
      ground (
        arith,
        nodes-drop a h.online_iot pre post u e' n same,
        UniqueNames-remove a.user_id pre post u (subst UniqueNames e' o.1) n same,
      )
  | inr user ↦
      let e' : h.online_user.nodes ≡ pre ++ (u ∷ post) = ground arith in
      ground (
        arith,
        nodes-drop a h.online_user pre post u e' n same,
        UniqueNames-remove a.user_id pre post u (subst UniqueNames e' o.0) n same,
      )
]

sessions_kind :
    (a : Client) (h : Heads)
    → (is_iot_id a.user_id ≡ true → sessions a h ≡ h.online_iot.nodes)
      × (is_iot_id a.user_id ≡ false → sessions a h ≡ h.online_user.nodes)
sessions_kind a h = ground arith

pub find_sessions :
    (a : Client) (h : Heads)
    → (is_iot_id a.user_id ≡ false
        → Found
            (λ u. a.user_id ≡ u.user_id)
            (sessions a h)
            (find_online_user_or_iot 0 (some a.user_id) 0 h))
      × (is_iot_id a.user_id ≡ true
          → Found
              (λ u. a.user_id ≡ u.user_id)
              (sessions a h)
              (find_online_user_or_iot 10 (some a.user_id) 0 h))
unfolding find_online_user_or_iot
find_sessions a h = (
  λ user. rw ((sessions_kind a h).1 user) (find_in-Found h.online_user a.user_id 0).0,
  λ iot. rw ((sessions_kind a h).0 iot) (find_in-Found h.online_iot a.user_id 0).0,
)

apart-kind :
    (a : Client) (h : Heads)
    → NameApart a.user_id (sessions a h)
    → (is_iot_id a.user_id ≡ true → NameApart a.user_id h.online_iot.nodes)
      × (is_iot_id a.user_id ≡ false → NameApart a.user_id h.online_user.nodes)
apart-kind a h n = ground arith

sign_in_new-OneSession :
    (malloc : ℕ → Option ℕ) (a : Client) (h : Heads) (r : Option UserNode)
    → OneSession h
    → NameApart a.user_id (sessions a h)
    → OneSession (sign_in_new malloc a h r).heads
unfolding sign_in_new
sign_in_new-OneSession malloc a h none o apart = o
sign_in_new-OneSession malloc a h (some temp) o apart =
    put_online-OneSession malloc (with_key temp.userkey_id a) h [] o (apart-kind a h apart).0
      (apart-kind a h apart).1

-- One session in, the old session of the name out.
replace-OneSession :
    (malloc : ℕ → Option ℕ) (a : Client) (h : Heads) (u : UserNode) (told : List ℕ)
    → 6 ≤ length a.user_id
    → OneSession h
    → Found (λ v. a.user_id ≡ v.user_id) (sessions a h) (some u)
    → OneSession (put_online malloc a (drop_session a u h) told).heads
replace-OneSession malloc a h u told len o (inl (e, n)) = cc
replace-OneSession malloc a h u told len o (inr (pre, v, post, e, n, same, is)) =
    let same' : a.user_id ≡ u.user_id = cc in
    let e' : sessions a h ≡ pre ++ (u ∷ post) = cc in
    let (o', apart) = drop_session-OneSession a h pre post u len o e' n same' in
    put_online-OneSession malloc a (drop_session a u h) told o'
      (apart-kind a (drop_session a u h) apart).0 (apart-kind a (drop_session a u h) apart).1

user_branches-OneSession :
    (malloc : ℕ → Option ℕ) (a : Client) (h : Heads) (r : Option UserNode)
    → 6 ≤ length a.user_id
    → OneSession h
    → Found (λ u. a.user_id ≡ u.user_id) (sessions a h) r
    → OneSession (user_branches malloc a h r).heads
unfolding user_branches
user_branches-OneSession malloc a h none len o (inl f) =
    sign_in_new-OneSession malloc a h (find_register_user_or_iot_node 0 (some a.user_id) 0 h) o f.1
user_branches-OneSession malloc a h none len o (inr (pre, u, post, e, n, same, is)) = cc
user_branches-OneSession malloc a h (some u) len o f =
    replace-OneSession malloc (record a { userkey_id = u.userkey_id }) h u (u.user_socket ∷ []) len
      o f

iot_branches-OneSession :
    (malloc : ℕ → Option ℕ) (a : Client) (h : Heads) (r : Option UserNode)
    → 6 ≤ length a.user_id
    → OneSession h
    → Found (λ u. a.user_id ≡ u.user_id) (sessions a h) r
    → OneSession (iot_branches malloc a h r).heads
unfolding iot_branches
iot_branches-OneSession malloc a h none len o (inl f) =
    sign_in_new-OneSession malloc a h (find_register_user_or_iot_node 10 (some a.user_id) 0 h) o f.1
iot_branches-OneSession malloc a h none len o (inr (pre, u, post, e, n, same, is)) = cc
iot_branches-OneSession malloc a h (some u) len o f =
    keyed (find_register_user_or_iot_node 10 (some a.user_id) 0 h)
  where
    keyed :
        (temp : Option UserNode)
        → OneSession
            (put_online malloc
              (registered_key temp a)
              (drop_session (registered_key temp a) u h)
              []).heads
    keyed none = replace-OneSession malloc a h u [] len o f
    keyed (some temp) = replace-OneSession malloc (with_key temp.userkey_id a) h u [] len o f

-- The names stay distinct, if a freed node keeps its content.
pub sign_in-OneSession :
    (malloc : ℕ → Option ℕ) (a : Client) (h : Heads)
    → 6 ≤ length a.user_id
    → OneSession h
    → OneSession (sign_in malloc a h).heads
unfolding sign_in
sign_in-OneSession malloc a h len o = ground (
  arith,
  user_branches-OneSession malloc a h (find_online_user_or_iot 0 (some a.user_id) 0 h) len o,
  iot_branches-OneSession malloc a h (find_online_user_or_iot 10 (some a.user_id) 0 h) len o,
  find_sessions a h,
)
