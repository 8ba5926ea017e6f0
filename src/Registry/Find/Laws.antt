-- ===== src/Registry/Find/Laws.antt =====
-- What the lookups of users and devices return.
use uubang_iot.Base.{
  ℕ, ◌≡◌, ◌≢◌, refl, ◌⊎◌, inl, inr, List, [], ◌∷◌, ◌++◌, Option, none, some, Bool, true, false,
  ◌==◌, arith, All, Bool-cases,
}
use uubang_iot.Base.Bytes.{str_eq_iff}
use uubang_iot.Registry.{UserNode, UserList, Heads, has_id}
use uubang_iot.Registry.Find.{
  find_node, find_in, find_online_user_or_iot, find_register_user_or_iot_node,
}

-- The first node that has the property P, or none at all.
abbrev pub Found : (UserNode → Type 0) → List UserNode → Option UserNode → Type 0
Found P us r =
    ((r ≡ none) × All (λ u. ¬ P u) us)
    ⊎ ((pre : List UserNode) × (u : UserNode) × (post : List UserNode) × (us ≡ pre ++ (u ∷ post))
        × All (λ v. ¬ P v) pre
        × P u
        × (r ≡ some u))

find_node-Found :
    (P : UserNode → Type 0) (m : UserNode → Bool)
    → ((u : UserNode) → (m u ≡ true) → P u)
    → ((u : UserNode) → (m u ≡ false) → ¬ P u)
    → (us : List UserNode) → Found P us (find_node m us)
unfolding find_node
find_node-Found P m y n [] = inl (refl, tt)
find_node-Found P m y n (u ∷ us) = elim (Bool-cases (m u)) [
  | inl hit ↦ rw hit (inr ([], u, us, refl, tt, y u hit, refl))
  | inr miss ↦ rw miss (later (n u miss) (find_node-Found P m y n us))
]
  where
    later : ¬ P u → Found P us (find_node m us) → Found P (u ∷ us) (find_node m us)
    later np (inl (e, h)) = inl (e, (np, h))
    later np (inr (pre, v, post, e, h, p, r)) = inr (u ∷ pre, v, post, rw e, (np, h), p, r)

pub find_in-Found :
    (l : UserList) (name : List ℕ) (id : ℕ)
    → Found (λ u. name ≡ u.user_id) l.nodes (find_in l (some name) id)
      × Found (λ u. id ≡ u.userkey_id) l.nodes (find_in l none id)
unfolding find_in
find_in-Found l name id = (
  find_node-Found (λ u. name ≡ u.user_id) (has_id name) (λ u. (str_eq_iff name u.user_id).0)
      (λ u h e. cc ((str_eq_iff name u.user_id).1 e)) l.nodes,
  find_node-Found (λ u. id ≡ u.userkey_id) (λ u. id == u.userkey_id) (λ u h. ground arith)
      (λ u h e. ground arith) l.nodes,
)

-- Both lookups search the devices for n = 10 and the users for n = 0: by name they return the first node
-- of that name, by key the first of that key, and NULL only if no node of the list has it. For any other n they return NULL.
pub find_lem :
    (name : List ℕ) (id : ℕ) (h : Heads)
    → Found (λ u. name ≡ u.user_id) h.online_user.nodes (find_online_user_or_iot 0 (some name) id h)
      × Found (λ u. id ≡ u.userkey_id) h.online_user.nodes (find_online_user_or_iot 0 none id h)
      × Found
          (λ u. name ≡ u.user_id)
          h.online_iot.nodes
          (find_online_user_or_iot 10 (some name) id h)
      × Found (λ u. id ≡ u.userkey_id) h.online_iot.nodes (find_online_user_or_iot 10 none id h)
      × Found
          (λ u. name ≡ u.user_id)
          h.registed_user.nodes
          (find_register_user_or_iot_node 0 (some name) id h)
      × Found
          (λ u. id ≡ u.userkey_id)
          h.registed_user.nodes
          (find_register_user_or_iot_node 0 none id h)
      × Found
          (λ u. name ≡ u.user_id)
          h.registed_iot.nodes
          (find_register_user_or_iot_node 10 (some name) id h)
      × Found
          (λ u. id ≡ u.userkey_id)
          h.registed_iot.nodes
          (find_register_user_or_iot_node 10 none id h)
      × ((n : ℕ) (by : Option (List ℕ))
          → n ≢ 0
          → n ≢ 10
          → (find_online_user_or_iot n by id h ≡ none)
            × (find_register_user_or_iot_node n by id h ≡ none))
unfolding find_online_user_or_iot find_register_user_or_iot_node
find_lem name id h = (
  (find_in-Found h.online_user name id).0,
  (find_in-Found h.online_user name id).1,
  (find_in-Found h.online_iot name id).0,
  (find_in-Found h.online_iot name id).1,
  (find_in-Found h.registed_user name id).0,
  (find_in-Found h.registed_user name id).1,
  (find_in-Found h.registed_iot name id).0,
  (find_in-Found h.registed_iot name id).1,
  λ n by p q. ground arith,
)
