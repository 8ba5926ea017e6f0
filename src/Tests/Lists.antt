-- ===== src/Tests/Lists.antt =====
-- The user lists: a user of the name "11111111111" with three sessions of different sockets.
use uubang_iot.Base.{
  ℕ, ◌≡◌, ◌≢◌, refl, List, [], ◌∷◌, ◌++◌, some, arith, All, Any, ◌⊎◌, replicate, length,
}
use uubang_iot.Base.Int.{pos, negsuc, ◌-ℤ◌}
use uubang_iot.Base.Bytes.{str_eq}
use uubang_iot.Registry.{Client, UserNode, UserList, Heads}
use uubang_iot.Registry.Find.{find_online_user_or_iot, find_in, find_node}
use uubang_iot.Registry.Check.{check_id_pwd, login_scan}
use uubang_iot.Registry.Check.Laws.{Login, accounts}
use uubang_iot.Registry.Online.{delete_from}
use uubang_iot.Registry.Online.Delete.{
  Session, freed_by, IsSafe, Distinct, delete_from_lem, delete_from-not-IsSafe,
}
use uubang_iot.Registry.SignIn.{sign_in, sign_in_user, user_branches, put_online}
use uubang_iot.Registry.SignIn.Access.{sign_in-Login}

abbrev name : List ℕ
name = replicate 11 b'1'

abbrev node : ℕ → ℕ → UserNode
node p socket = record {
  self = p;
  user_socket = socket;
  user_addr = 0;
  user_id = name;
  userkey_id = 5;
  user_password = [];
  info = [];
  conn_handle = 0;
}

abbrev user : ℕ → Client
user socket = record {
  socket = socket;
  addr = 0;
  user_id = name;
  userkey_id = 0;
  user_password = [];
  checkcode = [];
  info = [];
  conn = 0;
  conn_userkey_id = 0;
}

abbrev list_of : List UserNode → UserList
list_of us = record { nodes = us; online_user_num = pos (length us); freed = [] }

abbrev three : UserList
three = list_of (node 10 1 ∷ node 20 2 ∷ node 30 3 ∷ [])

delete_from_lem_example :
    ((delete_from (user 2) three ≡ (pos 0, three)) × All (λ u. ¬ Session (user 2) u) three.nodes)
    ⊎ ((pre : List UserNode) × (u : UserNode) × (post : List UserNode) × (three.nodes
          ≡ pre ++ (u ∷ post))
        × All (λ v. ¬ Session (user 2) v) pre
        × Session (user 2) u
        × (delete_from (user 2) three ≡ (
          pos 1,
          record {
            nodes = pre ++ post;
            online_user_num = three.online_user_num -ℤ pos 1;
            freed = freed_by pre u post three.freed;
          },
        )))
delete_from_lem_example = delete_from_lem (user 2) three

three-Distinct : Distinct three.nodes
three-Distinct =
    ((λ e. omega (arith, e), (λ e. omega (arith, e), tt)), ((λ e. omega (arith, e), tt), (tt, tt)))

delete_from-not-IsSafe_example :
    let l' = (delete_from (user 2) three).1 in
    (l'.nodes ≡ node 10 1 ∷ node 30 3 ∷ [])
    × (l'.freed ≡ 30 ∷ [])
    × All (λ p. p ≢ 20) l'.freed
    × (¬ IsSafe l')
delete_from-not-IsSafe_example =
    delete_from-not-IsSafe (user 2) three (node 10 1) (node 20 2) (node 30 3) [] [] refl
      ((λ s. omega (arith, s.1)), tt) (refl, refl) three-Distinct (tt, (tt, (tt, tt)))

abbrev lists : Heads
lists = record {
  online_user = list_of (node 10 1 ∷ []);
  online_iot = list_of [];
  registed_user = list_of (node 40 0 ∷ []);
  registed_iot = list_of [];
}

sign_in-Login_example :
    (((sign_in (λ k. some 50) (user 2) lists).result ≡ pos 1)
      × Any (Login (user 2)) (accounts (user 2) lists))
    ⊎ (((sign_in (λ k. some 50) (user 2) lists).result ≡ negsuc 0)
        × All (λ u. ¬ Login (user 2) u) (accounts (user 2) lists)
        × ((sign_in (λ k. some 50) (user 2) lists).heads ≡ lists)
        × ((sign_in (λ k. some 50) (user 2) lists).told ≡ []))
sign_in-Login_example = sign_in-Login (λ k. some 50) (user 2) lists

signs_in : (sign_in (λ k. some 50) (user 2) lists).result ≡ pos 1
unfolding sign_in sign_in_user user_branches put_online check_id_pwd login_scan
    find_online_user_or_iot find_in find_node str_eq
signs_in = refl
