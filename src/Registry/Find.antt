-- ===== src/Registry/Find.antt =====
-- `FindOnlineUserOrIot` (src/FindOnlineUserOrIot.c) and `FindRegisterUserOrIotNode`
-- (src/FindUserOrIotNode.c).
pub mod Laws
use uubang_iot.Base.{ℕ, List, [], ◌∷◌, Option, none, some, Bool, ◌==◌, if◌then◌else◌}
use uubang_iot.Registry.{UserNode, UserList, Heads, has_id}

-- The walk of both functions: the first node that passes the test.
unfoldable pub find_node : (UserNode → Bool) → List UserNode → Option UserNode
find_node m [] = none
find_node m (u ∷ us) = if m u then some u else find_node m us

-- By name if there is one (`USERID != NULL`), else by key.
unfoldable pub find_in : UserList → Option (List ℕ) → ℕ → Option UserNode
unfolding find_node
find_in l none id = find_node (λ u. id == u.userkey_id) l.nodes
find_in l (some user_id) id = find_node (has_id user_id) l.nodes

-- n is 10 for the devices and 0 for the users; any other value prints the lists.
unfoldable pub find_online_user_or_iot : ℕ → Option (List ℕ) → ℕ → Heads → Option UserNode
find_online_user_or_iot n user_id id h =
    if n == 10
    then find_in h.online_iot user_id id
    else if n == 0
    then find_in h.online_user user_id id
    else none

unfoldable pub find_register_user_or_iot_node : ℕ → Option (List ℕ) → ℕ → Heads → Option UserNode
find_register_user_or_iot_node n user_id id h =
    if n == 10
    then find_in h.registed_iot user_id id
    else if n == 0
    then find_in h.registed_user user_id id
    else none
