-- ===== src/Registry/Check.antt =====
-- `Check_Id_Pwd` (src/CheckID_PWD.c).
pub mod Laws
use uubang_iot.Base.{ℕ, List, [], ◌∷◌, Bool, ◌&&◌, ◌==◌, if◌then◌else◌}
use uubang_iot.Base.Int.{ℤ, pos, negsuc}
use uubang_iot.Base.Bytes.{str_eq}
use uubang_iot.Registry.{Client, UserNode, Heads, has_id, is_iot_id}

abbrev pub has_login : Client → UserNode → Bool
has_login a u = has_id a.user_id u && str_eq a.user_password u.user_password

-- n = 0: a node with this name and password.
unfoldable pub login_scan : Client → List UserNode → ℤ
login_scan a [] = negsuc 0
login_scan a (u ∷ us) = if has_login a u then pos 1 else login_scan a us

-- n = 1: the loop tests `Tag`, not `Tag->next`, and stops when there is no next node.
unfoldable pub name_loop : Client → UserNode → List UserNode → ℤ
name_loop a tag [] = negsuc 0
name_loop a tag (u ∷ us) = if has_id a.user_id tag then pos 1 else name_loop a u us

unfoldable pub name_scan : Client → List UserNode → ℤ
unfolding name_loop
name_scan a [] = negsuc 0
name_scan a (tag ∷ us) = if has_id a.user_id tag then pos 1 else name_loop a tag us

unfoldable pub check_id_pwd : ℕ → Client → Heads → ℤ
unfolding login_scan name_scan
check_id_pwd n a h =
    let nodes = (if is_iot_id a.user_id then h.registed_iot else h.registed_user).nodes in
    if n == 0 then login_scan a nodes else name_scan a nodes
