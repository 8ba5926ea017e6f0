-- ===== src/Registry/Check/Laws.antt =====
-- What `Check_Id_Pwd` accepts.
use uubang_iot.Base.{◌≡◌, refl, ◌⊎◌, inr, List, [], ◌∷◌, ◌++◌, if◌then◌else◌, arith, All, Any}
use uubang_iot.Base.Int.{ℤ, pos, negsuc}
use uubang_iot.Base.Bytes.{str_eq_iff}
use uubang_iot.Registry.{Client, UserNode, Heads, is_iot_id}
use uubang_iot.Registry.Check.{login_scan, name_loop, check_id_pwd}

-- The list that holds the registered accounts of the client's kind.
abbrev pub accounts : Client → Heads → List UserNode
accounts a h = (if is_iot_id a.user_id then h.registed_iot else h.registed_user).nodes

abbrev pub Login : Client → UserNode → Type 0
Login a u = (a.user_id ≡ u.user_id) × (a.user_password ≡ u.user_password)

login_scan_lem :
    (a : Client) (us : List UserNode)
    → ((login_scan a us ≡ pos 1) × Any (Login a) us)
      ⊎ ((login_scan a us ≡ negsuc 0) × All (λ u. ¬ Login a u) us)
unfolding login_scan
login_scan_lem a [] = inr (refl, tt)
login_scan_lem a (u ∷ us) = ground (
  arith,
  login_scan_lem a us,
  str_eq_iff a.user_id u.user_id,
  str_eq_iff a.user_password u.user_password,
)

abbrev pub Named : Client → UserNode → Type 0
Named a u = a.user_id ≡ u.user_id

-- With n = 0 the result is 1 if some account of the client's kind has its name and its password,
-- and -1 if none has both; it is never the 5 behind the branches.
pub check_id_pwd-Login :
    (a : Client) (h : Heads)
    → ((check_id_pwd 0 a h ≡ pos 1) × Any (Login a) (accounts a h))
      ⊎ ((check_id_pwd 0 a h ≡ negsuc 0) × All (λ u. ¬ Login a u) (accounts a h))
unfolding check_id_pwd
check_id_pwd-Login a h = login_scan_lem a (accounts a h)

abbrev Scanned : Client → List UserNode → ℤ → Type 0
Scanned a us r = ((r ≡ pos 1) × Any (Named a) us) ⊎ ((r ≡ negsuc 0) × All (λ u. ¬ Named a u) us)

name_loop-Scanned :
    (a : Client) (tag : UserNode) (us : List UserNode) (last : UserNode)
    → Scanned a (tag ∷ us) (name_loop a tag (us ++ last ∷ []))
unfolding name_loop
name_loop-Scanned a tag [] last = ground (arith, str_eq_iff a.user_id tag.user_id)
name_loop-Scanned a tag (u ∷ us) last =
    ground (arith, str_eq_iff a.user_id tag.user_id, name_loop-Scanned a u us last)

-- With n = 1, in a list of two accounts or more, the result is 1 exactly if an account other than
-- the last has the name: the last one is never looked at. A list of one account is searched in full.
pub check_id_pwd-name :
    (a : Client) (h : Heads) (u : UserNode) (us : List UserNode) (last : UserNode)
    → (accounts a h ≡ u ∷ (us ++ last ∷ []) → Scanned a (u ∷ us) (check_id_pwd 1 a h))
      × (accounts a h ≡ u ∷ [] → Scanned a (u ∷ []) (check_id_pwd 1 a h))
unfolding check_id_pwd name_loop
check_id_pwd-name a h u us last = (
  λ e.
      rw (e, check_id_pwd)
        (ground (arith, str_eq_iff a.user_id u.user_id, name_loop-Scanned a u us last)),
  λ e. rw (e, check_id_pwd) (ground (arith, str_eq_iff a.user_id u.user_id)),
)
