-- ===== src/Registry/SignIn/Accounts.antt =====
-- `SIGNIN` and the lists of registered accounts.
use uubang_iot.Base.{
  ℕ, ◌≡◌, refl, ap₂, ◌∙◌, inl, inr, Option, none, some, Bool, true, false, ltb, leb, length,
  if◌then◌else◌, Bool-cases, List, [],
}
use uubang_iot.Base.Int.{ℤ, pos, negsuc, is_minus_one}
use uubang_iot.Registry.{Client, UserNode, UserList, Heads, is_iot_id}
use uubang_iot.Registry.Check.{check_id_pwd}
use uubang_iot.Registry.Check.Laws.{accounts}
use uubang_iot.Registry.Online.{
  new_online_user_or_iot_dev, delete_out_user, malloc_loop, online_node, push_front,
}
use uubang_iot.Registry.SignIn.{
  sign_in, sign_in_user, sign_in_iot, sign_in_new, user_branches, iot_branches, put_online, refused,
  SignedIn,
}

-- `SIGNIN` changes the lists of who is online, never those of who is registered.
pub SameAccounts : Heads → Heads → Type 0
SameAccounts h h' = (h'.registed_iot ≡ h.registed_iot) × (h'.registed_user ≡ h.registed_user)

SameAccounts-trans :
    (h h' h'' : Heads) → SameAccounts h h' → SameAccounts h' h'' → SameAccounts h h''
unfolding SameAccounts
SameAccounts-trans h h' h'' (e, f) (g, k) = (g ∙ e, k ∙ f)

SameAccounts-refl : (h : Heads) → SameAccounts h h
unfolding SameAccounts
SameAccounts-refl h = (refl, refl)

new_online-accounts :
    (malloc : ℕ → Option ℕ) (a : Client) (h : Heads)
    → SameAccounts h (new_online_user_or_iot_dev malloc a h).1
unfolding new_online_user_or_iot_dev SameAccounts
new_online-accounts malloc a h =
    added (ltb 99 (malloc_loop malloc 100 0).1) (is_iot_id a.user_id) (malloc_loop malloc 100 0).0
  where
    added :
        (b c : Bool) (o : Option ℕ)
        → let r : ℤ × Heads = if b then (negsuc 0, h) else elim o [
          | none ↦ (negsuc 0, h)
          | some p ↦
              if c
              then (pos 1, record h { online_iot = push_front (online_node a p) h.online_iot })
              else (pos 1, record h { online_user = push_front (online_node a p) h.online_user })
        ] in
          SameAccounts h r.1
    added true c o = (refl, refl)
    added false c none = (refl, refl)
    added false true (some p) = (refl, refl)
    added false false (some p) = (refl, refl)

delete_out_user-accounts : (a : Client) (h : Heads) → SameAccounts h (delete_out_user a h).1
unfolding delete_out_user SameAccounts
delete_out_user-accounts a h = elim (Bool-cases (ltb (length a.user_id) 6)) [
  | inl short ↦ rw short (refl, refl)
  | inr long ↦ elim (Bool-cases (leb 11 (length a.user_id))) [
    | inl user ↦ rw (long, user) (refl, refl)
    | inr iot ↦ rw (long, iot) (refl, refl)
  ]
]

module _ (malloc : ℕ → Option ℕ) where
  put_online-accounts :
      (a : Client) (h : Heads) (told : List ℕ) → SameAccounts h (put_online malloc a h told).heads
  unfolding put_online
  put_online-accounts a h told = new_online-accounts malloc a h

  replaced :
      (a b : Client) (h : Heads) (told : List ℕ)
      → SameAccounts h (put_online malloc a (delete_out_user b h).1 told).heads
  replaced a b h told =
      SameAccounts-trans h (delete_out_user b h).1 _ (delete_out_user-accounts b h)
        (put_online-accounts a _ told)

  sign_in_new-accounts :
      (a : Client) (h : Heads) (o : Option UserNode)
      → SameAccounts h (sign_in_new malloc a h o).heads
  unfolding sign_in_new
  sign_in_new-accounts a h none = SameAccounts-refl h
  sign_in_new-accounts a h (some u) = put_online-accounts _ h []

  user_branches-accounts :
      (a : Client) (h : Heads) (o : Option UserNode)
      → SameAccounts h (user_branches malloc a h o).heads
  unfolding user_branches
  user_branches-accounts a h none = sign_in_new-accounts a h _
  user_branches-accounts a h (some u) = replaced _ _ h _

  iot_branches-accounts :
      (a : Client) (h : Heads) (o : Option UserNode)
      → SameAccounts h (iot_branches malloc a h o).heads
  unfolding iot_branches
  iot_branches-accounts a h none = sign_in_new-accounts a h _
  iot_branches-accounts a h (some u) = replaced _ _ h _

  if_accounts :
      (h : Heads) (b : Bool) (r t : SignedIn)
      → SameAccounts h r.heads
      → SameAccounts h t.heads
      → SameAccounts h (if b then r else t).heads
  if_accounts h true r t e f = e
  if_accounts h false r t e f = f

  pub sign_in-accounts : (a : Client) (h : Heads) → SameAccounts h (sign_in malloc a h).heads
  unfolding sign_in sign_in_user sign_in_iot
  sign_in-accounts a h =
      if_accounts h (is_iot_id a.user_id) (sign_in_iot malloc a h) (sign_in_user malloc a h)
        (if_accounts h (is_minus_one (check_id_pwd 0 a h)) (refused h a) _ (SameAccounts-refl h)
          (iot_branches-accounts a h _))
        (if_accounts h (is_minus_one (check_id_pwd 0 a h)) (refused h a) _ (SameAccounts-refl h)
          (user_branches-accounts a h _))

pub accounts-same : (a : Client) (h h' : Heads) → SameAccounts h h' → accounts a h' ≡ accounts a h
unfolding SameAccounts
accounts-same a h h' (e, f) =
    ap₂ (λ (x y : UserList). (if is_iot_id a.user_id then x else y).nodes) e f
