-- ===== src/Iot/Access.antt =====
-- Who becomes signed in by a request of a device.
use uubang_iot.Base.{
  ℕ, ◌≡◌, refl, ap, sym, subst, ◌⊎◌, inl, inr, List, [], Option, none, some, Bool, true, false,
  ◌==◌, ltb, ◌&&◌, not, if◌then◌else◌, Bool-cases, Any,
}
use uubang_iot.Base.Int.{ℤ, pos}
use uubang_iot.Base.Bytes.{codes}
use uubang_iot.Talk.{atoi}
use uubang_iot.Registry.{Client, Heads}
use uubang_iot.Registry.Check.Laws.{Login, accounts}
use uubang_iot.Registry.SignIn.{sign_in, SignedIn}
use uubang_iot.Registry.SignIn.Access.{sign_in-Login}
use uubang_iot.Registry.SignIn.Accounts.{sign_in-accounts, accounts-same}
use uubang_iot.Sql.{
  Cln, Run, World, Session, Ended, crash, after, ◌>>=◌, ◌>>◌, on_some, returns, crashes, send_iot,
  next_seq_num,
}
use uubang_iot.Registration.{is_one, register}
use uubang_iot.Iot.{Device, Chance, Conn, ends, answers, send_op_back, fields_of}
use uubang_iot.Iot.Login.{
  with_login, sign_in_now, sign_and_answer, case_rsa, case_pin, case_reg_sign,
}
use uubang_iot.Iot.Data.{case_update, case_read_cmd, case_read_scene, case_read_data}
use uubang_iot.Iot.Relay.{case_store_cmd, case_send_cmd}
use uubang_iot.Iot.Cases.{signed_in_case, iot_talk}

-- The login that the two fields of a registration carry.
abbrev pub login_of : Device → Cln
login_of a = with_login a (fields_of a.data_buffer).1

-- What holds of a result when the code returns.
abbrev Ok : {A : Type 0} → (A → Session → Type 0) → Ended A × Session → Type 0
Ok P (returns a, s) = P a s
Ok P (crashes, s) = Unit

Ok-after :
    {A B : Type 0} (P : B → Session → Type 0) (f : A → Run B)
    → ((a : A) (w : World) (s : Session) → Ok P (f a w s))
    → (w : World) (r : Ended A × Session) → Ok P (after f w r)
Ok-after P f h w (returns a, s) = h a w s
Ok-after P f h w (crashes, s) = tt

-- Code that leaves the connection as signed in as it was.
Leaves : Bool → Run (ℤ × Conn) → Type 0
Leaves b m = (w : World) (s : Session) → Ok (λ y s'. y.1.conn_signed_in ≡ b) (m w s)

module _ (b : Bool) where
  Leaves-ends : (conn : Conn) (code : ℤ) → conn.conn_signed_in ≡ b → Leaves b (ends conn code)
  unfolding Leaves
  Leaves-ends conn code e w s = e

  Leaves-crash : Leaves b crash
  unfolding Leaves
  Leaves-crash w s = tt

  Leaves-if :
      (c : Bool) (m k : Run (ℤ × Conn)) → Leaves b m → Leaves b k → Leaves b (if c then m else k)
  Leaves-if true m k h g = h
  Leaves-if false m k h g = g

  module _ {A : Type 0} where
    Leaves->>= :
        (m : Run A) (f : A → Run (ℤ × Conn)) → ((a : A) → Leaves b (f a)) → Leaves b (m >>= f)
    unfolding Leaves
    Leaves->>= m f h w s = Ok-after _ f h w (m w s)

    Leaves-on_some :
        (o : Option A) (m : Run (ℤ × Conn)) (f : A → Run (ℤ × Conn))
        → Leaves b m
        → ((a : A) → Leaves b (f a))
        → Leaves b (on_some o m f)
    Leaves-on_some none m f h g = h
    Leaves-on_some (some a) m f h g = g a

ruleset leaving = (Leaves-if, Leaves->>=, Leaves-ends, Leaves-on_some, Leaves-crash, refl)

module _ (a : Device) where
  abbrev Stays : Run (ℤ × Conn) → Type 0
  Stays = Leaves a.conn.conn_signed_in

  done : {A : Type 0} (m : Run A) (code : ℤ) → Stays (m >> ends a.conn code)
  done m code = Leaves->>= _ m _ λ x. Leaves-ends _ a.conn code refl

  give_up : (code : ℤ) → Stays (ends a.conn code)
  give_up code = Leaves-ends _ a.conn code refl

  case_read_cmd-Stays : Stays (case_read_cmd a)
  unfolding case_read_cmd Leaves
  case_read_cmd-Stays = search leaving

  case_update-Stays : Stays (case_update a)
  unfolding case_update
  case_update-Stays = search leaving

  case_send_cmd-Stays : Stays (case_send_cmd a)
  unfolding case_send_cmd Leaves
  case_send_cmd-Stays = search leaving

  case_store_cmd-Stays : Stays (case_store_cmd a)
  unfolding case_store_cmd Leaves
  case_store_cmd-Stays = search leaving

  signed_in_case-Stays : (code : ℕ) → Stays (signed_in_case a code)
  unfolding signed_in_case case_read_scene case_read_data
  signed_in_case-Stays code = Leaves-if _ (not a.signed_in) _ _ (give_up _) (
      Leaves-if _ (code == 4) _ _ case_update-Stays (
        Leaves-if _ (code == 5) _ _ case_read_cmd-Stays (
          Leaves-if _ (code == 6) _ _ (done _ _) (
            Leaves-if _ (code == 7) _ _ (done _ _)
              (Leaves-if _ (code == 8) _ _ case_send_cmd-Stays case_store_cmd-Stays)))))

-- What a sign-in that is answered with "03" shows.
Shown : Cln → Bool → ℤ × Conn → Session → Type 0
Shown b was y s' = (y.1.conn_signed_in ≡ was) ⊎ Any (Login b.client) (accounts b.client s'.heads)

answers-Shown :
    (b : Cln) (was : Bool) (conn : Conn) (code text : List ℕ) (w : World) (s : Session)
    → Any (Login b.client) (accounts b.client s.heads)
    → Ok (Shown b was) (answers conn code text w s)
unfolding Shown send_op_back next_seq_num send_iot
answers-Shown b was conn code text w s l = elim (Bool-cases (w.send_ok s.log)) [
  | inl sent ↦ rw sent (inr l)
  | inr lost ↦ rw lost (inr l)
]

Ok-cond :
    {A : Type 0} (P : A → Session → Type 0) (b : Bool) (m k : Run A) (w : World) (s : Session)
    → (b ≡ true → Ok P (m w s))
    → (b ≡ false → Ok P (k w s))
    → Ok P ((if b then m else k) w s)
Ok-cond P true m k w s h g = h refl
Ok-cond P false m k w s h g = g refl

Ok-weaken :
    {A : Type 0} (P Q : A → Session → Type 0) (r : Ended A × Session)
    → ((a : A) (s : Session) → P a s → Q a s)
    → Ok P r
    → Ok Q r
Ok-weaken P Q (returns a, s) h p = h a s p
Ok-weaken P Q (crashes, s) h p = tt

module _ (r : Chance) (a : Device) where
  abbrev Shows : Run (ℤ × Conn) → World → Session → Type 0
  Shows m w s = Ok (Shown (login_of a) a.conn.conn_signed_in) (m w s)

  stays : (m : Run (ℤ × Conn)) → Stays a m → (w : World) (s : Session) → Shows m w s
  unfolding Leaves Shown
  stays m h w s = Ok-weaken _ _ (m w s) (λ y s' e. inl e) (h w s)

  logged_in :
      (malloc : ℕ → Option ℕ) (c : Client) (h : Heads)
      → is_one (sign_in malloc c h).result ≡ true
      → Any (Login c) (accounts c (sign_in malloc c h).heads)
  logged_in malloc c h one = elim (sign_in-Login malloc c h) [
    | inl (e, l) ↦ subst (Any (Login c)) (sym (accounts-same c h _ (sign_in-accounts malloc c h))) l
    | inr (e, l, same, told) ↦ absurd (cc (ap is_one e))
  ]

  sign_and_answer-Shows : (w : World) (s : Session) → Shows (sign_and_answer a (login_of a)) w s
  unfolding sign_and_answer sign_in_now
  sign_and_answer-Shows w s =
      Ok-cond _ (is_one res.result) _ _ w s'
        (λ accepted.
          answers-Shown (login_of a) _ _ _ _ w s'
            (logged_in (w.malloc s.log) (login_of a).client s.heads accepted))
        λ refused. stays (answers a.conn (codes "23") []) (done a _ _) w s'
    where
      res : SignedIn
      res = sign_in (w.malloc s.log) (login_of a).client s.heads

      s' : Session
      s' = record s { heads = res.heads }

  case_reg_sign-Shows : (w : World) (s : Session) → Shows (case_reg_sign r a) w s
  unfolding case_reg_sign
  case_reg_sign-Shows w s =
      Ok-cond _ (not a.conn.conn_signed_in && not (a.key.encrypt_block_bytes == 0)) _ _ w s
        (λ first.
          Ok-cond _ (ltb (fields_of a.data_buffer).0 2) _ _ w s
            (λ few. stays (ends a.conn (pos 0)) (give_up a _) w s)
            λ enough.
              Ok-after _ (λ x. sign_and_answer a (login_of a)) (λ x. sign_and_answer-Shows) w
                (register r.raw (login_of a) 1 w s))
        λ again. stays (answers a.conn (codes "23") []) (done a _ _) w s

  case_rsa-Stays : Stays a (case_rsa r a)
  unfolding case_rsa Leaves
  case_rsa-Stays = search leaving

  case_pin-Stays : Stays a (case_pin r a)
  unfolding case_pin Leaves
  case_pin-Stays = search leaving

  iot_talk-Shows : (w : World) (s : Session) → Shows (iot_talk r a) w s
  unfolding iot_talk
  iot_talk-Shows w s =
      let code = atoi a.cln.client.checkcode in
      Ok-cond _ (code == 1) _ _ w s (λ is1. stays _ case_rsa-Stays w s)
        λ not1.
          Ok-cond _ (code == 2) _ _ w s (λ is2. stays _ case_pin-Stays w s)
            λ not2.
              Ok-cond _ (code == 3) _ _ w s (λ is3. case_reg_sign-Shows w s)
                λ not3.
                  Ok-cond _ (ltb 3 code && ltb code 10) _ _ w s
                    (λ inside. stays _ (signed_in_case-Stays a code) w s)
                    λ outside. stays (ends a.conn (pos 1)) (give_up a _) w s

-- If a request leaves the connection of a device signed in that was not so before, then a registered
-- account has the name and the password that the request carried: no other request signs a device in.
pub iot_talk-Login :
    (r : Chance) (a : Device) (w : World) (s s' : Session) (code : ℤ) (conn : Conn)
    → a.conn.conn_signed_in ≡ false
    → iot_talk r a w s ≡ (returns (code, conn), s')
    → conn.conn_signed_in ≡ true
    → Any (Login (login_of a).client) (accounts (login_of a).client s'.heads)
unfolding Shown
iot_talk-Login r a w s s' code conn was run now =
    elim (subst (Ok (Shown (login_of a) a.conn.conn_signed_in)) run (iot_talk-Shows r a w s)) [
      | inl same ↦ absurd (cc (same, was, now))
      | inr login ↦ login
    ]
