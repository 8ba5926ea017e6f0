-- ===== src/Tests/Accounts.antt =====
-- The user "22222222222", the only registered one, changes the password; then two more are fetched.
use uubang_iot.Base.{ℕ, ◌≡◌, refl, List, [], ◌∷◌}
use uubang_iot.Base.Int.{pos}
use uubang_iot.Base.Bytes.{codes, str_eq}
use uubang_iot.Registry.Check.{check_id_pwd, login_scan}
use uubang_iot.Sql.{Cln, Row, Session, returns}
use uubang_iot.Sql.Account.{After}
use uubang_iot.Registration.{user_re_pwd, change_in}
use uubang_iot.Registration.Password.{Changes, user_re_pwd-Changes, user_re_pwd-check_id_pwd}
use uubang_iot.Tests.Commands.{partner, start, start-IsOpen, world, asker}

abbrev changer : Cln
changer = record asker {
  client = record asker.client { user_id = codes "22222222222"; user_password = codes "secret" };
  re_user_password = codes "hidden";
}

user_re_pwd-Changes_example : After (Changes changer start.heads) (user_re_pwd changer world start)
user_re_pwd-Changes_example = user_re_pwd-Changes changer world start start-IsOpen

knows : check_id_pwd 0 changer.client start.heads ≡ pos 1
unfolding check_id_pwd login_scan str_eq
knows = refl

abbrev changed : Session
changed = record start {
  heads = record start.heads {
    registed_user = record start.heads.registed_user {
      nodes = record partner { user_password = codes "hidden" } ∷ [];
    };
  };
}

changes : user_re_pwd changer world start ≡ (returns (pos 1), changed)
unfolding user_re_pwd change_in check_id_pwd login_scan str_eq
changes = refl

user_re_pwd-check_id_pwd_example :
    check_id_pwd 0 (record changer.client { user_password = codes "hidden" }) changed.heads ≡ pos 1
user_re_pwd-check_id_pwd_example =
    user_re_pwd-check_id_pwd changer world start changed start-IsOpen refl knows changes

abbrev user_row : List ℕ → Row
user_row key = key ∷ codes "33333333333" ∷ codes "nick" ∷ codes "word" ∷ codes "mail" ∷ []

abbrev new_rows : List Row
new_rows = user_row (codes "9") ∷ user_row (codes "12") ∷ []
