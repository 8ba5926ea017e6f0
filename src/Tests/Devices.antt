-- ===== src/Tests/Devices.antt =====
-- A device of the name "iot1" with the password "pw12345", which registers, and then sends data.
use uubang_iot.Base.{◌≡◌, refl, [], ◌∷◌, ◌++◌, true, false, arith, Any}
use uubang_iot.Base.Int.{pos}
use uubang_iot.Base.Bytes.{codes, str_eq}
use uubang_iot.Text.Split.{str_split, count_loop, split_loop, string_cut, cut_loop}
use uubang_iot.Rsa.{decode_message, decode_loop, modpow, modpow_loop, unpack_loop}
use uubang_iot.Talk.{atoi, atoi_loop}
use uubang_iot.Registry.{UserNode}
use uubang_iot.Registry.Find.{
  find_register_user_or_iot_node, find_online_user_or_iot, find_in, find_node,
}
use uubang_iot.Registry.Check.{check_id_pwd, login_scan, name_scan, name_loop}
use uubang_iot.Registry.Check.Laws.{Login, accounts}
use uubang_iot.Registry.Online.{new_online_user_or_iot_dev, malloc_loop}
use uubang_iot.Registry.SignIn.{sign_in, sign_in_iot, iot_branches, sign_in_new, put_online}
use uubang_iot.Sql.{Session, returns, send_iot, next_seq_num}
use uubang_iot.Registration.{register}
use uubang_iot.Iot.{Conn, Device, Chance, send_op_back}
use uubang_iot.Rsa.{RsaKey}
use uubang_iot.Iot.Cases.{iot_talk}
use uubang_iot.Iot.Login.{case_reg_sign, with_login, sign_and_answer, sign_in_now, all_bytes}
use uubang_iot.Sql.Balance.{Balanced}
use uubang_iot.Iot.Balance.{Settling, iot_talk-Balanced}
use uubang_iot.Iot.Access.{login_of, iot_talk-Login}
use uubang_iot.Iot.Numbers.{iot_talk-IsNumbered}
use uubang_iot.Iot.Numbers.Rules.{IsNumbered}
use uubang_iot.Tests.Commands.{partner, lists, start, start-IsOpen, world, asker}

abbrev key : RsaKey
key = record { public_key = 1; private_key = 1; common_key = 1000; encrypt_block_bytes = 1 }

abbrev chance : Chance
chance = record { new_key = key; rand = λ k. 4; raw = asker.client }

-- The ints of the password stand behind the name.
abbrev registering : Device
registering = record {
  cln = record asker { client = record asker.client { checkcode = codes "03" } };
  key = key;
  signed_in = false;
  data_buffer = codes "iot1_" ++ all_bytes (codes "pw12345") ++ codes "_";
  conn = record {
    key = key;
    conn_pin = [];
    conn_signed_in = false;
    conn_user_id = [];
    conn_key_id = 0;
  };
}

abbrev account : UserNode
account = record partner { user_id = codes "iot1"; user_password = codes "pw12345" }

abbrev with_account : Session
with_account = record start {
  heads = record lists {
    registed_iot = record { nodes = account ∷ []; online_user_num = pos 1; freed = [] };
  };
}

abbrev sending : Device
sending = record registering {
  cln = record asker { client = record asker.client { checkcode = codes "04" } };
  signed_in = true;
  data_buffer = codes "0_1_";
}

sends_data : Settling (atoi sending.cln.client.checkcode)
unfolding atoi atoi_loop
sends_data = (
  λ e. absurd (omega (arith, e)),
  λ e. absurd (omega (arith, e)),
  λ e. absurd (omega (arith, e)),
  λ e. absurd (omega (arith, e)),
)

iot_talk-Balanced_example : Balanced world start ([], 0) (iot_talk chance sending world start)
iot_talk-Balanced_example =
    iot_talk-Balanced chance sending world start ([], 0) start-IsOpen refl sends_data

iot_talk-IsNumbered_example : IsNumbered start.log (iot_talk chance sending world start).1
iot_talk-IsNumbered_example = iot_talk-IsNumbered chance sending world start (omega arith)

abbrev signed_conn : Conn
signed_conn = record registering.conn {
  conn_signed_in = true;
  conn_user_id = codes "iot1";
  conn_key_id = 8;
}

registers :
    iot_talk chance registering world with_account
    ≡ (returns (pos 1, signed_conn), (iot_talk chance registering world with_account).1)
unfolding iot_talk case_reg_sign with_login sign_and_answer sign_in_now send_op_back register atoi
    atoi_loop str_split count_loop split_loop string_cut cut_loop decode_message decode_loop modpow
    modpow_loop unpack_loop check_id_pwd login_scan name_scan name_loop sign_in sign_in_iot
    iot_branches sign_in_new put_online new_online_user_or_iot_dev malloc_loop
    find_register_user_or_iot_node find_online_user_or_iot find_in find_node str_eq send_iot
    next_seq_num
registers = refl

iot_talk-Login_example : Any (Login (login_of registering).client) (
    accounts (login_of registering).client (iot_talk chance registering world with_account).1.heads)
iot_talk-Login_example =
    iot_talk-Login chance registering world with_account
      (iot_talk chance registering world with_account).1 (pos 1) signed_conn refl registers refl
