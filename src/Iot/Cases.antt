-- ===== src/Iot/Cases.antt =====
-- The switch of `IoTtalk` (src/IoT_Talk.c).
use uubang_iot.Base.{ℕ, ◌&&◌, not, ltb, ◌==◌, if◌then◌else◌}
use uubang_iot.Base.Int.{ℤ, pos}
use uubang_iot.Talk.{atoi}
use uubang_iot.Sql.{Run}
use uubang_iot.Iot.{Conn, Device, Chance, ends}
use uubang_iot.Iot.Login.{case_rsa, case_pin, case_reg_sign}
use uubang_iot.Iot.Data.{case_update, case_read_cmd, case_read_scene, case_read_data}
use uubang_iot.Iot.Relay.{case_send_cmd, case_store_cmd}

-- The codes that need a signed-in device.
unfoldable pub signed_in_case : Device → ℕ → Run (ℤ × Conn)
unfolding case_update case_read_cmd case_read_scene case_read_data case_send_cmd case_store_cmd
signed_in_case a code =
    if not a.signed_in
    then ends a.conn (pos 0)
    else if code == 4
    then case_update a
    else if code == 5
    then case_read_cmd a
    else if code == 6
    then case_read_scene a
    else if code == 7
    then case_read_data a
    else if code == 8
    then case_send_cmd a
    else case_store_cmd a

-- `IoTtalk`: the switch. The default does nothing.
unfoldable pub iot_talk : Chance → Device → Run (ℤ × Conn)
unfolding case_rsa case_pin case_reg_sign signed_in_case
iot_talk r a =
    let code = atoi a.cln.client.checkcode in
    if code == 1
    then case_rsa r a
    else if code == 2
    then case_pin r a
    else if code == 3
    then case_reg_sign r a
    else if ltb 3 code && ltb code 10
    then signed_in_case a code
    else ends a.conn (pos 1)
