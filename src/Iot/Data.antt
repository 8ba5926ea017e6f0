-- ===== src/Iot/Data.antt =====
-- The requests of `IoTtalk` (src/IoT_Talk.c) that update and read what the database has of a device.
use uubang_iot.Base.{
  ℕ, zero, suc, ◌+◌, ◌/◌, ◌%◌, List, [], Bool, true, not, ltb, ◌==◌, if◌then◌else◌,
}
use uubang_iot.Base.Int.{ℤ, pos, negsuc}
use uubang_iot.Base.Bytes.{codes}
use uubang_iot.Text.Split.{Piece}
use uubang_iot.Talk.{atoi, field, c_text}
use uubang_iot.Sql.{Cln, Run, pure, ◌>>=◌, ◌>>◌}
use uubang_iot.Sql.Writes.{iot_update_status, iot_read_cmd, iot_delete_cmd}
use uubang_iot.Sql.Reads.{iot_get_iot_data, iot_read_self_scene_cmd, encrypted}
use uubang_iot.Iot.{Conn, Device, send_op_back, ends, answers, fields_of, decrypted}

abbrev pub is_true : ℤ → Bool
is_true (pos n) = not (n == 0)
is_true (negsuc n) = true

-- One pair of UPDATE DATA: `a` is the request, `class` and `value` the two fields.
unfoldable pub update_pair : Cln → List ℕ → List ℕ → Run (Unit {0})
unfolding send_op_back
update_pair a class value =
    let status = iot_update_status (record a { data_text = codes "status" }) 0 (atoi value) in
    let content = iot_update_status (record a { data_text = value }) (atoi class) 0 in
    let write = λ (m : Run ℤ). m >>= λ res.
    if is_true res then send_op_back (codes "04") [] else send_op_back (codes "24") [] in
    if atoi class == 0
    then write status
    else if atoi class == 1
    then write content
    else if atoi class == 3
    then write content
    else pure tt

-- The loop, on the pairs left.
unfoldable pub update_loop : Cln → List Piece → ℕ → ℕ → Run (Unit {0})
unfolding update_pair
update_loop a out_str zero i = pure tt
update_loop a out_str (suc pairs) i =
    update_pair a (field out_str i) (field out_str (i + 1)) >> update_loop a out_str pairs (i + 2)

-- 4: UPDATE DATA
unfoldable pub case_update : Device → Run (ℤ × Conn)
unfolding update_loop decrypted
case_update a =
    let (out_str_size, out_str) = fields_of (decrypted a) in
    if out_str_size % 2 == 0
    then update_loop a.cln out_str (out_str_size / 2) 0 >> ends a.conn (pos 1)
    else ends a.conn (pos 0)

-- 5: READ CMD
unfoldable pub case_read_cmd : Device → Run (ℤ × Conn)
unfolding send_op_back decrypted
case_read_cmd a =
    let (out_str_size, out_str) = fields_of (decrypted a) in
    let class = atoi (field out_str 0) in
    let b = record a.cln { data_text = c_text (decrypted a) } in
    if ltb out_str_size 1
    then ends a.conn (pos 1)
    else iot_read_cmd b class >>= λ res.
        if is_true res.0
        then iot_delete_cmd b class >> answers a.conn (codes "05") (encrypted res.1 res.1.data_text)
        else answers a.conn (codes "25") []

-- 6: READ SCENE CMD
unfoldable pub case_read_scene : Device → Run (ℤ × Conn)
case_read_scene a = iot_read_self_scene_cmd a.cln a.cln.client.userkey_id >> ends a.conn (pos 1)

unfoldable pub read_loop : Cln → List Piece → ℕ → ℕ → Run (Unit {0})
read_loop a out_str zero i = pure tt
read_loop a out_str (suc n) i =
    iot_get_iot_data a (atoi (field out_str i)) >> read_loop a out_str n (i + 1)

-- 7: READ IOT DATA; these fields are not encrypted.
unfoldable pub case_read_data : Device → Run (ℤ × Conn)
unfolding read_loop
case_read_data a =
    let (out_str_size, out_str) = fields_of a.data_buffer in
    read_loop a.cln out_str out_str_size 0 >> ends a.conn (pos 1)
