-- ===== src/Talk/Handlers.antt =====
-- The cases of the switch of `talk`.
use uubang_iot.Base.{ℕ, List, [], ◌∷◌, ltb, ◌==◌, length, get_or, not, if◌then◌else◌, take}
use uubang_iot.Text.Hash.{Opcode, opcode_of_hash, djb_hash}
use uubang_iot.Text.Split.{Piece, str_split}
use uubang_iot.Talk.{
  Call, Flow, Request, Answers, prefix, and_then, reply, atoi, field, c_text, overwrite, finish,
  breaks, leaves, crashes, did, send, task_done, free_node,
}

-- Codes that are not the request's own.
abbrev default_time : List ℕ
default_time = b'0' ∷ b'0' ∷ b':' ∷ b'0' ∷ b'0' ∷ b':' ∷ b'0' ∷ b'0' ∷ []

abbrev default_days : List ℕ
default_days = b'1' ∷ b'1' ∷ b'1' ∷ b'1' ∷ b'1' ∷ b'1' ∷ b'1' ∷ []

abbrev pub code : ℕ → ℕ → ℕ → List ℕ
code a b c = a ∷ b ∷ c ∷ []

unfoldable pub handle_rsa : Answers → Flow
unfolding reply
handle_rsa w = prefix (did Call.init_rsa ∷ did Call.init_rsa ∷ []) (reply w (code b'R' b'S' b'A'))

-- HBA has no `break`.
unfoldable pub handle_hba : Answers → Flow
unfolding reply handle_rsa
handle_hba w = and_then (reply w (code b'H' b'B' b'A')) (handle_rsa w)

unfoldable pub handle_pin : Answers → Request → Flow
unfolding reply
handle_pin w a =
    if a.encrypt_block_bytes == 0
    then leaves []
    else if a.signed_in
    then prefix (did Call.generate_pin ∷ []) (reply w (code b'P' b'I' b'N'))
    else prefix (did Call.generate_pin ∷ did Call.email_pin ∷ []) (reply w (code b'P' b'I' b'N'))

unfoldable pub handle_sia : Answers → Flow
unfolding reply
handle_sia w =
    prefix (did Call.sign_in ∷ [])
      (reply w (if w.signs_in then code b'S' b'I' b'A' else code b'S' b'i' b'A'))

-- A wrong PIN is answered, and then the registration goes on.
unfoldable pub handle_rea : Answers → Flow
unfolding reply
handle_rea w = prefix (did Call.update_local_lists ∷ []) (
    and_then (if w.pin_matches then breaks [] else reply w (code b'R' b'P' b'E')) (
      prefix (did Call.register ∷ [])
        (reply w (if w.registers then code b'R' b'E' b'A' else code b'R' b'e' b'A'))))

-- What both branches of SCE store: the user's scene, and the scene of the device with key `dev`.
unfoldable pub store_scene : Answers → ℕ → ℕ → List ℕ → List ℕ → Flow
store_scene w dev dev_class time days =
    if dev == 0
    then breaks (did (Call.new_user_scene_cmd_store 99 time days) ∷ [])
    else if w.key_found dev
    then breaks (
        did Call.user_delete_sce
        ∷ did (Call.new_user_scene_cmd_store dev_class time days)
        ∷ did (Call.new_user_scene_cmd_store 99 time days)
        ∷ [])
    else crashes (did Call.user_delete_sce ∷ [])

-- The fields of a scene, split at '-'. The number of fields of the date is what the code tests.
unfoldable pub scene_fields : Answers → ℕ × List Piece → ℕ → List Piece → Flow
unfolding store_scene
scene_fields w (out_str_size, out_str) date_size date_fields =
    if ltb out_str_size 7
    then leaves []
    else if not w.device_found
    then crashes []
    else if ltb date_size 2
    then store_scene w (atoi (field out_str 0)) (atoi (field out_str 1)) default_time default_days
    else store_scene w (atoi (field out_str 0)) (atoi (field out_str 1)) (field date_fields 0)
        (field date_fields 1)

-- The scene text of SCE and DSC: what stands before a '~' is written over the buffer first.
abbrev pub scene_buffer : Request → List ℕ
scene_buffer a =
    let parts = str_split a.data_buffer 200 b'~' in
    if ltb parts.0 2 then a.data_buffer else overwrite a.data_buffer (field parts.1 0)

-- Without a '~' the number of the date's fields is stored in `OutStrSize`, and `OutStrSize1`, which is
-- tested, stays 0.
unfoldable pub handle_sce : Answers → Request → Flow
unfolding scene_fields
handle_sce w a =
    let parts = str_split a.data_buffer 200 b'~' in
    if ltb parts.0 2
    then scene_fields w (str_split (scene_buffer a) 200 b'-') 0 []
    else let date = field parts.1 1 in
      let dates = str_split date (length date) b'_' in
      scene_fields w (str_split (scene_buffer a) 200 b'-') dates.0 dates.1

unfoldable pub handle_taa : Answers → Flow
unfolding reply
handle_taa w =
    if w.partner_found
    then prefix (did Call.new_user_msg_storage ∷ []) (reply w (code b'T' b'A' b'N'))
    else leaves (task_done ∷ free_node ∷ [])

unfoldable pub handle_sto : Answers → Flow
unfolding reply
handle_sto w = and_then (reply w (code b'S' b'T' b'O')) (breaks (did Call.delete_out_user ∷ []))

unfoldable pub handle_add : Answers → Flow
unfolding reply
handle_add w = prefix (did Call.update_local_lists ∷ []) (
    if w.partner_found
    then prefix (did Call.new_user_msg_storage ∷ []) (reply w (code b'A' b'D' b'N'))
    else leaves (task_done ∷ free_node ∷ []))

-- The two lookups are read without a test; the second is made only if the first friend is stored.
unfoldable pub handle_ads : Answers → Flow
unfolding reply
handle_ads w =
    if not w.partner_found
    then crashes []
    else if not w.friend_stored
    then prefix (did Call.new_user_friend ∷ []) (reply w (code b'A' b'D' b'S'))
    else if not w.self_found
    then crashes (did Call.new_user_friend ∷ [])
    else prefix (did Call.new_user_friend ∷ did Call.new_user_friend ∷ [])
        (reply w (if w.friend_back_stored then code b'A' b'D' b'N' else code b'A' b'D' b'S'))

unfoldable pub handle_icm : Answers → Request → Flow
handle_icm w a =
    if ltb (str_split a.data_buffer (length (c_text a.data_buffer)) b'_').0 2
    then leaves []
    else if w.device_online
    then breaks (did Call.send_to_iot ∷ [])
    else if w.device_found
    then breaks (did Call.send_via_top_server ∷ [])
    else leaves []

-- The end of both branches of DSC, by the code for each outcome.
unfoldable pub replace_scene : Answers → ℕ → List ℕ → List ℕ → List ℕ → List ℕ → Flow
unfolding reply
replace_scene w dev_class time days failed stored =
    if not w.scene_deleted
    then prefix (did Call.user_delete_sce ∷ []) (reply w failed)
    else prefix
        (did Call.user_delete_sce ∷ did (Call.new_user_scene_cmd_store dev_class time days) ∷ [])
        (reply w (if w.scene_stored then stored else failed))

-- The fields of DSC, within the text of the buffer.
abbrev pub dsc_fields : Request → ℕ × List Piece
dsc_fields a = str_split (scene_buffer a) (length (c_text (scene_buffer a))) b'-'

unfoldable pub handle_dsc : Answers → Request → Flow
unfolding replace_scene
handle_dsc w a =
    let parts = str_split a.data_buffer 200 b'~' in
    let fields = dsc_fields a in
    let date = field parts.1 1 in
    let dates = str_split date (length date) b'_' in
    let dev_class = atoi (field fields.1 1) in
    if ltb fields.0 (if ltb parts.0 2 then 6 else 3)
    then leaves []
    else if not (w.key_found (atoi (field fields.1 0)))
    then leaves []
    else if ltb parts.0 2
    then replace_scene w dev_class default_time default_days (code b'D' b'S' b'C')
        (code b'D' b'S' b'c')
    else replace_scene w dev_class (field dates.1 0) (field dates.1 1) (code b'D' b'S' b'c')
        (code b'D' b'S' b'C')

unfoldable pub handle_ioc : Answers → Flow
unfolding reply
handle_ioc w =
    prefix (did Call.new_user_iot ∷ [])
      (reply w (if w.iot_stored then code b'I' b'O' b'C' else code b'i' b'o' b'c'))

unfoldable pub handle_rpa : Answers → Flow
unfolding reply
handle_rpa w =
    prefix (did Call.update_local_lists ∷ did Call.user_re_pwd ∷ [])
      (reply w (if w.changes_password then code b'R' b'P' b'A' else code b'R' b'P' b'F'))

-- The switch.
unfoldable pub handle : Answers → Request → Opcode → Flow
unfolding reply handle_rsa handle_hba handle_pin handle_sia handle_rea handle_sce handle_taa
    handle_sto handle_add handle_ads handle_icm handle_dsc handle_ioc handle_rpa
handle w a Opcode.hba = handle_hba w
handle w a Opcode.rsa = handle_rsa w
handle w a Opcode.pin = handle_pin w a
handle w a Opcode.sib = handle_sia w
handle w a Opcode.sia = handle_sia w
handle w a Opcode.rea = handle_rea w
handle w a Opcode.rme = breaks []
handle w a Opcode.sce = handle_sce w a
handle w a Opcode.iot = breaks (did Call.user_get_iot_data ∷ [])
handle w a Opcode.taa = handle_taa w
handle w a Opcode.sto = handle_sto w
handle w a Opcode.upd = breaks (send (code b'U' b'P' b'D') ∷ [])
handle w a Opcode.add = handle_add w
handle w a Opcode.ads = handle_ads w
handle w a Opcode.icm = handle_icm w a
handle w a Opcode.dsc = handle_dsc w a
handle w a Opcode.ioc = handle_ioc w
handle w a Opcode.rco = breaks (did Call.user_req_friend_rel ∷ did Call.user_req_iot_rel ∷ [])
handle w a Opcode.rpa = handle_rpa w
handle w a Opcode.other = reply w (code b'E' b'R' b'R')

-- `talk`, with a request that is not NULL.
unfoldable pub talk : Answers → Request → Flow
unfolding handle
talk w a =
    if get_or a.checkcode 0 0 == b't'
    then leaves (send (b'T' ∷ b'E' ∷ b'S' ∷ b'T' ∷ []) ∷ task_done ∷ free_node ∷ [])
    else if ltb (length a.checkcode) 3
    then leaves (did Call.iot_talk ∷ task_done ∷ free_node ∷ [])
    else finish (handle w a (opcode_of_hash (djb_hash (take 3 a.checkcode) 3)))
