-- ===== src/Tests/Requests.antt =====
-- A request for a PIN, by a user whose key exists.
use uubang_iot.Base.{◌≡◌, [], ◌∷◌, true, false, arith, take}
use uubang_iot.Text.Hash.{djb_hash, djb_loop, opcode_of_hash}
use uubang_iot.Talk.{Request, Answers}
use uubang_iot.Talk.Handlers.{talk}
use uubang_iot.Talk.Release.{IsComplete, Released, talk-Released}

abbrev all_well : Answers
all_well = record {
  send_ok = λ c. true;
  signs_in = true;
  pin_matches = false;
  registers = true;
  changes_password = true;
  partner_found = true;
  self_found = true;
  device_found = true;
  key_found = λ k. true;
  device_online = true;
  friend_stored = true;
  friend_back_stored = true;
  iot_stored = true;
  scene_deleted = true;
  scene_stored = true;
}

abbrev pin_request : Request
pin_request = record {
  checkcode = b'P' ∷ b'I' ∷ b'N' ∷ [];
  signed_in = true;
  encrypt_block_bytes = 2;
  data_buffer = [];
}

pin_request-IsComplete :
    IsComplete all_well pin_request (opcode_of_hash (djb_hash (take 3 pin_request.checkcode) 3))
unfolding opcode_of_hash djb_hash djb_loop
pin_request-IsComplete = λ e. absurd (omega (arith, e))

talk-Released_example : Released (λ n. n ≡ 1) (talk all_well pin_request)
talk-Released_example = talk-Released all_well pin_request pin_request-IsComplete
