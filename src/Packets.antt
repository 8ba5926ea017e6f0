-- ===== src/Packets.antt =====
-- The packets that are received and their copies into a request: `CopyUserPacketInterface2Cln`
-- (src/CopyCln2Sendbag.c), `CopyRecIotData2Cln` (src/CopyIotData.c) and the lines of
-- src/ServerWorkThread.c that fill their arguments. Arrays of `char` are lists of their bytes.
pub mod Strings
pub mod Terminated
use uubang_iot.Base.{ℕ, ◌+◌, ◌-◌, List, [], ◌∷◌, ◌++◌, take, drop, set, replicate}
use uubang_iot.Talk.{c_text, overwrite}

-- The arrays of `UserPacketInterface`
pub record UserArrays : Type 0 where
  pub checkcode : List ℕ
  pub user_id : List ℕ
  pub user_password : List ℕ
  pub talkto_id : List ℕ
  pub re_user_password : List ℕ
  pub data_text : List ℕ
  pub save : List ℕ

-- The arrays of `IotPacketInterface`
pub record IotArrays : Type 0 where
  pub op_code : List ℕ
  pub seq_num : List ℕ
  pub pay_load : List ℕ

-- The arrays of `CLN` that a packet is copied to.
pub record ClnArrays : Type 0 where
  pub cln_user_id : List ℕ
  pub cln_user_password : List ℕ
  pub cln_checkcode : List ℕ
  pub cln_date : List ℕ
  pub cln_talkto_id : List ℕ
  pub cln_re_user_password : List ℕ
  pub cln_data : List ℕ

-- `n` bytes of the memory of a structure, from `offset` on.
abbrev pub array_at : List ℕ → ℕ → ℕ → List ℕ
array_at bytes offset n = take n (drop offset bytes)

-- A structure of `size` bytes that is set to 0, with the first `len` bytes of a buffer copied over it.
abbrev pub memory : ℕ → ℕ → List ℕ → List ℕ
memory size len buffer = take len buffer ++ replicate (size - len) 0

-- `RecBuff`
unfoldable pub user_arrays : ℕ → List ℕ → UserArrays
user_arrays len buffer =
    let bytes = memory 721 len buffer in
    record {
      checkcode = array_at bytes 0 18;
      user_id = array_at bytes 18 12;
      user_password = array_at bytes 30 33;
      talkto_id = array_at bytes 63 12;
      re_user_password = array_at bytes 75 33;
      data_text = array_at bytes 108 513;
      save = array_at bytes 621 100;
    }

-- `temp`
unfoldable pub iot_arrays : ℕ → List ℕ → IotArrays
iot_arrays len buffer =
    let bytes = memory 205 len buffer in
    record {
      op_code = array_at bytes 0 3;
      seq_num = array_at bytes 3 2;
      pay_load = array_at bytes 5 200;
    }

-- `source[n] = '\0'; memcpy(target, source, n)`: the NUL itself is not copied.
unfoldable pub copy_array : ℕ → List ℕ → List ℕ → List ℕ
copy_array n source target = take n (set source n 0) ++ drop n target

-- `CopyUserPacketInterface2Cln`
unfoldable pub copy_user_packet_interface2_cln : UserArrays → ClnArrays → ClnArrays
unfolding copy_array
copy_user_packet_interface2_cln packet a = record {
  cln_checkcode = copy_array 17 packet.checkcode a.cln_checkcode;
  cln_data = copy_array 512 packet.data_text a.cln_data;
  cln_user_password = copy_array 32 packet.user_password a.cln_user_password;
  cln_user_id = copy_array 11 packet.user_id a.cln_user_id;
  cln_re_user_password = copy_array 32 packet.re_user_password a.cln_re_user_password;
  cln_talkto_id = copy_array 11 packet.talkto_id a.cln_talkto_id;
  cln_date = copy_array 99 packet.save a.cln_date;
}

-- `CopyRecIotData2Cln`
unfoldable pub copy_rec_iot_data2_cln : List ℕ → ClnArrays → ℕ → ClnArrays
unfolding iot_arrays
copy_rec_iot_data2_cln rec_buff conn len =
    let temp = iot_arrays len rec_buff in
    record conn {
      cln_checkcode = overwrite conn.cln_checkcode (c_text (set temp.op_code 2 0));
      cln_date = overwrite conn.cln_date (c_text (set temp.seq_num 1 0));
      cln_data = take (len - 5) temp.pay_load ++ drop (len - 5) conn.cln_data;
    }
