-- ===== src/Packets/Terminated.antt =====
-- A request's arrays stay C strings when a packet is copied into them, whatever the packet holds.
use uubang_iot.Base.{
  ℕ, ◌+◌, ◌-◌, ◌≡◌, ◌≤◌, ◌<◌, ap, ◌∙◌, List, [], ◌++◌, arith, length, take, drop, set, replicate,
  length-take, length-drop, length-set,
}
use uubang_iot.Talk.{c_text}
use uubang_iot.Packets.{
  UserArrays, ClnArrays, array_at, memory, user_arrays, iot_arrays, copy_user_packet_interface2_cln,
  copy_rec_iot_data2_cln,
}
use uubang_iot.Packets.Strings.{
  IsString, c_text-copy_array, c_text-overwrite, c_text-zero, c_text-zeros, copy-IsString,
  copy_array-IsString, drop-append, drop-replicate, length-array_at, length-c_text, length-memory,
  overwrite-IsString, set-take, take-append, take-take-append,
}

pub record IsTerminated (a : ClnArrays) : Type 0 where
  pub user_id : IsString 11 a.cln_user_id
  pub user_password : IsString 32 a.cln_user_password
  pub checkcode : IsString 17 a.cln_checkcode
  pub date : IsString 99 a.cln_date
  pub talkto_id : IsString 11 a.cln_talkto_id
  pub re_user_password : IsString 32 a.cln_re_user_password
  pub data_text : IsString 512 a.cln_data

-- Each text is that of its array in the packet, without the last byte.
abbrev pub Carries : UserArrays → ClnArrays → Type 0
Carries p a =
    (c_text a.cln_user_id ≡ c_text (take 11 p.user_id))
    × (c_text a.cln_user_password ≡ c_text (take 32 p.user_password))
    × (c_text a.cln_checkcode ≡ c_text (take 17 p.checkcode))
    × (c_text a.cln_date ≡ c_text (take 99 p.save))
    × (c_text a.cln_talkto_id ≡ c_text (take 11 p.talkto_id))
    × (c_text a.cln_re_user_password ≡ c_text (take 32 p.re_user_password))
    × (c_text a.cln_data ≡ c_text (take 512 p.data_text))

-- A user's packet of any length that the server reads (sized most 721 bytes), whatever its bytes are, leaves
-- each text of the request ended by a NUL inside its array, if that was so before, and each text is that
-- of the packet's array without the last byte: what is longer is cut.
pub copy_user_packet_interface2_cln-IsTerminated :
    (len : ℕ) (buffer : List ℕ) (a : ClnArrays)
    → len ≤ length buffer
    → len ≤ 721
    → IsTerminated a
    → IsTerminated (copy_user_packet_interface2_cln (user_arrays len buffer) a)
      × Carries
          (user_arrays len buffer)
          (copy_user_packet_interface2_cln (user_arrays len buffer) a)
unfolding copy_user_packet_interface2_cln user_arrays
copy_user_packet_interface2_cln-IsTerminated len buffer a h g t = (
  record {
    user_id = copy_array-IsString 11 _ _ (sized 18 12 (omega arith)) t.user_id;
    user_password = copy_array-IsString 32 _ _ (sized 30 33 (omega arith)) t.user_password;
    checkcode = copy_array-IsString 17 _ _ (sized 0 18 (omega arith)) t.checkcode;
    date = copy_array-IsString 99 _ _ (sized 621 100 (omega arith)) t.date;
    talkto_id = copy_array-IsString 11 _ _ (sized 63 12 (omega arith)) t.talkto_id;
    re_user_password = copy_array-IsString 32 _ _ (sized 75 33 (omega arith)) t.re_user_password;
    data_text = copy_array-IsString 512 _ _ (sized 108 513 (omega arith)) t.data_text;
  },
  (
    c_text-copy_array 11 _ _ (sized 18 12 (omega arith)) t.user_id,
    c_text-copy_array 32 _ _ (sized 30 33 (omega arith)) t.user_password,
    c_text-copy_array 17 _ _ (sized 0 18 (omega arith)) t.checkcode,
    c_text-copy_array 99 _ _ (sized 621 100 (omega arith)) t.date,
    c_text-copy_array 11 _ _ (sized 63 12 (omega arith)) t.talkto_id,
    c_text-copy_array 32 _ _ (sized 75 33 (omega arith)) t.re_user_password,
    c_text-copy_array 512 _ _ (sized 108 513 (omega arith)) t.data_text,
  ),
)
  where
    sized :
        (offset n : ℕ) → offset + n ≤ 721 → length (array_at (memory 721 len buffer) offset n) ≡ n
    sized offset n inside =
        length-array_at (memory 721 len buffer) offset n
          (omega (arith, inside, length-memory 721 len buffer h g))

-- What `temp` gets from a device's packet: the operation and the text behind the five bytes of its head.
module _ (len : ℕ) (buffer : List ℕ) (h : len ≤ length buffer) (low : 5 ≤ len)
    (high : len ≤ 205) where
  iot_bytes : List ℕ
  iot_bytes = memory 205 len buffer

  op_code-text : c_text (set (iot_arrays len buffer).op_code 2 0) ≡ c_text (take 2 buffer)
  unfolding iot_arrays iot_bytes
  op_code-text =
      ap c_text (set-take 2 iot_bytes (omega (arith, length-memory 205 len buffer h high)))
      ∙ (c_text-zero (take 2 iot_bytes) []
          ∙ ap c_text (take-append 2 len buffer (replicate (205 - len) 0) (omega arith) h))

  pay_load-text : take (len - 5) (iot_arrays len buffer).pay_load ≡ take (len - 5) (drop 5 buffer)
  unfolding iot_arrays iot_bytes
  pay_load-text =
      ap (λ xs. take (len - 5) (take 200 xs))
        (drop-append 5 len buffer (replicate (205 - len) 0) low h)
      ∙ take-take-append (len - 5) 200 (drop 5 buffer) (replicate (205 - len) 0)
          (omega (arith, length-drop 5 buffer)) (omega arith)

-- A device's packet, which has 11 to 205 bytes, leaves each text of the request ended by a NUL inside its
-- array, whatever its bytes are. The code of the request is then the operation, the first two bytes, and,
-- where `data` was all 0 as in a new connection, its text is what the packet has behind its five bytes of
-- head.
pub copy_rec_iot_data2_cln-IsTerminated :
    (len : ℕ) (buffer : List ℕ) (a : ClnArrays)
    → len ≤ length buffer
    → 10 < len
    → len ≤ 205
    → IsTerminated a
    → a.cln_data ≡ replicate 513 0
    → let a' = copy_rec_iot_data2_cln buffer a len in
      IsTerminated a'
      × (c_text a'.cln_checkcode ≡ c_text (take 2 buffer))
      × (c_text a'.cln_data ≡ c_text (take (len - 5) (drop 5 buffer)))
unfolding copy_rec_iot_data2_cln iot_arrays
copy_rec_iot_data2_cln-IsTerminated len buffer a h low high t new = (
  record {
    user_id = t.user_id;
    user_password = t.user_password;
    checkcode = overwrite-IsString 17 _ _ t.checkcode op_short;
    date = overwrite-IsString 99 _ _ t.date seq_short;
    talkto_id = t.talkto_id;
    re_user_password = t.re_user_password;
    data_text =
        copy-IsString 512 (len - 5) (take (len - 5) text) a.cln_data text_size (omega arith)
          t.data_text;
  },
  c_text-overwrite (set op 2 0) _ ∙ op_code-text len buffer h (omega arith) high,
  ap (λ d. c_text (take (len - 5) text ++ drop (len - 5) d)) new
      ∙ (ap (λ z. c_text (take (len - 5) text ++ z)) (drop-replicate (len - 5) 513)
          ∙ (c_text-zeros (take (len - 5) text) (513 - (len - 5))
              ∙ ap c_text (pay_load-text len buffer h (omega arith) high))),
)
  where
    op : List ℕ
    op = (iot_arrays len buffer).op_code

    seq : List ℕ
    seq = (iot_arrays len buffer).seq_num

    text : List ℕ
    text = (iot_arrays len buffer).pay_load

    array :
        (offset n : ℕ) → offset + n ≤ 205 → length (array_at (memory 205 len buffer) offset n) ≡ n
    array offset n inside =
        length-array_at (memory 205 len buffer) offset n
          (omega (arith, inside, length-memory 205 len buffer h high))

    op_short : length (c_text (set op 2 0)) ≤ 17
    op_short = omega (arith, length-c_text (set op 2 0), length-set op 2 0, array 0 3 (omega arith))

    seq_short : length (c_text (set seq 1 0)) ≤ 99
    seq_short =
        omega (arith, length-c_text (set seq 1 0), length-set seq 1 0, array 3 2 (omega arith))

    text_size : length (take (len - 5) text) ≡ len - 5
    text_size = omega (arith, length-take (len - 5) text, array 5 200 (omega arith))
