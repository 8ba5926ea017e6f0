-- ===== src/Tests/Copies.antt =====
-- A user's packet of forty letters without a NUL, and a device's packet of twelve bytes.
use uubang_iot.Base.{ℕ, ◌-◌, ◌≡◌, refl, List, [], ◌∷◌, arith, replicate, take, drop}
use uubang_iot.Talk.{c_text}
use uubang_iot.Packets.{
  ClnArrays, user_arrays, copy_user_packet_interface2_cln, copy_rec_iot_data2_cln,
}
use uubang_iot.Packets.Terminated.{
  IsTerminated, Carries, copy_user_packet_interface2_cln-IsTerminated,
  copy_rec_iot_data2_cln-IsTerminated,
}

abbrev new_arrays : ClnArrays
new_arrays = record {
  cln_user_id = replicate 12 0;
  cln_user_password = replicate 33 0;
  cln_checkcode = replicate 18 0;
  cln_date = replicate 100 0;
  cln_talkto_id = replicate 12 0;
  cln_re_user_password = replicate 33 0;
  cln_data = replicate 513 0;
}

new_arrays-IsTerminated : IsTerminated new_arrays
new_arrays-IsTerminated = record {
  user_id = (refl, refl);
  user_password = (refl, refl);
  checkcode = (refl, refl);
  date = (refl, refl);
  talkto_id = (refl, refl);
  re_user_password = (refl, refl);
  data_text = (refl, refl);
}

abbrev letters : List ℕ
letters = replicate 721 b'A'

copy_user_packet_interface2_cln-IsTerminated_example :
    IsTerminated (copy_user_packet_interface2_cln (user_arrays 40 letters) new_arrays)
    × Carries
        (user_arrays 40 letters)
        (copy_user_packet_interface2_cln (user_arrays 40 letters) new_arrays)
copy_user_packet_interface2_cln-IsTerminated_example =
    copy_user_packet_interface2_cln-IsTerminated 40 letters new_arrays (omega arith) (omega arith)
      new_arrays-IsTerminated

abbrev device_packet : List ℕ
device_packet = b'0' ∷ b'4' ∷ b'x' ∷ 7 ∷ 0 ∷ b'1' ∷ b'_' ∷ b'2' ∷ b'5' ∷ b'_' ∷ 0 ∷ 9 ∷ []

copy_rec_iot_data2_cln-IsTerminated_example :
    let a' = copy_rec_iot_data2_cln device_packet new_arrays 12 in
    IsTerminated a'
    × (c_text a'.cln_checkcode ≡ c_text (take 2 device_packet))
    × (c_text a'.cln_data ≡ c_text (take (12 - 5) (drop 5 device_packet)))
copy_rec_iot_data2_cln-IsTerminated_example =
    copy_rec_iot_data2_cln-IsTerminated 12 device_packet new_arrays (omega arith) (omega arith)
      (omega arith) new_arrays-IsTerminated refl

device_text :
    c_text (take (12 - 5) (drop 5 device_packet)) ≡ (b'1' ∷ b'_' ∷ b'2' ∷ b'5' ∷ b'_' ∷ [])
device_text = refl
