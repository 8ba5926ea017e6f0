-- ===== src/Talk/Release.antt =====
-- What a request leaves behind: the counter of its connection and its memory.
use uubang_iot.Base.{
  ℕ, ◌≡◌, ◌≢◌, ◌≤◌, refl, List, [], ◌∷◌, Bool, true, false, arith, ltb, ◌==◌, length, get_or, not,
  if◌then◌else◌, ◌⊎◌, take,
}
use uubang_iot.Text.Hash.{Opcode, opcode_of_hash, djb_hash}
use uubang_iot.Text.Split.{Piece, str_split}
use uubang_iot.Talk.{
  Flow, Request, Answers, atoi, field, c_text, finish, breaks, leaves, crashes, task_done,
  free_node,
}
use uubang_iot.Talk.Handlers.{
  handle_rsa, handle_hba, handle_pin, handle_sia, handle_rea, handle_sce, handle_taa, handle_sto,
  handle_add, handle_ads, handle_icm, handle_dsc, handle_ioc, handle_rpa, store_scene, scene_fields,
  replace_scene, handle, talk, scene_buffer, dsc_fields,
}
use uubang_iot.Talk.Ends.{
  times_done, times_freed, Ends, Ends-reply, Ends-did, Ends-two, times-append, Ends-and_then,
  Ends-if, Ends-cond,
}

-- A request that is complete, by its case: the others return before they release anything.
abbrev pub IsComplete : Answers → Request → Opcode → Type 0
IsComplete w a Opcode.pin = a.encrypt_block_bytes ≢ 0
IsComplete w a Opcode.sce = 7 ≤ (str_split (scene_buffer a) 200 b'-').0
IsComplete w a Opcode.icm =
    (2 ≤ (str_split a.data_buffer (length (c_text a.data_buffer)) b'_').0)
    × ((w.device_online ≡ true) ⊎ (w.device_found ≡ true))
IsComplete w a Opcode.dsc =
    ((if ltb (str_split a.data_buffer 200 b'~').0 2 then 6 else 3) ≤ (dsc_fields a).0)
    × (w.key_found (atoi (field (dsc_fields a).1 0)) ≡ true)
IsComplete w a Opcode.hba = Unit
IsComplete w a Opcode.rsa = Unit
IsComplete w a Opcode.sib = Unit
IsComplete w a Opcode.sia = Unit
IsComplete w a Opcode.rea = Unit
IsComplete w a Opcode.rme = Unit
IsComplete w a Opcode.iot = Unit
IsComplete w a Opcode.taa = Unit
IsComplete w a Opcode.sto = Unit
IsComplete w a Opcode.upd = Unit
IsComplete w a Opcode.add = Unit
IsComplete w a Opcode.ads = Unit
IsComplete w a Opcode.ioc = Unit
IsComplete w a Opcode.rco = Unit
IsComplete w a Opcode.rpa = Unit
IsComplete w a Opcode.other = Unit

Ends-store_scene :
    (w : Answers) (dev dev_class : ℕ) (time days : List ℕ)
    → Ends 1 (store_scene w dev dev_class time days)
unfolding store_scene
Ends-store_scene w dev dev_class time days =
    Ends-if 1 (dev == 0) _ _ (refl, refl) (Ends-if 1 (w.key_found dev) _ _ (refl, refl) tt)

Ends-scene_fields :
    (w : Answers) (fields : ℕ × List Piece) (dates : List Piece) (date_size : ℕ)
    → 7 ≤ fields.0
    → Ends 1 (scene_fields w fields date_size dates)
unfolding scene_fields
Ends-scene_fields w fields dates date_size enough =
    Ends-cond 1 (ltb fields.0 7) _ _ (λ e. absurd (ground arith))
      λ e.
        Ends-if 1 (not w.device_found) _ _ tt (
          Ends-if 1 (ltb date_size 2) _ _ (Ends-store_scene w _ _ _ _) (Ends-store_scene w _ _ _ _))

Ends-replace_scene :
    (w : Answers) (dev_class : ℕ) (time days failed stored : List ℕ)
    → Ends 1 (replace_scene w dev_class time days failed stored)
unfolding replace_scene
Ends-replace_scene w dev_class time days failed stored =
    Ends-if 1 (not w.scene_deleted) _ _ (Ends-did 1 _ _ (Ends-reply w _))
      (Ends-two 1 _ _ _ (Ends-reply w _))

Ends-handle : (w : Answers) (a : Request) (op : Opcode) → IsComplete w a op → Ends 1 (handle w a op)
unfolding handle handle_rsa handle_hba handle_pin handle_sia handle_rea handle_sce handle_taa
    handle_sto handle_add handle_ads handle_icm handle_dsc handle_ioc handle_rpa
Ends-handle w a Opcode.hba h =
    Ends-and_then 1 _ _ (Ends-reply w _) (Ends-two 1 _ _ _ (Ends-reply w _))
Ends-handle w a Opcode.rsa h = Ends-two 1 _ _ _ (Ends-reply w _)
Ends-handle w a Opcode.pin h =
    Ends-cond 1 (a.encrypt_block_bytes == 0) _ _ (λ e. absurd (ground (arith, e, h)))
      λ e.
        Ends-if 1 a.signed_in _ _ (Ends-did 1 _ _ (Ends-reply w _))
          (Ends-two 1 _ _ _ (Ends-reply w _))
Ends-handle w a Opcode.sib h = Ends-did 1 _ _ (Ends-reply w _)
Ends-handle w a Opcode.sia h = Ends-did 1 _ _ (Ends-reply w _)
Ends-handle w a Opcode.rea h = Ends-did 1 _ _ (
    Ends-and_then 1 _ _ (Ends-if 1 w.pin_matches _ _ (refl, refl) (Ends-reply w _))
      (Ends-did 1 _ _ (Ends-reply w _)))
Ends-handle w a Opcode.rme h = (refl, refl)
Ends-handle w a Opcode.sce h =
    Ends-if 1 (ltb (str_split a.data_buffer 200 b'~').0 2) _ _ (Ends-scene_fields w fields [] 0 h)
      (Ends-scene_fields w fields dates.1 dates.0 h)
  where
    fields : ℕ × List Piece
    fields = str_split (scene_buffer a) 200 b'-'

    date : List ℕ
    date = field (str_split a.data_buffer 200 b'~').1 1

    dates : ℕ × List Piece
    dates = str_split date (length date) b'_'
Ends-handle w a Opcode.iot h = (refl, refl)
Ends-handle w a Opcode.taa h =
    Ends-if 1 w.partner_found _ _ (Ends-did 1 _ _ (Ends-reply w _)) (refl, refl)
Ends-handle w a Opcode.sto h = Ends-and_then 1 _ _ (Ends-reply w _) (refl, refl)
Ends-handle w a Opcode.upd h = (refl, refl)
Ends-handle w a Opcode.add h =
    Ends-did 1 _ _ (Ends-if 1 w.partner_found _ _ (Ends-did 1 _ _ (Ends-reply w _)) (refl, refl))
Ends-handle w a Opcode.ads h = Ends-if 1 (not w.partner_found) _ _ tt (
    Ends-if 1 (not w.friend_stored) _ _ (Ends-did 1 _ _ (Ends-reply w _))
      (Ends-if 1 (not w.self_found) _ _ tt (Ends-two 1 _ _ _ (Ends-reply w _))))
Ends-handle w a Opcode.icm h =
    Ends-cond 1 (ltb (str_split a.data_buffer (length (c_text a.data_buffer)) b'_').0 2) _ _
      (λ e. absurd (ground (arith, h.0)))
      λ e.
        Ends-cond 1 w.device_online _ _ (λ e. (refl, refl))
          λ off.
            Ends-cond 1 w.device_found _ _ (λ e. (refl, refl))
              λ unknown. absurd (ground (arith, h.1))
Ends-handle w a Opcode.dsc h =
    Ends-cond 1 (ltb (dsc_fields a).0 (if ltb (str_split a.data_buffer 200 b'~').0 2 then 6 else 3))
      _ _ (λ e. absurd (ground (arith, h.0)))
      λ e.
        Ends-cond 1 (not (w.key_found (atoi (field (dsc_fields a).1 0)))) _ _
          (λ e. absurd (ground (arith, h.1)))
          λ e.
            Ends-if 1 (ltb (str_split a.data_buffer 200 b'~').0 2) _ _
              (Ends-replace_scene w _ _ _ _ _) (Ends-replace_scene w _ _ _ _ _)
Ends-handle w a Opcode.ioc h = Ends-did 1 _ _ (Ends-reply w _)
Ends-handle w a Opcode.rco h = (refl, refl)
Ends-handle w a Opcode.rpa h = Ends-two 1 _ _ _ (Ends-reply w _)
Ends-handle w a Opcode.other h = Ends-reply w _

-- The number of releases when a run returns; a run may also end in a read through NULL.
abbrev pub Released : (ℕ → Type 0) → Flow → Type 0
Released P (breaks xs) = ⊥
Released P (leaves xs) = (times_done xs ≡ times_freed xs) × P (times_freed xs)
Released P (crashes xs) = Unit

Released-finish : (f : Flow) → Ends 1 f → Released (λ n. n ≡ 1) (finish f)
Released-finish (breaks xs) h = (
  omega (arith, h, times-append xs (task_done ∷ free_node ∷ [])),
  omega (arith, h, times-append xs (task_done ∷ free_node ∷ [])),
)
Released-finish (leaves xs) h = (omega (arith, h), h.1)
Released-finish (crashes xs) h = tt

-- `talk` takes a complete request off the counter of its connection once and frees it once, on
-- every path by which it returns, whatever its calls answer. Not complete are: a request for a PIN
-- before there is a key; a scene or a device command with too few fields; and one for a device
-- that is not known.
pub talk-Released :
    (w : Answers) (a : Request)
    → IsComplete w a (opcode_of_hash (djb_hash (take 3 a.checkcode) 3))
    → Released (λ n. n ≡ 1) (talk w a)
unfolding talk
talk-Released w a h =
    Released-if (get_or a.checkcode 0 0 == b't') _ _ (refl, refl)
      (Released-if (ltb (length a.checkcode) 3) _ _ (refl, refl)
        (Released-finish _ (Ends-handle w a _ h)))
  where
    Released-if :
        (b : Bool) (f g : Flow)
        → Released (λ n. n ≡ 1) f
        → Released (λ n. n ≡ 1) g
        → Released (λ n. n ≡ 1) (if b then f else g)
    Released-if true f g h k = h
    Released-if false f g h k = k
