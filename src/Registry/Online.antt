-- ===== src/Registry/Online.antt =====
-- `newOnlineUserOrIotDev` (src/NewOnlineUserOrIotDev.c), `AddtoLocal` (src/AddtoLcoal.c) and
-- `delete_out_user` (src/Delete_outlineUser.c). `malloc k` is what the k-th call of `malloc`
-- returns, counted from 0: an address, or `none` for NULL.
pub mod Delete
pub mod Add
use uubang_iot.Base.{
  ℕ, zero, suc, ◌+◌, List, [], ◌∷◌, ◌++◌, Option, none, some, Bool, true, false, ◌&&◌, ◌==◌, ltb,
  leb, if◌then◌else◌, length,
}
use uubang_iot.Base.Int.{ℤ, pos, negsuc, ◌+ℤ◌, ◌-ℤ◌}
use uubang_iot.Registry.{Client, UserNode, UserList, Heads, has_id, is_iot_id}

-- The `do … while (newuser == NULL && n < 100)` loop after n calls: the last result and the new n.
unfoldable pub malloc_loop : (ℕ → Option ℕ) → ℕ → ℕ → Option ℕ × ℕ
malloc_loop malloc zero n = (none, n)
malloc_loop malloc (suc rounds) n = elim (malloc n) [
  | some p ↦ (some p, n + 1)
  | none ↦ elim (ltb (n + 1) 100) [
    | true ↦ malloc_loop malloc rounds (n + 1)
    | false ↦ (none, n + 1)
  ]
]

abbrev pub online_node : Client → ℕ → UserNode
online_node a p = record {
  self = p;
  user_socket = a.socket;
  user_addr = a.addr;
  user_id = a.user_id;
  userkey_id = a.userkey_id;
  user_password = a.user_password;
  info = a.info;
  conn_handle = a.conn;
}

-- `AddtoLocal` leaves the fields that it does not name 0 (`memset`).
abbrev pub local_node : Client → ℕ → List ℕ → UserNode
local_node a p info = record {
  self = p;
  user_socket = 0;
  user_addr = 0;
  user_id = a.user_id;
  userkey_id = a.userkey_id;
  user_password = a.user_password;
  info = info;
  conn_handle = 0;
}

-- A node in front, and the counter.
abbrev pub push_front : UserNode → UserList → UserList
push_front u l = record l { nodes = u ∷ l.nodes; online_user_num = l.online_user_num +ℤ pos 1 }

unfoldable pub new_online_user_or_iot_dev : (ℕ → Option ℕ) → Client → Heads → ℤ × Heads
unfolding malloc_loop
new_online_user_or_iot_dev malloc a h =
    let (newuser, n) = malloc_loop malloc 100 0 in
    if ltb 99 n then (negsuc 0, h) else elim newuser [
      | none ↦ (negsuc 0, h)
      | some p ↦
          if is_iot_id a.user_id
          then (pos 1, record h { online_iot = push_front (online_node a p) h.online_iot })
          else (pos 1, record h { online_user = push_front (online_node a p) h.online_user })
    ]

-- `sprintf(newuser->info, "%s_%s_", a->checkcode, a->info)`
abbrev pub iot_info : Client → List ℕ
iot_info a = a.checkcode ++ (b'_' ∷ (a.info ++ (b'_' ∷ [])))

-- `memset` runs on the result of the first `malloc` before it is tested: `none` is that fault.
unfoldable pub addto_local : (ℕ → Option ℕ) → Client → Heads → Option (ℤ × Heads)
addto_local malloc a h = elim (malloc 0) [
  | none ↦ none
  | some p ↦
      if is_iot_id a.user_id
      then some (
        pos 1,
        record h { registed_iot = push_front (local_node a p (iot_info a)) h.registed_iot },
      )
      else some
          (pos 1, record h { registed_user = push_front (local_node a p a.info) h.registed_user })
]

abbrev pub is_session : Client → UserNode → Bool
is_session a u = has_id a.user_id u && a.socket == u.user_socket

-- `free(Tag->next)`: `Tag->next` is by now the node after the deleted one, or NULL.
abbrev pub free_next : List UserNode → List ℕ → List ℕ
free_next [] freed = freed
free_next (u ∷ us) freed = u.self ∷ freed

-- The walk over `Tag->next`: the nodes behind `Tag` without the one found, and what is freed.
unfoldable pub delete_next : Client → List UserNode → List ℕ → Option (List UserNode × List ℕ)
delete_next a [] freed = none
delete_next a (u ∷ us) freed =
    let rest = delete_next a us freed in
    if is_session a u
    then some (us, free_next us freed)
    else elim rest [ none ↦ none | some (vs, f) ↦ some (u ∷ vs, f) ]

unfoldable pub delete_walk : Client → List UserNode → List ℕ → Option (List UserNode × List ℕ)
unfolding delete_next
delete_walk a [] freed = none
delete_walk a (tag ∷ us) freed =
    if is_session a tag
    then some (us, tag.self ∷ freed)
    else elim (delete_next a us freed) [ none ↦ none | some (vs, f) ↦ some (tag ∷ vs, f) ]

unfoldable pub delete_from : Client → UserList → ℤ × UserList
unfolding delete_walk
delete_from a l = elim (delete_walk a l.nodes l.freed) [
  | none ↦ (pos 0, l)
  | some (nodes, freed) ↦
      (pos 1, record { nodes = nodes; online_user_num = l.online_user_num -ℤ pos 1; freed = freed })
]

abbrev delete_online_user : Client → Heads → ℤ × Heads
delete_online_user a h =
    let (r, l) = delete_from a h.online_user in (r, record h { online_user = l })

abbrev delete_online_iot : Client → Heads → ℤ × Heads
delete_online_iot a h = let (r, l) = delete_from a h.online_iot in (r, record h { online_iot = l })

unfoldable pub delete_out_user : Client → Heads → ℤ × Heads
unfolding delete_from
delete_out_user a h =
    if ltb (length a.user_id) 6
    then (pos 0, h)
    else if leb 11 (length a.user_id)
    then delete_online_user a h
    else delete_online_iot a h
