-- ===== src/Connections.antt =====
-- The life of a connection: `AcceptClient` (src/AcceptClient.c), the list that is pinged and the list
-- that waits to be freed (src/FreeOutConnMem.c). Pointers are addresses. `info[2]` of a connection,
-- the number of its requests in work, comes by its address.
pub mod Lifetime
pub mod Counts
pub mod Owned
pub mod Conserved
use uubang_iot.Base.{
  ℕ, zero, suc, ◌+◌, ◌-◌, List, [], ◌∷◌, ◌++◌, Option, none, some, Bool, true, false, ◌&&◌, ◌||◌,
  not, ◌==◌, ltb, leb, if◌then◌else◌,
}
use uubang_iot.Registry.{Client, Heads}
use uubang_iot.Registry.Online.{delete_out_user}

-- `CLN_LINK`
pub record ClnLink : Type 0 where
  pub connhandle : Option ℕ
  pub periodata : Option ℕ
  pub time : ℕ
  pub left_time : ℕ

-- `Con2FreeArg`
pub record Con2FreeArg : Type 0 where
  pub conn : ℕ
  pub per_io_data : Option ℕ

-- The two lists with the counters in their heads, the tasks handed to the thread pool that still
-- have to run, and what was closed and freed, latest first. `free_link_locked` is the mutex
-- `Con2FreeLink_mutex`; `lost` are connections that no list holds any more.
pub record Connections : Type 0 where
  pub malloc_list : List ClnLink
  pub malloc_head_time : ℕ
  pub pending : List Con2FreeArg
  pub free_list : List ClnLink
  pub head_time : ℕ
  pub free_link_locked : Bool
  pub accept_client_num : ℕ
  pub heads : Heads
  pub closed : List ℕ
  pub freed : List ℕ
  pub lost : List ℕ

abbrev pub max_ping_time : ℕ
max_ping_time = 1

abbrev pub max_clients : ℕ
max_clients = 10000

abbrev pub new_link : Con2FreeArg → ClnLink
new_link arg = record {
  connhandle = some arg.conn;
  periodata = arg.per_io_data;
  time = 0;
  left_time = 0;
}

-- `addConnMemWait4Free`, with its task argument and whether `malloc` succeeds; none where it
-- waits for the mutex. Without a task it returns and keeps the mutex.
unfoldable pub add_conn_mem_wait4_free :
    Option Con2FreeArg → Bool → Connections → Option (ℕ × Connections)
add_conn_mem_wait4_free ptask malloc_ok s = if s.free_link_locked then none else elim ptask [
  | none ↦ some (0, record s { free_link_locked = true })
  | some arg ↦
      if malloc_ok
      then some (
        1,
        record s { free_list = s.free_list ++ (new_link arg ∷ []); head_time = s.head_time + 1 },
      )
      else some (0, record s { lost = arg.conn ∷ s.lost })
]

-- `addConnMemWait4Ping`
unfoldable pub add_conn_mem_wait4_ping : Option Con2FreeArg → Bool → Connections → ℕ × Connections
add_conn_mem_wait4_ping none malloc_ok s = (0, s)
add_conn_mem_wait4_ping (some arg) malloc_ok s =
    if malloc_ok
    then (
      1,
      record s {
        malloc_list = s.malloc_list ++ (new_link arg ∷ []);
        malloc_head_time = s.malloc_head_time + 1;
      },
    )
    else (0, record s { lost = arg.conn ∷ s.lost })

-- What one round of `AcceptClient` gets from the system.
pub record Arrival : Type 0 where
  -- the connection's memory
  pub connhandle : Option ℕ
  pub accept_ok : Bool
  pub per_io_data : Option ℕ
  -- the memory of the list node
  pub link_ok : Bool

-- A round of the loop of `AcceptClient`, with `Add2MallocConnList`. A socket is named by its connection. The
-- memory of its `Con2FreeArg` is taken to be there, and the counter, which has no mutex, changes at once.
unfoldable pub accept_client : Arrival → Connections → Connections
unfolding add_conn_mem_wait4_ping
accept_client r s = elim r.connhandle [
  | none ↦ s
  | some c ↦
      if leb max_clients s.accept_client_num
      then record s { freed = c ∷ s.freed }
      else if not r.accept_ok
      then record s { freed = c ∷ s.freed }
      else elim r.per_io_data [
        | none ↦ record s { closed = c ∷ s.closed; freed = c ∷ s.freed }
        | some p ↦
            let listed =
              (add_conn_mem_wait4_ping (some (record { conn = c; per_io_data = some p })) r.link_ok
                s).1 in
            record listed { accept_client_num = listed.accept_client_num + 1 }
      ]
]

-- One link of `PingMallocConnList`: `try_lock` and `send_ok` by the connection's address.
abbrev pub pinged : (ℕ → Bool) → (ℕ → Bool) → ℕ → ClnLink → ClnLink
pinged try_lock send_ok c l =
    if try_lock c && not (send_ok c) then record l { time = l.time + 1 } else l

-- The loop: the links that stay, the tasks for the thread pool in order, and the new counter.
unfoldable pub ping_loop :
    (ℕ → Bool) → (ℕ → Bool) → List ClnLink → ℕ → List ClnLink × List Con2FreeArg × ℕ
ping_loop try_lock send_ok [] n = ([], [], n)
ping_loop try_lock send_ok (l ∷ ls) n = elim l.connhandle [
  | none ↦ ping_loop try_lock send_ok ls n
  | some c ↦
      let l' = pinged try_lock send_ok c l in
      elim (ltb max_ping_time l'.time) [
        | true ↦
            let (kept, out, n') = ping_loop try_lock send_ok ls (n - 1) in
            (kept, record { conn = c; per_io_data = l.periodata } ∷ out, n')
        | false ↦ let (kept, out, n') = ping_loop try_lock send_ok ls n in (l' ∷ kept, out, n')
      ]
]

-- `PingMallocConnList`
unfoldable pub ping_malloc_conn_list : (ℕ → Bool) → (ℕ → Bool) → Connections → Connections
unfolding ping_loop
ping_malloc_conn_list try_lock send_ok s =
    let (kept, out, n) = ping_loop try_lock send_ok s.malloc_list s.malloc_head_time in
    record s { malloc_list = kept; malloc_head_time = n; pending = s.pending ++ out }

-- The test of `freeConnMemWait4Free`, for a connection with that many requests in work.
abbrev pub is_due : ℕ → ClnLink → Bool
is_due tasks l = (l.time == 1 && tasks == 0) || leb 100 l.left_time

-- A link that is not due.
abbrev pub aged : ℕ → ClnLink → ClnLink
aged tasks l =
    if not (tasks == 0)
    then record l { time = 0; left_time = l.left_time + 1 }
    else record l { time = l.time + 1 }

abbrev pub free_periodata : Option ℕ → List ℕ → List ℕ
free_periodata none freed = freed
free_periodata (some p) freed = p ∷ freed

-- The end of a connection: its session, its socket, its memory, and the counters.
abbrev pub reap : (ℕ → Client) → ℕ → ClnLink → Connections → Connections
reap client c l s = record s {
  heads = (delete_out_user (client c) s.heads).1;
  closed = c ∷ s.closed;
  freed = free_periodata l.periodata (c ∷ s.freed);
  accept_client_num = s.accept_client_num - 1;
  head_time = s.head_time - 1;
}

-- The loop of `freeConnMemWait4Free`: the links that stay, and the rest of the state.
unfoldable pub free_loop :
    (ℕ → Client) → (ℕ → ℕ) → List ClnLink → Connections → List ClnLink × Connections
free_loop client tasks [] s = ([], s)
free_loop client tasks (l ∷ ls) s = elim l.connhandle [
  | none ↦ free_loop client tasks ls s
  | some c ↦ elim (is_due (tasks c) l) [
    | true ↦ free_loop client tasks ls (reap client c l s)
    | false ↦ let (kept, s') = free_loop client tasks ls s in (aged (tasks c) l ∷ kept, s')
  ]
]

-- `freeConnMemWait4Free`: it gives up when another thread has the mutex.
unfoldable pub free_conn_mem_wait4_free : (ℕ → Client) → (ℕ → ℕ) → Connections → Connections
unfolding free_loop
free_conn_mem_wait4_free client tasks s =
    if s.free_link_locked
    then s
    else let (kept, s') = free_loop client tasks s.free_list s in record s' { free_list = kept }
