-- ===== src/Connections/Counts.antt =====
-- The counters of the connections: each accepted connection is in one list, and there is a limit.
use uubang_iot.Base.{
  ℕ, ◌+◌, ◌-◌, ◌≡◌, ◌≤◌, ◌<◌, refl, subst, List, [], ◌∷◌, Option, none, some, Bool, false, arith,
  length, Bool-cases, ltb, inl, inr, All,
}
use uubang_iot.Registry.{Client}
use uubang_iot.Connections.{
  ClnLink, Con2FreeArg, Connections, max_clients, max_ping_time, add_conn_mem_wait4_free, Arrival,
  accept_client, pinged, ping_loop, ping_malloc_conn_list, is_due, aged, reap, free_loop,
  free_conn_mem_wait4_free,
}

-- What happens to the connections: the accepting thread, the timer's two passes, and the thread
-- pool, which runs the oldest of the tasks handed to it.
pub data Event : Type 0 where
  accept : Arrival → Event
  ping : (ℕ → Bool) → (ℕ → Bool) → Event
  run_task : Bool → Event
  free_pass : (ℕ → Client) → (ℕ → ℕ) → Event

-- The state after a call; a call that waits for the mutex changes nothing.
abbrev pub after_call : Connections → Option (ℕ × Connections) → Connections
after_call s none = s
after_call s (some (_, s')) = s'

unfoldable pub run_oldest : Bool → Connections → List Con2FreeArg → Connections
unfolding add_conn_mem_wait4_free
run_oldest malloc_ok s [] = s
run_oldest malloc_ok s (arg ∷ args) =
    after_call s (add_conn_mem_wait4_free (some arg) malloc_ok (record s { pending = args }))

unfoldable pub handle : Event → Connections → Connections
unfolding accept_client ping_malloc_conn_list run_oldest free_conn_mem_wait4_free
handle (accept r) s = accept_client r s
handle (ping try_lock send_ok) s = ping_malloc_conn_list try_lock send_ok s
handle (run_task malloc_ok) s = run_oldest malloc_ok s s.pending
handle (free_pass client tasks) s = free_conn_mem_wait4_free client tasks s

unfoldable pub handle_all : List Event → Connections → Connections
unfolding handle
handle_all [] s = s
handle_all (e ∷ es) s = handle_all es (handle e s)

abbrev pub HasConn : ClnLink → Type 0
HasConn l = (c : ℕ) × (l.connhandle ≡ some c)

-- Each accepted connection is counted once: it is pinged, on its way, waits to be freed, or lost.
pub record IsCounted (s : Connections) : Type 0 where
  pub malloc_conns : All HasConn s.malloc_list
  pub free_conns : All HasConn s.free_list
  pub malloc_count : s.malloc_head_time ≡ length s.malloc_list
  pub free_count : s.head_time ≡ length s.free_list
  pub clients :
      s.accept_client_num
      ≡ length s.malloc_list + length s.pending + length s.free_list + length s.lost
  pub limit : s.accept_client_num ≤ max_clients
  pub unlocked : s.free_link_locked ≡ false

-- The loop of `PingMallocConnList`, from a counter that is at least the length of the list.
pub record Pinged (ls : List ClnLink) (n : ℕ) (r : List ClnLink × List Con2FreeArg × ℕ)
    : Type 0 where
  pub conns : All HasConn r.0
  pub split : length r.0 + length r.1 ≡ length ls
  pub count : r.2 + length r.1 ≡ n

module _ (try_lock send_ok : ℕ → Bool) where
  pub pinged_conn :
      (l : ClnLink) (c : ℕ)
      → l.connhandle ≡ some c
      → (pinged try_lock send_ok c l).connhandle ≡ some c
  pinged_conn l c e = ground (arith, e)

  ping_one :
      (l : ClnLink) (ls : List ClnLink) (n c : ℕ)
      → l.connhandle ≡ some c
      → length ls < n
      → Pinged ls n (ping_loop try_lock send_ok ls n)
      → Pinged ls (n - 1) (ping_loop try_lock send_ok ls (n - 1))
      → Pinged (l ∷ ls) n (ping_loop try_lock send_ok (l ∷ ls) n)
  unfolding ping_loop
  ping_one l ls n c e room stays goes =
      elim (Bool-cases (ltb max_ping_time (pinged try_lock send_ok c l).time)) [
        | inl late ↦ record {
          conns =
              subst (All HasConn) {x = (ping_loop try_lock send_ok ls (n - 1)).0} (ground arith)
                goes.conns;
          split = ground (arith, goes.split);
          count = ground (arith, goes.count);
        }
        | inr early ↦ record {
          conns =
              subst (All HasConn)
                {x = pinged try_lock send_ok c l ∷ (ping_loop try_lock send_ok ls n).0}
                (ground arith) ((c, pinged_conn l c e), stays.conns);
          split = ground (arith, stays.split);
          count = ground (arith, stays.count);
        }
      ]

  pub ping_loop-Pinged :
      (ls : List ClnLink) (n : ℕ)
      → All HasConn ls
      → length ls ≤ n
      → Pinged ls n (ping_loop try_lock send_ok ls n)
  unfolding ping_loop
  ping_loop-Pinged [] n h room = record { conns = tt; split = refl; count = omega arith }
  ping_loop-Pinged (l ∷ ls) n ((c, e), h) room =
      ping_one l ls n c e (omega arith) (ping_loop-Pinged ls n h (omega arith))
        (ping_loop-Pinged ls (n - 1) h (omega arith))

pub aged_conn :
    (tasks c : ℕ) (l : ClnLink) → l.connhandle ≡ some c → (aged tasks l).connhandle ≡ some c
aged_conn tasks c l e = ground (arith, e)

-- The loop of `freeConnMemWait4Free`, from counters that are at least the length of the list.
pub record FreePass (ls : List ClnLink) (s : Connections) (r : List ClnLink × Connections)
    : Type 0 where
  pub conns : All HasConn r.0
  pub fewer : length r.0 ≤ length ls
  pub clients : r.1.accept_client_num + length ls ≡ s.accept_client_num + length r.0
  pub heads : r.1.head_time + length ls ≡ s.head_time + length r.0
  pub same_malloc : r.1.malloc_list ≡ s.malloc_list
  pub same_count : r.1.malloc_head_time ≡ s.malloc_head_time
  pub same_pending : r.1.pending ≡ s.pending
  pub same_lost : r.1.lost ≡ s.lost
  pub same_lock : r.1.free_link_locked ≡ s.free_link_locked

module _ (client : ℕ → Client) (tasks : ℕ → ℕ) where
  free_one :
      (l : ClnLink) (ls : List ClnLink) (s : Connections) (c : ℕ)
      → l.connhandle ≡ some c
      → length ls < s.accept_client_num
      → length ls < s.head_time
      → FreePass ls s (free_loop client tasks ls s)
      → FreePass ls (reap client c l s) (free_loop client tasks ls (reap client c l s))
      → FreePass (l ∷ ls) s (free_loop client tasks (l ∷ ls) s)
  unfolding free_loop
  free_one l ls s c e room room' stays goes = elim (Bool-cases (is_due (tasks c) l)) [
    | inl due ↦
        subst (FreePass (l ∷ ls) s) {x = free_loop client tasks ls (reap client c l s)}
          (ground (arith, e, due))
          (record {
            conns = goes.conns;
            fewer = omega (arith, goes.fewer);
            clients = omega (arith, goes.clients);
            heads = omega (arith, goes.heads);
            same_malloc = goes.same_malloc;
            same_count = goes.same_count;
            same_pending = goes.same_pending;
            same_lost = goes.same_lost;
            same_lock = goes.same_lock;
          })
    | inr early ↦
        subst (FreePass (l ∷ ls) s)
          {x = (
            aged (tasks c) l ∷ (free_loop client tasks ls s).0,
            (free_loop client tasks ls s).1,
          )}
          (ground (arith, e, early))
          (record {
            conns = ((c, aged_conn (tasks c) c l e), stays.conns);
            fewer = omega (arith, stays.fewer);
            clients = omega (arith, stays.clients);
            heads = omega (arith, stays.heads);
            same_malloc = stays.same_malloc;
            same_count = stays.same_count;
            same_pending = stays.same_pending;
            same_lost = stays.same_lost;
            same_lock = stays.same_lock;
          })
  ]

  pub free_loop-FreePass :
      (ls : List ClnLink) (s : Connections)
      → All HasConn ls
      → length ls ≤ s.accept_client_num
      → length ls ≤ s.head_time
      → FreePass ls s (free_loop client tasks ls s)
  unfolding free_loop
  free_loop-FreePass [] s h room room' = record {
    conns = tt;
    fewer = omega arith;
    clients = refl;
    heads = refl;
    same_malloc = refl;
    same_count = refl;
    same_pending = refl;
    same_lost = refl;
    same_lock = refl;
  }
  free_loop-FreePass (l ∷ ls) s ((c, e), h) room room' =
      free_one l ls s c e (omega arith) (omega arith)
        (free_loop-FreePass ls s h (omega arith) (omega arith))
        (free_loop-FreePass ls (reap client c l s) h (omega arith) (omega arith))
