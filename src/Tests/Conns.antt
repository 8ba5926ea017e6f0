-- ===== src/Tests/Conns.antt =====
-- A connection that is accepted, loses its peer, and is freed.
use uubang_iot.Base.{◌+◌, ℕ, ◌≡◌, refl, List, [], ◌∷◌, none, some, true, false, arith, Any, ◌⊎◌}
use uubang_iot.Base.Int.{pos}
use uubang_iot.Registry.{Client, UserList}
use uubang_iot.Connections.{Con2FreeArg, Connections, Arrival, new_link, free_conn_mem_wait4_free}
use uubang_iot.Connections.Counts.{Event, accept, ping, run_task, free_pass, handle_all, IsCounted}
use uubang_iot.Connections.Owned.{occurs, places, accepted_all}
use uubang_iot.Connections.Conserved.{handle_all-IsCounted}
use uubang_iot.Connections.Lifetime.{
  visits, visits-end, survivors, IsEnded, free_conn_mem_wait4_free_lem,
}

abbrev no_users : UserList
no_users = record { nodes = []; online_user_num = pos 0; freed = [] }

abbrev nobody : Client
nobody = record {
  socket = 0;
  addr = 0;
  user_id = [];
  userkey_id = 0;
  user_password = [];
  checkcode = [];
  info = [];
  conn = 0;
  conn_userkey_id = 0;
}

abbrev empty : Connections
empty = record {
  malloc_list = [];
  malloc_head_time = 0;
  pending = [];
  free_list = [];
  head_time = 0;
  free_link_locked = false;
  accept_client_num = 0;
  heads = record {
    online_user = no_users;
    online_iot = no_users;
    registed_user = no_users;
    registed_iot = no_users;
  };
  closed = [];
  freed = [];
  lost = [];
}

abbrev arrival : Arrival
arrival = record { connhandle = some 7; accept_ok = true; per_io_data = some 8; link_ok = true }

abbrev events : List Event
events =
    accept arrival
    ∷ ping (λ c. true) (λ c. false)
    ∷ ping (λ c. true) (λ c. false)
    ∷ run_task true
    ∷ free_pass (λ c. nobody) (λ c. 0)
    ∷ []

handle_all-IsCounted_example :
    IsCounted (handle_all events empty)
    × ((x : ℕ)
        → places x (handle_all events empty)
          ≡ places x empty + occurs x (accepted_all events empty))
handle_all-IsCounted_example = handle_all-IsCounted events empty (record {
  malloc_conns = tt;
  free_conns = tt;
  malloc_count = refl;
  free_count = refl;
  clients = refl;
  limit = omega arith;
  unlocked = refl;
})

abbrev gone : Con2FreeArg
gone = record { conn = 7; per_io_data = some 8 }

visits-end_example : visits (λ k. 3) 0 202 (some (new_link gone)) ≡ none
visits-end_example = visits-end (λ k. 3) 0 gone

abbrev leaving : Connections
leaving = record empty {
  free_list = record (new_link gone) { time = 1 } ∷ [];
  head_time = 1;
  accept_client_num = 1;
}

free_conn_mem_wait4_free_lem_example :
    ((free_conn_mem_wait4_free (λ c. nobody) (λ c. 0) leaving).free_list
      ≡ survivors (λ c. 0) leaving.free_list)
    × ((c : ℕ)
        → Any (λ x. x ≡ c) (free_conn_mem_wait4_free (λ c. nobody) (λ c. 0) leaving).closed
        → Any (λ x. x ≡ c) leaving.closed ⊎ Any (IsEnded (λ c. 0) c) leaving.free_list)
free_conn_mem_wait4_free_lem_example =
    free_conn_mem_wait4_free_lem (λ c. nobody) (λ c. 0) leaving refl
