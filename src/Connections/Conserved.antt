-- ===== src/Connections/Conserved.antt =====
-- No connection is counted twice or forgotten, whatever happens to the connections.
use uubang_iot.Base.{
  ℕ, ◌+◌, ◌≡◌, ◌<◌, refl, ap, ◌∙◌, sym, subst, List, [], ◌∷◌, ◌++◌, Option, none, some, Bool, true,
  false, arith, length, length-append, Bool-cases, inl, inr, All, All-append, dec_lt,
}
use uubang_iot.Registry.{Client}
use uubang_iot.Connections.{
  Con2FreeArg, Connections, max_clients, new_link, add_conn_mem_wait4_free, add_conn_mem_wait4_ping,
  Arrival, accept_client, ping_loop, ping_malloc_conn_list, free_loop, free_conn_mem_wait4_free,
}
use uubang_iot.Connections.Counts.{
  Event, accept, ping, run_task, free_pass, run_oldest, handle, handle_all, HasConn, IsCounted,
  Pinged, ping_loop-Pinged, FreePass, free_loop-FreePass,
}
use uubang_iot.Connections.Owned.{
  occurs, occurs-append, places, accepted, accepted_all, handle-places,
}

module _ (s : Connections) (ok : IsCounted s) where
  -- What is closed and freed does not count.
  freed-IsCounted :
      (closed freed : List ℕ) → IsCounted (record s { closed = closed; freed = freed })
  freed-IsCounted closed freed = record {
    malloc_conns = ok.malloc_conns;
    free_conns = ok.free_conns;
    malloc_count = ok.malloc_count;
    free_count = ok.free_count;
    clients = ok.clients;
    limit = ok.limit;
    unlocked = ok.unlocked;
  }

  listed-IsCounted :
      (c p : ℕ) (link_ok : Bool)
      → s.accept_client_num < max_clients
      → let s' =
          (add_conn_mem_wait4_ping
            (some (record { conn = c; per_io_data = some p }))
            link_ok
            s).1 in
        IsCounted (record s' { accept_client_num = s'.accept_client_num + 1 })
  unfolding add_conn_mem_wait4_ping
  listed-IsCounted c p true room = record {
    malloc_conns = All-append HasConn s.malloc_list _ ok.malloc_conns ((c, refl), tt);
    free_conns = ok.free_conns;
    malloc_count = omega (
      arith,
      ok.malloc_count,
      length-append s.malloc_list (new_link (record { conn = c; per_io_data = some p }) ∷ []),
    );
    free_count = ok.free_count;
    clients = omega (
      arith,
      ok.clients,
      length-append s.malloc_list (new_link (record { conn = c; per_io_data = some p }) ∷ []),
    );
    limit = omega arith;
    unlocked = ok.unlocked;
  }
  listed-IsCounted c p false room = record {
    malloc_conns = ok.malloc_conns;
    free_conns = ok.free_conns;
    malloc_count = ok.malloc_count;
    free_count = ok.free_count;
    clients = omega (arith, ok.clients);
    limit = omega arith;
    unlocked = ok.unlocked;
  }

  accept-IsCounted : (r : Arrival) → IsCounted (accept_client r s)
  unfolding accept_client
  accept-IsCounted r = memory r.connhandle refl
    where
      data_memory :
          (c : ℕ) (p : Option ℕ)
          → r.connhandle ≡ some c
          → r.per_io_data ≡ p
          → s.accept_client_num < max_clients
          → r.accept_ok ≡ true
          → IsCounted (accept_client r s)
      data_memory c none e e' room good =
          subst IsCounted (ground arith) (freed-IsCounted (c ∷ s.closed) (c ∷ s.freed))
      data_memory c (some p) e e' room good =
          subst IsCounted (ground arith) (listed-IsCounted c p r.link_ok room)

      memory : (c : Option ℕ) → r.connhandle ≡ c → IsCounted (accept_client r s)
      memory none e = subst IsCounted (ground arith) ok
      memory (some c) e = elim (dec_lt s.accept_client_num max_clients) [
        | no full ↦ subst IsCounted (ground arith) (freed-IsCounted s.closed (c ∷ s.freed))
        | yes room ↦ elim (Bool-cases r.accept_ok) [
          | inl good ↦ data_memory c r.per_io_data e refl room good
          | inr bad ↦ subst IsCounted (ground arith) (freed-IsCounted s.closed (c ∷ s.freed))
        ]
      ]

  ping-IsCounted :
      (try_lock send_ok : ℕ → Bool) → IsCounted (ping_malloc_conn_list try_lock send_ok s)
  unfolding ping_malloc_conn_list
  ping-IsCounted try_lock send_ok = record {
    malloc_conns = p.conns;
    free_conns = ok.free_conns;
    malloc_count = omega (arith, p.count, p.split, ok.malloc_count);
    free_count = ok.free_count;
    clients = omega (
      arith,
      p.split,
      ok.clients,
      length-append s.pending (ping_loop try_lock send_ok s.malloc_list s.malloc_head_time).1,
    );
    limit = ok.limit;
    unlocked = ok.unlocked;
  }
    where
      p :
          Pinged s.malloc_list s.malloc_head_time
            (ping_loop try_lock send_ok s.malloc_list s.malloc_head_time)
      p =
          ping_loop-Pinged try_lock send_ok s.malloc_list s.malloc_head_time ok.malloc_conns
            (omega (arith, ok.malloc_count))

  run-IsCounted :
      (malloc_ok : Bool) (pending : List Con2FreeArg)
      → s.pending ≡ pending
      → IsCounted (run_oldest malloc_ok s pending)
  unfolding run_oldest add_conn_mem_wait4_free
  run-IsCounted malloc_ok [] e = ok
  run-IsCounted true (arg ∷ args) e =
      subst IsCounted
        {x = record s {
          pending = args;
          free_list = s.free_list ++ (new_link arg ∷ []);
          head_time = s.head_time + 1;
        }}
        (ground (arith, ok.unlocked))
        (record {
          malloc_conns = ok.malloc_conns;
          free_conns = All-append HasConn s.free_list _ ok.free_conns ((arg.conn, refl), tt);
          malloc_count = ok.malloc_count;
          free_count = omega (arith, ok.free_count, length-append s.free_list (new_link arg ∷ []));
          clients =
              omega (arith, ok.clients, ap length e, length-append s.free_list (new_link arg ∷ []));
          limit = ok.limit;
          unlocked = ok.unlocked;
        })
  run-IsCounted false (arg ∷ args) e =
      subst IsCounted {x = record s { pending = args; lost = arg.conn ∷ s.lost }}
        (ground (arith, ok.unlocked))
        (record {
          malloc_conns = ok.malloc_conns;
          free_conns = ok.free_conns;
          malloc_count = ok.malloc_count;
          free_count = ok.free_count;
          clients = omega (arith, ok.clients, ap length e);
          limit = ok.limit;
          unlocked = ok.unlocked;
        })

  free-IsCounted :
      (client : ℕ → Client) (tasks : ℕ → ℕ) → IsCounted (free_conn_mem_wait4_free client tasks s)
  unfolding free_conn_mem_wait4_free
  free-IsCounted client tasks =
      subst IsCounted
        {x = record (free_loop client tasks s.free_list s).1 {
          free_list = (free_loop client tasks s.free_list s).0;
        }}
        (ground (arith, ok.unlocked))
        (record {
          malloc_conns = subst (All HasConn) (sym f.same_malloc) ok.malloc_conns;
          free_conns = f.conns;
          malloc_count = f.same_count ∙ (ok.malloc_count ∙ ap length (sym f.same_malloc));
          free_count = omega (arith, f.heads, ok.free_count);
          clients = omega (
            arith,
            f.clients,
            ok.clients,
            ap length f.same_malloc,
            ap length f.same_pending,
            ap length f.same_lost,
          );
          limit = omega (arith, f.clients, f.heads, ok.free_count, ok.limit, f.fewer);
          unlocked = f.same_lock ∙ ok.unlocked;
        })
    where
      f : FreePass s.free_list s (free_loop client tasks s.free_list s)
      f =
          free_loop-FreePass client tasks s.free_list s ok.free_conns (omega (arith, ok.clients))
            (omega (arith, ok.free_count))

handle-IsCounted : (e : Event) (s : Connections) → IsCounted s → IsCounted (handle e s)
unfolding handle
handle-IsCounted (accept r) s ok = accept-IsCounted s ok r
handle-IsCounted (ping try_lock send_ok) s ok = ping-IsCounted s ok try_lock send_ok
handle-IsCounted (run_task malloc_ok) s ok = run-IsCounted s ok malloc_ok s.pending refl
handle-IsCounted (free_pass client tasks) s ok = free-IsCounted s ok client tasks

-- From a state where it is so, such as the empty one, whatever happens to the connections, in any
-- order, each call and each pass as a whole, keeps this: the heads count their lists, every link has
-- its connection, the number of clients is that of the links, tasks and lost connections, and the limit of
-- 10000 holds. No connection is forgotten or doubled: each address is in the list that is pinged, in a
-- task on its way, in the list that waits to be freed, among those that a failed allocation lost, or
-- among the closed ones, together as often as at the start and as it was accepted since.
pub handle_all-IsCounted :
    (es : List Event) (s : Connections)
    → IsCounted s
    → IsCounted (handle_all es s)
      × ((x : ℕ) → places x (handle_all es s) ≡ places x s + occurs x (accepted_all es s))
unfolding handle_all
handle_all-IsCounted [] s ok = (ok, λ x. omega arith)
handle_all-IsCounted (e ∷ es) s ok =
    let rest = handle_all-IsCounted es (handle e s) (handle-IsCounted e s ok) in
    (
      rest.0,
      λ x. omega (
        arith,
        rest.1 x,
        handle-places x e s ok,
        occurs-append x (accepted e s) (accepted_all es (handle e s)),
      ),
    )
