-- ===== src/Connections/Owned.antt =====
-- Which connections there are: each that was accepted is in one place, by its address.
use uubang_iot.Base.{
  ℕ, ◌+◌, ◌-◌, ◌≡◌, refl, ap, ◌∙◌, sym, List, [], ◌∷◌, ◌++◌, Option, none, some, Bool, true, false,
  not, ◌&&◌, arith, ◌==◌, ltb, leb, if◌then◌else◌, Bool-cases, inl, inr, subst, ◌<◌, dec_lt,
}
use uubang_iot.Registry.{Client}
use uubang_iot.Connections.{
  ClnLink, Con2FreeArg, Connections, max_clients, max_ping_time, new_link, add_conn_mem_wait4_free,
  add_conn_mem_wait4_ping, Arrival, accept_client, pinged, ping_loop, ping_malloc_conn_list, is_due,
  aged, reap, free_loop, free_conn_mem_wait4_free,
}
use uubang_iot.Connections.Counts.{
  Event, accept, ping, run_task, free_pass, run_oldest, handle, IsCounted, FreePass,
  free_loop-FreePass, pinged_conn, aged_conn,
}

-- How often an address is in a list.
abbrev pub occurs : ℕ → List ℕ → ℕ
occurs x [] = 0
occurs x (y ∷ ys) = (if x == y then 1 else 0) + occurs x ys

pub occurs-append : (x : ℕ) (ys zs : List ℕ) → occurs x (ys ++ zs) ≡ occurs x ys + occurs x zs
occurs-append x [] zs = omega arith
occurs-append x (y ∷ ys) zs = omega (arith, occurs-append x ys zs)

abbrev pub one_of : ℕ → Option ℕ → ℕ
one_of x none = 0
one_of x (some c) = if x == c then 1 else 0

-- How often a connection is in a list of links, and in the tasks.
abbrev pub in_links : ℕ → List ClnLink → ℕ
in_links x [] = 0
in_links x (l ∷ ls) = one_of x l.connhandle + in_links x ls

abbrev pub in_tasks : ℕ → List Con2FreeArg → ℕ
in_tasks x [] = 0
in_tasks x (t ∷ ts) = (if x == t.conn then 1 else 0) + in_tasks x ts

in_links-append :
    (x : ℕ) (ls ks : List ClnLink) → in_links x (ls ++ ks) ≡ in_links x ls + in_links x ks
in_links-append x [] ks = omega arith
in_links-append x (l ∷ ls) ks = omega (arith, in_links-append x ls ks)

in_tasks-append :
    (x : ℕ) (ts us : List Con2FreeArg) → in_tasks x (ts ++ us) ≡ in_tasks x ts + in_tasks x us
in_tasks-append x [] us = omega arith
in_tasks-append x (t ∷ ts) us = omega (arith, in_tasks-append x ts us)

-- The places where a connection can be: pinged, on its way, waiting to be freed, lost, or closed.
abbrev pub places : ℕ → Connections → ℕ
places x s =
    in_links x s.malloc_list
    + in_tasks x s.pending
    + in_links x s.free_list
    + occurs x s.lost
    + occurs x s.closed

-- The connection that `accept` gives in a round, if it gives one.
abbrev pub accepted : Event → Connections → List ℕ
accepted (accept r) s = new_of r.connhandle
  where
    new_of : Option ℕ → List ℕ
    new_of none = []
    new_of (some c) =
        if not (leb max_clients s.accept_client_num) && r.accept_ok then c ∷ [] else []
accepted (ping try_lock send_ok) s = []
accepted (run_task malloc_ok) s = []
accepted (free_pass client tasks) s = []

abbrev pub accepted_all : List Event → Connections → List ℕ
accepted_all [] s = []
accepted_all (e ∷ es) s = accepted e s ++ accepted_all es (handle e s)

module _ (try_lock send_ok : ℕ → Bool) (x : ℕ) where
  ping_link-in_links :
      (l : ClnLink) (ls : List ClnLink) (n : ℕ) (o : Option ℕ)
      → l.connhandle ≡ o
      → ((m : ℕ)
          → let r = ping_loop try_lock send_ok ls m in
            in_links x r.0 + in_tasks x r.1 ≡ in_links x ls)
      → let r = ping_loop try_lock send_ok (l ∷ ls) n in
        in_links x r.0 + in_tasks x r.1 ≡ in_links x (l ∷ ls)
  unfolding ping_loop
  ping_link-in_links l ls n none e rest = rw e (omega (arith, rest n))
  ping_link-in_links l ls n (some c) e rest =
      elim (Bool-cases (ltb max_ping_time (pinged try_lock send_ok c l).time)) [
        | inl late ↦
            subst
              (λ (r : List ClnLink × List Con2FreeArg × ℕ).
                in_links x r.0 + in_tasks x r.1 ≡ in_links x (l ∷ ls))
              {x = (
                (ping_loop try_lock send_ok ls (n - 1)).0,
                record { conn = c; per_io_data = l.periodata }
                    ∷ (ping_loop try_lock send_ok ls (n - 1)).1,
                (ping_loop try_lock send_ok ls (n - 1)).2,
              )}
              {y = ping_loop try_lock send_ok (l ∷ ls) n} (ground (arith, e, late))
              (omega (arith, rest (n - 1), ap (one_of x) e))
        | inr early ↦
            subst
              (λ (r : List ClnLink × List Con2FreeArg × ℕ).
                in_links x r.0 + in_tasks x r.1 ≡ in_links x (l ∷ ls))
              {x = (
                pinged try_lock send_ok c l ∷ (ping_loop try_lock send_ok ls n).0,
                (ping_loop try_lock send_ok ls n).1,
                (ping_loop try_lock send_ok ls n).2,
              )}
              {y = ping_loop try_lock send_ok (l ∷ ls) n} (ground (arith, e, early))
              (omega (
                arith,
                rest n,
                ap (one_of x) e,
                ap (one_of x) (pinged_conn try_lock send_ok l c e),
              ))
      ]

  ping_loop-in_links :
      (ls : List ClnLink) (n : ℕ)
      → let r = ping_loop try_lock send_ok ls n in in_links x r.0 + in_tasks x r.1 ≡ in_links x ls
  unfolding ping_loop
  ping_loop-in_links [] n = omega arith
  ping_loop-in_links (l ∷ ls) n =
      ping_link-in_links l ls n l.connhandle refl (ping_loop-in_links ls)

module _ (client : ℕ → Client) (tasks : ℕ → ℕ) (x : ℕ) where
  free_link-in_links :
      (l : ClnLink) (ls : List ClnLink) (s : Connections) (o : Option ℕ)
      → l.connhandle ≡ o
      → ((s' : Connections)
          → let r = free_loop client tasks ls s' in
            in_links x r.0 + occurs x r.1.closed ≡ in_links x ls + occurs x s'.closed)
      → let r = free_loop client tasks (l ∷ ls) s in
        in_links x r.0 + occurs x r.1.closed ≡ in_links x (l ∷ ls) + occurs x s.closed
  unfolding free_loop
  free_link-in_links l ls s none e rest = rw e (omega (arith, rest s))
  free_link-in_links l ls s (some c) e rest = elim (Bool-cases (is_due (tasks c) l)) [
    | inl due ↦
        subst
          (λ (r : List ClnLink × Connections).
            in_links x r.0 + occurs x r.1.closed ≡ in_links x (l ∷ ls) + occurs x s.closed)
          {x = free_loop client tasks ls (reap client c l s)}
          {y = free_loop client tasks (l ∷ ls) s} (ground (arith, e, due))
          (omega (arith, rest (reap client c l s), ap (one_of x) e))
    | inr early ↦
        subst
          (λ (r : List ClnLink × Connections).
            in_links x r.0 + occurs x r.1.closed ≡ in_links x (l ∷ ls) + occurs x s.closed)
          {x = (
            aged (tasks c) l ∷ (free_loop client tasks ls s).0,
            (free_loop client tasks ls s).1,
          )}
          {y = free_loop client tasks (l ∷ ls) s} (ground (arith, e, early))
          (omega (arith, rest s, ap (one_of x) e, ap (one_of x) (aged_conn (tasks c) c l e)))
  ]

  free_loop-in_links :
      (ls : List ClnLink) (s : Connections)
      → let r = free_loop client tasks ls s in
        in_links x r.0 + occurs x r.1.closed ≡ in_links x ls + occurs x s.closed
  unfolding free_loop
  free_loop-in_links [] s = refl
  free_loop-in_links (l ∷ ls) s =
      free_link-in_links l ls s l.connhandle refl (free_loop-in_links ls)

-- Where each connection is, after each of the four.
module _ (s : Connections) (ok : IsCounted s) (x : ℕ) where
  accept-places :
      (r : Arrival) → places x (accept_client r s) ≡ places x s + occurs x (accepted (accept r) s)
  unfolding accept_client add_conn_mem_wait4_ping
  accept-places r = memory r.connhandle refl
    where
      from :
          (s' : Connections) (cs : List ℕ)
          → s' ≡ accept_client r s
          → cs ≡ accepted (accept r) s
          → places x s' ≡ places x s + occurs x cs
          → places x (accept_client r s) ≡ places x s + occurs x (accepted (accept r) s)
      from s' cs e e' h = sym (ap (places x) e) ∙ (h ∙ ap (λ k. places x s + occurs x k) e')

      link_memory :
          (c p : ℕ) (link_ok : Bool)
          → r.connhandle ≡ some c
          → r.per_io_data ≡ some p
          → s.accept_client_num < max_clients
          → r.accept_ok ≡ true
          → r.link_ok ≡ link_ok
          → places x (accept_client r s) ≡ places x s + occurs x (accepted (accept r) s)
      link_memory c p true e e' room good link =
          from
            (record s {
              malloc_list =
                  s.malloc_list ++ (new_link (record { conn = c; per_io_data = some p }) ∷ []);
              malloc_head_time = s.malloc_head_time + 1;
              accept_client_num = s.accept_client_num + 1;
            })
            (c ∷ []) (ground arith) (ground arith)
            (omega (
              arith,
              in_links-append x s.malloc_list
                  (new_link (record { conn = c; per_io_data = some p }) ∷ []),
            ))
      link_memory c p false e e' room good link =
          from (record s { lost = c ∷ s.lost; accept_client_num = s.accept_client_num + 1 })
            (c ∷ []) (ground arith) (ground arith) (omega arith)

      data_memory :
          (c : ℕ) (p : Option ℕ)
          → r.connhandle ≡ some c
          → r.per_io_data ≡ p
          → s.accept_client_num < max_clients
          → r.accept_ok ≡ true
          → places x (accept_client r s) ≡ places x s + occurs x (accepted (accept r) s)
      data_memory c none e e' room good =
          from (record s { closed = c ∷ s.closed; freed = c ∷ s.freed }) (c ∷ []) (ground arith)
            (ground arith) (omega arith)
      data_memory c (some p) e e' room good = link_memory c p r.link_ok e e' room good refl

      memory :
          (c : Option ℕ)
          → r.connhandle ≡ c
          → places x (accept_client r s) ≡ places x s + occurs x (accepted (accept r) s)
      memory none e = from s [] (ground arith) (ground arith) (omega arith)
      memory (some c) e = elim (dec_lt s.accept_client_num max_clients) [
        | no full ↦
            from (record s { freed = c ∷ s.freed }) [] (ground arith) (ground arith) (omega arith)
        | yes room ↦ elim (Bool-cases r.accept_ok) [
          | inl good ↦ data_memory c r.per_io_data e refl room good
          | inr bad ↦
              from (record s { freed = c ∷ s.freed }) [] (ground arith) (ground arith) (omega arith)
        ]
      ]

  ping-places :
      (try_lock send_ok : ℕ → Bool)
      → places x (ping_malloc_conn_list try_lock send_ok s) ≡ places x s
  unfolding ping_malloc_conn_list
  ping-places try_lock send_ok = omega (
    arith,
    ping_loop-in_links try_lock send_ok x s.malloc_list s.malloc_head_time,
    in_tasks-append x s.pending (ping_loop try_lock send_ok s.malloc_list s.malloc_head_time).1,
  )

  run-places :
      (malloc_ok : Bool) (pending : List Con2FreeArg)
      → s.pending ≡ pending
      → places x (run_oldest malloc_ok s pending) ≡ places x s
  unfolding run_oldest add_conn_mem_wait4_free
  run-places malloc_ok [] e = refl
  run-places true (arg ∷ args) e =
      rw ok.unlocked
        (omega (arith, ap (in_tasks x) e, in_links-append x s.free_list (new_link arg ∷ [])))
  run-places false (arg ∷ args) e = rw ok.unlocked (omega (arith, ap (in_tasks x) e))

  free-places :
      (client : ℕ → Client) (tasks : ℕ → ℕ)
      → places x (free_conn_mem_wait4_free client tasks s) ≡ places x s
  unfolding free_conn_mem_wait4_free
  free-places client tasks =
      subst (λ s'. places x s' ≡ places x s)
        {x = record (free_loop client tasks s.free_list s).1 {
          free_list = (free_loop client tasks s.free_list s).0;
        }}
        {y = free_conn_mem_wait4_free client tasks s} (ground (arith, ok.unlocked))
        (omega (
          arith,
          free_loop-in_links client tasks x s.free_list s,
          ap (in_links x) f.same_malloc,
          ap (in_tasks x) f.same_pending,
          ap (occurs x) f.same_lost,
        ))
    where
      f : FreePass s.free_list s (free_loop client tasks s.free_list s)
      f =
          free_loop-FreePass client tasks s.free_list s ok.free_conns (omega (arith, ok.clients))
            (omega (arith, ok.free_count))

pub handle-places :
    (x : ℕ) (e : Event) (s : Connections)
    → IsCounted s
    → places x (handle e s) ≡ places x s + occurs x (accepted e s)
unfolding handle
handle-places x (accept r) s ok = accept-places s ok x r
handle-places x (ping try_lock send_ok) s ok = omega (arith, ping-places s ok x try_lock send_ok)
handle-places x (run_task malloc_ok) s ok =
    omega (arith, run-places s ok x malloc_ok s.pending refl)
handle-places x (free_pass client tasks) s ok = omega (arith, free-places s ok x client tasks)
