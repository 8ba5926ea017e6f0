-- ===== src/ThreadPool/Invariant.antt =====
-- The invariant of the thread pool, over every order of the steps of its threads.
use uubang_iot.Base.{
  ℕ, zero, suc, ◌+◌, ◌-◌, ◌*◌, ◌≡◌, ◌≤◌, ◌<◌, refl, ap, ◌∙◌, sym, subst, List, [], ◌∷◌, ◌++◌,
  Option, none, some, Bool, true, false, arith, length, set, get_elem?, length-set, append_assoc,
  length-append, length-replicate, replicate, Bool-cases, dec_lt, leb, ltb, ◌&&◌, inl, inr,
}
use uubang_iot.Base.Rotation.{mod_twice}
use uubang_iot.ThreadPool.{
  TaskData, Thread, no_thread, at_lock, ThreadPool, blocks, refuses, queues, put_task, task_add,
  work_thread, newly_taken, grow_loop, default_thread_num, admin_grow, admin_shrink, begin_destroy,
  System, Event, add, work, read_sizes, read_busy, grow, shrink, destroy, after_adding, after_work,
  work_slot, step, started, Reachable, initial, next, lib_thread_pool_init,
}
use uubang_iot.ThreadPool.Ring.{IsRing, queued, put_task-IsRing, queued-put_task}
use uubang_iot.ThreadPool.Threads.{
  live, busy, total, total-set, load_le_total, Grown, grow_loop-Grown,
}
use uubang_iot.ThreadPool.Workers.{WorkedIfAny, work_thread-Worked}

-- The tasks taken and those that wait are the tasks added, in order; the counters agree with the
-- threads, and the live threads stay within their bounds.
pub record IsSound (s : System) : Type 0 where
  pub ring : IsRing s.pool
  pub fifo : s.taken ++ queued s.pool ≡ s.added
  pub lives : s.pool.shutdown ≡ false → total live s.pool.threads ≡ s.pool.live_thr_num
  pub lives_at_most : total live s.pool.threads ≤ s.pool.live_thr_num
  pub low : s.pool.min_thr_num ≤ s.pool.live_thr_num
  pub high : s.pool.live_thr_num ≤ s.pool.max_thr_num
  pub busy_threads : total busy s.pool.threads ≡ s.pool.busy_thr_num
  pub slots : length s.pool.threads ≡ s.pool.max_thr_num

abbrev SoundIfAny : Option System → Type 0
SoundIfAny none = Unit
SoundIfAny (some s) = IsSound s

module _ (s : System) (ok : IsSound s) where
  queues-IsSound :
      (t : TaskData)
      → s.pool.queue_size < s.pool.queue_max_size
      → IsSound (record s { pool = put_task s.pool t; added = s.added ++ (t ∷ []) })
  queues-IsSound t room = record {
    ring = put_task-IsRing s.pool ok.ring t room;
    fifo =
        ap (λ l. s.taken ++ l) (queued-put_task s.pool ok.ring t room)
        ∙ (sym (append_assoc s.taken (queued s.pool) (t ∷ [])) ∙ ap (λ l. l ++ (t ∷ [])) ok.fifo);
    lives = ok.lives;
    lives_at_most = ok.lives_at_most;
    low = ok.low;
    high = ok.high;
    busy_threads = ok.busy_threads;
    slots = ok.slots;
  }

  add-IsSound : (t : TaskData) → SoundIfAny (after_adding s t (task_add s.pool t))
  unfolding task_add
  add-IsSound t = elim (Bool-cases s.pool.shutdown) [
    | inl closed ↦ subst (λ a. SoundIfAny (after_adding s t a)) {x = refuses} (ground arith) ok
    | inr opened ↦ elim (dec_lt s.pool.queue_size s.pool.queue_max_size) [
      | yes room ↦
          subst (λ a. SoundIfAny (after_adding s t a)) {x = queues (put_task s.pool t)}
            (ground arith) (queues-IsSound t room)
      | no full ↦ subst (λ a. SoundIfAny (after_adding s t a)) {x = blocks} (ground arith) tt
    ]
  ]

  work-IsSound :
      (i : ℕ) (from : Thread)
      → get_elem? s.pool.threads i ≡ some from
      → (r : Option (Thread × ThreadPool)) → WorkedIfAny from s.pool r
      → SoundIfAny (after_work s i from r)
  work-IsSound i from at none w = tt
  work-IsSound i from at (some (to, pool)) w = record {
    ring = record {
      some_room = w.ring.some_room;
      places = w.ring.places;
      front = w.ring.front;
      fits = w.ring.fits;
      rear = w.ring.rear;
    };
    fifo =
        append_assoc s.taken (newly_taken from to) (queued pool)
        ∙ (ap (λ l. s.taken ++ l) (sym w.queue) ∙ ok.fifo);
    lives = λ o. omega (
      arith,
      counted live,
      ok.lives (sym w.same_shutdown ∙ o),
      w.lives (sym w.same_shutdown ∙ o),
    );
    lives_at_most = omega (arith, counted live, ok.lives_at_most, w.lives_at_most);
    low = omega (arith, w.low, w.same_min);
    high = omega (arith, w.high, ok.high, w.same_max);
    busy_threads = omega (arith, counted busy, ok.busy_threads, w.same_busy);
    slots =
        omega (arith, length-set pool.threads i to, ap length w.same_threads, ok.slots, w.same_max);
  }
    where
      counted :
          (load : Thread → ℕ)
          → total load (set pool.threads i to) + load from ≡ total load s.pool.threads + load to
      counted load =
          total-set load pool.threads i from to (ap (λ l. get_elem? l i) w.same_threads ∙ at)
          ∙ ap (λ l. total load l + load to) w.same_threads

  slot-IsSound :
      (i : ℕ) (t : Option Thread) → get_elem? s.pool.threads i ≡ t → SoundIfAny (work_slot s i t)
  unfolding work_slot
  slot-IsSound i none at = tt
  slot-IsSound i (some from) at = work-IsSound i from at (work_thread from s.pool) (
      work_thread-Worked from s.pool ok.ring ok.low
        (omega (arith, load_le_total busy s.pool.threads i from at, ok.busy_threads)))

  grow-IsSound : IsSound (record s { pool = admin_grow s.sample s.pool })
  unfolding admin_grow
  grow-IsSound =
      elim (Bool-cases
        (leb 5 s.sample.g_queue_size && leb s.sample.g_live_thr_num s.pool.max_thr_num)) [
          | inl due ↦ subst (λ p. IsSound (record s { pool = p })) (ground arith) grown
          | inr not_due ↦ subst (λ p. IsSound (record s { pool = p })) (ground arith) ok
        ]
    where
      more : List Thread × ℕ
      more = grow_loop default_thread_num s.pool.max_thr_num s.pool.live_thr_num s.pool.threads

      g : Grown s.pool.max_thr_num s.pool.live_thr_num s.pool.threads more
      g = grow_loop-Grown default_thread_num s.pool.max_thr_num s.pool.live_thr_num s.pool.threads

      grown :
          IsSound (record s { pool = record s.pool { threads = more.0; live_thr_num = more.1 } })
      grown = record {
        ring = record {
          some_room = ok.ring.some_room;
          places = ok.ring.places;
          front = ok.ring.front;
          fits = ok.ring.fits;
          rear = ok.ring.rear;
        };
        fifo = ok.fifo;
        lives = λ o. omega (arith, g.lives, ok.lives o);
        lives_at_most = omega (arith, g.lives, ok.lives_at_most);
        low = omega (arith, g.low, ok.low);
        high = g.high ok.high;
        busy_threads = g.same_busy ∙ ok.busy_threads;
        slots = g.slots ∙ ok.slots;
      }

  -- A step that leaves the sizes and the threads alone.
  same-IsSound :
      (wait_exit_thr_num : ℕ) (shutdown : Bool) (sample : _)
      → (s.pool.shutdown ≡ true → shutdown ≡ true)
      → IsSound (record s {
        pool = record s.pool { wait_exit_thr_num = wait_exit_thr_num; shutdown = shutdown };
        sample = sample;
      })
  same-IsSound wait_exit_thr_num shutdown sample stays = record {
    ring = record {
      some_room = ok.ring.some_room;
      places = ok.ring.places;
      front = ok.ring.front;
      fits = ok.ring.fits;
      rear = ok.ring.rear;
    };
    fifo = ok.fifo;
    lives = λ o. elim (Bool-cases s.pool.shutdown) [
      | inl closed ↦ absurd (ground (arith, stays closed))
      | inr opened ↦ ok.lives opened
    ];
    lives_at_most = ok.lives_at_most;
    low = ok.low;
    high = ok.high;
    busy_threads = ok.busy_threads;
    slots = ok.slots;
  }

  shrink-IsSound : IsSound (record s { pool = admin_shrink s.sample s.pool })
  unfolding admin_shrink
  shrink-IsSound =
      elim (Bool-cases (
        ltb (s.sample.g_busy_thr_num * 2) s.sample.g_live_thr_num
        && ltb s.pool.min_thr_num s.sample.g_live_thr_num)) [
          | inl due ↦
              subst (λ p. IsSound (record s { pool = p })) (ground arith)
                (same-IsSound default_thread_num s.pool.shutdown s.sample (λ e. e))
          | inr not_due ↦ subst (λ p. IsSound (record s { pool = p })) (ground arith) ok
        ]

-- Every step keeps the invariant.
step-IsSound : (e : Event) (s : System) → IsSound s → SoundIfAny (step e s)
unfolding step begin_destroy
step-IsSound (add t) s ok = add-IsSound s ok t
step-IsSound (work i) s ok = slot-IsSound s ok i (get_elem? s.pool.threads i) refl
step-IsSound read_sizes s ok = same-IsSound s ok s.pool.wait_exit_thr_num s.pool.shutdown _ (λ e. e)
step-IsSound read_busy s ok = same-IsSound s ok s.pool.wait_exit_thr_num s.pool.shutdown _ (λ e. e)
step-IsSound grow s ok = grow-IsSound s ok
step-IsSound shrink s ok = shrink-IsSound s ok
step-IsSound destroy s ok = same-IsSound s ok s.pool.wait_exit_thr_num true s.sample (λ e. refl)

total-append : (w : Thread → ℕ) (ts us : List Thread) → total w (ts ++ us) ≡ total w ts + total w us
total-append w [] us = omega arith
total-append w (t ∷ ts) us = omega (arith, total-append w ts us)

total-replicate : (w : Thread → ℕ) (n : ℕ) (t : Thread) → total w (replicate n t) ≡ n * w t
total-replicate w zero t = omega arith
total-replicate w (suc n) t = ground (arith, total-replicate w n t)

started-IsSound :
    (least most places : ℕ) → least ≤ most → 0 < places → IsSound (started least most places)
unfolding lib_thread_pool_init
started-IsSound least most places le some_place = record {
  ring = record {
    some_room = some_place;
    places = length-replicate places _;
    front = some_place;
    fits = omega arith;
    rear = ground (arith, mod_twice 0 places some_place (omega arith));
  };
  fifo = refl;
  lives = λ o. total_lives;
  lives_at_most = omega (arith, total_lives);
  low = omega arith;
  high = le;
  busy_threads = omega (
    arith,
    total-append busy (replicate least at_lock) (replicate (most - least) no_thread),
    total-replicate busy least at_lock,
    total-replicate busy (most - least) no_thread,
  );
  slots = omega (
    arith,
    length-append (replicate least at_lock) (replicate (most - least) no_thread),
    length-replicate least at_lock,
    length-replicate (most - least) no_thread,
  );
}
  where
    total_lives : total live (started least most places).pool.threads ≡ least
    total_lives = omega (
      arith,
      total-append live (replicate least at_lock) (replicate (most - least) no_thread),
      total-replicate live least at_lock,
      total-replicate live (most - least) no_thread,
    )

-- In whatever order its threads and its users take their steps, a pool that starts with at most as
-- many threads as its maximum and with room for a task stays sound: tasks are taken once each, in
-- the order they were added; the ring's indices agree with its size; the live threads stay between
-- the minimum and the maximum and are those not yet ending, until a shutdown; and `busy_thr_num`
-- is the number of threads in a task.
pub Reachable-IsSound :
    (least most places : ℕ)
    → least ≤ most
    → 0 < places
    → (s : System) → Reachable least most places s
    → IsSound s
Reachable-IsSound least most places le some_place s initial =
    started-IsSound least most places le some_place
Reachable-IsSound least most places le some_place s (next {s = s0} e before now) =
    subst SoundIfAny now
      (step-IsSound e s0 (Reachable-IsSound least most places le some_place s0 before))
