-- ===== src/ThreadPool/Workers.antt =====
-- What a worker's step changes.
use uubang_iot.Base.{
  ℕ, ◌+◌, ◌-◌, ◌≡◌, ◌≤◌, ◌<◌, refl, ap, ◌∙◌, sym, [], ◌∷◌, ◌++◌, Option, none, some, true, false,
  arith, inl, inr, Bool-cases, dec_lt, ℕ_discrete, subst,
}
use uubang_iot.ThreadPool.{
  TaskData, Thread, no_thread, at_lock, waiting, holding, running, leaving, exited, ThreadPool,
  newly_taken, work_check, work_wake, work_thread, drop_task, front_task,
}
use uubang_iot.ThreadPool.Ring.{IsRing, queued, drop_task-IsRing, queued-drop_task}
use uubang_iot.ThreadPool.Threads.{live, busy}

-- What one step of a worker does to the pool.
pub record Worked (from : Thread) (pool : ThreadPool) (r : Thread × ThreadPool) : Type 0 where
  pub same_threads : r.1.threads ≡ pool.threads
  pub same_min : r.1.min_thr_num ≡ pool.min_thr_num
  pub same_max : r.1.max_thr_num ≡ pool.max_thr_num
  pub same_shutdown : r.1.shutdown ≡ pool.shutdown
  pub ring : IsRing r.1
  pub queue : queued pool ≡ newly_taken from r.0 ++ queued r.1
  pub lives : pool.shutdown ≡ false → r.1.live_thr_num + live from ≡ pool.live_thr_num + live r.0
  pub lives_at_most : pool.live_thr_num + live r.0 ≤ r.1.live_thr_num + live from
  pub low : pool.min_thr_num ≤ r.1.live_thr_num
  pub high : r.1.live_thr_num ≤ pool.live_thr_num
  pub same_busy : r.1.busy_thr_num + busy from ≡ pool.busy_thr_num + busy r.0

-- What the two threads that look for a task have in common.
record IsIdle (from : Thread) : Type 0 where
  pub is_live : live from ≡ 1
  pub not_busy : busy from ≡ 0
  pub takes : (t : TaskData) → newly_taken from (holding t) ≡ t ∷ []
  pub waits : newly_taken from waiting ≡ []
  pub leaves : newly_taken from leaving ≡ []

abbrev at_lock-IsIdle : IsIdle at_lock
at_lock-IsIdle = record {
  is_live = refl;
  not_busy = refl;
  takes = λ t. refl;
  waits = refl;
  leaves = refl;
}

abbrev waiting-IsIdle : IsIdle waiting
waiting-IsIdle = record {
  is_live = refl;
  not_busy = refl;
  takes = λ t. refl;
  waits = refl;
  leaves = refl;
}

module _ (from : Thread) (pool : ThreadPool) (ring : IsRing pool) (idle : IsIdle from)
    (low : pool.min_thr_num ≤ pool.live_thr_num) where
  waits-Worked : Worked from pool (waiting, pool)
  waits-Worked = record {
    same_threads = refl;
    same_min = refl;
    same_max = refl;
    same_shutdown = refl;
    ring = ring;
    queue = ap (λ l. l ++ queued pool) (sym idle.waits);
    lives = λ o. omega (arith, idle.is_live);
    lives_at_most = omega (arith, idle.is_live);
    low = low;
    high = omega arith;
    same_busy = omega (arith, idle.not_busy);
  }

  leaves-Worked : pool.shutdown ≡ true → Worked from pool (leaving, pool)
  leaves-Worked closed = record {
    same_threads = refl;
    same_min = refl;
    same_max = refl;
    same_shutdown = refl;
    ring = ring;
    queue = ap (λ l. l ++ queued pool) (sym idle.leaves);
    lives = λ o. absurd (ground arith);
    lives_at_most = omega (arith, idle.is_live);
    low = low;
    high = omega arith;
    same_busy = omega (arith, idle.not_busy);
  }

  takes-Worked : 0 < pool.queue_size → Worked from pool (holding (front_task pool), drop_task pool)
  takes-Worked some_task = record {
    same_threads = refl;
    same_min = refl;
    same_max = refl;
    same_shutdown = refl;
    ring = drop_task-IsRing pool ring some_task;
    queue =
        queued-drop_task pool ring some_task
        ∙ ap (λ l. l ++ queued (drop_task pool)) (sym (idle.takes (front_task pool)));
    lives = λ o. omega (arith, idle.is_live);
    lives_at_most = omega (arith, idle.is_live);
    low = low;
    high = omega arith;
    same_busy = omega (arith, idle.not_busy);
  }

  work_check-Worked : Worked from pool (work_check pool)
  unfolding work_check
  work_check-Worked = elim (ℕ_discrete pool.queue_size 0) [
    | yes none_left ↦ elim (Bool-cases pool.shutdown) [
      | inl closed ↦ subst (Worked from pool) (ground arith) (leaves-Worked closed)
      | inr opened ↦ subst (Worked from pool) (ground arith) waits-Worked
    ]
    | no some_left ↦ elim (Bool-cases pool.shutdown) [
      | inl closed ↦ subst (Worked from pool) (ground arith) (leaves-Worked closed)
      | inr opened ↦ subst (Worked from pool) (ground arith) (takes-Worked (omega arith))
    ]
  ]

-- `wait_exit_thr_num--` by itself.
abbrev fewer_to_exit : ThreadPool → ThreadPool
fewer_to_exit pool = record pool { wait_exit_thr_num = pool.wait_exit_thr_num - 1 }

module _ (pool : ThreadPool) where
  fewer_to_exit-IsRing : IsRing pool → IsRing (fewer_to_exit pool)
  fewer_to_exit-IsRing ring = record {
    some_room = ring.some_room;
    places = ring.places;
    front = ring.front;
    fits = ring.fits;
    rear = ring.rear;
  }

  fewer_to_exit-Worked :
      (from : Thread) (r : Thread × ThreadPool)
      → Worked from (fewer_to_exit pool) r
      → Worked from pool r
  fewer_to_exit-Worked from r w = record {
    same_threads = w.same_threads;
    same_min = w.same_min;
    same_max = w.same_max;
    same_shutdown = w.same_shutdown;
    ring = w.ring;
    queue = w.queue;
    lives = w.lives;
    lives_at_most = w.lives_at_most;
    low = w.low;
    high = w.high;
    same_busy = w.same_busy;
  }

module _ (pool : ThreadPool) (ring : IsRing pool) (low : pool.min_thr_num ≤ pool.live_thr_num) where
  -- The end of a redundant thread.
  ends-Worked :
      pool.min_thr_num < pool.live_thr_num
      → Worked waiting pool
          (leaving, record (fewer_to_exit pool) { live_thr_num = pool.live_thr_num - 1 })
  ends-Worked redundant = record {
    same_threads = refl;
    same_min = refl;
    same_max = refl;
    same_shutdown = refl;
    ring = record {
      some_room = ring.some_room;
      places = ring.places;
      front = ring.front;
      fits = ring.fits;
      rear = ring.rear;
    };
    queue = refl;
    lives = λ o. omega arith;
    lives_at_most = omega arith;
    low = omega arith;
    high = omega arith;
    same_busy = refl;
  }

  work_wake-Worked : Worked waiting pool (work_wake pool)
  unfolding work_wake
  work_wake-Worked = elim (dec_lt 0 pool.wait_exit_thr_num) [
    | yes asked ↦ elim (dec_lt pool.min_thr_num pool.live_thr_num) [
      | yes redundant ↦ subst (Worked waiting pool) (ground arith) (ends-Worked redundant)
      | no needed ↦ subst (Worked waiting pool) (ground arith) (
          fewer_to_exit-Worked pool waiting _ (
            work_check-Worked waiting (fewer_to_exit pool) (fewer_to_exit-IsRing pool ring)
              waiting-IsIdle low))
    ]
    | no not_asked ↦
        subst (Worked waiting pool) (ground arith)
          (work_check-Worked waiting pool ring waiting-IsIdle low)
  ]

  -- A step that only moves the thread, and may count it as busy or not.
  counts-Worked :
      (from to : Thread) (busy_thr_num : ℕ)
      → live from ≡ live to
      → busy_thr_num + busy from ≡ pool.busy_thr_num + busy to
      → newly_taken from to ≡ []
      → Worked from pool (to, record pool { busy_thr_num = busy_thr_num })
  counts-Worked from to busy_thr_num same b takes_none = record {
    same_threads = refl;
    same_min = refl;
    same_max = refl;
    same_shutdown = refl;
    ring = record {
      some_room = ring.some_room;
      places = ring.places;
      front = ring.front;
      fits = ring.fits;
      rear = ring.rear;
    };
    queue = ap (λ l. l ++ queued pool) (sym takes_none);
    lives = λ o. omega arith;
    lives_at_most = omega arith;
    low = low;
    high = omega arith;
    same_busy = b;
  }

-- What holds of a step, if there is one.
abbrev pub WorkedIfAny : Thread → ThreadPool → Option (Thread × ThreadPool) → Type 0
WorkedIfAny from pool none = Unit
WorkedIfAny from pool (some r) = Worked from pool r

-- A step of a worker, for a pool with as many running threads as it says.
pub work_thread-Worked :
    (from : Thread) (pool : ThreadPool)
    → IsRing pool
    → pool.min_thr_num ≤ pool.live_thr_num
    → busy from ≤ pool.busy_thr_num
    → WorkedIfAny from pool (work_thread from pool)
unfolding work_thread
work_thread-Worked no_thread pool ring low enough = tt
work_thread-Worked at_lock pool ring low enough =
    work_check-Worked at_lock pool ring at_lock-IsIdle low
work_thread-Worked waiting pool ring low enough = work_wake-Worked pool ring low
work_thread-Worked (holding t) pool ring low enough =
    counts-Worked pool ring low (holding t) (running t) _ refl (omega arith) refl
work_thread-Worked (running t) pool ring low enough =
    counts-Worked pool ring low (running t) at_lock _ refl (omega arith) refl
work_thread-Worked leaving pool ring low enough =
    counts-Worked pool ring low leaving exited pool.busy_thr_num refl refl refl
work_thread-Worked exited pool ring low enough = tt
