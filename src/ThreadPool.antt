-- ===== src/ThreadPool.antt =====
-- The thread pool: src/libThreadPool.c and head/libThreadPool.h. A function is one critical section
-- of a thread, from a lock to the unlock or the wait that ends it, and `step` takes them in any order.
pub mod Ring
pub mod Threads
pub mod Workers
pub mod Invariant
pub mod Refine
use uubang_iot.Base.{
  ℕ, zero, suc, ◌+◌, ◌-◌, ◌*◌, ◌%◌, List, [], ◌∷◌, ◌++◌, Option, none, some, Bool, true, false,
  ◌&&◌, not, ◌≡◌, ◌==◌, ltb, leb, if◌then◌else◌, get_or, get_elem?, set, replicate,
}

-- `TaskData_t`: a function and its argument.
pub record TaskData : Type 0 where
  pub task_func : ℕ
  pub arg : ℕ

abbrev pub no_task : TaskData
no_task = record { task_func = 0; arg = 0 }

-- A slot of `threads`, with the point that its worker has reached.
pub data Thread : Type 0 where
  -- no thread was started
  no_thread : Thread
  -- before the lock at the top of the loop
  at_lock : Thread
  -- in `pthread_cond_wait`
  waiting : Thread
  -- with a task, before `busy_thr_num++`
  holding : TaskData → Thread
  -- in the task, before `busy_thr_num--`
  running : TaskData → Thread
  -- before `pthread_exit`
  leaving : Thread
  exited : Thread

-- `threadPool_t`
pub record ThreadPool : Type 0 where
  pub threads : List Thread
  pub task_queue : List TaskData
  pub min_thr_num : ℕ
  pub max_thr_num : ℕ
  pub live_thr_num : ℕ
  pub busy_thr_num : ℕ
  pub wait_exit_thr_num : ℕ
  pub queue_front : ℕ
  pub queue_rear : ℕ
  pub queue_size : ℕ
  pub queue_max_size : ℕ
  pub shutdown : Bool

abbrev pub default_thread_num : ℕ
default_thread_num = 5

abbrev pub min_wait_task_num : ℕ
min_wait_task_num = 5

-- `is_thread_alive`, and the slots that were never filled.
abbrev pub is_dead : Thread → Bool
is_dead no_thread = true
is_dead exited = true
is_dead at_lock = false
is_dead waiting = false
is_dead (holding t) = false
is_dead (running t) = false
is_dead leaving = false

-- `libThreadPool_Init`, once its memory and its locks are there.
unfoldable pub lib_thread_pool_init : ℕ → ℕ → ℕ → ThreadPool
lib_thread_pool_init min_thr_num max_thr_num queue_max_size = record {
  threads = replicate min_thr_num at_lock ++ replicate (max_thr_num - min_thr_num) no_thread;
  task_queue = replicate queue_max_size no_task;
  min_thr_num = min_thr_num;
  max_thr_num = max_thr_num;
  live_thr_num = min_thr_num;
  busy_thr_num = 0;
  wait_exit_thr_num = 0;
  queue_front = 0;
  queue_rear = 0;
  queue_size = 0;
  queue_max_size = queue_max_size;
  shutdown = false;
}

-- The outcomes of one passage of `libThreadPool_TaskAdd` through its test.
pub data Adding : Type 0 where
  -- it waits on `queue_not_full`
  blocks : Adding
  -- it returns -1
  refuses : Adding
  -- it returns 0
  queues : ThreadPool → Adding

abbrev pub put_task : ThreadPool → TaskData → ThreadPool
put_task pool t = record pool {
  task_queue = set pool.task_queue pool.queue_rear t;
  queue_rear = (pool.queue_rear + 1) % pool.queue_max_size;
  queue_size = pool.queue_size + 1;
}

-- `libThreadPool_TaskAdd`
unfoldable pub task_add : ThreadPool → TaskData → Adding
task_add pool t =
    if leb pool.queue_max_size pool.queue_size && not pool.shutdown
    then blocks
    else if pool.shutdown
    then refuses
    else queues (put_task pool t)

abbrev pub front_task : ThreadPool → TaskData
front_task pool = get_or pool.task_queue pool.queue_front no_task

abbrev pub drop_task : ThreadPool → ThreadPool
drop_task pool = record pool {
  queue_front = (pool.queue_front + 1) % pool.queue_max_size;
  queue_size = pool.queue_size - 1;
}

-- `work_thread`, from the test of the inner loop on. The size is positive where it is lowered.
unfoldable pub work_check : ThreadPool → Thread × ThreadPool
work_check pool =
    if (pool.queue_size == 0) && not pool.shutdown
    then (waiting, pool)
    else if pool.shutdown
    then (leaving, pool)
    else (holding (front_task pool), drop_task pool)

-- `work_thread`, when `pthread_cond_wait` returns.
unfoldable pub work_wake : ThreadPool → Thread × ThreadPool
unfolding work_check
work_wake pool =
    if ltb 0 pool.wait_exit_thr_num
    then (let pool1 = record pool { wait_exit_thr_num = pool.wait_exit_thr_num - 1 } in
        if ltb pool.min_thr_num pool.live_thr_num
        then (leaving, record pool1 { live_thr_num = pool.live_thr_num - 1 })
        else work_check pool1)
    else work_check pool

-- One step of a worker; none for a slot that has no thread. As many workers are running as
-- `busy_thr_num` says, so that it is positive where it is lowered.
unfoldable pub work_thread : Thread → ThreadPool → Option (Thread × ThreadPool)
unfolding work_check work_wake
work_thread no_thread pool = none
work_thread at_lock pool = some (work_check pool)
work_thread waiting pool = some (work_wake pool)
work_thread (holding t) pool =
    some (running t, record pool { busy_thr_num = pool.busy_thr_num + 1 })
work_thread (running t) pool = some (at_lock, record pool { busy_thr_num = pool.busy_thr_num - 1 })
work_thread leaving pool = some (exited, pool)
work_thread exited pool = none

-- `g_queue_size`, `g_live_thr_num` and `g_busy_thr_num`.
pub record Sample : Type 0 where
  pub g_queue_size : ℕ
  pub g_live_thr_num : ℕ
  pub g_busy_thr_num : ℕ

-- The loop of `admin_thread` that starts threads in dead slots: the threads still to start, and the live ones.
unfoldable pub grow_loop : ℕ → ℕ → ℕ → List Thread → List Thread × ℕ
grow_loop more max live [] = ([], live)
grow_loop zero max live (t ∷ ts) = (t ∷ ts, live)
grow_loop (suc more) max live (t ∷ ts) =
    let started = grow_loop more max (live + 1) ts in
    let passed = grow_loop (suc more) max live ts in
    if ltb live max
    then if is_dead t then (at_lock ∷ started.0, started.1) else (t ∷ passed.0, passed.1)
    else (t ∷ ts, live)

-- The administrator's growth; `pthread_create` is taken to succeed.
unfoldable pub admin_grow : Sample → ThreadPool → ThreadPool
unfolding grow_loop
admin_grow g pool =
    if leb min_wait_task_num g.g_queue_size && leb g.g_live_thr_num pool.max_thr_num
    then (let grown =
          grow_loop default_thread_num pool.max_thr_num pool.live_thr_num pool.threads in
        record pool { threads = grown.0; live_thr_num = grown.1 })
    else pool

unfoldable pub admin_shrink : Sample → ThreadPool → ThreadPool
admin_shrink g pool =
    if ltb (g.g_busy_thr_num * 2) g.g_live_thr_num && ltb pool.min_thr_num g.g_live_thr_num
    then record pool { wait_exit_thr_num = default_thread_num }
    else pool

-- `libThreadPool_state`: queued tasks, live threads, busy threads.
unfoldable pub lib_thread_pool_state : Sample → ℕ × ℕ × ℕ
lib_thread_pool_state g = (g.g_queue_size, g.g_live_thr_num, g.g_busy_thr_num)

-- The start of `libThreadPool_destroy`.
unfoldable pub begin_destroy : ThreadPool → ThreadPool
begin_destroy pool = record pool { shutdown = true }

-- A pool in use: with the tasks that were accepted and those that workers took, oldest first.
pub record System : Type 0 where
  pub pool : ThreadPool
  pub sample : Sample
  pub added : List TaskData
  pub taken : List TaskData

pub data Event : Type 0 where
  add : TaskData → Event
  -- the worker of a slot goes on
  work : ℕ → Event
  -- the administrator copies the sizes under `lock`
  read_sizes : Event
  -- the administrator copies the busy threads under `thread_counter`
  read_busy : Event
  grow : Event
  shrink : Event
  destroy : Event

-- The task that a worker's step took.
abbrev pub newly_taken : Thread → Thread → List TaskData
newly_taken at_lock (holding t) = t ∷ []
newly_taken waiting (holding t) = t ∷ []
newly_taken _ _ = []

abbrev pub after_adding : System → TaskData → Adding → Option System
after_adding s t blocks = none
after_adding s t refuses = some s
after_adding s t (queues pool) = some (record s { pool = pool; added = s.added ++ (t ∷ []) })

abbrev pub after_work : System → ℕ → Thread → Option (Thread × ThreadPool) → Option System
after_work s i from none = none
after_work s i from (some (to, pool)) = some (record s {
  pool = record pool { threads = set pool.threads i to };
  taken = s.taken ++ newly_taken from to;
})

abbrev pub work_slot : System → ℕ → Option Thread → Option System
unfolding work_thread
work_slot s i none = none
work_slot s i (some t) = after_work s i t (work_thread t s.pool)

-- One critical section; none where the thread cannot go on.
unfoldable pub step : Event → System → Option System
unfolding task_add work_thread admin_grow admin_shrink begin_destroy
step (add t) s = after_adding s t (task_add s.pool t)
step (work i) s = work_slot s i (get_elem? s.pool.threads i)
step read_sizes s = some (record s {
  sample = record s.sample {
    g_queue_size = s.pool.queue_size;
    g_live_thr_num = s.pool.live_thr_num;
  };
})
step read_busy s =
    some (record s { sample = record s.sample { g_busy_thr_num = s.pool.busy_thr_num } })
step grow s = some (record s { pool = admin_grow s.sample s.pool })
step shrink s = some (record s { pool = admin_shrink s.sample s.pool })
step destroy s = some (record s { pool = begin_destroy s.pool })

abbrev pub started : ℕ → ℕ → ℕ → System
unfolding lib_thread_pool_init
started min_thr_num max_thr_num queue_max_size = record {
  pool = lib_thread_pool_init min_thr_num max_thr_num queue_max_size;
  sample = record { g_queue_size = 0; g_live_thr_num = 0; g_busy_thr_num = 0 };
  added = [];
  taken = [];
}

-- The systems that a pool can be in.
pub data Reachable (min_thr_num max_thr_num queue_max_size : ℕ) : System → Type 0 where
  initial :
      Reachable min_thr_num max_thr_num queue_max_size
        (started min_thr_num max_thr_num queue_max_size)
  next :
      {s s' : System} (e : Event)
      → Reachable min_thr_num max_thr_num queue_max_size s
      → step e s ≡ some s'
      → Reachable min_thr_num max_thr_num queue_max_size s'
