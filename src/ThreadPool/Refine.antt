-- ===== src/ThreadPool/Refine.antt =====
-- What the queue of the thread pool promises: a bounded queue, first in, first out, that can be closed.
use uubang_iot.Base.{
  ℕ, zero, suc, ◌+◌, ◌%◌, ◌≡◌, refl, ap, subst, ◌∙◌, inl, inr, List, [], ◌∷◌, ◌++◌, Bool, true,
  false, ◌==◌, ltb, leb, if◌then◌else◌, arith, length, Bool-cases,
}
use uubang_iot.ThreadPool.{
  TaskData, Thread, ThreadPool, Adding, no_thread, at_lock, waiting, holding, running, leaving,
  exited, blocks, refuses, queues, put_task, drop_task, task_add, work_check,
}
use uubang_iot.ThreadPool.Ring.{
  ring, queued, IsRing, queued-put_task, queued-drop_task, put_task-IsRing, drop_task-IsRing,
}

pub record Fifo : Type 0 where
  pub tasks : List TaskData
  pub capacity : ℕ
  pub closed : Bool

-- What a caller asks of the queue: `libThreadPool_TaskAdd`, or a worker that looks for a task.
pub data Op : Type 0 where
  adds : TaskData → Op
  looks : Op

pub data Answer : Type 0 where
  must_wait refused queued_up none_there no_more : Answer
  takes : TaskData → Answer

abbrev fifo_add : Fifo → TaskData → Answer × Fifo
fifo_add f t =
    if f.closed
    then (refused, f)
    else if ltb (length f.tasks) f.capacity
    then (queued_up, record f { tasks = f.tasks ++ (t ∷ []) })
    else (must_wait, f)

abbrev take_from : Fifo → List TaskData → Answer × Fifo
take_from f [] = (none_there, f)
take_from f (t ∷ ts) = (takes t, record f { tasks = ts })

-- An operation on the queue.
abbrev pub fifo_op : Op → Fifo → Answer × Fifo
fifo_op (adds t) f = fifo_add f t
fifo_op looks f = if f.closed then (no_more, f) else take_from f f.tasks

abbrev pub after_add : ThreadPool → Adding → Answer × ThreadPool
after_add pool blocks = (must_wait, pool)
after_add pool refuses = (refused, pool)
after_add pool (queues pool') = (queued_up, pool')

-- What a thread that looked for a task goes on with.
abbrev pub of_thread : Thread → Answer
of_thread no_thread = none_there
of_thread at_lock = none_there
of_thread waiting = none_there
of_thread (holding t) = takes t
of_thread (running t) = none_there
of_thread leaving = no_more
of_thread exited = none_there

-- The same operation on the pool, by the pool's functions.
abbrev pub pool_op : Op → ThreadPool → Answer × ThreadPool
pool_op (adds t) pool = after_add pool (task_add pool t)
pool_op looks pool = let (th, pool') = work_check pool in (of_thread th, pool')

-- The answers to a sequence of operations, and what they leave.
abbrev pub fifo_run : List Op → Fifo → List Answer × Fifo
fifo_run [] f = ([], f)
fifo_run (o ∷ os) f = let (x, f1) = fifo_op o f in let (xs, f2) = fifo_run os f1 in (x ∷ xs, f2)

abbrev pub pool_run : List Op → ThreadPool → List Answer × ThreadPool
pool_run [] pool = ([], pool)
pool_run (o ∷ os) pool =
    let (x, pool1) = pool_op o pool in let (xs, pool2) = pool_run os pool1 in (x ∷ xs, pool2)

-- A pool, seen as such a queue.
abbrev pub fifo : ThreadPool → Fifo
fifo pool = record { tasks = queued pool; capacity = pool.queue_max_size; closed = pool.shutdown }

length-ring : (max n front : ℕ) (q : List TaskData) → length (ring max n front q) ≡ n
length-ring max zero front q = refl
length-ring max (suc n) front q = ap suc (length-ring max n ((front + 1) % max) q)

length-queued : (pool : ThreadPool) → length (queued pool) ≡ pool.queue_size
length-queued pool =
    length-ring pool.queue_max_size pool.queue_size pool.queue_front pool.task_queue

-- The answer is the queue's, and the ring is then what the queue is.
abbrev Same : Answer × Fifo → Answer × ThreadPool → Type 0
Same promised r = (r.0, fifo r.1) ≡ promised

module _ (pool : ThreadPool) (r : IsRing pool) where
  at_most : (n m : ℕ) → leb m n ≡ true → ltb n m ≡ false
  at_most n m h = ground arith

  below : (n m : ℕ) → leb m n ≡ false → ltb n m ≡ true
  below n m h = ground arith

  adds-fifo_op : (t : TaskData) → Same (fifo_op (adds t) (fifo pool)) (pool_op (adds t) pool)
  unfolding task_add
  adds-fifo_op t = elim (Bool-cases pool.shutdown) [
    | inl closed ↦ elim (Bool-cases (leb pool.queue_max_size pool.queue_size)) [
      | inl full ↦ rw (full, closed) refl
      | inr room ↦ rw (room, closed) refl
    ]
    | inr still ↦ elim (Bool-cases (leb pool.queue_max_size pool.queue_size)) [
      | inl full ↦
          rw (full, still, length-queued pool, at_most pool.queue_size pool.queue_max_size full)
            refl
      | inr room ↦
          rw (room, still, length-queued pool, below pool.queue_size pool.queue_max_size room)
            (ap
              (λ ts.
                (queued_up, record { tasks = ts; capacity = pool.queue_max_size; closed = false }))
              (queued-put_task pool r t (ground (arith, room))))
    ]
  ]

  adds-IsRing : (t : TaskData) → IsRing (pool_op (adds t) pool).1
  unfolding task_add
  adds-IsRing t = elim (Bool-cases pool.shutdown) [
    | inl closed ↦ subst IsRing {x = pool} (ground (arith, closed)) r
    | inr still ↦ elim (Bool-cases (leb pool.queue_max_size pool.queue_size)) [
      | inl full ↦ subst IsRing {x = pool} (ground (arith, full, still)) r
      | inr room ↦
          subst IsRing {x = put_task pool t} (ground (arith, room, still))
            (put_task-IsRing pool r t (ground (arith, room)))
    ]
  ]

  no_tasks : pool.queue_size ≡ 0 → queued pool ≡ []
  no_tasks e = ap (λ n. ring pool.queue_max_size n pool.queue_front pool.task_queue) e

  looks-fifo_op : Same (fifo_op looks (fifo pool)) (pool_op looks pool)
  unfolding work_check
  looks-fifo_op = elim (Bool-cases pool.shutdown) [
    | inl closed ↦ elim (Bool-cases (pool.queue_size == 0)) [
      | inl empty ↦ rw (empty, closed) refl
      | inr some_task ↦ rw (some_task, closed) refl
    ]
    | inr still ↦ elim (Bool-cases (pool.queue_size == 0)) [
      | inl empty ↦ rw (empty, still, no_tasks (ground (arith, empty))) refl
      | inr some_task ↦
          rw (some_task, still, queued-drop_task pool r (ground (arith, some_task))) refl
    ]
  ]

  looks-IsRing : IsRing (pool_op looks pool).1
  unfolding work_check
  looks-IsRing = elim (Bool-cases pool.shutdown) [
    | inl closed ↦ subst IsRing {x = pool} (ground (arith, closed)) r
    | inr still ↦ elim (Bool-cases (pool.queue_size == 0)) [
      | inl empty ↦ subst IsRing {x = pool} (ground (arith, empty, still)) r
      | inr some_task ↦
          subst IsRing {x = drop_task pool} (ground (arith, some_task, still))
            (drop_task-IsRing pool r (ground (arith, some_task)))
    ]
  ]

pool_op-fifo_op :
    (o : Op) (pool : ThreadPool)
    → IsRing pool
    → Same (fifo_op o (fifo pool)) (pool_op o pool) × IsRing (pool_op o pool).1
pool_op-fifo_op (adds t) pool r = (adds-fifo_op pool r t, adds-IsRing pool r t)
pool_op-fifo_op looks pool r = (looks-fifo_op pool r, looks-IsRing pool r)

-- The ring of the thread pool is a bounded first-in first-out queue that can be closed: from a sound ring,
-- however tasks are added and looked for in any order by the functions of the pool, each run alone, every
-- answer is the queue's, the tasks that are left are those of the queue, and the ring is sound again. The
-- queue refuses what is added once it is closed, and gives nothing more even when it still has tasks.
pub pool_run-fifo_run :
    (os : List Op) (pool : ThreadPool)
    → IsRing pool
    → (((pool_run os pool).0, fifo (pool_run os pool).1) ≡ fifo_run os (fifo pool))
      × IsRing (pool_run os pool).1
pool_run-fifo_run [] pool r = (refl, r)
pool_run-fifo_run (o ∷ os) pool r =
    let (one, r') = pool_op-fifo_op o pool r in
    let (rest, r'') = pool_run-fifo_run os (pool_op o pool).1 r' in
    (
      ap (λ (x : List Answer × Fifo). ((pool_op o pool).0 ∷ x.0, x.1)) rest
          ∙ ap (λ (x : Answer × Fifo). (x.0 ∷ (fifo_run os x.1).0, (fifo_run os x.1).1)) one,
      r'',
    )
