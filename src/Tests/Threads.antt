-- ===== src/Tests/Threads.antt =====
-- The thread pool with two threads and room for one task.
use uubang_iot.Base.{List, ◌≡◌, refl, [], ◌∷◌, ◌++◌, arith}
use uubang_iot.ThreadPool.{
  TaskData, System, started, step, add, put_task, Reachable, initial, next, task_add,
  lib_thread_pool_init, ThreadPool,
}
use uubang_iot.ThreadPool.Invariant.{IsSound, Reachable-IsSound}
use uubang_iot.ThreadPool.Ring.{IsRing}
use uubang_iot.ThreadPool.Refine.{Op, adds, looks, fifo, fifo_run, pool_run, pool_run-fifo_run}

abbrev task : TaskData
task = record { task_func = 1; arg = 2 }

abbrev with_task : System
with_task = record (started 2 4 1) {
  pool = put_task (started 2 4 1).pool task;
  added = [] ++ (task ∷ []);
}

with_task-Reachable : Reachable 2 4 1 with_task
unfolding step task_add lib_thread_pool_init
with_task-Reachable = next (add task) initial refl

Reachable-IsSound_example : IsSound with_task
Reachable-IsSound_example =
    Reachable-IsSound 2 4 1 (omega arith) (omega arith) with_task with_task-Reachable

abbrev full : ThreadPool
unfolding lib_thread_pool_init
full = put_task (lib_thread_pool_init 2 4 1) task

abbrev full-IsRing : IsRing full
unfolding lib_thread_pool_init
full-IsRing = record {
  some_room = omega arith;
  places = refl;
  front = omega arith;
  fits = omega arith;
  rear = refl;
}

abbrev some_ops : List Op
some_ops = adds task ∷ looks ∷ adds task ∷ looks ∷ looks ∷ []

pool_run-fifo_run_example :
    (((pool_run some_ops full).0, fifo (pool_run some_ops full).1) ≡ fifo_run some_ops (fifo full))
    × IsRing (pool_run some_ops full).1
pool_run-fifo_run_example = pool_run-fifo_run some_ops full full-IsRing
