-- ===== src/ThreadPool/Ring.antt =====
-- The ring of `threadPool_t` as a queue of tasks.
use uubang_iot.Base.{
  ℕ, zero, suc, ◌+◌, ◌-◌, ◌%◌, ◌≡◌, ◌≢◌, ◌≤◌, ◌<◌, ap, ap₂, ◌∙◌, sym, subst, List, [], ◌∷◌, ◌++◌,
  arith, length, set, get_or, get_or-set_self, get_or-set_ne, length-set,
}
use uubang_iot.Base.Rotation.{mod_twice, rotation_suc}
use uubang_iot.ThreadPool.{TaskData, no_task, ThreadPool, put_task, front_task, drop_task}

-- The next n tasks of a ring of `max` places, from place `front` on.
abbrev pub ring : ℕ → ℕ → ℕ → List TaskData → List TaskData
ring max zero front q = []
ring max (suc n) front q = get_or q front no_task ∷ ring max n ((front + 1) % max) q

-- The tasks that wait, oldest first.
abbrev pub queued : ThreadPool → List TaskData
queued pool = ring pool.queue_max_size pool.queue_size pool.queue_front pool.task_queue

-- The indices fit the size.
pub record IsRing (pool : ThreadPool) : Type 0 where
  pub some_room : 0 < pool.queue_max_size
  pub places : length pool.task_queue ≡ pool.queue_max_size
  pub front : pool.queue_front < pool.queue_max_size
  pub fits : pool.queue_size ≤ pool.queue_max_size
  pub rear : pool.queue_rear ≡ (pool.queue_front + pool.queue_size) % pool.queue_max_size

next_place : (max s : ℕ) → s < max → (s + 1) % max < max
next_place max s h = ground (arith, mod_twice (s + 1) max (omega arith) (omega arith))

-- A write n places further on adds a task at the end.
ring-set :
    (max n front : ℕ) (q : List TaskData) (t : TaskData)
    → length q ≡ max
    → front < max
    → n < max
    → ring max (suc n) front (set q ((front + n) % max) t) ≡ ring max n front q ++ (t ∷ [])
ring-set max zero front q t e h b = ground (
  arith,
  mod_twice (front + 0) max (omega arith) (omega arith),
  get_or-set_self q front t no_task (omega arith),
)
ring-set max (suc n) front q t e h b =
    ap₂ (◌∷◌) (get_or-set_ne q ((front + suc n) % max) front t no_task ne) (
      subst
        (λ x.
          ring max (suc n) ((front + 1) % max) (set q x t)
          ≡ ring max n ((front + 1) % max) q ++ (t ∷ []))
        (rotation_suc max front n h (omega arith))
        (ring-set max n ((front + 1) % max) q t e (next_place max front h) (omega arith)))
  where
    ne : (front + suc n) % max ≢ front
    ne = ground (arith, mod_twice (front + suc n) max (omega arith) (omega arith))

module _ (pool : ThreadPool) (r : IsRing pool) where
  pub put_task-IsRing :
      (t : TaskData) → pool.queue_size < pool.queue_max_size → IsRing (put_task pool t)
  put_task-IsRing t room = record {
    some_room = r.some_room;
    places = length-set pool.task_queue pool.queue_rear t ∙ r.places;
    front = r.front;
    fits = omega arith;
    rear = ground (
      arith,
      r.rear,
      mod_twice (pool.queue_front + pool.queue_size) pool.queue_max_size (omega arith)
          (omega (arith, r.front)),
      mod_twice ((pool.queue_front + pool.queue_size) % pool.queue_max_size + 1) pool.queue_max_size
          (omega arith) (omega (arith, r.rear, in_ring)),
      mod_twice (pool.queue_front + (pool.queue_size + 1)) pool.queue_max_size (omega arith)
          (omega (arith, r.front)),
    );
  }
    where
      in_ring : (pool.queue_front + pool.queue_size) % pool.queue_max_size < pool.queue_max_size
      in_ring = ground (
        arith,
        mod_twice (pool.queue_front + pool.queue_size) pool.queue_max_size (omega arith)
            (omega (arith, r.front)),
      )

  pub queued-put_task :
      (t : TaskData)
      → pool.queue_size < pool.queue_max_size
      → queued (put_task pool t) ≡ queued pool ++ (t ∷ [])
  queued-put_task t room =
      subst
        (λ x.
          ring pool.queue_max_size (pool.queue_size + 1) pool.queue_front (set pool.task_queue x t)
          ≡ queued pool ++ (t ∷ []))
        (sym r.rear)
        (ap
            (λ n.
              ring pool.queue_max_size n pool.queue_front (
                set pool.task_queue ((pool.queue_front + pool.queue_size) % pool.queue_max_size) t))
            {y = suc pool.queue_size} (omega arith)
          ∙ ring-set pool.queue_max_size pool.queue_size pool.queue_front pool.task_queue t r.places
              r.front room)

module _ (pool : ThreadPool) (r : IsRing pool) (some_task : 0 < pool.queue_size) where
  one_more : suc (pool.queue_size - 1) ≡ pool.queue_size
  one_more = omega arith

  pub drop_task-IsRing : IsRing (drop_task pool)
  drop_task-IsRing = record {
    some_room = r.some_room;
    places = r.places;
    front = next_place pool.queue_max_size pool.queue_front r.front;
    fits = omega (arith, r.fits);
    rear = ground (
      arith,
      r.rear,
      r.fits,
      rotation_suc pool.queue_max_size pool.queue_front (pool.queue_size - 1) r.front
          (omega (arith, r.fits)),
      ap (λ n. (pool.queue_front + n) % pool.queue_max_size) one_more,
    );
  }

  pub queued-drop_task : queued pool ≡ front_task pool ∷ queued (drop_task pool)
  queued-drop_task =
      ap (λ n. ring pool.queue_max_size n pool.queue_front pool.task_queue) (sym one_more)
