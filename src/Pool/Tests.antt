-- ===== src/Pool/Tests.antt =====
-- Runs of a pool of two workers.
use gabby.Base.{refl, true, false, [], ◌∷◌, ◌≡◌, arith}
use gabby.Pool.Model.{
  ready, asleep, running, Pool, work, sleep, notify_one, pool, here, there, offer, shut_down,
  take_task, Reachable, start, next,
}
use gabby.Pool.Order.{IsPool, Reachable-IsPool}
use gabby.Pool.Wakeups.{IsAwake, Reachable-IsAwake}
use gabby.Pool.Progress.{Drained, Reachable-Drained}
use gabby.Pool.Shutdown.{Joined, Reachable-Joined, Step-done}

-- The first worker sleeps; a task is offered, which wakes it; the second worker takes the task before
-- it does.
abbrev busy_pool : Pool
busy_pool = record {
  mux = true;
  done = false;
  tasks = [];
  threads = ready ∷ running 7 ∷ [];
  notices = 0;
  closing = false;
  offered = 7 ∷ [];
  begun = 7 ∷ [];
  finished = [];
}

run : Reachable 2 busy_pool
run =
    next
      (next
        (next (next start (work (sleep (pool 2) (asleep ∷ ready ∷ []) refl refl refl (here _))))
          (offer _ 7 refl))
        (work (notify_one _ 0 (ready ∷ ready ∷ []) refl (here _))))
      (work (take_task _ 7 [] (ready ∷ running 7 ∷ []) refl refl refl (there ready (here []))))

Reachable-IsPool_example : IsPool busy_pool
Reachable-IsPool_example = Reachable-IsPool run

Reachable-IsAwake_example : IsAwake 2 busy_pool
Reachable-IsAwake_example = Reachable-IsAwake (omega arith) run

Reachable-Drained_example : (q : Pool) × Drained busy_pool q
Reachable-Drained_example = Reachable-Drained (omega arith) run refl

-- Both workers sleep when a task is offered and, before its notice comes, the pool is destroyed.
abbrev closed_pool : Pool
closed_pool = record {
  mux = false;
  done = true;
  tasks = 7 ∷ [];
  threads = asleep ∷ asleep ∷ [];
  notices = 1;
  closing = true;
  offered = 7 ∷ [];
  begun = [];
  finished = [];
}

closed_run : Reachable 2 closed_pool
closed_run =
    next
      (next
        (next (next start (work (sleep (pool 2) (asleep ∷ ready ∷ []) refl refl refl (here _))))
          (work (sleep _ (asleep ∷ asleep ∷ []) refl refl refl (there asleep (here [])))))
        (offer _ 7 refl))
      (shut_down _ refl)

Reachable-Joined_example : (q : Pool) × Joined 2 closed_pool q
Reachable-Joined_example = Reachable-Joined (omega arith) closed_run refl

abbrev late_pool : Pool
late_pool = record closed_pool { tasks = 7 ∷ 8 ∷ []; notices = 2; offered = 7 ∷ 8 ∷ [] }

-- a task offered to the closed pool is not begun
late_pool_stays_closed : (late_pool.done ≡ true) × (late_pool.begun ≡ closed_pool.begun)
late_pool_stays_closed = Step-done (offer closed_pool 8 refl) refl
