-- ===== src/Pool/Shutdown.antt =====
-- src/http/thread_pool.cc, `~ThreadPool`: the threads can be joined, and what waits in the queue is
-- dropped.
use gabby.Base.{
  ℕ, zero, suc, ◌<◌, true, false, inl, inr, Bool-cases, List, [], ◌∷◌, ◌++◌, ◌≡◌, refl, ◌∙◌, arith,
}
use gabby.Pool.Model.{
  Worker, ready, asleep, running, stopped, Pool, here, wake_all, is_stopped, weigh, Work, take_task,
  return_task, sleep, spurious_wakeup, notify_one, notify_nobody, notify_all, leave, Step, work,
  offer, shut_down, Reachable, IsUnaided, Works, idle, then,
}
use gabby.Pool.Order.{busy, Holds, IsPool, Work-IsPool, Reachable-IsPool}
use gabby.Pool.Wakeups.{is_awake, IsAwake, Work-IsAwake, Reachable-IsAwake, weigh-move}
use gabby.Pool.Progress.{Movable, behind, runner}

-- Every thread has left its loop, no task was begun on the way, and what waited is not run.
pub record Joined (n : ℕ) (p q : Pool) : Type 0 where
  pub works : Works p q
  pub all_left : weigh is_stopped q.threads ≡ n
  pub no_new : q.begun ≡ p.begun
  pub dropped : q.tasks ≡ p.tasks

Joined-then :
    {n : ℕ} {p q r : Pool}
    → (w : Work p q) → IsUnaided w
    → q.begun ≡ p.begun
    → q.tasks ≡ p.tasks
    → Joined n q r
    → Joined n p r
Joined-then w i b t j = record {
  works = then w i j.works;
  all_left = j.all_left;
  no_new = j.no_new ∙ b;
  dropped = j.dropped ∙ t;
}

-- A worker that wants the mutex leaves.
ready_leaves : (ws : List Worker) → busy ws ≡ [] → 0 < weigh is_awake ws → Movable ready stopped ws
ready_leaves [] e h = absurd (omega arith)
ready_leaves (ready ∷ ws) e h = (stopped ∷ ws, here ws)
ready_leaves (asleep ∷ ws) e h = behind asleep (ready_leaves ws e (omega arith))
ready_leaves (running u ∷ ws) e h = cc
ready_leaves (stopped ∷ ws) e h = behind stopped (ready_leaves ws e (omega arith))

-- A pool that closes, with its mutex free.
record Closing (n : ℕ) (p : Pool) : Type 0 where
  pub free : p.mux ≡ false
  pub off : p.done ≡ true
  pub pool : IsPool p
  pub awake : IsAwake n p

nobody_runs : {n : ℕ} {p : Pool} → Closing n p → busy p.threads ≡ []
nobody_runs {n} {p} c = none (rw c.free at c.pool.serial)
  where
    none : Holds false (busy p.threads) p.begun p.finished → busy p.threads ≡ []
    none s = s.0

-- All have been notified: the workers leave one by one.
leave_all :
    {n : ℕ} (k : ℕ) (p : Pool)
    → weigh is_awake p.threads ≡ k
    → p.closing ≡ false
    → Closing n p
    → (q : Pool) × Joined n p q
leave_all zero p e told c = (
  p,
  record {
    works = idle;
    all_left = omega (arith, c.awake.everyone, c.awake.told c.off told);
    no_new = refl;
    dropped = refl;
  },
)
leave_all (suc k) p e told c =
    let (ws, m) = ready_leaves p.threads (nobody_runs c) (omega arith) in
    let w = leave p ws c.free c.off m in
    let (q, j) =
      leave_all k (record p { threads = ws }) (omega (arith, weigh-move is_awake m)) told
        (record {
          free = c.free;
          off = c.off;
          pool = Work-IsPool w c.pool;
          awake = Work-IsAwake w c.awake;
        }) in
    (q, Joined-then w tt refl refl j)

close_all : {n : ℕ} (p : Pool) → Closing n p → (q : Pool) × Joined n p q
close_all p c = elim (Bool-cases p.closing) [
  | inr told ↦ leave_all (weigh is_awake p.threads) p refl told c
  | inl closing ↦
      let w = notify_all p closing in
      let (q, j) =
        leave_all _ (record p { closing = false; threads = wake_all p.threads }) refl refl
          (record {
            free = c.free;
            off = c.off;
            pool = Work-IsPool w c.pool;
            awake = Work-IsAwake w c.awake;
          }) in
      (q, Joined-then w tt refl refl j)
]

-- From every state that a pool of one worker or more can be in once its destructor has set `done_`,
-- all its threads can leave their loops, so that the destructor can join them, without a spurious
-- wakeup. On the way no task is begun, and the tasks in the queue stay there: they are never run.
pub Reachable-Joined :
    {n : ℕ} {p : Pool} → 0 < n → Reachable n p → p.done ≡ true → (q : Pool) × Joined n p q
Reachable-Joined {n} {p} h r off = elim (Bool-cases p.mux) [
  | inr free ↦
      close_all p (record {
        free = free;
        off = off;
        pool = Reachable-IsPool r;
        awake = Reachable-IsAwake h r;
      })
  | inl held ↦ returns held (rw held at (Reachable-IsPool r).serial)
]
  where
    returns :
        p.mux ≡ true → Holds true (busy p.threads) p.begun p.finished → (q : Pool) × Joined n p q
    returns held (t, one, last) =
        let (ws, m) = runner t p.threads one in
        let w = return_task p t ws held m in
        let (q, j) =
          close_all (record p { mux = false; threads = ws; finished = p.finished ++ t ∷ [] })
            (record {
              free = refl;
              off = off;
              pool = Work-IsPool w (Reachable-IsPool r);
              awake = Work-IsAwake w (Reachable-IsAwake h r);
            }) in
        (q, Joined-then w tt refl refl j)

-- Once `done_` is set it stays set and no task is begun, whatever any thread does.
pub Step-done : {p q : Pool} → Step p q → p.done ≡ true → (q.done ≡ true) × (q.begun ≡ p.begun)
Step-done (work (take_task p t rest ws free on h m)) d = cc
Step-done (work (return_task p t ws held m)) d = (d, refl)
Step-done (work (sleep p ws free on none m)) d = (d, refl)
Step-done (work (spurious_wakeup p ws m)) d = (d, refl)
Step-done (work (notify_one p n ws some m)) d = (d, refl)
Step-done (work (notify_nobody p n some e)) d = (d, refl)
Step-done (work (notify_all p c)) d = (d, refl)
Step-done (work (leave p ws free off m)) d = (d, refl)
Step-done (offer p t free) d = (d, refl)
Step-done (shut_down p free) d = (refl, refl)
