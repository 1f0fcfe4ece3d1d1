-- ===== src/Pool/Model.antt =====
-- src/http/thread_pool.cc, `ThreadPool`: the steps of the workers and of the threads that use the pool.
use gabby.Base.{
  ℕ, zero, suc, ltb, Bool, true, false, List, [], ◌∷◌, ◌++◌, ◌+◌, codes, ◌≡◌, if◌then◌else◌,
}
use gabby.Outcome.{Outcome, ok, throws, std_error}
use gabby.Json.Source.{Size, plus, minus}

-- A worker in `ThreadRun`: it wants the mutex, it sleeps in `cnd_.wait`, it holds the mutex and runs a
-- task, or it has left the loop. A worker that is woken takes the mutex again before it tests its
-- condition.
pub data Worker : Type 0 where
  ready : Worker
  asleep : Worker
  running : ℕ → Worker
  stopped : Worker

-- `class ThreadPool`, with the tasks as numbers. `notices` counts the calls of `Offer` that have let
-- go of the mutex and have not called `notify_one` yet; `closing` says that the destructor has set
-- `done_` and has not called `notify_all` yet. `begun` and `finished` are the tasks that workers have
-- called and that have returned, in that order; `offered` are those given to `Offer`.
pub record Pool : Type 0 where
  pub mux : Bool
  pub done : Bool
  pub tasks : List ℕ
  pub threads : List Worker
  pub notices : ℕ
  pub closing : Bool
  pub offered : List ℕ
  pub begun : List ℕ
  pub finished : List ℕ

abbrev pub workers : ℕ → List Worker
workers zero = []
workers (suc n) = ready ∷ workers n

-- the members of a pool whose threads have been started
abbrev pub pool : ℕ → Pool
pool num = record {
  mux = false;
  done = false;
  tasks = [];
  threads = workers num;
  notices = 0;
  closing = false;
  offered = [];
  begun = [];
  finished = [];
}

-- `ThreadPool(num)`: the vector of threads is made before `num` is tested.
unfoldable pub create : Size → Outcome Pool
create (minus n) = throws (std_error (codes "cannot create std::vector larger than max_size()"))
create (plus n) =
    if ltb n 1 then throws (std_error (codes "minimum thread pool size is 1")) else ok (pool n)

-- One worker goes from one state to another, the rest stay as they are.
pub data Moves (v w : Worker) : List Worker → List Worker → Type 0 where
  here : (ws : List Worker) → Moves v w (v ∷ ws) (w ∷ ws)
  there : (u : Worker) {ws us : List Worker} → Moves v w ws us → Moves v w (u ∷ ws) (u ∷ us)

abbrev pub wake : Worker → Worker
wake asleep = ready
wake w = w

abbrev pub wake_all : List Worker → List Worker
wake_all [] = []
wake_all (w ∷ ws) = wake w ∷ wake_all ws

abbrev pub is_asleep : Worker → ℕ
is_asleep asleep = 1
is_asleep _ = 0

abbrev pub is_stopped : Worker → ℕ
is_stopped stopped = 1
is_stopped _ = 0

-- the number of workers, each with a weight
abbrev pub weigh : (Worker → ℕ) → List Worker → ℕ
weigh f [] = 0
weigh f (w ∷ ws) = f w + weigh f ws

-- A step of the pool's own threads, or of a call that is under way. A worker keeps the mutex from
-- the time it takes a task until the task has returned.
pub data Work : Pool → Pool → Type 0 where
  take_task :
      (p : Pool) (t : ℕ) (rest : List ℕ) (ws : List Worker)
      → p.mux ≡ false
      → p.done ≡ false
      → p.tasks ≡ t ∷ rest
      → Moves ready (running t) p.threads ws
      → Work p (record p { mux = true; tasks = rest; threads = ws; begun = p.begun ++ t ∷ [] })
  return_task :
      (p : Pool) (t : ℕ) (ws : List Worker)
      → p.mux ≡ true
      → Moves (running t) ready p.threads ws
      → Work p (record p { mux = false; threads = ws; finished = p.finished ++ t ∷ [] })
  sleep :
      (p : Pool) (ws : List Worker)
      → p.mux ≡ false
      → p.done ≡ false
      → p.tasks ≡ []
      → Moves ready asleep p.threads ws
      → Work p (record p { threads = ws })
  spurious_wakeup :
      (p : Pool) (ws : List Worker)
      → Moves asleep ready p.threads ws
      → Work p (record p { threads = ws })
  notify_one :
      (p : Pool) (n : ℕ) (ws : List Worker)
      → p.notices ≡ suc n
      → Moves asleep ready p.threads ws
      → Work p (record p { notices = n; threads = ws })
  notify_nobody :
      (p : Pool) (n : ℕ)
      → p.notices ≡ suc n
      → weigh is_asleep p.threads ≡ 0
      → Work p (record p { notices = n })
  notify_all :
      (p : Pool)
      → p.closing ≡ true
      → Work p (record p { closing = false; threads = wake_all p.threads })
  leave :
      (p : Pool) (ws : List Worker)
      → p.mux ≡ false
      → p.done ≡ true
      → Moves ready stopped p.threads ws
      → Work p (record p { threads = ws })

-- A step of any thread: the calls of `Offer` and of the destructor take the mutex.
pub data Step : Pool → Pool → Type 0 where
  work : {p q : Pool} → Work p q → Step p q
  offer :
      (p : Pool) (t : ℕ)
      → p.mux ≡ false
      → Step p (record p {
        tasks = p.tasks ++ t ∷ [];
        notices = suc p.notices;
        offered = p.offered ++ t ∷ [];
      })
  shut_down : (p : Pool) → p.mux ≡ false → Step p (record p { done = true; closing = true })

pub data Reachable (n : ℕ) : Pool → Type 0 where
  start : Reachable n (pool n)
  next : {p q : Pool} → Reachable n p → Step p q → Reachable n q

-- The step is none that the pool cannot count on: nobody wakes a worker but a notification.
abbrev pub IsUnaided : {p q : Pool} → Work p q → Type 0
IsUnaided (spurious_wakeup p ws m) = ⊥
IsUnaided _ = Unit

-- The pool left to its own threads and to the notifications that are due.
pub data Works : Pool → Pool → Type 0 where
  idle : {p : Pool} → Works p p
  then : {p q r : Pool} (w : Work p q) → IsUnaided w → Works q r → Works p r
