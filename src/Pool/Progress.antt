-- ===== src/Pool/Progress.antt =====
-- src/http/thread_pool.cc: the pool's own threads can always go on until the work is done.
use gabby.Base.{
  ℕ, zero, suc, ◌<◌, true, false, inl, inr, Bool-cases, List, [], ◌∷◌, ◌++◌, length, ◌≡◌, refl, sym,
  subst, ap, ◌∙◌, arith, append-nil,
}
use gabby.Pool.Model.{
  Worker, ready, asleep, running, stopped, Pool, Moves, here, there, is_asleep, weigh, Work,
  take_task, return_task, notify_one, Reachable, IsUnaided, Works, idle, then,
}
use gabby.Pool.Order.{busy, Holds, IsPool, Work-IsPool, Reachable-IsPool}
use gabby.Pool.Wakeups.{is_awake, IsAwake, Work-IsAwake, Reachable-IsAwake, weigh-move}

-- A worker that can move from `v` to `w`.
abbrev pub Movable : Worker → Worker → List Worker → Type 0
Movable v w ws = (us : List Worker) × Moves v w ws us

pub behind : {v w : Worker} (u : Worker) {ws : List Worker} → Movable v w ws → Movable v w (u ∷ ws)
behind u (us, m) = (u ∷ us, there u m)

ready_worker :
    (t : ℕ) (ws : List Worker) → busy ws ≡ [] → 0 < weigh is_awake ws → Movable ready (running t) ws
ready_worker t [] e h = absurd (omega arith)
ready_worker t (ready ∷ ws) e h = (running t ∷ ws, here ws)
ready_worker t (asleep ∷ ws) e h = behind asleep (ready_worker t ws e (omega arith))
ready_worker t (running u ∷ ws) e h = cc
ready_worker t (stopped ∷ ws) e h = behind stopped (ready_worker t ws e (omega arith))

sleeper : (ws : List Worker) → 0 < weigh is_asleep ws → Movable asleep ready ws
sleeper [] h = absurd (omega arith)
sleeper (asleep ∷ ws) h = (ready ∷ ws, here ws)
sleeper (ready ∷ ws) h = behind ready (sleeper ws (omega arith))
sleeper (running u ∷ ws) h = behind (running u) (sleeper ws (omega arith))
sleeper (stopped ∷ ws) h = behind stopped (sleeper ws (omega arith))

pub runner : (t : ℕ) (ws : List Worker) → busy ws ≡ t ∷ [] → Movable (running t) ready ws
runner t [] e = cc
runner t (ready ∷ ws) e = behind ready (runner t ws e)
runner t (asleep ∷ ws) e = behind asleep (runner t ws e)
runner t (stopped ∷ ws) e = behind stopped (runner t ws e)
runner t (running u ∷ ws) e =
    let same : u ≡ t = cc in
    subst (λ s. Movable (running s) ready (running u ∷ ws)) same (ready ∷ ws, here ws)

-- An open pool between two tasks.
record Free (n : ℕ) (p : Pool) : Type 0 where
  pub free : p.mux ≡ false
  pub on : p.done ≡ false
  pub pool : IsPool p
  pub awake : IsAwake n p

-- Where the pool's threads can take it.
record Leads (n : ℕ) (tasks offered : List ℕ) (p : Pool) : Type 0 where
  pub end : Pool
  pub works : Works p end
  pub settled : Free n end
  pub same_tasks : end.tasks ≡ tasks
  pub same_offered : end.offered ≡ offered

Leads-then :
    {n : ℕ} {tasks offered : List ℕ} {p q : Pool}
    → (w : Work p q) → IsUnaided w
    → Leads n tasks offered q
    → Leads n tasks offered p
Leads-then w i l = record {
  end = l.end;
  works = then w i l.works;
  settled = l.settled;
  same_tasks = l.same_tasks;
  same_offered = l.same_offered;
}

-- The task that runs returns.
let_go :
    {n : ℕ} (p : Pool)
    → p.mux ≡ true
    → p.done ≡ false
    → IsPool p
    → IsAwake n p
    → Leads n p.tasks p.offered p
let_go {n} p held on v a = from (rw held at v.serial)
  where
    from : Holds true (busy p.threads) p.begun p.finished → Leads n p.tasks p.offered p
    from (t, one, last) =
        let (ws, m) = runner t p.threads one in
        let w = return_task p t ws held m in
        record {
          end = record p { mux = false; threads = ws; finished = p.finished ++ t ∷ [] };
          works = then w tt idle;
          settled = record {
            free = refl;
            on = on;
            pool = Work-IsPool w v;
            awake = Work-IsAwake w a;
          };
          same_tasks = refl;
          same_offered = refl;
        }

-- With a worker awake, the next task is taken, and it returns.
take_awake :
    {n : ℕ} (p : Pool) (t : ℕ) (rest : List ℕ)
    → Free n p
    → p.tasks ≡ t ∷ rest
    → 0 < weigh is_awake p.threads
    → Leads n rest p.offered p
take_awake {n} p t rest f h some_awake =
    let (ws, m) = ready_worker t p.threads (nobody_runs (rw f.free at f.pool.serial)) some_awake in
    let w = take_task p t rest ws f.free f.on h m in
    Leads-then w tt (
      let_go (record p { mux = true; tasks = rest; threads = ws; begun = p.begun ++ t ∷ [] }) refl
        f.on (Work-IsPool w f.pool) (Work-IsAwake w f.awake))
  where
    nobody_runs : Holds false (busy p.threads) p.begun p.finished → busy p.threads ≡ []
    nobody_runs s = s.0

-- Where all sleep, the notice of the task wakes one.
take_next :
    {n : ℕ} (p : Pool) (t : ℕ) (rest : List ℕ)
    → Free n p
    → p.tasks ≡ t ∷ rest
    → Leads n rest p.offered p
take_next {n} p t rest f h = by_awake (weigh is_awake p.threads) refl
  where
    by_notice : (k : ℕ) → weigh is_awake p.threads ≡ 0 → p.notices ≡ k → Leads n rest p.offered p
    by_notice zero none e = absurd (omega (arith, f.awake.served f.on (omega (arith, ap length h))))
    by_notice (suc k) none e =
        let (ws, m) =
          sleeper p.threads
            (omega (arith, f.awake.everyone, f.awake.nobody_left f.on, f.awake.somebody)) in
        let w = notify_one p k ws e m in
        Leads-then w tt (
          take_awake (record p { notices = k; threads = ws }) t rest
            (record {
              free = f.free;
              on = f.on;
              pool = Work-IsPool w f.pool;
              awake = Work-IsAwake w f.awake;
            })
            h (omega (arith, weigh-move is_awake m)))

    by_awake : (a : ℕ) → weigh is_awake p.threads ≡ a → Leads n rest p.offered p
    by_awake zero e = by_notice p.notices e refl
    by_awake (suc a) e = take_awake p t rest f h (omega arith)

Works-append : {p q r : Pool} → Works p q → Works q r → Works p r
Works-append idle v = v
Works-append (then w i u) v = then w i (Works-append u v)

drain : {n : ℕ} (ts : List ℕ) (p : Pool) → Free n p → p.tasks ≡ ts → Leads n [] p.offered p
drain [] p f e = record { end = p; works = idle; settled = f; same_tasks = e; same_offered = refl }
drain (t ∷ ts) p f e =
    let l = take_next p t ts f e in
    let d = drain ts l.end l.settled l.same_tasks in
    record {
      end = d.end;
      works = Works-append l.works d.works;
      settled = d.settled;
      same_tasks = d.same_tasks;
      same_offered = d.same_offered ∙ l.same_offered;
    }

-- All the tasks offered have been run, in the order of the offers.
pub record Drained (p q : Pool) : Type 0 where
  pub works : Works p q
  pub no_tasks : q.tasks ≡ []
  pub all_done : q.finished ≡ p.offered

Leads-Drained :
    {n : ℕ} (p : Pool) (offered : List ℕ)
    → p.offered ≡ offered
    → Leads n [] offered p
    → (q : Pool) × Drained p q
Leads-Drained p offered e l = (
  l.end,
  record {
    works = l.works;
    no_tasks = l.same_tasks;
    all_done = finished (rw l.settled.free at l.settled.pool.serial) ∙ l.same_offered ∙ sym e;
  },
)
  where
    finished :
        Holds false (busy l.end.threads) l.end.begun l.end.finished → l.end.finished ≡ l.end.offered
    finished s =
        sym s.1
        ∙ sym (append-nil l.end.begun)
        ∙ ap (◌++◌ l.end.begun) (sym l.same_tasks)
        ∙ l.settled.pool.in_order

-- However an open pool of one worker or more got where it is, its own threads and the notifications that
-- are due can take it to where every task that was offered has been run, in order, without a spurious
-- wakeup: no task is stuck behind sleeping workers or a mutex that is not let go.
pub Reachable-Drained :
    {n : ℕ} {p : Pool} → 0 < n → Reachable n p → p.done ≡ false → (q : Pool) × Drained p q
Reachable-Drained {n} {p} h r on = elim (Bool-cases p.mux) [
  | inr free ↦ Leads-Drained p p.offered refl (drain p.tasks p (between free) refl)
  | inl held ↦
      let l = let_go p held on (Reachable-IsPool r) (Reachable-IsAwake h r) in
      let d = drain l.end.tasks l.end l.settled refl in
      Leads-Drained p p.offered refl (record {
        end = d.end;
        works = Works-append l.works d.works;
        settled = d.settled;
        same_tasks = d.same_tasks;
        same_offered = d.same_offered ∙ l.same_offered;
      })
]
  where
    between : p.mux ≡ false → Free n p
    between free = record {
      free = free;
      on = on;
      pool = Reachable-IsPool r;
      awake = Reachable-IsAwake h r;
    }
