-- ===== src/Http/Lifecycle.antt =====
-- src/http/server.cc, `HttpServer`: the steps of its threads from `Start` to the end of `Wait`. The
-- thread that owns the server calls `Start`, then `Wait` or the destructor; `Stop` is called by a
-- signal handler at any time. A server is started once.
use gabby.Base.{ℕ, suc, ◌<◌, Bool, true, false, List, [], ◌∷◌, ◌++◌, ◌≡◌, Option, none, some}
use gabby.Outcome.{Exception, throws, ok}
use gabby.Json.Source.{plus}
use gabby.Pool.Model.{Pool, create, Work, is_stopped, weigh}
pub mod Places
pub mod Handover
pub mod Listening
pub mod Invariant
pub mod Closing
pub mod Leads
pub mod Shutdown
pub mod Startup
pub mod Served
mod Tests

-- Where the listener thread is in `Listen`: before `bind`, at the test of `run_`, in `poll`, in
-- `accept`, before the call of `Offer` with a client, behind the loop, or at its end.
pub data Listener : Type 0 where
  absent binding testing polling accepting leaving exited : Listener
  offering : ℕ → Listener

-- Where the owner of the server is: before `Start`, in it before the pool is made and then at
-- `running_.wait(false)`; between `Start` and `Wait`; in the destructor, at its call of `Stop`; in
-- `Wait` at `join` and at the end of the pool; behind `Wait`; or thrown out of `Start`.
pub data Owner : Type 0 where
  fresh creating awaiting serving destroying joining closing finished failed : Owner

-- Where the call of `Stop` is: there is none, it is about to write to the pipe, or it waits.
pub data Stopper : Type 0 where
  nobody writing waiting : Stopper

-- The members of `HttpServer`, and where its threads are. `pipe` is the number of bytes in the pipe,
-- `accepted` the clients so far; `over` says that the process has ended.
pub record Server : Type 0 where
  pub run : Bool
  pub running : Bool
  pub pipe : ℕ
  pub port : ℕ
  pub listener : Listener
  pub owner : Owner
  pub stopper : Stopper
  pub pool : Option Pool
  pub accepted : List ℕ
  pub over : Bool

-- `HttpServer(config)`
abbrev pub server : ℕ → Server
server port = record {
  run = false;
  running = false;
  pipe = 0;
  port = port;
  listener = absent;
  owner = fresh;
  stopper = nobody;
  pool = none;
  accepted = [];
  over = false;
}

-- What the owner's thread and the caller of `Stop` do. `n` is `config_.worker_threads`, below 2^31. A
-- call of `running_.wait` goes on once the value has changed: each change is followed by a
-- notification.
pub data Call (n : ℕ) : Server → Server → Type 0 where
  start :
      (s : Server)
      → s.owner ≡ fresh
      → Call n s (record s { run = true; listener = binding; owner = creating })
  make_pool :
      (s : Server) (p : Pool)
      → s.owner ≡ creating
      → create (plus n) ≡ ok p
      → Call n s (record s { pool = some p; owner = awaiting })
  make_no_pool :
      (s : Server) (e : Exception)
      → s.owner ≡ creating
      → create (plus n) ≡ throws e
      → Call n s (record s { owner = failed })
  ready :
      (s : Server) → s.owner ≡ awaiting → s.running ≡ true → Call n s (record s { owner = serving })
  wait :
      (s : Server) (p : Pool)
      → s.owner ≡ serving
      → s.pool ≡ some p
      → Call n s (record s { owner = joining })
  wait_ignored :
      (s : Server) → s.owner ≡ serving → s.pool ≡ none → Call n s (record s { owner = finished })
  destroy :
      (s : Server)
      → s.owner ≡ serving
      → s.running ≡ true
      → s.stopper ≡ nobody
      → Call n s (record s { run = false; stopper = writing; owner = destroying })
  destroy_joinable :
      (s : Server) → s.owner ≡ serving → s.running ≡ false → Call n s (record s { over = true })
  destroy_wait :
      (s : Server)
      → s.owner ≡ destroying
      → s.stopper ≡ nobody
      → Call n s (record s { owner = joining })
  join :
      (s : Server) (p : Pool)
      → s.owner ≡ joining
      → s.listener ≡ exited
      → s.pool ≡ some p
      → p.mux ≡ false
      → Call n s
          (record s { owner = closing; pool = some (record p { done = true; closing = true }) })
  reset :
      (s : Server) (p : Pool)
      → s.owner ≡ closing
      → s.pool ≡ some p
      → weigh is_stopped p.threads ≡ n
      → Call n s (record s { owner = finished; pool = none })
  stop :
      (s : Server)
      → s.stopper ≡ nobody
      → s.running ≡ true
      → Call n s (record s { run = false; stopper = writing })
  stop_ignored : (s : Server) → s.stopper ≡ nobody → s.running ≡ false → Call n s s
  notify :
      (s : Server)
      → s.stopper ≡ writing
      → Call n s (record s { pipe = suc s.pipe; stopper = waiting })
  stopped :
      (s : Server)
      → s.stopper ≡ waiting
      → s.running ≡ false
      → Call n s (record s { stopper = nobody })

-- What the listener does. An exception leaves its thread and ends the process, and so does `Offer`
-- where there is no pool.
pub data Listen : Server → Server → Type 0 where
  bind :
      (s : Server) (port : ℕ)
      → s.listener ≡ binding
      → Listen s (record s { port = port; running = true; listener = testing })
  bind_fails : (s : Server) → s.listener ≡ binding → Listen s (record s { over = true })
  go_on :
      (s : Server)
      → s.listener ≡ testing
      → s.run ≡ true
      → Listen s (record s { listener = polling })
  leave_loop :
      (s : Server)
      → s.listener ≡ testing
      → s.run ≡ false
      → Listen s (record s { listener = leaving })
  poll_client : (s : Server) → s.listener ≡ polling → Listen s (record s { listener = accepting })
  poll_pipe :
      (s : Server) → s.listener ≡ polling → 0 < s.pipe → Listen s (record s { listener = testing })
  poll_fails : (s : Server) → s.listener ≡ polling → Listen s (record s { over = true })
  accept :
      (s : Server) (c : ℕ)
      → s.listener ≡ accepting
      → Listen s (record s { listener = offering c; accepted = s.accepted ++ c ∷ [] })
  accept_fails : (s : Server) → s.listener ≡ accepting → Listen s (record s { over = true })
  offer :
      (s : Server) (c : ℕ) (p : Pool)
      → s.listener ≡ offering c
      → s.pool ≡ some p
      → p.mux ≡ false
      → Listen s (record s {
        listener = testing;
        pool = some (record p {
          tasks = p.tasks ++ c ∷ [];
          notices = suc p.notices;
          offered = p.offered ++ c ∷ [];
        });
      })
  offer_nowhere :
      (s : Server) (c : ℕ)
      → s.listener ≡ offering c
      → s.pool ≡ none
      → Listen s (record s { over = true })
  leave :
      (s : Server)
      → s.listener ≡ leaving
      → Listen s (record s { running = false; listener = exited })

-- A step of any thread, while the process lasts.
pub data Step (n : ℕ) : Server → Server → Type 0 where
  call : {s t : Server} → s.over ≡ false → Call n s t → Step n s t
  listen : {s t : Server} → s.over ≡ false → Listen s t → Step n s t
  work :
      {s : Server} {p q : Pool}
      → s.over ≡ false
      → s.pool ≡ some p
      → Work p q
      → Step n s (record s { pool = some q })

pub data Runs (n : ℕ) : Server → Server → Type 0 where
  idle : {s : Server} → Runs n s s
  then : {s t u : Server} → Step n s t → Runs n t u → Runs n s u

pub data Reachable (n port : ℕ) : Server → Type 0 where
  init : Reachable n port (server port)
  next : {s t : Server} → Reachable n port s → Step n s t → Reachable n port t
