-- ===== src/Http/Lifecycle/Tests.antt =====
-- Runs of a server of one worker.
use gabby.Base.{suc, ◌≤◌, true, false, [], ◌∷◌, ◌++◌, length, ◌≡◌, refl, arith, some}
use gabby.Pool.Model.{Pool, create}
use gabby.Pool.Model as Model
use gabby.Http.Lifecycle.{
  testing, polling, exited, offering, creating, awaiting, serving, waiting, Server, server, start,
  make_pool, ready, stop, notify, stopped, bind, go_on, leave_loop, poll_client, accept, offer,
  offer_nowhere, leave, call, listen, Runs, Reachable, init, next, idle, then,
}
use gabby.Http.Lifecycle.Listening.{IsServer}
use gabby.Http.Lifecycle.Invariant.{Reachable-IsServer}
use gabby.Http.Lifecycle.Closing.{Runs-accepted}
use gabby.Http.Lifecycle.Shutdown.{IsFinished, Reachable-IsFinished}
use gabby.Http.Lifecycle.Served.{IsServed, Reachable-IsServed}
use gabby.Http.Lifecycle.Leads.{Unaided}
use gabby.Http.Lifecycle.Startup.{Runs-awaiting, Reachable-clients}

-- A client is accepted between `Start` and `Stop`, while the listener is in `poll`.
abbrev stopping : Server
stopping = record {
  run = false;
  running = true;
  pipe = 1;
  port = 8080;
  listener = polling;
  owner = serving;
  stopper = waiting;
  pool = some (record (Model.pool 1) { tasks = 5 ∷ []; notices = 1; offered = 5 ∷ [] });
  accepted = 5 ∷ [];
  over = false;
}

made : Reachable 1 8080 (record (server 8080) {
  run = true;
  running = true;
  listener = testing;
  owner = awaiting;
  pool = some (Model.pool 1);
})
unfolding create
made =
    next
      (next (next init (call refl (start _ refl)))
        (call refl (make_pool _ (Model.pool 1) refl refl)))
      (listen refl (bind _ 8080 refl))

stopping_run : Reachable 1 8080 stopping
stopping_run =
    next
      (next
        (next
          (next
            (next
              (next
                (next (next made (call refl (ready _ refl refl))) (listen refl (go_on _ refl refl)))
                (listen refl (poll_client _ refl)))
              (listen refl (accept _ 5 refl)))
            (listen refl (offer _ 5 (Model.pool 1) refl refl refl)))
          (listen refl (go_on _ refl refl)))
        (call refl (stop _ refl refl)))
      (call refl (notify _ refl))

Reachable-IsServer_example : IsServer 1 stopping
Reachable-IsServer_example = Reachable-IsServer stopping_run

Reachable-IsFinished_example : (t : Server) × IsFinished 1 stopping t
Reachable-IsFinished_example = Reachable-IsFinished (omega arith) stopping_run refl refl refl refl

Reachable-clients_example : [] ++ 5 ∷ [] ++ [] ≡ stopping.accepted
Reachable-clients_example = Reachable-clients stopping_run refl

Reachable-IsServed_example : (t : Server) × Unaided 1 stopping t × IsServed (5 ∷ []) t
Reachable-IsServed_example = Reachable-IsServed (omega arith) stopping_run refl refl refl

-- one client more is accepted
abbrev stopped_late : Server
stopped_late = record stopping { listener = offering 6; accepted = 5 ∷ 6 ∷ [] }

one_more : Runs 1 stopping stopped_late
one_more =
    then (listen refl (poll_client stopping refl)) (then (listen refl (accept _ 6 refl)) idle)

Runs-accepted_example :
    (stopped_late.run ≡ false) × (length stopped_late.accepted ≤ suc (length stopping.accepted))
Runs-accepted_example = Runs-accepted one_more refl refl

-- `Stop` is called, and returns, while `Start` waits.
abbrev missed : Server
missed = record (server 8080) {
  pipe = 1;
  listener = exited;
  owner = awaiting;
  pool = some (Model.pool 1);
}

missed_run : Reachable 1 8080 missed
missed_run =
    next
      (next
        (next (next (next made (call refl (stop _ refl refl))) (call refl (notify _ refl)))
          (listen refl (leave_loop _ refl refl)))
        (listen refl (leave _ refl)))
      (call refl (stopped _ refl refl))

Runs-awaiting_example : missed.owner ≡ awaiting
Runs-awaiting_example = Runs-awaiting missed_run refl refl idle

-- A client that connects before the pool is made ends the process.
early_client : Reachable 1 8080 (record (server 8080) {
  run = true;
  running = true;
  listener = offering 5;
  owner = creating;
  accepted = 5 ∷ [];
  over = true;
})
early_client =
    next
      (next
        (next
          (next (next (next init (call refl (start _ refl))) (listen refl (bind _ 8080 refl)))
            (listen refl (go_on _ refl refl)))
          (listen refl (poll_client _ refl)))
        (listen refl (accept _ 5 refl)))
      (listen refl (offer_nowhere _ 5 refl refl))
