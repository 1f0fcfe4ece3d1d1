-- ===== src/Http/Lifecycle/Startup.antt =====
-- src/http/server.cc: a call of `Stop` while `Start` waits for the server to be ready, and the order
-- in which clients are served.
use gabby.Base.{false, ℕ, List, ◌++◌, ◌≡◌, ap, ◌∙◌, some}
use gabby.Pool.Model.{Pool}
use gabby.Pool.Order.{Reachable-IsPool}
use gabby.Http.Lifecycle.{
  exited, Owner, awaiting, Server, Call, start, make_pool, make_no_pool, ready, wait, wait_ignored,
  destroy, destroy_joinable, destroy_wait, join, reset, stop, stop_ignored, notify, stopped, Listen,
  bind, bind_fails, go_on, leave_loop, poll_client, poll_pipe, poll_fails, accept, accept_fails,
  offer, offer_nowhere, leave, call, listen, work, Runs, idle, then, Reachable,
}
use gabby.Http.Lifecycle.Places.{in_hand, in_loop}
use gabby.Http.Lifecycle.Handover.{HoldsPool}
use gabby.Http.Lifecycle.Invariant.{Reachable-IsServer}

-- `Start` waits for a listener that has left already.
abbrev Missed : Server → Type 0
Missed s = (s.owner ≡ awaiting) × (s.listener ≡ exited) × (s.running ≡ false)

Call-Missed : {n : ℕ} {s t : Server} → Call n s t → Missed s → Missed t
Call-Missed (start s e) (o, l, r) = cc
Call-Missed (make_pool s p e m) (o, l, r) = cc
Call-Missed (make_no_pool s x e m) (o, l, r) = cc
Call-Missed (ready s e h) (o, l, r) = cc
Call-Missed (wait s p e h) (o, l, r) = cc
Call-Missed (wait_ignored s e h) (o, l, r) = cc
Call-Missed (destroy s e h k) (o, l, r) = cc
Call-Missed (destroy_joinable s e h) (o, l, r) = cc
Call-Missed (destroy_wait s e k) (o, l, r) = cc
Call-Missed (join s p e m q h) (o, l, r) = cc
Call-Missed (reset s p e q h) (o, l, r) = cc
Call-Missed (stop s k h) m = m
Call-Missed (stop_ignored s k h) m = m
Call-Missed (notify s k) m = m
Call-Missed (stopped s k h) m = m

Listen-Missed : {s t : Server} → Listen s t → Missed s → Missed t
Listen-Missed (bind s port e) (o, l, r) = cc
Listen-Missed (bind_fails s e) m = m
Listen-Missed (go_on s e h) (o, l, r) = cc
Listen-Missed (leave_loop s e h) (o, l, r) = cc
Listen-Missed (poll_client s e) (o, l, r) = cc
Listen-Missed (poll_pipe s e h) (o, l, r) = cc
Listen-Missed (poll_fails s e) m = m
Listen-Missed (accept s c e) (o, l, r) = cc
Listen-Missed (accept_fails s e) m = m
Listen-Missed (offer s c p e q h) (o, l, r) = cc
Listen-Missed (offer_nowhere s c e q) m = m
Listen-Missed (leave s e) (o, l, r) = cc

Runs-Missed : {n : ℕ} {s t : Server} → Runs n s t → Missed s → Missed t
Runs-Missed idle m = m
Runs-Missed (then (call on c) hs) m = Runs-Missed hs (Call-Missed c m)
Runs-Missed (then (listen on l) hs) m = Runs-Missed hs (Listen-Missed l m)
Runs-Missed (then (work on o w) hs) m = Runs-Missed hs m

-- Where the listener has left its loop before `Start` has seen `running_` set, which a call of `Stop`
-- in that time brings about, `Start` never returns, whatever the threads do.
pub Runs-awaiting :
    {n port : ℕ} {s t : Server}
    → Reachable n port s
    → s.owner ≡ awaiting
    → s.listener ≡ exited
    → Runs n s t
    → t.owner ≡ awaiting
Runs-awaiting r o l hs = (Runs-Missed hs (o, l, (Reachable-IsServer r).loops ∙ ap in_loop l)).0

-- The clients of a pool: begun, in the queue, or in hand.
clients_of :
    (n : ℕ) (o : Owner) (hand clients : List ℕ) (p : Pool)
    → HoldsPool n o hand clients (some p)
    → p.begun ++ p.tasks ++ hand ≡ clients
clients_of n o hand clients p (h, r, d, e) = ap (λ l. l ++ hand) (Reachable-IsPool r).in_order ∙ e

-- In every state of a server with a pool, the clients accepted are, in the order of `accept`, those
-- whose handling has begun, those in the pool's queue, and the one in the listener's hand: none is
-- lost and none is served twice.
pub Reachable-clients :
    {n port : ℕ} {s : Server} {p : Pool}
    → Reachable n port s
    → s.pool ≡ some p
    → p.begun ++ p.tasks ++ in_hand s.listener ≡ s.accepted
Reachable-clients {n} {port} {s} {p} r e =
    clients_of n s.owner (in_hand s.listener) s.accepted p (rw e at (Reachable-IsServer r).pool)
