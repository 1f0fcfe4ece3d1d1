-- ===== src/Http/Lifecycle/Closing.antt =====
-- src/http/server.cc: how many clients the loop of `Listen` accepts once `Stop` has cleared `run_`.
use gabby.Base.{ℕ, suc, ◌+◌, ◌≤◌, false, ◌∷◌, [], length, length-append, ◌≡◌, ap, arith}
use gabby.Http.Lifecycle.{
  Listener, absent, binding, testing, polling, accepting, leaving, exited, offering, Server, Call,
  start, make_pool, make_no_pool, ready, wait, wait_ignored, destroy, destroy_joinable,
  destroy_wait, join, reset, stop, stop_ignored, notify, stopped, Listen, bind, bind_fails, go_on,
  leave_loop, poll_client, poll_pipe, poll_fails, accept, accept_fails, offer, offer_nowhere, leave,
  Step, call, listen, work, Runs, idle, then,
}
use gabby.Http.Lifecycle.Places.{is_fresh}

-- whether one client more is accepted before `run_` is tested
abbrev pub spare : Listener → ℕ
spare polling = 1
spare accepting = 1
spare _ = 0

-- `run_` has been cleared.
abbrev pub Cleared : Server → Type 0
Cleared s = (s.run ≡ false) × (is_fresh s.owner ≡ false)

-- It stays so, and no place for a client more is made.
abbrev Closes : Server → Server → Type 0
Closes s t =
    Cleared t × (length t.accepted + spare t.listener ≤ length s.accepted + spare s.listener)

Call-Closes : {n : ℕ} {s t : Server} → Call n s t → Cleared s → Closes s t
Call-Closes (start s e) (r, f) = cc
Call-Closes (make_pool s p e m) (r, f) = ((r, cc), omega arith)
Call-Closes (make_no_pool s x e m) (r, f) = ((r, cc), omega arith)
Call-Closes (ready s e h) (r, f) = ((r, cc), omega arith)
Call-Closes (wait s p e o) (r, f) = ((r, cc), omega arith)
Call-Closes (wait_ignored s e o) (r, f) = ((r, cc), omega arith)
Call-Closes (destroy s e h k) (r, f) = ((cc, cc), omega arith)
Call-Closes (destroy_joinable s e h) (r, f) = ((r, f), omega arith)
Call-Closes (destroy_wait s e k) (r, f) = ((r, cc), omega arith)
Call-Closes (join s p e l o h) (r, f) = ((r, cc), omega arith)
Call-Closes (reset s p e o h) (r, f) = ((r, cc), omega arith)
Call-Closes (stop s k h) (r, f) = ((cc, f), omega arith)
Call-Closes (stop_ignored s k h) (r, f) = ((r, f), omega arith)
Call-Closes (notify s k) (r, f) = ((r, f), omega arith)
Call-Closes (stopped s k h) (r, f) = ((r, f), omega arith)

Listen-Closes : {s t : Server} → Listen s t → Cleared s → Closes s t
Listen-Closes (bind s port l) c = (c, omega (arith, ap spare l))
Listen-Closes (bind_fails s l) c = (c, omega arith)
Listen-Closes (go_on s l h) (r, f) = cc
Listen-Closes (leave_loop s l h) c = (c, omega (arith, ap spare l))
Listen-Closes (poll_client s l) c = (c, omega (arith, ap spare l))
Listen-Closes (poll_pipe s l h) c = (c, omega (arith, ap spare l))
Listen-Closes (poll_fails s l) c = (c, omega arith)
Listen-Closes (accept s x l) c = (c, omega (arith, ap spare l, length-append s.accepted (x ∷ [])))
Listen-Closes (accept_fails s l) c = (c, omega arith)
Listen-Closes (offer s x p l o h) c = (c, omega (arith, ap spare l))
Listen-Closes (offer_nowhere s x l o) c = (c, omega arith)
Listen-Closes (leave s l) c = (c, omega (arith, ap spare l))

Step-Closes : {n : ℕ} {s t : Server} → Step n s t → Cleared s → Closes s t
Step-Closes (call on h) c = Call-Closes h c
Step-Closes (listen on h) c = Listen-Closes h c
Step-Closes (work on o w) c = (c, omega arith)

Runs-Closes : {n : ℕ} {s t : Server} → Runs n s t → Cleared s → Closes s t
Runs-Closes idle c = (c, omega arith)
Runs-Closes (then h hs) c =
    let (c', le) = Step-Closes h c in let (c'', le') = Runs-Closes hs c' in (c'', omega arith)

spare-bound : (l : Listener) → spare l ≤ 1
spare-bound absent = omega arith
spare-bound binding = omega arith
spare-bound testing = omega arith
spare-bound polling = omega arith
spare-bound accepting = omega arith
spare-bound leaving = omega arith
spare-bound exited = omega arith
spare-bound (offering c) = omega arith

-- Once `run_` has been cleared, by `Stop` or by the destructor, it stays cleared, and the server
-- accepts at most one client more, whatever all its threads do from there.
pub Runs-accepted :
    {n : ℕ} {s t : Server}
    → Runs n s t
    → s.run ≡ false
    → is_fresh s.owner ≡ false
    → (t.run ≡ false) × (length t.accepted ≤ suc (length s.accepted))
Runs-accepted {n} {s} {t} h r f =
    let ((r', f'), le) = Runs-Closes h (r, f) in (r', omega (arith, spare-bound s.listener))
