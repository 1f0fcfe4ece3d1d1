-- ===== src/Http/Lifecycle/Invariant.antt =====
-- src/http/server.cc: what holds of a server in every state.
use gabby.Base.{ℕ, true, false, [], ◌≡◌, refl, sym, ap, ◌∙◌, arith}
use gabby.Http.Lifecycle.{
  Owner, fresh, creating, awaiting, serving, destroying, joining, failed, writing, Server, Call,
  start, make_pool, make_no_pool, ready, wait, wait_ignored, destroy, destroy_joinable,
  destroy_wait, join, reset, stop, stop_ignored, notify, stopped, Step, call, listen, work,
  Reachable, init, next,
}
use gabby.Http.Lifecycle.Places.{
  in_loop, is_bound, is_exited, in_hand, is_fresh, has_pool, has_started, has_joined, is_closing,
  unsent, is_early, absent_eq, loop-bound,
}
use gabby.Http.Lifecycle.Handover.{
  HoldsPool-create, HoldsPool-close, HoldsPool-works, HoldsPool-owner, no_pool,
}
use gabby.Http.Lifecycle.Listening.{IsServer, Listen-IsServer}

-- The owner goes on, between two places with a pool or between two without one.
owner-IsServer :
    {n : ℕ} {s : Server} (o o' : Owner)
    → s.owner ≡ o
    → (is_fresh o ≡ false) × (is_fresh o' ≡ false)
    → (has_started o' ≡ true → is_bound s.listener ≡ true)
    → (has_joined o' ≡ true → is_exited s.listener ≡ true)
    → (has_pool o' ≡ has_pool o) × (is_closing o' ≡ is_closing o) × (is_early o' ≡ is_early o)
    → IsServer n s
    → IsServer n (record s { owner = o' })
owner-IsServer {n} {s} o o' e (f, f') b j (g, g', g'') v = record {
  loops = v.loops;
  started = cc v.started;
  bound = b;
  pool = HoldsPool-owner n o o' (in_hand s.listener) s.accepted s.pool g g' g'' (rw e at v.pool);
  joined = j;
  told = λ r h. v.told r (ap is_fresh e ∙ f);
}

-- `run_` is cleared, behind `running_`.
stop-IsServer :
    {n : ℕ} {s : Server} → IsServer n s → IsServer n (record s { run = false; stopper = writing })
stop-IsServer v = record {
  loops = v.loops;
  started = v.started;
  bound = v.bound;
  pool = v.pool;
  joined = v.joined;
  told = λ r h. omega arith;
}

Call-IsServer : {n : ℕ} {s t : Server} → Call n s t → IsServer n s → IsServer n t
Call-IsServer {n} (start s e) v =
    let l = absent_eq s.listener (v.started ∙ ap is_fresh e) in
    record {
      loops = v.loops ∙ ap in_loop l;
      started = refl;
      bound = λ h. cc;
      pool =
          HoldsPool-owner n fresh creating [] s.accepted s.pool refl refl refl
            (rw (e, l) at v.pool);
      joined = λ h. cc;
      told = λ r. cc;
    }
Call-IsServer {n} (make_pool s p e m) v = record {
  loops = v.loops;
  started = rw e at v.started;
  bound = λ h. cc;
  pool = HoldsPool-create n (in_hand s.listener) s.accepted s.pool p m (rw e at v.pool);
  joined = λ h. cc;
  told = λ r f. v.told r (ap is_fresh e);
}
Call-IsServer (make_no_pool s x e m) v =
    owner-IsServer creating failed e (refl, refl) (λ h. cc) (λ h. cc) (refl, refl, refl) v
Call-IsServer (ready s e r) v =
    owner-IsServer awaiting serving e (refl, refl) (λ h. loop-bound s.listener (sym v.loops ∙ r))
      (λ h. cc) (refl, refl, refl) v
Call-IsServer (wait s p e o) v =
    owner-IsServer serving joining e (refl, refl) (λ h. v.bound (ap has_started e)) (λ h. cc)
      (refl, refl, refl) v
Call-IsServer {n} (wait_ignored s e o) v =
    absurd (cc (no_pool n serving (in_hand s.listener) s.accepted (rw (e, o) at v.pool)))
Call-IsServer (destroy s e r f) v =
    owner-IsServer serving destroying e (refl, refl) (λ h. v.bound (ap has_started e)) (λ h. cc)
      (refl, refl, refl) (stop-IsServer v)
Call-IsServer (destroy_joinable s e r) v = record {
  loops = v.loops;
  started = v.started;
  bound = v.bound;
  pool = v.pool;
  joined = v.joined;
  told = v.told;
}
Call-IsServer (destroy_wait s e f) v =
    owner-IsServer destroying joining e (refl, refl) (λ h. v.bound (ap has_started e)) (λ h. cc)
      (refl, refl, refl) v
Call-IsServer {n} (join s p e l o free) v = record {
  loops = v.loops;
  started = rw e at v.started;
  bound = λ h. v.bound (ap has_started e);
  pool = HoldsPool-close n (in_hand s.listener) s.accepted p free (rw (e, o) at v.pool);
  joined = λ h. ap is_exited l;
  told = λ r h. v.told r (ap is_fresh e);
}
Call-IsServer (reset s p e o h) v = record {
  loops = v.loops;
  started = rw e at v.started;
  bound = λ h. v.bound (ap has_started e);
  pool = (refl, λ early. cc);
  joined = λ h. v.joined (ap has_joined e);
  told = λ r h. v.told r (ap is_fresh e);
}
Call-IsServer (stop s f r) v = stop-IsServer v
Call-IsServer (stop_ignored s f r) v = v
Call-IsServer (notify s w) v = record {
  loops = v.loops;
  started = v.started;
  bound = v.bound;
  pool = v.pool;
  joined = v.joined;
  told = λ r h. omega arith;
}
Call-IsServer (stopped s w r) v = record {
  loops = v.loops;
  started = v.started;
  bound = v.bound;
  pool = v.pool;
  joined = v.joined;
  told = λ r h. omega (arith, v.told r h, ap unsent w);
}

Step-IsServer : {n : ℕ} {s t : Server} → Step n s t → IsServer n s → IsServer n t
Step-IsServer (call on c) v = Call-IsServer c v
Step-IsServer (listen on l) v = Listen-IsServer l v
Step-IsServer {n} (work {s} {p} {q} on o w) v = record {
  loops = v.loops;
  started = v.started;
  bound = v.bound;
  pool = HoldsPool-works n s.owner (in_hand s.listener) s.accepted p q w (rw o at v.pool);
  joined = v.joined;
  told = v.told;
}

-- In every state of a server, whatever the interleaving of its owner, the caller of `Stop`, the
-- listener and the workers: `running_` is set exactly while the listener is in its loop; `Start` has
-- returned only where the socket is bound; from then until `Wait` returns there is a pool, in a state
-- of a pool of its own, that has been offered the clients accepted in the order of `accept`; the pool
-- ends and `Wait` returns only behind the end of the listener; and where `run_` has been cleared a
-- byte is in the pipe or will be.
pub Reachable-IsServer : {n port : ℕ} {s : Server} → Reachable n port s → IsServer n s
Reachable-IsServer init = record {
  loops = refl;
  started = refl;
  bound = λ h. cc;
  pool = (refl, λ h. refl);
  joined = λ h. cc;
  told = λ r h. cc;
}
Reachable-IsServer (next r s) = Step-IsServer s (Reachable-IsServer r)
