-- ===== src/Http/Lifecycle/Shutdown.antt =====
-- src/http/server.cc: `Stop` and `Wait` come to their ends.
use gabby.Base.{ℕ, ◌<◌, true, false, List, ◌≡◌, refl, ap, ◌∙◌, Option, none, some, arith}
use gabby.Pool.Model.{Pool}
use gabby.Pool.Shutdown.{Reachable-Joined}
use gabby.Http.Lifecycle.{
  Listener, absent, binding, testing, polling, accepting, leaving, exited, offering, Owner, fresh,
  creating, awaiting, serving, destroying, joining, closing, finished, failed, Stopper, nobody,
  writing, waiting, Server, wait, destroy_wait, join, reset, notify, stopped, leave_loop, poll_pipe,
  accept, offer, leave, call, listen, Reachable,
}
use gabby.Http.Lifecycle.Places.{in_loop, has_started, has_pool, is_bound, is_fresh, unsent}
use gabby.Http.Lifecycle.Handover.{HoldsPool}
use gabby.Http.Lifecycle.Leads.{
  At, Unaided, idle_on, Leads, along, and_then, works, its_pool, free_pool, moves,
}
use gabby.Http.Lifecycle.Listening.{IsServer}
use gabby.Http.Lifecycle.Invariant.{Reachable-IsServer}

abbrev Exits : ℕ → ℕ → Owner → Stopper → Server → Type 0
Exits n port o k s = Leads n s (At n port o exited k)

started-fresh : (o : Owner) → has_started o ≡ true → is_fresh o ≡ false
started-fresh fresh h = cc
started-fresh creating h = refl
started-fresh awaiting h = refl
started-fresh serving h = refl
started-fresh destroying h = refl
started-fresh joining h = refl
started-fresh closing h = refl
started-fresh finished h = refl
started-fresh failed h = refl

module _ {n port : ℕ} where
  module _ {o : Owner} {k : Stopper} (has : has_pool o ≡ true) where
    exit_leaving : {s : Server} → At n port o leaving k s → Exits n port o k s
    exit_leaving {s} a =
        let h = listen a.alive (leave s a.listener) in
        along h tt (_, idle_on, moves h a.reach (a.alive, a.off, a.owner, refl, a.stopper))

    exit_testing : {s : Server} → At n port o testing k s → Exits n port o k s
    exit_testing {s} a =
        let h = listen a.alive (leave_loop s a.listener a.off) in
        along h tt (exit_leaving (moves h a.reach (a.alive, a.off, a.owner, refl, a.stopper)))

    exit_polling :
        {s : Server}
        → is_fresh o ≡ false
        → unsent k ≡ 0
        → At n port o polling k s
        → Exits n port o k s
    exit_polling {s} f u a =
        let woken = (Reachable-IsServer a.reach).told a.off (ap is_fresh a.owner ∙ f) in
        let h =
          listen a.alive (poll_pipe s a.listener (omega (arith, woken, ap unsent a.stopper, u))) in
        along h tt (exit_testing (moves h a.reach (a.alive, a.off, a.owner, refl, a.stopper)))

    exit_offering : {s : Server} (c : ℕ) → At n port o (offering c) k s → Exits n port o k s
    exit_offering c a = and_then (free_pool has a) (λ t (b, (q, e, free)).
        let h = listen b.alive (offer t c q b.listener e free) in
        along h tt (exit_testing (moves h b.reach (b.alive, b.off, b.owner, refl, b.stopper))))

    exit_accepting : {s : Server} → At n port o accepting k s → Exits n port o k s
    exit_accepting {s} a =
        let h = listen a.alive (accept s 0 a.listener) in
        along h tt (exit_offering 0 (moves h a.reach (a.alive, a.off, a.owner, refl, a.stopper)))

    exit :
        (l : Listener) {s : Server}
        → is_fresh o ≡ false
        → unsent k ≡ 0
        → is_bound l ≡ true
        → At n port o l k s
        → Exits n port o k s
    exit absent f u b a = cc
    exit binding f u b a = cc
    exit testing f u b a = exit_testing a
    exit polling f u b a = exit_polling f u a
    exit accepting f u b a = exit_accepting a
    exit leaving f u b a = exit_leaving a
    exit exited {s} f u b a = (s, idle_on, a)
    exit (offering c) f u b a = exit_offering c a

  -- The caller of `Stop` writes to the pipe.
  tell :
      {o : Owner} {l : Listener} (k : Stopper) {s : Server}
      → At n port o l k s
      → Leads n s (λ t. (k' : Stopper) × (unsent k' ≡ 0) × At n port o l k' t)
  tell nobody {s} a = (s, idle_on, (nobody, refl, a))
  tell waiting {s} a = (s, idle_on, (waiting, refl, a))
  tell writing {s} a =
      let h = call a.alive (notify s a.stopper) in
      along h tt
        (_, idle_on, (waiting, refl, moves h a.reach (a.alive, a.off, a.owner, a.listener, refl)))

  -- `Stop` returns.
  stop_returns :
      {o : Owner} (k : Stopper) {s : Server}
      → unsent k ≡ 0
      → At n port o exited k s
      → Leads n s (At n port o exited nobody)
  stop_returns nobody {s} u a = (s, idle_on, a)
  stop_returns writing u a = cc
  stop_returns waiting {s} u a =
      let off = (Reachable-IsServer a.reach).loops ∙ ap in_loop a.listener in
      let h = call a.alive (stopped s a.stopper off) in
      along h tt (_, idle_on, moves h a.reach (a.alive, a.off, a.owner, a.listener, refl))

  -- The pool ends.
  end_pool :
      {s : Server}
      → 0 < n
      → At n port closing exited nobody s
      → Leads n s (At n port finished exited nobody)
  end_pool some_worker a =
      let (p, e, r, off) = its_pool refl a in
      let (q, j) = Reachable-Joined some_worker r off in
      and_then (works a e j.works) (λ t (b, e').
        let h = call b.alive (reset t q b.owner e' j.all_left) in
        along h tt (_, idle_on, moves h b.reach (b.alive, b.off, refl, b.listener, b.stopper)))

  join_all :
      {s : Server}
      → 0 < n
      → At n port joining exited nobody s
      → Leads n s (At n port finished exited nobody)
  join_all some_worker a = and_then (free_pool refl a) (λ t (b, (q, e, free)).
      let h = call b.alive (join t q b.owner b.listener e free) in
      along h tt
        (end_pool some_worker (moves h b.reach (b.alive, b.off, refl, b.listener, b.stopper))))

  -- `Wait`, from where the owner is.
  wait_returns :
      (o : Owner) {s : Server}
      → 0 < n
      → has_pool o ≡ true
      → has_started o ≡ true
      → At n port o exited nobody s
      → Leads n s (At n port finished exited nobody)
  wait_returns fresh w h g a = cc
  wait_returns creating w h g a = cc
  wait_returns awaiting w h g a = cc
  wait_returns finished w h g a = cc
  wait_returns failed w h g a = cc
  wait_returns closing w h g a = end_pool w a
  wait_returns joining w h g a = join_all w a
  wait_returns destroying {s} w h g a =
      let c = call a.alive (destroy_wait s a.owner a.stopper) in
      along c tt (join_all w (moves c a.reach (a.alive, a.off, refl, a.listener, a.stopper)))
  wait_returns serving {s} w h g a =
      let (p, e, r, off) = its_pool refl a in
      let c = call a.alive (wait s p a.owner e) in
      along c tt (join_all w (moves c a.reach (a.alive, a.off, refl, a.listener, a.stopper)))

-- `Wait` has returned and so has `Stop`; the listener and the pool have ended.
pub record IsFinished (n : ℕ) (s t : Server) : Type 0 where
  pub runs : Unaided n s t
  pub waited : t.owner ≡ finished
  pub listener_left : t.listener ≡ exited
  pub stop_left : t.stopper ≡ nobody
  pub no_pool : t.pool ≡ none
  pub alive : t.over ≡ false

has_no_pool :
    (n : ℕ) (hand clients : List ℕ) (m : Option Pool)
    → HoldsPool n finished hand clients m
    → m ≡ none
has_no_pool n hand clients none h = refl
has_no_pool n hand clients (some p) (h, r, d, e) = cc

finishes :
    {n port : ℕ} {s : Server}
    → Leads n s (At n port finished exited nobody)
    → (t : Server) × IsFinished n s t
finishes {n} {port} {s} (t, hs, a) = (
  t,
  record {
    runs = hs;
    waited = a.owner;
    listener_left = a.listener;
    stop_left = a.stopper;
    no_pool = has_no_pool n _ _ t.pool (rw a.owner at (Reachable-IsServer a.reach).pool);
    alive = a.alive;
  },
)

-- From every state in which `Start` has returned and `Wait` has not, and in which `run_` has been
-- cleared by `Stop` or the destructor while the process lasts, a server of one worker or more can go
-- on by itself, without a client that connects while the listener is in `poll` and without a spurious
-- wakeup of a worker, to where `Stop` and `Wait` have returned and the listener and all workers have ended.
pub Reachable-IsFinished :
    {n port : ℕ} {s : Server}
    → 0 < n
    → Reachable n port s
    → s.over ≡ false
    → s.run ≡ false
    → has_started s.owner ≡ true
    → has_pool s.owner ≡ true
    → (t : Server) × IsFinished n s t
Reachable-IsFinished {n} {port} {s} w r alive off started has = finishes (
    and_then (tell s.stopper here) (λ t (k, u, a).
      and_then (exit has s.listener (started-fresh s.owner started) u (v.bound started) a) (λ t' a'.
        and_then (stop_returns k u a') (λ t'' a''. wait_returns s.owner w has started a''))))
  where
    v : IsServer n s
    v = Reachable-IsServer r

    here : At n port s.owner s.listener s.stopper s
    here = record {
      reach = r;
      alive = alive;
      off = off;
      owner = refl;
      listener = refl;
      stopper = refl;
    }
