-- ===== src/Http/Lifecycle/Leads.antt =====
-- src/http/server.cc: runs of a server that stops, and the steps of its pool on the way.
use gabby.Base.{ℕ, true, false, inl, inr, Bool-cases, List, ◌≡◌, refl, Option, none, some}
use gabby.Pool.Model.{Pool, Works, return_task, idle, then}
use gabby.Pool.Model as Model
use gabby.Pool.Order.{busy, Holds, Reachable-IsPool}
use gabby.Pool.Progress.{runner}
use gabby.Http.Lifecycle.{
  Listener, Owner, Stopper, Server, Call, wait, destroy_wait, join, reset, notify, stopped, Listen,
  go_on, leave_loop, poll_pipe, accept, offer, leave, Step, call, listen, work, Reachable, next,
}
use gabby.Http.Lifecycle.Places.{has_pool, is_closing}
use gabby.Http.Lifecycle.Handover.{HoldsPool}
use gabby.Http.Lifecycle.Invariant.{Reachable-IsServer}

-- A task that runs lets go of the mutex.
pub release : {n : ℕ} {p : Pool} → Model.Reachable n p → (q : Pool) × Works p q × (q.mux ≡ false)
release {n} {p} r = elim (Bool-cases p.mux) [
  | inr free ↦ (p, idle, free)
  | inl held ↦ returns held (rw held at (Reachable-IsPool r).serial)
]
  where
    returns :
        p.mux ≡ true
        → Holds true (busy p.threads) p.begun p.finished
        → (q : Pool) × Works p q × (q.mux ≡ false)
    returns held (t, one, last) =
        let (ws, m) = runner t p.threads one in (_, then (return_task p t ws held m) tt idle, refl)

-- A server that stops, with each thread at a place.
pub record At (n port : ℕ) (o : Owner) (l : Listener) (k : Stopper) (s : Server) : Type 0 where
  pub reach : Reachable n port s
  pub alive : s.over ≡ false
  pub off : s.run ≡ false
  pub owner : s.owner ≡ o
  pub listener : s.listener ≡ l
  pub stopper : s.stopper ≡ k

-- The owner and the caller of `Stop` go on with a call that they are in, or the owner calls `Wait`.
abbrev pub IsUnaidedCall : {n : ℕ} {s t : Server} → Call n s t → Type 0
IsUnaidedCall (wait s p o e) = Unit
IsUnaidedCall (destroy_wait s o k) = Unit
IsUnaidedCall (join s p o l e m) = Unit
IsUnaidedCall (reset s p o e w) = Unit
IsUnaidedCall (notify s k) = Unit
IsUnaidedCall (stopped s k r) = Unit
IsUnaidedCall _ = ⊥

-- The listener goes on without a client that happens to connect while it is in `poll`, and nothing fails.
-- A client for which `poll` has returned is there for `accept`.
abbrev pub IsUnaidedListen : {s t : Server} → Listen s t → Type 0
IsUnaidedListen (go_on s l r) = Unit
IsUnaidedListen (leave_loop s l r) = Unit
IsUnaidedListen (poll_pipe s l p) = Unit
IsUnaidedListen (accept s c l) = Unit
IsUnaidedListen (offer s c p l e m) = Unit
IsUnaidedListen (leave s l) = Unit
IsUnaidedListen _ = ⊥

-- No step that the server cannot count on: no client, no call of `Stop`, no spurious wakeup of a worker.
abbrev pub IsUnaided : {n : ℕ} {s t : Server} → Step n s t → Type 0
IsUnaided (call a c) = IsUnaidedCall c
IsUnaided (listen a l) = IsUnaidedListen l
IsUnaided (work a e w) = Model.IsUnaided w

-- The threads of a server, left to themselves.
pub data Unaided (n : ℕ) : Server → Server → Type 0 where
  idle_on : {s : Server} → Unaided n s s
  then_on : {s t u : Server} (h : Step n s t) → IsUnaided h → Unaided n t u → Unaided n s u

-- The server can go on by itself to where `P` holds.
abbrev pub Leads : ℕ → Server → (Server → Type 0) → Type 0
Leads n s P = (t : Server) × Unaided n s t × P t

pub along :
    {n : ℕ} {P : Server → Type 0} {s t : Server} (h : Step n s t)
    → IsUnaided h
    → Leads n t P
    → Leads n s P
along h i (u, hs, p) = (u, then_on h i hs, p)

pub append : {n : ℕ} {s t u : Server} → Unaided n s t → Unaided n t u → Unaided n s u
append idle_on g = g
append (then_on h i hs) g = then_on h i (append hs g)

pub and_then :
    {n : ℕ} {P Q : Server → Type 0} {s : Server}
    → Leads n s P
    → ((t : Server) → P t → Leads n t Q)
    → Leads n s Q
and_then (t, hs, p) f = let (u, gs, q) = f t p in (u, append hs gs, q)

-- The pool of a server, while there is one.
pub pool_of :
    (n : ℕ) (o : Owner) (hand clients : List ℕ) (m : Option Pool)
    → has_pool o ≡ true
    → HoldsPool n o hand clients m
    → (p : Pool) × (m ≡ some p) × Model.Reachable n p × (p.done ≡ is_closing o)
pool_of n o hand clients none h (a, b) = cc
pool_of n o hand clients (some p) h (a, r, d, e) = (p, refl, r, d)

module _ {n port : ℕ} where
  -- The pool's own threads go on.
  pub works :
      {o : Owner} {l : Listener} {k : Stopper} {s : Server} {p q : Pool}
      → At n port o l k s
      → s.pool ≡ some p
      → Works p q
      → Leads n s (λ t. At n port o l k t × (t.pool ≡ some q))
  works {s = s} a e idle = (s, idle_on, (a, e))
  works {s = s} a e (then w i ws) =
      let h = work a.alive e w in
      along h i (
        works
          (record {
            reach = next a.reach h;
            alive = a.alive;
            off = a.off;
            owner = a.owner;
            listener = a.listener;
            stopper = a.stopper;
          })
          refl ws)

  pub its_pool :
      {o : Owner} {l : Listener} {k : Stopper} {s : Server}
      → has_pool o ≡ true
      → At n port o l k s
      → (p : Pool) × (s.pool ≡ some p) × Model.Reachable n p × (p.done ≡ is_closing o)
  its_pool {o} {l} {k} {s} h a =
      pool_of n o _ _ s.pool h (rw a.owner at (Reachable-IsServer a.reach).pool)

  -- The pool, with its mutex free.
  pub free_pool :
      {o : Owner} {l : Listener} {k : Stopper} {s : Server}
      → has_pool o ≡ true
      → At n port o l k s
      → Leads n s (λ t. At n port o l k t × ((q : Pool) × (t.pool ≡ some q) × (q.mux ≡ false)))
  free_pool h a =
      let (p, e, r, d) = its_pool h a in
      let (q, ws, free) = release r in
      and_then (works a e ws) (λ t (a', e'). (t, idle_on, (a', (q, e', free))))

  -- The listener moves in its loop.
  pub moves :
      {o : Owner} {l : Listener} {k : Stopper} {s t : Server}
      → Step n s t
      → Reachable n port s
      → (t.over ≡ false) × (t.run ≡ false) × (t.owner ≡ o) × (t.listener ≡ l) × (t.stopper ≡ k)
      → At n port o l k t
  moves h r (a, f, e, l, k) = record {
    reach = next r h;
    alive = a;
    off = f;
    owner = e;
    listener = l;
    stopper = k;
  }
