-- ===== src/Http/Lifecycle/Served.antt =====
-- src/http/server.cc and src/http/thread_pool.cc: the clients that have been accepted are served.
use gabby.Base.{
  ℕ, ◌<◌, false, true, List, [], ◌∷◌, ◌++◌, append-nil, ◌≡◌, refl, sym, ap, subst, ◌∙◌, some, none,
  Option, ◌⊎◌, inl, inr,
}
use gabby.Pool.Model.{Pool, Works}
use gabby.Pool.Model as Model
use gabby.Pool.Progress.{Reachable-Drained}
use gabby.Http.Lifecycle.{
  Listener, absent, binding, testing, polling, accepting, leaving, exited, offering, Owner, Server,
  offer, listen, work, Reachable, next,
}
use gabby.Http.Lifecycle.Places.{in_hand, has_pool, is_closing}
use gabby.Http.Lifecycle.Handover.{HoldsPool}
use gabby.Http.Lifecycle.Invariant.{Reachable-IsServer}
use gabby.Http.Lifecycle.Leads.{Unaided, idle_on, then_on, Leads, along, and_then, release}

-- A server with an open pool, and what its listener has in hand.
record Open (n port : ℕ) (clients hand : List ℕ) (s : Server) : Type 0 where
  pub reach : Reachable n port s
  pub alive : s.over ≡ false
  pub has : has_pool s.owner ≡ true
  pub open_pool : is_closing s.owner ≡ false
  pub holds : in_hand s.listener ≡ hand
  pub clients_so_far : s.accepted ≡ clients

open_pool_of :
    (n : ℕ) (o : Owner) (hand clients : List ℕ) (m : Option Pool)
    → has_pool o ≡ true
    → is_closing o ≡ false
    → HoldsPool n o hand clients m
    → (p : Pool) × ((m ≡ some p)
        × (Model.Reachable n p × ((p.done ≡ false) × (p.offered ++ hand ≡ clients))))
open_pool_of n o hand clients none h k (a, b) = cc
open_pool_of n o hand clients (some p) h k (a, r, d, e) = (p, (refl, (r, (d ∙ k, e))))

-- All the clients have been handled, in the order of `accept`, and no client more has been accepted.
pub record IsServed (clients : List ℕ) (t : Server) : Type 0 where
  pub pool : Pool
  pub its_pool : t.pool ≡ some pool
  pub no_tasks : pool.tasks ≡ []
  pub all_handled : pool.finished ≡ clients
  pub no_more : t.accepted ≡ clients

module _ {n port : ℕ} {clients : List ℕ} where
  -- The pool goes on by itself.
  on_its_own :
      {hand : List ℕ} {s : Server} {p q : Pool}
      → Open n port clients hand s
      → s.pool ≡ some p
      → Works p q
      → Leads n s
          (λ t. Open n port clients hand t × ((t.pool ≡ some q) × (t.listener ≡ s.listener)))
  on_its_own {s = s} o e Works.idle = (s, idle_on, (o, (e, refl)))
  on_its_own {s = s} o e (Works.then w i ws) =
      let h = work o.alive e w in
      along h i (
        on_its_own
          (record {
            reach = next o.reach h;
            alive = o.alive;
            has = o.has;
            open_pool = o.open_pool;
            holds = o.holds;
            clients_so_far = o.clients_so_far;
          })
          refl ws)

  its_open_pool :
      {hand : List ℕ} {s : Server}
      → Open n port clients hand s
      → (p : Pool) × ((s.pool ≡ some p)
          × (Model.Reachable n p × ((p.done ≡ false) × (p.offered ++ hand ≡ clients))))
  its_open_pool {hand} {s} o = open_pool_of n s.owner hand clients s.pool o.has o.open_pool (
      subst (λ l. HoldsPool n s.owner hand l s.pool) o.clients_so_far
        (subst (λ l. HoldsPool n s.owner l s.accepted s.pool) o.holds
          (Reachable-IsServer o.reach).pool))

  -- With no client in hand the pool runs all its tasks.
  served : {s : Server} → 0 < n → Open n port clients [] s → Leads n s (IsServed clients)
  served {s = s} h o =
      let (p, (e, (r, (on, all)))) = its_open_pool o in
      let (q, d) = Reachable-Drained h r on in
      and_then (on_its_own o e d.works) (λ t (o', (e', _)). (
        t,
        idle_on,
        record {
          pool = q;
          its_pool = e';
          no_tasks = d.no_tasks;
          all_handled = d.all_done ∙ (sym (append-nil p.offered) ∙ all);
          no_more = o'.clients_so_far;
        },
      ))

  -- The client in hand is given to the pool.
  given :
      {s : Server} (c : ℕ)
      → s.listener ≡ offering c
      → Open n port clients (c ∷ []) s
      → Leads n s (Open n port clients [])
  given {s = s} c l o =
      let (p, (e, (r, _))) = its_open_pool o in
      let (q, ws, free) = release r in
      and_then (on_its_own o e ws) (λ t (o', (e', l')).
        let h = listen o'.alive (offer t c q (l' ∙ l) e' free) in
        (
          _,
          then_on h tt idle_on,
          record {
            reach = next o'.reach h;
            alive = o'.alive;
            has = o'.has;
            open_pool = o'.open_pool;
            holds = refl;
            clients_so_far = o'.clients_so_far;
          },
        ))

hand_cases : (l : Listener) → ((c : ℕ) × (l ≡ offering c)) ⊎ (in_hand l ≡ [])
hand_cases (offering c) = inl (c, refl)
hand_cases absent = inr refl
hand_cases binding = inr refl
hand_cases testing = inr refl
hand_cases polling = inr refl
hand_cases accepting = inr refl
hand_cases leaving = inr refl
hand_cases exited = inr refl

-- From every state of a server of one worker or more in which the process lasts, there is a pool, and
-- `Wait` has not begun to end it, the threads can go on, without a client that connects while the
-- listener is in `poll` and without a spurious wakeup of a worker, to where every client accepted so far has been
-- handled, in the order of `accept`, and no client more has been accepted: also the one that the
-- listener is about to give to the pool, and also after a call of `Stop`.
pub Reachable-IsServed :
    {n port : ℕ} {s : Server}
    → 0 < n
    → Reachable n port s
    → s.over ≡ false
    → has_pool s.owner ≡ true
    → is_closing s.owner ≡ false
    → (t : Server) × Unaided n s t × IsServed s.accepted t
Reachable-IsServed {s = s} h r alive has on = elim (hand_cases s.listener) [
  | inr none_in_hand ↦ served h (record {
    reach = r;
    alive = alive;
    has = has;
    open_pool = on;
    holds = none_in_hand;
    clients_so_far = refl;
  })
  | inl (c, e) ↦
      and_then
        (given c e (record {
          reach = r;
          alive = alive;
          has = has;
          open_pool = on;
          holds = ap in_hand e;
          clients_so_far = refl;
        }))
        (λ t o. served h o)
]
