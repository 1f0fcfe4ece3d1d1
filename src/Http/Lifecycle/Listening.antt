-- ===== src/Http/Lifecycle/Listening.antt =====
-- src/http/server.cc, `Listen`: the steps of the listener keep the invariant of the server.
use gabby.Base.{ℕ, ◌+◌, ◌<◌, true, false, [], ◌≡◌, refl, sym, ap, ◌∙◌}
use gabby.Http.Lifecycle.{
  Listener, absent, binding, testing, polling, accepting, leaving, exited, offering, Owner, fresh,
  creating, awaiting, serving, destroying, joining, closing, finished, failed, Stopper, nobody,
  writing, waiting, Server, server, Call, start, make_pool, make_no_pool, ready, wait, wait_ignored,
  destroy, destroy_joinable, destroy_wait, join, reset, stop, stop_ignored, notify, stopped, Listen,
  bind, bind_fails, go_on, leave_loop, poll_client, poll_pipe, poll_fails, accept, accept_fails,
  offer, offer_nowhere, Step, call, listen, work, Reachable, init, next,
}
use gabby.Http.Lifecycle as Lifecycle
use gabby.Http.Lifecycle.Places.{
  in_loop, is_bound, is_absent, is_exited, in_hand, is_fresh, has_started, has_joined, unsent,
}
use gabby.Http.Lifecycle.Handover.{HoldsPool, HoldsPool-offer, HoldsPool-accept}

pub record IsServer (n : ℕ) (s : Server) : Type 0 where
  -- `running_` is set exactly while the listener is in its loop
  pub loops : s.running ≡ in_loop s.listener
  pub started : is_absent s.listener ≡ is_fresh s.owner
  -- `Start` returns with the socket bound, and until `Wait` ends there is a pool
  pub bound : has_started s.owner ≡ true → is_bound s.listener ≡ true
  pub pool : HoldsPool n s.owner (in_hand s.listener) s.accepted s.pool
  -- the pool ends and `Wait` returns behind the end of the listener
  pub joined : has_joined s.owner ≡ true → is_exited s.listener ≡ true
  -- `poll` is woken once `run_` is cleared
  pub told : s.run ≡ false → is_fresh s.owner ≡ false → 0 < s.pipe + unsent s.stopper

-- in the loop with no client in hand
abbrev Inner : Listener → Type 0
Inner l =
    (in_loop l ≡ true)
    × (is_bound l ≡ true)
    × (is_absent l ≡ false)
    × (is_exited l ≡ false)
    × (in_hand l ≡ [])

moved-IsServer :
    {n : ℕ} {s : Server} (l l' : Listener)
    → s.listener ≡ l
    → Inner l
    → Inner l'
    → IsServer n s
    → IsServer n (record s { listener = l' })
moved-IsServer {n} {s} l l' e (a, b, c, d, f) (a', b', c', d', f') v = record {
  loops = cc (v.loops);
  started = cc (v.started);
  bound = λ h. b';
  pool = rw f' (rw (e, f) at v.pool);
  joined = λ h. cc (v.joined h);
  told = v.told;
}

pub Listen-IsServer : {n : ℕ} {s t : Server} → Listen s t → IsServer n s → IsServer n t
Listen-IsServer (bind s port l) v = record {
  loops = refl;
  started = ap is_absent (sym l) ∙ v.started;
  bound = λ h. refl;
  pool = rw l at v.pool;
  joined = λ h. cc (v.joined h);
  told = v.told;
}
Listen-IsServer (bind_fails s l) v = record {
  loops = v.loops;
  started = v.started;
  bound = v.bound;
  pool = v.pool;
  joined = v.joined;
  told = v.told;
}
Listen-IsServer (poll_fails s l) v = record {
  loops = v.loops;
  started = v.started;
  bound = v.bound;
  pool = v.pool;
  joined = v.joined;
  told = v.told;
}
Listen-IsServer (accept_fails s l) v = record {
  loops = v.loops;
  started = v.started;
  bound = v.bound;
  pool = v.pool;
  joined = v.joined;
  told = v.told;
}
Listen-IsServer (offer_nowhere s c l o) v = record {
  loops = v.loops;
  started = v.started;
  bound = v.bound;
  pool = v.pool;
  joined = v.joined;
  told = v.told;
}
Listen-IsServer (go_on s l r) v =
    moved-IsServer testing polling l (refl, refl, refl, refl, refl) (refl, refl, refl, refl, refl) v
Listen-IsServer (leave_loop s l r) v =
    moved-IsServer testing leaving l (refl, refl, refl, refl, refl) (refl, refl, refl, refl, refl) v
Listen-IsServer (poll_client s l) v =
    moved-IsServer polling accepting l (refl, refl, refl, refl, refl) (refl, refl, refl, refl, refl)
      v
Listen-IsServer (poll_pipe s l h) v =
    moved-IsServer polling testing l (refl, refl, refl, refl, refl) (refl, refl, refl, refl, refl) v
Listen-IsServer {n} (accept s c l) v = record {
  loops = rw l at v.loops;
  started = rw l at v.started;
  bound = λ h. refl;
  pool = HoldsPool-accept n s.owner s.accepted s.pool c (rw l at v.pool);
  joined = λ h. cc (v.joined h);
  told = v.told;
}
Listen-IsServer {n} (offer s c p l o free) v = record {
  loops = rw l at v.loops;
  started = rw l at v.started;
  bound = λ h. refl;
  pool = HoldsPool-offer n s.owner s.accepted p c free (rw (l, o) at v.pool);
  joined = λ h. cc (v.joined h);
  told = v.told;
}
Listen-IsServer (Lifecycle.leave s l) v = record {
  loops = refl;
  started = rw l at v.started;
  bound = λ h. refl;
  pool = rw l at v.pool;
  joined = λ h. refl;
  told = v.told;
}
