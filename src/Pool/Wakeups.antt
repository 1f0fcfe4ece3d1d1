-- ===== src/Pool/Wakeups.antt =====
-- src/http/thread_pool.cc: no wakeup is lost.
use gabby.Base.{
  ℕ, zero, suc, ◌+◌, ◌<◌, ◌≤◌, true, false, List, [], ◌∷◌, length, ◌≡◌, refl, ap, arith,
}
use gabby.Pool.Model.{
  workers, Worker, ready, asleep, running, stopped, Pool, Moves, here, there, wake_all, is_asleep,
  is_stopped, weigh, Work, take_task, return_task, sleep, spurious_wakeup, notify_one,
  notify_nobody, notify_all, leave, Step, work, offer, shut_down, Reachable, start, next,
}

abbrev pub is_awake : Worker → ℕ
is_awake ready = 1
is_awake (running t) = 1
is_awake _ = 0

-- Where workers sleep and where they are woken, in a pool of `n` workers.
pub record IsAwake (n : ℕ) (p : Pool) : Type 0 where
  pub somebody : 0 < n
  pub everyone :
      weigh is_awake p.threads + weigh is_asleep p.threads + weigh is_stopped p.threads ≡ n
  pub nobody_left : p.done ≡ false → weigh is_stopped p.threads ≡ 0
  -- a task that waits is seen by a worker, or a notice of it is on the way
  pub served : p.done ≡ false → 0 < length p.tasks → 0 < weigh is_awake p.threads + p.notices
  -- behind the destructor's notice nobody sleeps
  pub told : p.done ≡ true → p.closing ≡ false → weigh is_asleep p.threads ≡ 0

pub weigh-move :
    (f : Worker → ℕ) {v w : Worker} {ws us : List Worker}
    → Moves v w ws us
    → weigh f us + f v ≡ weigh f ws + f w
weigh-move f (here ws) = omega arith
weigh-move f (there u m) = omega (arith, weigh-move f m)

le-weigh :
    (f : Worker → ℕ) {v w : Worker} {ws us : List Worker} → Moves v w ws us → f w ≤ weigh f us
le-weigh f (here ws) = omega arith
le-weigh f (there u m) = omega (arith, le-weigh f m)

-- The three weights under one move.
module _ {v w : Worker} {ws us : List Worker} (m : Moves v w ws us) where
  abbrev Moved : Type 0
  Moved =
      (weigh is_awake us + is_awake v ≡ weigh is_awake ws + is_awake w)
      × (weigh is_asleep us + is_asleep v ≡ weigh is_asleep ws + is_asleep w)
      × (weigh is_stopped us + is_stopped v ≡ weigh is_stopped ws + is_stopped w)
      × (is_awake w ≤ weigh is_awake us)

  moved : Moved
  moved =
      (weigh-move is_awake m, weigh-move is_asleep m, weigh-move is_stopped m, le-weigh is_awake m)

weigh-wake_all :
    (ws : List Worker)
    → (weigh is_awake (wake_all ws) ≡ weigh is_awake ws + weigh is_asleep ws)
      × (weigh is_asleep (wake_all ws) ≡ 0)
      × (weigh is_stopped (wake_all ws) ≡ weigh is_stopped ws)
weigh-wake_all [] = (refl, refl, refl)
weigh-wake_all (ready ∷ ws) = omega (arith, weigh-wake_all ws)
weigh-wake_all (asleep ∷ ws) = omega (arith, weigh-wake_all ws)
weigh-wake_all (running t ∷ ws) = omega (arith, weigh-wake_all ws)
weigh-wake_all (stopped ∷ ws) = omega (arith, weigh-wake_all ws)

pub Work-IsAwake : {n : ℕ} {p q : Pool} → Work p q → IsAwake n p → IsAwake n q
Work-IsAwake (take_task p t rest ws free on h m) v = record {
  somebody = v.somebody;
  everyone = omega (arith, moved m, v.everyone);
  nobody_left = λ d. omega (arith, moved m, v.nobody_left d);
  served = λ d some. omega (arith, moved m);
  told = λ d c. omega (arith, moved m, v.told d c);
}
Work-IsAwake (return_task p t ws held m) v = record {
  somebody = v.somebody;
  everyone = omega (arith, moved m, v.everyone);
  nobody_left = λ d. omega (arith, moved m, v.nobody_left d);
  served = λ d some. omega (arith, moved m, v.served d some);
  told = λ d c. omega (arith, moved m, v.told d c);
}
Work-IsAwake (sleep p ws free on none m) v = record {
  somebody = v.somebody;
  everyone = omega (arith, moved m, v.everyone);
  nobody_left = λ d. omega (arith, moved m, v.nobody_left d);
  served = λ d some. absurd (omega (arith, ap length none));
  told = λ d c. cc;
}
Work-IsAwake (spurious_wakeup p ws m) v = record {
  somebody = v.somebody;
  everyone = omega (arith, moved m, v.everyone);
  nobody_left = λ d. omega (arith, moved m, v.nobody_left d);
  served = λ d some. omega (arith, moved m, v.served d some);
  told = λ d c. omega (arith, moved m, v.told d c);
}
Work-IsAwake (notify_one p k ws some_notice m) v = record {
  somebody = v.somebody;
  everyone = omega (arith, moved m, v.everyone);
  nobody_left = λ d. omega (arith, moved m, v.nobody_left d);
  served = λ d some. omega (arith, moved m, v.served d some);
  told = λ d c. omega (arith, moved m, v.told d c);
}
Work-IsAwake (notify_nobody p k some_notice e) v = record {
  somebody = v.somebody;
  everyone = v.everyone;
  nobody_left = v.nobody_left;
  served = λ d some. omega (arith, v.everyone, v.nobody_left d, v.somebody);
  told = v.told;
}
Work-IsAwake (notify_all p c) v = record {
  somebody = v.somebody;
  everyone = omega (arith, weigh-wake_all p.threads, v.everyone);
  nobody_left = λ d. omega (arith, weigh-wake_all p.threads, v.nobody_left d);
  served = λ d some. omega (arith, weigh-wake_all p.threads, v.served d some);
  told = λ d c'. omega (arith, weigh-wake_all p.threads);
}
Work-IsAwake (leave p ws free off m) v = record {
  somebody = v.somebody;
  everyone = omega (arith, moved m, v.everyone);
  nobody_left = λ d. cc;
  served = λ d some. cc;
  told = λ d c. omega (arith, moved m, v.told d c);
}

Step-IsAwake : {n : ℕ} {p q : Pool} → Step p q → IsAwake n p → IsAwake n q
Step-IsAwake (work w) v = Work-IsAwake w v
Step-IsAwake (offer p t free) v = record {
  somebody = v.somebody;
  everyone = v.everyone;
  nobody_left = v.nobody_left;
  served = λ d some. omega arith;
  told = v.told;
}
Step-IsAwake (shut_down p free) v = record {
  somebody = v.somebody;
  everyone = v.everyone;
  nobody_left = λ d. cc;
  served = λ d some. cc;
  told = λ d c. cc;
}

weigh-workers :
    (n : ℕ)
    → (weigh is_awake (workers n) ≡ n)
      × (weigh is_asleep (workers n) ≡ 0)
      × (weigh is_stopped (workers n) ≡ 0)
weigh-workers zero = (refl, refl, refl)
weigh-workers (suc n) = omega (arith, weigh-workers n)

-- In a pool of one worker or more, after whatever steps: while the pool is open no worker has left, and
-- a task that waits is seen by a worker that is awake or has a notice on the way; once the destructor
-- has notified all, nobody sleeps.
pub Reachable-IsAwake : {n : ℕ} {p : Pool} → 0 < n → Reachable n p → IsAwake n p
Reachable-IsAwake {n} h start = record {
  somebody = h;
  everyone = omega (arith, weigh-workers n);
  nobody_left = λ d. omega (arith, weigh-workers n);
  served = λ d some. omega (arith, weigh-workers n);
  told = λ d c. cc;
}
Reachable-IsAwake h (next r s) = Step-IsAwake s (Reachable-IsAwake h r)
