-- ===== src/Pool/Order.antt =====
-- src/http/thread_pool.cc: no two tasks run at a time, and tasks run in the order of the offers.
use gabby.Base.{
  ℕ, zero, suc, Bool, true, false, List, [], ◌∷◌, ◌++◌, ◌≡◌, refl, sym, ap, ◌∙◌, append_assoc,
}
use gabby.Pool.Model.{
  workers, Worker, ready, asleep, running, stopped, Pool, Moves, here, there, wake_all, Work,
  take_task, return_task, sleep, spurious_wakeup, notify_one, notify_nobody, notify_all, leave,
  Step, work, offer, shut_down, Reachable, start, next,
}

abbrev pub busy : List Worker → List ℕ
busy [] = []
busy (ready ∷ ws) = busy ws
busy (running t ∷ ws) = t ∷ busy ws
busy (asleep ∷ ws) = busy ws
busy (stopped ∷ ws) = busy ws

-- the tasks that run are one if the mutex is held, and none otherwise
abbrev pub Holds : Bool → List ℕ → List ℕ → List ℕ → Type 0
Holds true ts begun finished = (t : ℕ) × (ts ≡ t ∷ []) × (begun ≡ finished ++ t ∷ [])
Holds false ts begun finished = (ts ≡ []) × (begun ≡ finished)

-- The tasks offered are those begun and then those that wait, and a task runs just while the mutex is
-- held: the last one begun.
pub record IsPool (p : Pool) : Type 0 where
  pub in_order : p.begun ++ p.tasks ≡ p.offered
  pub serial : Holds p.mux (busy p.threads) p.begun p.finished

busy-take :
    {t : ℕ} {ws us : List Worker} → Moves ready (running t) ws us → busy ws ≡ [] → busy us ≡ t ∷ []
busy-take (here ws) e = rw e refl
busy-take (there ready m) e = busy-take m e
busy-take (there (running u) m) e = cc
busy-take (there stopped m) e = busy-take m e
busy-take (there asleep m) e = busy-take m e

-- A worker that runs no task before and after changes nothing.
busy-move :
    {v w : Worker} {ws us : List Worker}
    → busy (v ∷ []) ≡ []
    → busy (w ∷ []) ≡ []
    → Moves v w ws us
    → busy us ≡ busy ws
busy-move {v} {w} p q (here ws) = busy_idle w ws q ∙ sym (busy_idle v ws p)
  where
    busy_idle : (v : Worker) (ws : List Worker) → busy (v ∷ []) ≡ [] → busy (v ∷ ws) ≡ busy ws
    busy_idle ready ws e = refl
    busy_idle asleep ws e = refl
    busy_idle stopped ws e = refl
    busy_idle (running t) ws e = cc
busy-move p q (there ready m) = busy-move p q m
busy-move p q (there asleep m) = busy-move p q m
busy-move p q (there (running u) m) = ap (◌∷◌ u) (busy-move p q m)
busy-move p q (there stopped m) = busy-move p q m

busy-wake_all : (ws : List Worker) → busy (wake_all ws) ≡ busy ws
busy-wake_all [] = refl
busy-wake_all (ready ∷ ws) = busy-wake_all ws
busy-wake_all (asleep ∷ ws) = busy-wake_all ws
busy-wake_all (running t ∷ ws) = ap (◌∷◌ t) (busy-wake_all ws)
busy-wake_all (stopped ∷ ws) = busy-wake_all ws

busy-not_empty : {t : ℕ} {ws us : List Worker} → Moves (running t) ready ws us → ¬ (busy ws ≡ [])
busy-not_empty (here ws) e = cc
busy-not_empty (there ready m) e = busy-not_empty m e
busy-not_empty (there (running v) m) e = cc
busy-not_empty (there stopped m) e = busy-not_empty m e
busy-not_empty (there asleep m) e = busy-not_empty m e

-- The worker that returns ran the one task there was.
busy-return :
    {t : ℕ} {ws us : List Worker} (m : Moves (running t) ready ws us) (u : ℕ)
    → busy ws ≡ u ∷ []
    → (busy us ≡ []) × (t ≡ u)
busy-return (here ws) u e = (cc, cc)
busy-return (there ready m) u e = busy-return m u e
busy-return (there (running v) m) u e = absurd (busy-not_empty m cc)
busy-return (there stopped m) u e = busy-return m u e
busy-return (there asleep m) u e = busy-return m u e

pub Work-IsPool : {p q : Pool} → Work p q → IsPool p → IsPool q
Work-IsPool (take_task p t rest ws free on h m) v = record {
  in_order = append_assoc p.begun (t ∷ []) rest ∙ ap (◌++◌ p.begun) (sym h) ∙ v.in_order;
  serial = begin (rw free at v.serial);
}
  where
    begin :
        Holds false (busy p.threads) p.begun p.finished
        → Holds true (busy ws) (p.begun ++ t ∷ []) p.finished
    begin s = (t, busy-take m s.0, ap (λ l. l ++ t ∷ []) s.1)
Work-IsPool (return_task p t ws held m) v = record {
  in_order = v.in_order;
  serial = finish (rw held at v.serial);
}
  where
    finish :
        Holds true (busy p.threads) p.begun p.finished
        → Holds false (busy ws) p.begun (p.finished ++ t ∷ [])
    finish (u, one, last) = (
      (busy-return m u one).0,
      last ∙ ap (λ x. p.finished ++ x ∷ []) (sym (busy-return m u one).1),
    )
Work-IsPool (sleep p ws free on none m) v = record {
  in_order = v.in_order;
  serial = rw (busy-move refl refl m) v.serial;
}
Work-IsPool (spurious_wakeup p ws m) v = record {
  in_order = v.in_order;
  serial = rw (busy-move refl refl m) v.serial;
}
Work-IsPool (notify_one p n ws some m) v = record {
  in_order = v.in_order;
  serial = rw (busy-move refl refl m) v.serial;
}
Work-IsPool (notify_nobody p n some e) v = record { in_order = v.in_order; serial = v.serial }
Work-IsPool (notify_all p c) v = record {
  in_order = v.in_order;
  serial = rw (busy-wake_all p.threads) v.serial;
}
Work-IsPool (leave p ws free off m) v = record {
  in_order = v.in_order;
  serial = rw (busy-move refl refl m) v.serial;
}

Step-IsPool : {p q : Pool} → Step p q → IsPool p → IsPool q
Step-IsPool (work w) v = Work-IsPool w v
Step-IsPool (offer p t free) v = record {
  in_order = sym (append_assoc p.begun p.tasks (t ∷ [])) ∙ ap (λ l. l ++ t ∷ []) v.in_order;
  serial = v.serial;
}
Step-IsPool (shut_down p free) v = record { in_order = v.in_order; serial = v.serial }

busy-workers : (n : ℕ) → busy (workers n) ≡ []
busy-workers zero = refl
busy-workers (suc n) = busy-workers n

-- However many workers there are and whatever steps they take: at most one task runs at a time, and
-- the tasks begin in the order in which they were offered.
pub Reachable-IsPool : {n : ℕ} {p : Pool} → Reachable n p → IsPool p
Reachable-IsPool {n} start = record { in_order = refl; serial = (busy-workers n, refl) }
Reachable-IsPool (next r s) = Step-IsPool s (Reachable-IsPool r)
