-- ===== src/Http/Lifecycle/Handover.antt =====
-- src/http/server.cc, `HttpServer::Accept`: the clients that the pool has been given.
use gabby.Base.{
  ℕ, suc, true, false, List, [], ◌∷◌, ◌++◌, append-nil, ◌≡◌, refl, sym, ap, ◌∙◌, Option, none, some,
  ltb, subst, inl, inr, Bool-cases,
}
use gabby.Outcome.{ok}
use gabby.Json.Source.{plus}
use gabby.Pool.Model.{
  Pool, pool, create, Work, take_task, return_task, sleep, spurious_wakeup, notify_one,
  notify_nobody, notify_all, leave,
}
use gabby.Pool.Model as Model
use gabby.Http.Lifecycle.{Owner, creating, awaiting, joining, closing}
use gabby.Http.Lifecycle.Places.{has_pool, is_closing, is_early}

-- A pool that there is, closed or not, of `n` threads, is in a state of a pool of its own, and it has
-- been offered the clients accepted, in that order, but the one in hand.
abbrev pub HoldsPool : ℕ → Owner → List ℕ → List ℕ → Option Pool → Type 0
HoldsPool n o hand clients none = (has_pool o ≡ false) × (is_early o ≡ true → hand ≡ clients)
HoldsPool n o hand clients (some p) =
    (has_pool o ≡ true)
    × Model.Reachable n p
    × (p.done ≡ is_closing o)
    × (p.offered ++ hand ≡ clients)

Work-offered : {p q : Pool} → Work p q → (q.offered ≡ p.offered) × (q.done ≡ p.done)
Work-offered (take_task p t rest ws free on h m) = (refl, refl)
Work-offered (return_task p t ws held m) = (refl, refl)
Work-offered (sleep p ws free on empty m) = (refl, refl)
Work-offered (spurious_wakeup p ws m) = (refl, refl)
Work-offered (notify_one p n ws h m) = (refl, refl)
Work-offered (notify_nobody p n h e) = (refl, refl)
Work-offered (notify_all p c) = (refl, refl)
Work-offered (leave p ws free off m) = (refl, refl)

-- The pool takes steps of its own.
abbrev pub held_offer : Pool → ℕ → Pool
held_offer p c = record p {
  tasks = p.tasks ++ c ∷ [];
  notices = suc p.notices;
  offered = p.offered ++ c ∷ [];
}

pub HoldsPool-offer :
    (n : ℕ) (o : Owner) (clients : List ℕ) (p : Pool) (c : ℕ)
    → p.mux ≡ false
    → HoldsPool n o (c ∷ []) clients (some p)
    → HoldsPool n o [] clients (some (held_offer p c))
HoldsPool-offer n o clients p c free (h, r, d, e) =
    (h, Model.next r (Model.offer p c free), d, append-nil (p.offered ++ c ∷ []) ∙ e)

-- A client is accepted.
pub HoldsPool-accept :
    (n : ℕ) (o : Owner) (clients : List ℕ) (m : Option Pool) (c : ℕ)
    → HoldsPool n o [] clients m
    → HoldsPool n o (c ∷ []) (clients ++ c ∷ []) m
HoldsPool-accept n o clients none c (h, e) = (h, λ early. ap (λ l. l ++ c ∷ []) (e early))
HoldsPool-accept n o clients (some p) c (h, r, d, e) =
    (h, r, d, ap (λ l. l ++ c ∷ []) (sym (append-nil p.offered) ∙ e))

pub create-pool : (n : ℕ) (p : Pool) → create (plus n) ≡ ok p → pool n ≡ p
unfolding create
create-pool n p e = elim (Bool-cases (ltb n 1)) [
  | inl small ↦ cc (rw small at e)
  | inr big ↦ cc (rw big at e)
]

-- The pool is made.
pub HoldsPool-create :
    (n : ℕ) (hand clients : List ℕ) (m : Option Pool) (p : Pool)
    → create (plus n) ≡ ok p
    → HoldsPool n creating hand clients m
    → HoldsPool n awaiting hand clients (some p)
HoldsPool-create n hand clients none p e (h, f) =
    subst (λ q. HoldsPool n awaiting hand clients (some q)) (create-pool n p e)
      (refl, Model.start, refl, f refl)
HoldsPool-create n hand clients (some q) p e (h, r, d, f) = cc

-- `Wait` sees the pool while there is one.
pub HoldsPool-close :
    (n : ℕ) (hand clients : List ℕ) (p : Pool)
    → p.mux ≡ false
    → HoldsPool n joining hand clients (some p)
    → HoldsPool n closing hand clients (some (record p { done = true; closing = true }))
HoldsPool-close n hand clients p free (h, r, d, e) =
    (refl, Model.next r (Model.shut_down p free), refl, e)

pub HoldsPool-works :
    (n : ℕ) (o : Owner) (hand clients : List ℕ) (p q : Pool)
    → Work p q
    → HoldsPool n o hand clients (some p)
    → HoldsPool n o hand clients (some q)
HoldsPool-works n o hand clients p q w (h, r, d, e) = (
  h,
  Model.next r (Model.work w),
  (Work-offered w).1 ∙ d,
  ap (λ l. l ++ hand) (Work-offered w).0 ∙ e,
)

pub HoldsPool-owner :
    (n : ℕ) (o o' : Owner) (hand clients : List ℕ) (m : Option Pool)
    → has_pool o' ≡ has_pool o
    → is_closing o' ≡ is_closing o
    → is_early o' ≡ is_early o
    → HoldsPool n o hand clients m
    → HoldsPool n o' hand clients m
HoldsPool-owner n o o' hand clients none f g h (a, b) = (f ∙ a, λ early. b (sym h ∙ early))
HoldsPool-owner n o o' hand clients (some p) f g h (a, r, d, e) = (f ∙ a, r, d ∙ sym g, e)

pub no_pool :
    (n : ℕ) (o : Owner) (hand clients : List ℕ)
    → HoldsPool n o hand clients none
    → has_pool o ≡ false
no_pool n o hand clients (h, e) = h
