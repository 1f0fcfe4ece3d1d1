-- ===== src/Http/Lifecycle/Places.antt =====
-- src/http/server.cc: what the places of the threads say.
use gabby.Base.{ℕ, Bool, true, false, List, [], ◌∷◌, ◌≡◌, refl}
use gabby.Http.Lifecycle.{
  Listener, absent, binding, testing, polling, accepting, leaving, exited, offering, Owner, fresh,
  creating, awaiting, closing, finished, failed, Stopper, writing,
}

-- behind `bind`, before the end
abbrev pub in_loop : Listener → Bool
in_loop absent = false
in_loop binding = false
in_loop exited = false
in_loop _ = true

abbrev pub is_bound : Listener → Bool
is_bound absent = false
is_bound binding = false
is_bound _ = true

abbrev pub is_absent : Listener → Bool
is_absent absent = true
is_absent _ = false

abbrev pub is_exited : Listener → Bool
is_exited exited = true
is_exited _ = false

-- the client that is accepted and not offered yet
abbrev pub in_hand : Listener → List ℕ
in_hand (offering c) = c ∷ []
in_hand _ = []

abbrev pub is_fresh : Owner → Bool
is_fresh fresh = true
is_fresh _ = false

abbrev pub has_pool : Owner → Bool
has_pool fresh = false
has_pool creating = false
has_pool failed = false
has_pool finished = false
has_pool _ = true

-- `Start` has returned
abbrev pub has_started : Owner → Bool
has_started fresh = false
has_started creating = false
has_started awaiting = false
has_started failed = false
has_started _ = true

-- the listener has been joined
abbrev pub has_joined : Owner → Bool
has_joined closing = true
has_joined finished = true
has_joined _ = false

abbrev pub is_closing : Owner → Bool
is_closing closing = true
is_closing _ = false

abbrev pub unsent : Stopper → ℕ
unsent writing = 1
unsent _ = 0

-- no pool has been made yet
abbrev pub is_early : Owner → Bool
is_early fresh = true
is_early creating = true
is_early failed = true
is_early _ = false

pub absent_eq : (l : Listener) → is_absent l ≡ true → l ≡ absent
absent_eq absent h = refl
absent_eq binding h = cc
absent_eq testing h = cc
absent_eq polling h = cc
absent_eq accepting h = cc
absent_eq leaving h = cc
absent_eq exited h = cc
absent_eq (offering c) h = cc

pub loop-bound : (l : Listener) → in_loop l ≡ true → is_bound l ≡ true
loop-bound absent h = cc
loop-bound binding h = cc
loop-bound testing h = refl
loop-bound polling h = refl
loop-bound accepting h = refl
loop-bound leaving h = refl
loop-bound exited h = refl
loop-bound (offering c) h = refl
