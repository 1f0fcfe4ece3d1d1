-- ===== src/Json/Total/Bytes.antt =====
-- Runs of the scanner (src/json/parser.cc) that end, and those that take a byte: their composition, and
-- the operations on one byte.
use gabby.Base.{
  ℕ, suc, ◌-◌, ◌≤◌, ◌<◌, Bool, true, false, [], ◌∷◌, Bytes, length, if◌then◌else◌, ◌≡◌, arith,
}
use gabby.Outcome.{
  Exception, Run, pure, throw, ◌>>=◌, Ensures, holds, raised, Ensures-bind, Ensures-weaken,
}
use gabby.Json.Source.{View, view, view_source, Ending, eof, again, failed}
use gabby.Json.Scan.{peek_eof, advance_eof, peek, advance}

abbrev pub size : View → ℕ
size v = length v.rest

-- From a state with at most `n` bytes left the run ends, with at most `n` left (`Ends`) or with fewer
-- (`Takes`).
abbrev pub Ends : {A : Type 0} → ℕ → Run View A → Type 0
Ends n m = (v : View) → size v ≤ n → Ensures (λ x. size x.1 ≤ n) (m v)

abbrev pub Takes : {A : Type 0} → ℕ → Run View A → Type 0
Takes n m = (v : View) → size v ≤ n → Ensures (λ x. size x.1 < n) (m v)

module _ {A B : Type 0} {n : ℕ} {m : Run View A} {f : A → Run View B} where
  pub Ends-bind : Ends n m → ((a : A) → Ends n (f a)) → Ends n (m >>= f)
  Ends-bind h k v l = Ensures-bind (h v l) λ (a, t) p. k a t p

  pub Takes-bind : Takes n m → ((k : ℕ) → n ≡ suc k → (a : A) → Ends k (f a)) → Takes n (m >>= f)
  Takes-bind h g v l = Ensures-bind (h v l) λ (a, t) p. go a t (n - 1) (omega arith) (omega arith)
    where
      go : (a : A) (t : View) (k : ℕ) → n ≡ suc k → size t ≤ k → Ensures (λ x. size x.1 < n) (f a t)
      go a t k e p = Ensures-weaken (λ x q. omega arith) (g k e a t p)

  pub Ends-Takes : Ends n m → ((a : A) → Takes n (f a)) → Takes n (m >>= f)
  Ends-Takes h k v l = Ensures-bind (h v l) λ (a, t) p. k a t p

pub Takes-Ends : {A : Type 0} {n : ℕ} (m : Run View A) → Takes n m → Ends n m
Takes-Ends m h v l = Ensures-weaken (λ x p. omega arith) (h v l)

pub Ends-pure : {A : Type 0} {n : ℕ} (a : A) → Ends n (pure a)
Ends-pure a v l = holds l

pub Ends-throw : {A : Type 0} {n : ℕ} (e : Exception) → Ends {A = A} n (throw e)
Ends-throw e v l = raised

pub Ends-elim :
    {A : Type 0} {n : ℕ} (b : Bool) {m k : Run View A}
    → Ends n m
    → Ends n k
    → Ends n (elim b [ true ↦ m | false ↦ k ])
Ends-elim true h g = h
Ends-elim false h g = g

pub Ends-if :
    {A : Type 0} {n : ℕ} (b : Bool) {m k : Run View A}
    → Ends n m
    → Ends n k
    → Ends n (if b then m else k)
Ends-if true h g = h
Ends-if false h g = g

pub Takes-if :
    {A : Type 0} {n : ℕ} (b : Bool) {m k : Run View A}
    → Takes n m
    → Takes n k
    → Takes n (if b then m else k)
Takes-if true h g = h
Takes-if false h g = g

peek_eof-Ends : {n : ℕ} (e : Ending) → Ends n (peek_eof e)
peek_eof-Ends eof v l = holds l
peek_eof-Ends again v l = holds l
peek_eof-Ends (failed e) v l = raised

advance_eof-Takes : {n : ℕ} (e : Ending) → Takes n (advance_eof e)
advance_eof-Takes eof v l = raised
advance_eof-Takes again v l = raised
advance_eof-Takes (failed e) v l = raised

pub peek-Ends : {n : ℕ} → Ends n (peek view_source)
unfolding peek
peek-Ends {n} v = at v.rest v.missing v.last
  where
    at :
        (rest : Bytes) (missing : ℕ) (last : Ending)
        → length rest ≤ n
        → Ensures (λ x. size x.1 ≤ n) (peek view_source (view rest missing last))
    at [] missing last l = peek_eof-Ends last (view [] missing last) l
    at (c ∷ cs) missing last l = holds l

pub advance-Takes : {n : ℕ} → Takes n (advance view_source)
unfolding advance
advance-Takes {n} v = at v.rest v.missing v.last
  where
    at :
        (rest : Bytes) (missing : ℕ) (last : Ending)
        → length rest ≤ n
        → Ensures (λ x. size x.1 < n) (advance view_source (view rest missing last))
    at [] missing last l = advance_eof-Takes last (view [] missing last) l
    at (c ∷ cs) missing last l = holds l
