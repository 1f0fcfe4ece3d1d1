-- ===== src/Json/Refine/Stream.antt =====
-- `class Scanner` over a stream refines the list of the bytes below the size.
use gabby.Base.{
  ℕ, suc, ◌+◌, ◌≤◌, ◌<◌, Option, none, some, [], ◌∷◌, ◌++◌, Bytes, length, ◌≡◌, refl, sym, subst,
  ◌∙◌, arith,
}
use gabby.Json.Source.{
  Ending, eof, plus, Scanner, View, view, scanner_source, view_source, get_char, unget_char,
  scanner_ending,
}
use gabby.Json.Refine.Simulation.{both, GetsAlike, ends, gets, Refines}

abbrev pub scanner : Bytes → Ending → ℕ → ℕ → Option ℕ → Scanner
scanner bytes e n p held = record {
  file = record { bytes = bytes; ending = e };
  size = plus n;
  pos = p;
  lookahead = held;
}

-- Behind the bytes that can be read stands the size, or the end of the stream short of the size.
pub data Behind : ℕ → Bytes → Ending → Ending → Type 0 where
  cut :
      {missing : ℕ} {beyond : Bytes} {e last : Ending}
      → missing ≡ 0
      → last ≡ eof
      → Behind missing beyond e last
  short :
      {missing : ℕ} {beyond : Bytes} {e last : Ending}
      → 0 < missing
      → beyond ≡ []
      → last ≡ e
      → Behind missing beyond e last

-- A scanner and the list that it stands for: the lookahead byte, if any, and the bytes of the stream
-- below the size. `missing` is how many more bytes the size asks for.
pub data Shows : Scanner → View → Type 0 where
  fresh :
      {bytes rest beyond : Bytes} {e last : Ending} {n p missing : ℕ}
      → bytes ≡ rest ++ beyond
      → n ≡ p + length rest + missing
      → Behind missing beyond e last
      → Shows (scanner bytes e n p none) (view rest missing last)
  held :
      {c : ℕ} {bytes rest beyond : Bytes} {e last : Ending} {n p missing : ℕ}
      → bytes ≡ rest ++ beyond
      → n ≡ p + suc (length rest) + missing
      → Behind missing beyond e last
      → Shows (scanner bytes e n p (some c)) (view (c ∷ rest) missing last)

get_char-at_size :
    (bytes : Bytes) (e : Ending) (n p : ℕ)
    → n ≤ p
    → get_char (scanner bytes e n p none) ≡ (none, scanner bytes e n p none)
unfolding get_char
get_char-at_size bytes e n p h = ground arith

get_char-end :
    (e : Ending) (n p : ℕ)
    → p < n
    → get_char (scanner [] e n p none) ≡ (none, scanner [] e n p none)
unfolding get_char
get_char-end e n p h = ground arith

get_char-cons :
    (c : ℕ) (bytes : Bytes) (e : Ending) (n p : ℕ)
    → p < n
    → get_char (scanner (c ∷ bytes) e n p none) ≡ (some c, scanner bytes e n (p + 1) none)
unfolding get_char
get_char-cons c bytes e n p h = ground arith

scanner_ending-at_size :
    (bytes : Bytes) (e : Ending) (n p : ℕ) → n ≤ p → scanner_ending (scanner bytes e n p none) ≡ eof
unfolding scanner_ending
scanner_ending-at_size bytes e n p h = ground arith

scanner_ending-end :
    (bytes : Bytes) (e : Ending) (n p : ℕ) → p < n → scanner_ending (scanner bytes e n p none) ≡ e
unfolding scanner_ending
scanner_ending-end bytes e n p h = ground arith

abbrev Gets : Option ℕ × Scanner → Option ℕ × View → Type 0
Gets = GetsAlike Shows scanner_source view_source

-- A byte was taken: both sides can take it back.
taken :
    {c : ℕ} {bytes rest beyond : Bytes} {e last : Ending} {n missing : ℕ} (p : ℕ)
    → bytes ≡ rest ++ beyond
    → n ≡ p + suc (length rest) + missing
    → Behind missing beyond e last
    → Gets (some c, scanner bytes e n (p + 1) none) (some c, view rest missing last)
unfolding unget_char
taken p eq size b = gets (fresh eq (omega arith) b) (both (held eq (omega arith) b))

at_end :
    {bytes beyond : Bytes} {e last : Ending} {n missing : ℕ} (p : ℕ)
    → bytes ≡ beyond
    → n ≡ p + 0 + missing
    → Behind missing beyond e last
    → Gets (get_char (scanner bytes e n p none)) (none, view [] missing last)
at_end {bytes} {e} {n} p eq size (cut m l) =
    rw (get_char-at_size bytes e n p (omega arith))
      (ends (fresh eq size (cut m l)) (scanner_ending-at_size bytes e n p (omega arith) ∙ sym l))
at_end {e} {last} {n} {missing} p eq size (short m b l) =
    subst (λ bs. Gets (get_char (scanner bs e n p none)) (none, view [] missing last))
      (sym (eq ∙ b))
      (rw (get_char-end e n p (omega arith)) (
        ends (fresh refl size (short m refl l))
          (scanner_ending-end [] e n p (omega arith) ∙ sym l)))

Shows-get_alike : (s : Scanner) (v : View) → Shows s v → Gets (get_char s) (view_source.get_char v)
unfolding get_char
Shows-get_alike s v (held {p} eq size b) = taken p eq size b
Shows-get_alike s v (fresh {rest = []} {p} eq size b) = at_end p eq size b
Shows-get_alike s v (fresh {rest = c ∷ cs} {beyond} {e} {last} {n} {p} {missing} eq size b) =
    subst (λ bs. Gets (get_char (scanner bs e n p none)) (some c, view cs missing last)) (sym eq)
      (rw (get_char-cons c (cs ++ beyond) e n p (omega arith)) (taken p refl size b))

Shows-size_alike :
    (s : Scanner) (v : View) → Shows s v → scanner_source.at_size s ≡ view_source.at_size v
Shows-size_alike s v (fresh {rest = []} eq size b) = ground arith
Shows-size_alike s v (fresh {rest = c ∷ cs} eq size b) = ground arith
Shows-size_alike s v (held eq size b) = ground arith

pub scanner-Refines : Refines Shows scanner_source view_source
scanner-Refines = record { get_alike = Shows-get_alike; size_alike = Shows-size_alike }
