-- ===== src/Http/Exact.antt =====
-- src/http/server.cc, `ReadLine`: the lines that it takes are those in its format, and no others.
use gabby.Base.{
  ℕ, zero, suc, ◌+◌, ◌-◌, ◌≤◌, Bool, true, false, not, ◌&&◌, Option, none, some, inl, inr,
  Bool-cases, ◌↔◌, [], ◌∷◌, ◌++◌, Bytes, ◌==◌, ==_iff, leb, opt_eq, length, length-append, take,
  ◌≡◌, refl, sym, ap, ◌∙◌, arith, if◌then◌else◌,
}
use gabby.Outcome.{Outcome, ok, throws, aborts, out_of_fuel, bad_request}
use gabby.Json.Source.{File}
use gabby.Http.Lines.{fgets, c_string, byte_at, check_line, checked, read_line}
use gabby.Http.Framing.{file, IsLine, crlf, read_line-crlf}
use gabby.Http.Refusals.{length-c_string}

-- the first byte of a text that is not cut at it
c_string-cons :
    (d x : ℕ) (t u : Bytes)
    → c_string (d ∷ t) ≡ x ∷ u
    → (d ≡ x) × (c_string t ≡ u) × ((d == 0) ≡ false)
unfolding c_string
c_string-cons d x t u e = by_nul (d == 0) refl (c_string t) refl
  where
    by_nul :
        (b : Bool)
        → (d == 0) ≡ b
        → (s : Bytes) → c_string t ≡ s
        → (d ≡ x) × (s ≡ u) × ((d == 0) ≡ false)
    by_nul true f s g = cc (rw f at e)
    by_nul false f s g = by_cons (rw (f, g) at e)
      where
        by_cons : d ∷ s ≡ x ∷ u → (d ≡ x) × (s ≡ u) × ((d == 0) ≡ false)
        by_cons h = (cc, cc, f)

-- a newline at once, and nothing else in the buffer
newline_next :
    (n : ℕ) (cs : Bytes)
    → c_string (fgets n cs).buf ≡ b'\n' ∷ []
    → (cs ≡ b'\n' ∷ (fgets n cs).rest) × (1 ≤ n)
unfolding fgets c_string
newline_next zero cs e = cc
newline_next (suc n) [] e = cc
newline_next (suc n) (d ∷ ds) e = elim (Bool-cases (d == b'\n')) [
  | inl h ↦ rw h (ap (λ x. x ∷ ds) ((==_iff d b'\n').0 h), omega arith)
  | inr h ↦
      let (same, more, plain) = c_string-cons d b'\n' (fgets n ds).buf [] (rw h at e) in
      cc ((==_iff d b'\n').1 same)
]

too_short : {A : Type 0} (t line : Bytes) → t ≡ line ++ crlf [] → length t ≤ 1 → A
too_short t line e h = absurd (omega (arith, ap length e, length-append line (crlf [])))

-- What `fgets` and `strnlen` give as a line with its ending is in the stream as it is.
fgets-exact :
    (n : ℕ) (bs line : Bytes)
    → c_string (fgets n bs).buf ≡ line ++ crlf []
    → (bs ≡ line ++ crlf (fgets n bs).rest) × IsLine line × (length line + 2 ≤ n)
unfolding fgets
fgets-exact zero bs line e = too_short _ line e (omega (arith, length-c_string []))
fgets-exact (suc n) [] line e = too_short _ line e (omega (arith, length-c_string []))
fgets-exact (suc n) (c ∷ cs) line e = elim (Bool-cases (c == b'\n')) [
  | inl h ↦ too_short _ line (rw h at e) (length-c_string (c ∷ []))
  | inr h ↦ rw h (later line h (rw h at e) (λ xs more. fgets-exact n cs xs more))
]
  where
    later :
        (line : Bytes)
        → (c == b'\n') ≡ false
        → c_string (c ∷ (fgets n cs).buf) ≡ line ++ crlf []
        → ((xs : Bytes)
            → c_string (fgets n cs).buf ≡ xs ++ crlf []
            → (cs ≡ xs ++ crlf (fgets n cs).rest) × IsLine xs × (length xs + 2 ≤ n))
        → (c ∷ cs ≡ line ++ crlf (fgets n cs).rest) × IsLine line × (length line + 2 ≤ suc n)
    later [] h e again =
        let (same, more, plain) = c_string-cons c b'\r' (fgets n cs).buf (b'\n' ∷ []) e in
        let (next, room) = newline_next n cs more in (cc, tt, omega arith)
    later (x ∷ xs) h e again =
        let (same, more, plain) = c_string-cons c x (fgets n cs).buf (xs ++ crlf []) e in
        let (next, line, room) = again xs more in
        (cc, ((rw same at h, rw same at plain), line), omega arith)

-- The last two bytes of a text.
last_two :
    (text : Bytes) (k a b : ℕ)
    → length text ≡ k + 2
    → byte_at text k ≡ some a
    → byte_at text (suc k) ≡ some b
    → text ≡ take k text ++ a ∷ b ∷ []
unfolding byte_at
last_two [] k a b h e f = cc
last_two (x ∷ []) k a b h e f = absurd (omega arith)
last_two (x ∷ y ∷ []) zero a b h e f = cc
last_two (x ∷ y ∷ z ∷ text) zero a b h e f = absurd (omega arith)
last_two (x ∷ y ∷ text) (suc k) a b h e f =
    ap (λ l. x ∷ l) (last_two (y ∷ text) k a b (omega arith) e f)

opt_eq-some : (o : Option ℕ) (b : ℕ) → opt_eq o (some b) ≡ true → o ≡ some b
opt_eq-some none b h = cc
opt_eq-some (some a) b h = ap some ((==_iff a b).0 h)

-- A chain of the form of the tests that ends in a value.
chain-ok :
    (empty newline crs : Bool) (what why : Bytes) (r line : Bytes)
    → (if empty
        then aborts
        else if not newline
        then throws (bad_request what)
        else if crs
        then ok r
        else throws (bad_request why))
      ≡ ok line
    → (newline ≡ true) × (crs ≡ true) × (r ≡ line)
chain-ok true newline crs what why r line h = cc
chain-ok false false crs what why r line h = cc
chain-ok false true false what why r line h = cc
chain-ok false true true what why r line h = (refl, refl, cc)

-- The tests of `ReadLine` let through a line with CR and LF.
check_line-exact : (text line : Bytes) → check_line text ≡ ok line → text ≡ line ++ crlf []
unfolding check_line
check_line-exact text line h =
    let (newline, cr, same) = chain-ok _ _ _ _ _ _ line h in
    let (long, return) = both cr in
    rw (sym same) (
      last_two text (length text - 2) b'\r' b'\n' (omega arith) (opt_eq-some _ _ return)
        (ap (byte_at text) (index long) ∙ opt_eq-some _ _ newline))
  where
    both :
        (leb 2 (length text) && opt_eq (byte_at text (length text - 2)) (some b'\r')) ≡ true
        → (2 ≤ length text) × (opt_eq (byte_at text (length text - 2)) (some b'\r') ≡ true)
    both h = ground arith

    index : 2 ≤ length text → suc (length text - 2) ≡ length text - 1
    index h = omega arith

checked-ok :
    (f after : File) (x : Outcome Bytes) (line : Bytes)
    → checked f x ≡ ok (line, after)
    → (x ≡ ok line) × (f ≡ after)
checked-ok f after (ok l) line h = (cc, cc)
checked-ok f after (throws e) line h = cc
checked-ok f after aborts line h = cc
checked-ok f after out_of_fuel line h = cc

-- The format of a line, and where the stream is behind it.
pub record IsFramed (f : File) (line : Bytes) (after : File) : Type 0 where
  pub framed : f.bytes ≡ line ++ crlf after.bytes
  pub plain : IsLine line
  pub short : length line ≤ 253
  pub same_ending : f.ending ≡ after.ending

read_line-IsFramed :
    (f after : File) (line : Bytes) → read_line f ≡ ok (line, after) → IsFramed f line after
unfolding read_line
read_line-IsFramed f after line h = by_end (fgets 255 f.bytes).hit_end refl
  where
    by_end : (b : Bool) → (fgets 255 f.bytes).hit_end ≡ b → IsFramed f line after
    by_end true e = cc (rw e at h)
    by_end false e =
        let (line_ok, file_ok) = checked-ok _ after _ line (rw e at h) in
        let (bytes, plain, room) =
          fgets-exact 255 f.bytes line
            (check_line-exact (c_string (fgets 255 f.bytes).buf) line line_ok) in
        record {
          framed = bytes ∙ ap (λ g. line ++ crlf g.bytes) file_ok;
          plain = plain;
          short = omega arith;
          same_ending = ap (λ g. g.ending) file_ok;
        }

framed-read_line :
    (f after : File) (line : Bytes) → IsFramed f line after → read_line f ≡ ok (line, after)
framed-read_line f after line i =
    ap read_line (same f after line i.framed i.same_ending)
    ∙ read_line-crlf line after.bytes after.ending i.plain i.short
  where
    same :
        (f after : File) (line : Bytes)
        → f.bytes ≡ line ++ crlf after.bytes
        → f.ending ≡ after.ending
        → f ≡ file (line ++ crlf after.bytes) after.ending
    same f after line e g = cc

-- `ReadLine` gives a line, and leaves a stream, exactly where the stream that it is given is that line
-- of at most 253 bytes without newline and NUL, CR and LF, and then the stream that it leaves: it takes
-- every such line and accepts nothing else.
pub read_line_iff :
    (f after : File) (line : Bytes) → (read_line f ≡ ok (line, after)) ↔ IsFramed f line after
read_line_iff f after line = (read_line-IsFramed f after line, framed-read_line f after line)
