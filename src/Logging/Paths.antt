-- ===== src/Logging/Paths.antt =====
-- src/utils/logging.cc, `basename`: the last part of a path.
use gabby.Base.{
  ℕ, Bool, true, false, Option, none, some, [], ◌∷◌, ◌++◌, Bytes, ◌==◌, ==_iff, ◌≡◌, refl, ap, All,
  ◌⊎◌, inl, inr,
}
use gabby.Logging.{behind_here, behind_last, or_whole, basename}

-- no such byte
abbrev pub Lacks : ℕ → Bytes → Type 0
Lacks c bs = All (λ b. (b == c) ≡ false) bs

-- A text is free of the byte, or it is cut at its last one.
abbrev Cut : ℕ → Bytes → Option Bytes → Type 0
Cut c bs none = Lacks c bs
Cut c bs (some r) = (front : Bytes) × (bs ≡ front ++ c ∷ r) × Lacks c r

here-Cut :
    (c b : ℕ) (bs : Bytes) (here : Bool) (o : Option Bytes)
    → (b == c) ≡ here
    → Cut c bs o
    → Cut c (b ∷ bs) (behind_here here bs o)
here-Cut c b bs true none e lacks = ([], ap (λ x. x ∷ bs) ((==_iff b c).0 e), lacks)
here-Cut c b bs false none e lacks = (e, lacks)
here-Cut c b bs here (some r) e (front, same, lacks) = (b ∷ front, ap (λ x. b ∷ x) same, lacks)

behind_last-Cut : (c : ℕ) (bs : Bytes) → Cut c bs (behind_last c bs)
unfolding behind_last
behind_last-Cut c [] = tt
behind_last-Cut c (b ∷ bs) = here-Cut c b bs (b == c) (behind_last c bs) refl (behind_last-Cut c bs)

-- The last part of a path: it has no slash, and it is the whole path or stands behind a slash.
abbrev pub IsLastPart : Bytes → Bytes → Type 0
IsLastPart path part =
    Lacks b'/' part × ((path ≡ part) ⊎ ((front : Bytes) × (path ≡ front ++ b'/' ∷ part)))

whole-IsLastPart :
    (path : Bytes) (o : Option Bytes) → Cut b'/' path o → IsLastPart path (or_whole path o)
whole-IsLastPart path none lacks = (lacks, inl refl)
whole-IsLastPart path (some r) (front, same, lacks) = (lacks, inr (front, same))

-- `basename` gives the last part of every path: the text behind the last slash, or the whole path where
-- there is no slash.
pub basename-IsLastPart : (path : Bytes) → IsLastPart path (basename path)
unfolding basename
basename-IsLastPart path = whole-IsLastPart path (behind_last b'/' path) (behind_last-Cut b'/' path)
