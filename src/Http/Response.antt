-- ===== src/Http/Response.antt =====
-- What `SocketWriter` (src/http/server.cc) sends: over every sequence of calls, and as a whole where
-- the stream takes every byte.
use gabby.Base.{Bool, true, false, List, [], ◌∷◌, Bytes, has_value, if◌then◌else◌, ◌≡◌, refl}
use gabby.Outcome.{Exception, Outcome, ok, throws}
use gabby.Http.Types.{StatusCode}
use gabby.Http.Writer.{Writer, Call, after, ◌then◌, write_header, write_status, write_data}

-- A call of the `ResponseWriter` interface.
pub data Op : Type 0 where
  status : StatusCode → Op
  head : (key value : Bytes) → Op
  body : Bytes → Op

abbrev pub perform : Op → Call
perform (status c) = write_status c
perform (head k v) = write_header k v
perform (body s) = write_data s

-- Calls in a row. A handler may catch what a call throws and go on.
abbrev pub perform_all : List Op → Writer → Writer
perform_all [] w = w
perform_all (op ∷ ops) w = perform_all ops (perform op w).1

-- A call ends with `Q` of the writer or, where it throws, with `P` of it.
pub data Ends (P Q : Writer → Type 0) : Outcome (Unit {0}) × Writer → Type 0 where
  returned : {w : Writer} → Q w → Ends P Q (ok tt, w)
  threw : {e : Exception} {w : Writer} → P w → Ends P Q (throws e, w)

module _ {P Q R : Writer → Type 0} where
  pub Ends-after :
      {r : Outcome (Unit {0}) × Writer} (k : Call)
      → Ends P Q r
      → ((w : Writer) → Q w → Ends P R (k w))
      → Ends P R (after r k)
  Ends-after k (returned {w} q) h = h w q
  Ends-after k (threw p) h = threw p

pub Ends-if :
    {P Q : Writer → Type 0} (b : Bool) {x y : Outcome (Unit {0}) × Writer}
    → (b ≡ true → Ends P Q x)
    → (b ≡ false → Ends P Q y)
    → Ends P Q (if b then x else y)
Ends-if true h k = h refl
Ends-if false h k = k refl

-- Data is sent only behind a status.
pub record IsWriter (w : Writer) : Type 0 where
  pub has_status : w.sending_data ≡ true → has_value w.status ≡ true

record Ready (w : Writer) : Type 0 where
  pub valid : IsWriter w
  pub some_status : has_value w.status ≡ true

-- what `Write` leaves as it is
record Sent (w u : Writer) : Type 0 where
  pub valid : IsWriter u
  pub same_status : u.status ≡ w.status
