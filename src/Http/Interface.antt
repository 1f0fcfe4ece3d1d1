-- ===== src/Http/Interface.antt =====
-- src/http/types.h, `class ResponseWriter`: what a handler is given, and `SocketWriter`
-- (src/http/server.cc) as one.
use gabby.Base.{
  Bool, true, false, Option, none, Bytes, codes, has_value, ◌==◌, if◌then◌else◌, ◌≡◌, refl, sym, ap,
  subst, ◌∙◌, [], ◌∷◌,
}
use gabby.Outcome.{Exception, Outcome, ok, throws, aborts, out_of_fuel, internal_error}
use gabby.Http.Types.{StatusCode, ok_status}
use gabby.Http.Writer.{
  Sink, Writer, Fwrite, sent, after, write, write_header, write_status, write_data, default_status,
  record_header, record_status, record_sending, status_line, header_line, flush,
}
use gabby.Http.Response.{Ends, returned, threw, Ends-after, Ends-if}

-- What a call leaves, for a writer of any class.
abbrev pub Result : Type 0 → Type 0
Result W = Outcome (Unit {0}) × W

abbrev pub followed : {W : Type 0} → Result W → (W → Result W) → Result W
followed (ok u, w) k = k w
followed (throws e, w) k = (throws e, w)
followed (aborts, w) k = (aborts, w)
followed (out_of_fuel, w) k = (out_of_fuel, w)

-- `class ResponseWriter`. `sending` tells whether data has been sent; the laws are what the comments
-- at its methods say.
pub record ResponseWriter : Type 1 where
  pub W : Type 0
  pub flush : W → W
  pub write_status : StatusCode → W → Result W
  pub write_header : Bytes → Bytes → W → Result W
  pub write_data : Bytes → W → Result W
  pub status : W → Option StatusCode
  pub sending : W → Bool
  pub late_status :
      (c : StatusCode) (w : W)
      → sending w ≡ true
      → (e : Exception) × (write_status c w ≡ (throws e, w))
  pub late_header :
      (k v : Bytes) (w : W)
      → sending w ≡ true
      → (e : Exception) × (write_header k v w ≡ (throws e, w))
  pub default_status :
      (s : Bytes) (w : W)
      → sending w ≡ false
      → status w ≡ none
      → write_data s w ≡ followed (write_status ok_status w) (write_data s)
  pub sends : (s : Bytes) (w u : W) → write_data s w ≡ (ok tt, u) → sending u ≡ true

-- The status has been written and no data.
record HasStatus (w : Writer) : Type 0 where
  pub quiet : w.sending_data ≡ false
  pub has : has_value w.status ≡ true

abbrev Sending : Bool → Writer → Type 0
Sending b w = w.sending_data ≡ b

abbrev Any : Writer → Type 0
Any w = Unit

sent-Sending :
    (b : Bool) (s : Bytes) (w : Writer) (f : Fwrite)
    → Sending b w
    → Ends Any (Sending b) (sent s w f)
sent-Sending b s w f q = Ends-if (f.count == 0) (λ e. threw tt) (λ e. returned q)

write-Sending : (b : Bool) (s : Bytes) (w : Writer) → Sending b w → Ends Any (Sending b) (write s w)
unfolding write
write-Sending b [] w q = returned q
write-Sending b (c ∷ s) w q = sent-Sending b (c ∷ s) w _ q

write_header-Sending :
    (k v : Bytes) (w : Writer) → Sending false w → Ends Any (Sending false) (write_header k v w)
unfolding write_header record_header
write_header-Sending k v w q =
    Ends-if w.sending_data (λ e. threw tt)
      (λ e.
        Ends-after (record_header k v) (write-Sending false (header_line k v) w q)
          (λ u p. returned p))

write_status-HasStatus :
    (c : StatusCode) (w : Writer) → Sending false w → Ends Any HasStatus (write_status c w)
unfolding write_status
write_status-HasStatus c w q =
    Ends-if w.sending_data (λ e. threw tt)
      (λ e.
        Ends-after (record_status c)
          (Ends-after (write_header (codes "Connection") (codes "close"))
            (write-Sending false (status_line c) w q)
            (λ u p. write_header-Sending (codes "Connection") (codes "close") u p))
          (λ u p. returned (record { quiet = p; has = refl })))

-- Behind a status `WriteData` goes on as it does where it has just written one.
data_behind :
    (s : Bytes) {r : Outcome (Unit {0}) × Writer}
    → Ends Any HasStatus r
    → after (after (after r (write (b'\r' ∷ b'\n' ∷ []))) record_sending) (write s)
      ≡ followed r (write_data s)
unfolding write_data default_status
data_behind s (returned h) = rw (h.quiet, h.has) refl
data_behind s (threw p) = refl

default_status-none : (w : Writer) → w.status ≡ none → default_status w ≡ write_status ok_status w
unfolding default_status
default_status-none w n = ap (λ o. if has_value o then (ok tt, w) else write_status ok_status w) n

write_data-quiet :
    (s : Bytes) (w : Writer)
    → w.sending_data ≡ false
    → write_data s w
      ≡ after
          (after (after (default_status w) (write (b'\r' ∷ b'\n' ∷ []))) record_sending)
          (write s)
unfolding write_data
write_data-quiet s w q =
    ap
      (λ b.
        if b
        then write s w
        else after (after (after (default_status w) (write (b'\r' ∷ b'\n' ∷ []))) record_sending)
            (write s))
      q

-- Without a status `WriteData` does what it does behind `StatusCode::OK`.
pub write_data-default :
    (s : Bytes) (w : Writer)
    → w.sending_data ≡ false
    → w.status ≡ none
    → write_data s w ≡ followed (write_status ok_status w) (write_data s)
write_data-default s w q n =
    write_data-quiet s w q
    ∙ (ap (λ r. after (after (after r (write (b'\r' ∷ b'\n' ∷ []))) record_sending) (write s))
          (default_status-none w n)
        ∙ data_behind s (write_status-HasStatus ok_status w q))

late_call :
    (x : Outcome (Unit {0}) × Writer) (w : Writer)
    → w.sending_data ≡ true
    → (if w.sending_data
        then (throws (internal_error (codes "failed to send http status")), w)
        else x)
      ≡ (throws (internal_error (codes "failed to send http status")), w)
late_call x w h = rw h refl

pub late_write_status :
    (c : StatusCode) (w : Writer)
    → w.sending_data ≡ true
    → (e : Exception) × (write_status c w ≡ (throws e, w))
unfolding write_status
late_write_status c w h = (_, late_call _ w h)

pub late_write_header :
    (k v : Bytes) (w : Writer)
    → w.sending_data ≡ true
    → (e : Exception) × (write_header k v w ≡ (throws e, w))
unfolding write_header
late_write_header k v w h = (_, late_call _ w h)

still_quiet : {r : Outcome (Unit {0}) × Writer} → Ends Any HasStatus r → Ends Any (Sending false) r
still_quiet (returned h) = returned h.quiet
still_quiet (threw p) = threw p

default_status-Sending :
    (w : Writer) → Sending false w → Ends Any (Sending false) (default_status w)
unfolding default_status
default_status-Sending w q =
    Ends-if (has_value w.status) (λ e. returned q)
      (λ e. still_quiet (write_status-HasStatus ok_status w q))

write_data-Sending : (s : Bytes) (w : Writer) → Ends Any (Sending true) (write_data s w)
unfolding write_data
write_data-Sending s w =
    Ends-if w.sending_data (λ e. write-Sending true s w e)
      (λ e.
        Ends-after (write s)
          (Ends-after record_sending
            (Ends-after (write (b'\r' ∷ b'\n' ∷ [])) (default_status-Sending w e)
              (λ u q. write-Sending false (b'\r' ∷ b'\n' ∷ []) u q))
            (λ u _. returned refl))
          (λ u p. write-Sending true s u p))

returned-holds :
    {Q : Writer → Type 0} {r : Outcome (Unit {0}) × Writer} {u : Writer}
    → Ends Any Q r
    → r ≡ (ok tt, u)
    → Q u
returned-holds {Q} (returned q) e = subst Q (ap (λ r. r.1) e) q
returned-holds (threw p) e = cc

-- Where `WriteData` returns, data has been sent.
pub write_data-sends :
    (s : Bytes) (w u : Writer) → write_data s w ≡ (ok tt, u) → u.sending_data ≡ true
write_data-sends s w u e = returned-holds (write_data-Sending s w) e

-- `class SocketWriter : public ResponseWriter`
abbrev pub socket_writer : (Sink → Sink) → ResponseWriter
socket_writer fflush = record {
  W = Writer;
  flush = flush fflush;
  write_status = write_status;
  write_header = write_header;
  write_data = write_data;
  status = λ w. w.status;
  sending = λ w. w.sending_data;
  late_status = late_write_status;
  late_header = late_write_header;
  default_status = write_data-default;
  sends = write_data-sends;
}

module _ (r : ResponseWriter) where
  open r use {W, write_status, write_data, status, sending, late_status, default_status, sends}

  -- A handler that writes data and then a status, whichever the class of its writer, throws where the
  -- status is written, and leaves the response as the data left it; and the data was sent behind
  -- `StatusCode::OK` if there was no status.
  pub status_behind_data :
      (s : Bytes) (c : StatusCode) (w u : W)
      → sending w ≡ false
      → status w ≡ none
      → write_data s w ≡ (ok tt, u)
      → (followed (write_status ok_status w) (write_data s) ≡ (ok tt, u))
        × ((e : Exception) × (followed (write_data s w) (write_status c) ≡ (throws e, u)))
  status_behind_data s c w u quiet none_yet h =
      let (e, late) = late_status c u (sends s w u h) in
      (sym (default_status s w quiet none_yet) ∙ h, (e, rw h late))
