-- ===== src/Http/ResponseText.antt =====
-- What `SocketWriter` (src/http/server.cc) sends where the stream takes every byte.
use gabby.Base.{
  ℕ, suc, ◌==◌, Bool, true, false, Option, none, some, List, [], ◌∷◌, ◌++◌, Bytes, codes, length,
  length-append, ◌≡◌, refl, ap, ◌∙◌, append_assoc, append-nil, arith, ◌%◌, ◌^◌, ◌+◌,
}
use gabby.Outcome.{ok, Outcome}
use gabby.Http.Types.{StatusCode}
use gabby.Http.Writer.{
  Sink, Writer, writer, Call, after, record_status, record_sending, write, write_header,
  write_status, write_data, default_status, record_header, store, status_line, header_line,
}
use gabby.Http.Response.{Op, status, head, body, perform_all}

abbrev pub open_sink : Bytes → Sink
open_sink taken = record { taken = taken; answers = [] }

-- A writer on such a stream that has sent `t`.
abbrev pub open_writer : Bytes → Option StatusCode → List (Bytes × Bytes) → Bool → Writer
open_writer t st h sending = record {
  stream = open_sink t;
  status = st;
  headers = h;
  sending_data = sending;
  bytes_written = length t % 2 ^ 32;
}

-- what `WriteStatus` sends
abbrev pub head_text : StatusCode → Bytes
head_text c = status_line c ++ header_line (codes "Connection") (codes "close")

abbrev pub headers_text : List (Bytes × Bytes) → Bytes
headers_text [] = []
headers_text ((k, v) ∷ hs) = header_line k v ++ headers_text hs

abbrev pub concat : List Bytes → Bytes
concat [] = []
concat (d ∷ ds) = d ++ concat ds

-- A response of a status, headers, and data in one piece or more, and its text.
abbrev pub heads : List (Bytes × Bytes) → List Op → List Op
heads [] ops = ops
heads ((k, v) ∷ hs) ops = head k v ∷ heads hs ops

abbrev pub bodies : List Bytes → List Op
bodies [] = []
bodies (d ∷ ds) = body d ∷ bodies ds

abbrev pub response : StatusCode → List (Bytes × Bytes) → Bytes → List Bytes → List Op
response c hs d ds = status c ∷ heads hs (body d ∷ bodies ds)

abbrev pub response_text : StatusCode → List (Bytes × Bytes) → Bytes → Bytes
response_text c hs s = head_text c ++ (headers_text hs ++ (b'\r' ∷ b'\n' ∷ s))

abbrev pub stores : List (Bytes × Bytes) → List (Bytes × Bytes) → List (Bytes × Bytes)
stores h [] = h
stores h ((k, v) ∷ hs) = stores (store h k v) hs

pub after-ok :
    {r : Outcome (Unit {0}) × Writer} {w : Writer} (k : Call) → r ≡ (ok tt, w) → after r k ≡ k w
after-ok k e = rw e refl

suc_nonzero : (n : ℕ) → (suc n == 0) ≡ false
suc_nonzero n = ground arith

wrapped : (m n : ℕ) → (m % 2 ^ 32 + n) % 2 ^ 32 ≡ (m + n) % 2 ^ 32
wrapped m n = omega arith

module _ (t : Bytes) (st : Option StatusCode) (h : List (Bytes × Bytes)) where
  write-open :
      (sending : Bool) (s : Bytes)
      → write s (open_writer t st h sending) ≡ (ok tt, open_writer (t ++ s) st h sending)
  unfolding write
  write-open sending [] = rw append-nil refl
  write-open sending (c ∷ s) =
      rw (suc_nonzero (length s), wrapped (length t) (suc (length s)), length-append t (c ∷ s)) refl

  write_header-open :
      (k v : Bytes)
      → write_header k v (open_writer t st h false)
        ≡ (ok tt, open_writer (t ++ header_line k v) st (store h k v) false)
  unfolding write_header record_header
  write_header-open k v = after-ok (record_header k v) (write-open false (header_line k v))

pub write_status-open :
    (t : Bytes) (st : Option StatusCode) (h : List (Bytes × Bytes)) (c : StatusCode)
    → write_status c (open_writer t st h false) ≡ (
      ok tt,
      open_writer (t ++ head_text c) (some c) (store h (codes "Connection") (codes "close")) false,
    )
unfolding write_status
write_status-open t st h c =
    after-ok (record_status c) (
      after-ok (write_header (codes "Connection") (codes "close"))
        (write-open t st h false (status_line c))
      ∙ write_header-open (t ++ status_line c) st h (codes "Connection") (codes "close"))
    ∙ rw (append_assoc t (status_line c) (header_line (codes "Connection") (codes "close"))) refl

pub write_data-open_first :
    (t : Bytes) (c : StatusCode) (h : List (Bytes × Bytes)) (d : Bytes)
    → write_data d (open_writer t (some c) h false)
      ≡ (ok tt, open_writer (t ++ (b'\r' ∷ b'\n' ∷ d)) (some c) h true)
unfolding write_data default_status
write_data-open_first t c h d =
    after-ok (write d)
      (after-ok record_sending (write-open t (some c) h false (b'\r' ∷ b'\n' ∷ [])))
    ∙ write-open (t ++ (b'\r' ∷ b'\n' ∷ [])) (some c) h true d
    ∙ rw (append_assoc t (b'\r' ∷ b'\n' ∷ []) d) refl

bodies-open :
    (t : Bytes) (c : StatusCode) (h : List (Bytes × Bytes)) (ds : List Bytes)
    → perform_all (bodies ds) (open_writer t (some c) h true)
      ≡ open_writer (t ++ concat ds) (some c) h true
unfolding write_data
bodies-open t c h [] = rw append-nil refl
bodies-open t c h (d ∷ ds) =
    ap (λ r. perform_all (bodies ds) (r.1)) (write-open t (some c) h true d)
    ∙ bodies-open (t ++ d) c h ds
    ∙ rw (append_assoc t d (concat ds)) refl

heads-open :
    (t : Bytes) (c : StatusCode) (h hs : List (Bytes × Bytes)) (ops : List Op)
    → perform_all (heads hs ops) (open_writer t (some c) h false)
      ≡ perform_all ops (open_writer (t ++ headers_text hs) (some c) (stores h hs) false)
heads-open t c h [] ops = rw append-nil refl
heads-open t c h ((k, v) ∷ hs) ops =
    ap (λ r. perform_all (heads hs ops) (r.1)) (write_header-open t (some c) h k v)
    ∙ heads-open (t ++ header_line k v) c (store h k v) hs ops
    ∙ rw (append_assoc t (header_line k v) (headers_text hs)) refl

-- Where the stream takes every byte, a status, then headers, then data in one piece or more is sent
-- as the status line, `Connection: close`, the headers in that order, an empty line and the data, and
-- `bytes_written` counts just these bytes, modulo 2^32.
pub perform_all-open :
    (c : StatusCode) (hs : List (Bytes × Bytes)) (d : Bytes) (ds : List Bytes)
    → (perform_all (response c hs d ds) (writer (open_sink [])))
      ≡ open_writer
          (response_text c hs (d ++ concat ds))
          (some c)
          (stores ((codes "Connection", codes "close") ∷ []) hs)
          true
unfolding store
perform_all-open c hs d ds =
    ap (λ r. perform_all (heads hs (body d ∷ bodies ds)) (r.1)) (write_status-open [] none [] c)
    ∙ heads-open (head_text c) c _ hs (body d ∷ bodies ds)
    ∙ ap (λ r. perform_all (bodies ds) (r.1))
        (write_data-open_first (head_text c ++ headers_text hs) c _ d)
    ∙ bodies-open ((head_text c ++ headers_text hs) ++ (b'\r' ∷ b'\n' ∷ d)) c _ ds
    ∙ rw
        (
          append_assoc (head_text c ++ headers_text hs) (b'\r' ∷ b'\n' ∷ d) (concat ds),
          append_assoc (head_text c) (headers_text hs) (b'\r' ∷ b'\n' ∷ (d ++ concat ds)),
        )
        refl
