-- ===== src/Http/Client/Reply.antt =====
-- src/http/test_client.cc, `Call`: what the client gets back, over its connections.
use gabby.Base.{
  ℕ, zero, suc, ◌+◌, ◌<◌, ◌==◌, true, false, List, [], ◌∷◌, ◌++◌, Bytes, codes, is_empty, ◌≡◌, refl,
  sym, ap, subst, ◌∙◌, append_assoc, append-nil, arith, All,
}
use gabby.Outcome.{ok, throws, step, system_error, std_error}
use gabby.Json.Source.{eof}
use gabby.Http.Types.{Method}
use gabby.Http.ResponseText.{concat}
use gabby.Http.RequestText.{request_text}
use gabby.Http.Client.{
  Connection, Incoming, econnaborted, econnreset, connect, read_all, attempt, attempts, call,
}
use gabby.Http.Client.Sent.{Accepts, doubled, length_header, Sends-request, IsShort}

-- `connect` fails at most for aborted connections, and `write` never.
pub record IsOpen (c : Connection) : Type 0 where
  pub connects : All (λ e. (e == econnaborted) ≡ true) c.failures
  pub writes : All Accepts c.answers

-- What comes back is `text`, in chunks, and then the end of the stream.
pub record Carries (incoming : Incoming) (text : Bytes) : Type 0 where
  pub nonempty : All (λ c. is_empty c ≡ false) incoming.chunks
  pub whole : concat incoming.chunks ≡ text
  pub ends : incoming.ending ≡ eof

-- the text that `Call` sends
abbrev pub call_text : Method → Bytes → List (Bytes × Bytes) → Bytes → Bytes
call_text method path headers body =
    request_text method path (codes "HTTP/1.1") (doubled headers ++ doubled (length_header body))
      body

connect-aborted :
    (failures : List ℕ) → All (λ e. (e == econnaborted) ≡ true) failures → connect failures ≡ ok tt
unfolding connect
connect-aborted [] p = refl
connect-aborted (e ∷ es) p = rw p.0 (connect-aborted es p.1)

read_all-chunks :
    (chunks : List Bytes) (text : Bytes)
    → All (λ c. is_empty c ≡ false) chunks
    → read_all chunks eof text ≡ ok (text ++ concat chunks)
unfolding read_all
read_all-chunks [] text p = ap ok (sym (append-nil text))
read_all-chunks (c ∷ cs) text p =
    rw p.0 (read_all-chunks cs (text ++ c) p.1 ∙ ap ok (append_assoc text c (concat cs)))

read_all-carried :
    (incoming : Incoming) (text : Bytes)
    → Carries incoming text
    → read_all incoming.chunks incoming.ending [] ≡ ok text
read_all-carried incoming text c =
    ap (λ e. read_all incoming.chunks e []) c.ends
    ∙ (read_all-chunks incoming.chunks [] c.nonempty ∙ ap ok c.whole)

module _ (method : Method) (path : Bytes) (headers : List (Bytes × Bytes)) (body : Bytes) where
  attempt-reply :
      (c : Connection) (text : Bytes)
      → IsShort method path headers body
      → IsOpen c
      → Carries (c.reply (call_text method path headers body)) text
      → attempt c method path headers body ≡ ok text
  unfolding attempt
  attempt-reply c text short open_c back =
      let (left, (_, written)) =
        (Sends-request method path headers body short).run [] c.answers open_c.writes in
      step _ (connect-aborted c.failures open_c.connects)
        (step _ written (read_all-carried _ text back))

  module _ (connections : ℕ → Connection) where
    -- The connection is reset.
    abbrev pub Resets : ℕ → Type 0
    Resets i = attempt (connections i) method path headers body ≡ throws (system_error econnreset)

    attempts-reply :
        (left i n : ℕ) (text : Bytes)
        → n < left
        → ((j : ℕ) → j < i + n → Resets j)
        → attempt (connections (i + n)) method path headers body ≡ ok text
        → attempts left connections i method path headers body ≡ ok text
    unfolding attempts
    attempts-reply zero i n text h resets e = absurd (omega arith)
    attempts-reply (suc left) i zero text h resets e =
        let here : i + 0 ≡ i = omega arith in
        let now = subst (λ k. attempt (connections k) method path headers body ≡ ok text) here e in
        rw now refl
    attempts-reply (suc left) i (suc n) text h resets e =
        let here : i + suc n ≡ suc i + n = omega arith in
        rw (resets i (omega arith)) (
          attempts-reply left (suc i) n text (omega arith) (λ j k. resets j (omega arith))
            (subst (λ k. attempt (connections k) method path headers body ≡ ok text) here e))

    -- `Call` gives what comes back on the first connection that is not reset, if that is one of the
    -- first three, `connect` fails on it at most for aborted connections and `write` never fails. What
    -- is sent there is the text of a request in which each header, the length of the body with them,
    -- stands twice, however `write` cuts it up; and it makes no difference in which chunks the reply is
    -- read. The request line, each header and the body are shorter than 2^31 bytes.
    pub call-reply :
        (n : ℕ) (text : Bytes)
        → n < 3
        → ((j : ℕ) → j < n → Resets j)
        → IsShort method path headers body
        → IsOpen (connections n)
        → Carries ((connections n).reply (call_text method path headers body)) text
        → call connections method path headers body ≡ ok text
    unfolding call
    call-reply n text h resets short open_n back =
        attempts-reply 3 0 n text h (λ j k. resets j (omega arith))
          (subst (λ k. attempt (connections k) method path headers body ≡ ok text)
            (let e : n ≡ 0 + n = omega arith in e)
            (attempt-reply (connections n) text short open_n back))

    -- After three connections that are reset `Call` gives up.
    pub call-gives_up :
        Resets 0
        → Resets 1
        → Resets 2
        → call connections method path headers body
          ≡ throws (std_error (codes "exceeded max retries"))
    unfolding call attempts
    call-gives_up a b c = rw (a, b, c) refl
