-- ===== src/LineHandler/Ends.antt =====
-- How a call of `ehd_http_process_request_line` ends.
use ehttpd.Prelude.{
  ℕ, zero, suc, ◌+◌, ◌≤◌, ◌<◌, ◌≡◌, ◌⊎◌, inl, inr, refl, sym, ◌∙◌, Bool, false, some, ◌==◌, arith,
  Bool-cases,
}
use mathlib.Core.Option
use mathlib.Core.Path.{subst}
use ehttpd.Request.{Buf, Code, ok, again, Request}
use ehttpd.RequestLine.{parse_request_line}
use ehttpd.RequestLine.Calls.{LineParsed, Ready, Post, parse_request_line-Post}
use ehttpd.RequestLine.Slash.{Begins, Begins-Agree, Leaves, parse_request_line-Leaves}
use ehttpd.Writer.{size_diff}
use ehttpd.Headers.{Session, close, Got, got, got_again, got_error, lost, process_request_headers}
use ehttpd.Headers.Reading.{Kept, Reads, pending, read-Reads}
use ehttpd.Headers.Rounds.{Fine, Fine-start}
use ehttpd.LineHandler.{
  Allocation, Line, Step, goes_on, fails, astray, copy_target, Left, Ending, waiting, closed,
  parsed, unanswered, stuck, Round, stop, go, on_step, on_code, parse, on_got, on_read, round, loop,
  process,
}
use ehttpd.LineHandler.Copies.{After, UriOf, Parsed, HandedOver, copy_target-HandedOver}

-- the session between two calls of the parser
pub record Waits (base : ℕ) (s : Session) : Type 0 where
  pub ready : Ready base s.request s.buf
  pub begins : Begins s.mem ready.state s.request s.buf.pos

-- What the parser has left, `s`, is the request and the memory of the line, but for the mark of the
-- extension and the NUL behind the request line; the path was copied from there.
abbrev pub HasTarget : ℕ → Line → Type 0
HasTarget base l =
    (s : Session) × Parsed base s
    × (s.buf ≡ l.session.buf)
    × (l.session.request ≡ record s.request { uri_ext = l.session.request.uri_ext })
    × ((k : ℕ) → k < s.request.request_end → l.session.mem k ≡ s.mem k)
    × UriOf s.mem s.request l.target.uri

-- how the handler leaves the connection
abbrev pub LeftBy : ℕ → ℕ → Ending → Line → Type 0
LeftBy base closes waiting l =
    Waits base l.session
    × (l.session.closes ≡ closes)
    × (l.session.event.rready ≡ false)
    × (l.session.buf.last ≡ l.session.buf.pos)
LeftBy base closes closed l = l.session.closes ≡ closes + 1
LeftBy base closes parsed l =
    Fine l.session
    × (l.session.closes ≡ closes)
    × (l.session.read_handler ≡ process_request_headers)
    × HasTarget base l
LeftBy base closes unanswered l = Unit
LeftBy base closes stuck l = ⊥

abbrev Leads : ℕ → ℕ → ℕ → Round → Type 0
Leads base closes n (stop e) = LeftBy base closes e.ending e.line
Leads base closes n (go l) =
    Waits base l.session × (l.session.closes ≡ closes) × (pending l.session < n)

-- the end of the request line, as the handler finds it
request_end-le :
    (base : ℕ) (s : Session) (h : LineParsed base s.request s.buf.pos) (k : ℕ)
    → k < s.request.request_end
    → k < s.request.request_start + size_diff s.request.request_end s.request.request_start
unfolding size_diff
request_end-le base s h k m =
    let a = h.method_some in
    let b = h.target_after in let c = h.target_some in let d = h.target_in_line in ground arith

Waits-Kept : (base : ℕ) (s s' : Session) → Waits base s → Kept s s' → Waits base s'
Waits-Kept base s s' w k =
    let below = w.ready.bounded in
    let moved : Waits base (record s' { request = s.request }) = record {
      ready = record {
        state = w.ready.state;
        stored = w.ready.stored;
        unfinished = w.ready.unfinished;
        inv = rw k.pos w.ready.inv;
        bounded = let same = k.pos in let more = k.last in omega arith;
      };
      begins = rw k.pos (
          Begins-Agree s.mem s'.mem w.ready.state s.request s.buf.pos
            (λ j l. k.below j (omega arith)) w.begins);
    } in
    subst (λ r. Waits base (record s' { request = r })) (sym k.request) moved

module _ (pool_ok : Allocation → Bool) (base : ℕ) where
  on_step-Leads :
      (n : ℕ) (l : Line) (m : Step)
      → Parsed base l.session
      → After (HandedOver pool_ok l.session) m
      → Leads base l.session.closes n (on_step pool_ok l m)
  unfolding on_step close
  on_step-Leads n l (goes_on l') p (c, h) =
      let b : l'.session.buf ≡ l.session.buf = c.buf in
      (
        Fine-start l'.session c.state (subst (λ t. t.pos ≤ t.last) (sym b) p.bounded),
        c.closes,
        h,
        (
          l.session,
          p,
          sym b,
          c.request,
          (λ k m. c.below k (request_end-le base l.session p.line k m)),
          c.uri,
        ),
      )
  on_step-Leads n l fails p h = refl
  on_step-Leads n l astray p h = absurd h

  on_code-Leads :
      (n : ℕ) (l : Line) (c : Code) (r : Request) (b : Buf)
      → Post base l.session.buf c r b
      → Leaves l.session.mem l.session.buf c r b
      → l.session.buf.pos < l.session.buf.last
      → pending l.session ≤ n
      → Leads base l.session.closes n
          (on_code pool_ok c (record l { session = record l.session { request = r; buf = b } }))
  unfolding on_code close
  on_code-Leads n l ok r b p v lt m =
      let l' = record l { session = record l.session { request = r; buf = b } } in
      let done : Parsed base l'.session = record {
        line = p.0;
        complete = v.0;
        bounded = omega arith;
      } in
      on_step-Leads n l' (copy_target pool_ok l') done (copy_target-HandedOver pool_ok base l' done)
  on_code-Leads n l again r b p v lt m =
      let (st, known, begins) = v.0 in
      let same : st ≡ p.0.state = Option.some-injective st p.0.state (sym known ∙ p.0.stored) in
      elim (Bool-cases (b.pos == b.end)) [
        | inl e ↦ rw e refl
        | inr e ↦ rw e (
          record { ready = p.0; begins = subst (λ t. Begins l.session.mem t r b.pos) same begins },
          refl,
          omega (arith, p.1, v.1),
        )
      ]
  on_code-Leads n l _ r b p v lt m = refl

  parse-Leads :
      (n : ℕ) (l : Line)
      → Waits base l.session
      → l.session.buf.pos < l.session.buf.last
      → pending l.session ≤ n
      → Leads base l.session.closes n (parse pool_ok l)
  unfolding parse
  parse-Leads n l w lt m =
      let s = l.session in
      let d = parse_request_line s.mem s.request s.buf in
      on_code-Leads n l d.code d.request d.buf
        (parse_request_line-Post base s.mem s.request s.buf w.ready)
        (parse_request_line-Leaves s.mem s.request s.buf w.ready.state w.ready.stored w.begins) lt m

  on_got-Leads :
      (l : Line) (g : Got) (s' : Session)
      → Waits base l.session
      → Reads l.session g s'
      → Leads base l.session.closes
          (pending l.session)
          (on_got pool_ok g (record l { session = s' }))
  unfolding on_got
  on_got-Leads l (got n) s' w (k, lt, p) =
      subst (λ c. Leads base c (pending l.session) (parse pool_ok (record l { session = s' })))
        k.closes
        (parse-Leads (pending l.session) (record l { session = s' })
          (Waits-Kept base l.session s' w k) lt (omega arith))
  on_got-Leads l got_again s' w (k, r, e) = (Waits-Kept base l.session s' w k, k.closes, r, e)
  on_got-Leads l got_error s' w h = h
  on_got-Leads l lost s' w h = tt

  round-Leads :
      (l : Line)
      → Waits base l.session
      → Leads base l.session.closes (pending l.session) (round pool_ok l)
  unfolding round on_read
  round-Leads l w = on_got-Leads l _ _ w (read-Reads l.session w.ready.bounded)

  Round-cases : (r : Round) → ((e : Left) × (r ≡ stop e)) ⊎ ((l : Line) × (r ≡ go l))
  Round-cases (stop e) = inl (e, refl)
  Round-cases (go l) = inr (l, refl)

  loop-LeftBy :
      (n : ℕ) (l : Line)
      → Waits base l.session
      → pending l.session < n
      → (e : Left) × (loop pool_ok n l ≡ some e) × LeftBy base l.session.closes e.ending e.line
  unfolding loop
  loop-LeftBy zero l w m = absurd (omega arith)
  loop-LeftBy (suc n) l w m = elim (Round-cases (round pool_ok l)) [
    | inl (e, q) ↦ (e, rw (q, loop) refl, rw q at (round-Leads l w))
    | inr (l', q) ↦
        let (w', c, m') : Leads base l.session.closes (pending l.session) (go l') =
          rw q at (round-Leads l w) in
        let (e, f, h) = loop-LeftBy n l' w' (omega arith) in
        (e, rw (q, loop) f, subst (λ k. LeftBy base k e.ending e.line) c h)
  ]

  -- The handler of a request line returns, for a connection as it is between two calls and whatever
  -- `recv` answers, with a round for each byte that is there or comes and one more, and the
  -- connection is closed once at most. If it waits, all bytes have been read, the socket gives no
  -- more and all is ready for the next call. If it hands over to the handler of headers, that one may
  -- start; the request is that of the parser, and the memory up to the end of the request line, too;
  -- the path was copied from the target, from its start up to the `?` or the end: its bytes, or those
  -- before a NUL in it, or what the parser of complex URIs leaves, with no `//`, `/./` or `/../` and a
  -- slash in front. What is allocated for it is its length in the target and one more, and no byte is
  -- written behind. Else the connection was closed.
  pub process-LeftBy :
      (l : Line)
      → Waits base l.session
      → (e : Left) × (process pool_ok l ≡ some e) × LeftBy base l.session.closes e.ending e.line
  unfolding process
  process-LeftBy l w = loop-LeftBy (pending l.session + 1) l w (omega arith)
