-- ===== src/Headers/Ends.antt =====
-- How a call of `ehd_http_process_request_headers` ends.
use mathlib.Core.Path.{subst}
use ehttpd.Prelude.{
  ℕ, zero, suc, ◌+◌, ◌-◌, ◌*◌, ◌<◌, ◌≡◌, ◌⊎◌, inl, inr, refl, ap, ◌∙◌, Bool, true, false, some,
  List, ◌∷◌, ◌++◌, ltb, ◌==◌, if◌then◌else◌, arith,
}
use ehttpd.Socket.{eagain, eintr, Answer, count, failed, Event, Ret, done, Called, recv}
use ehttpd.Socket
use ehttpd.Socket.Interrupts.{interrupts}
use ehttpd.Headers.{
  Session, Ending, closed, close, got_again, got_error, on_ret, on_recv, read_request_header, Round,
  stop, go, on_got, on_read, round, Result, loop, process,
}
use ehttpd.Headers.Reading.{pending}
use ehttpd.Headers.Rounds.{Fine, measure, Left, Leads, round-Leads}

Round-cases :
    (r : Round)
    → ((e : Ending) × (s : Session) × (r ≡ stop e s)) ⊎ ((b : Bool) × (s : Session) × (r ≡ go b s))
Round-cases (stop e s) = inl (e, s, refl)
Round-cases (go b s) = inr (b, s, refl)

module _ (strcasecmp : List ℕ → List ℕ → Bool) (list_push array_push : ℕ → Bool) where
  loop-Left :
      (n : ℕ) (b : Bool) (s : Session)
      → Fine s
      → measure b s < n
      → (r : Result) × (loop strcasecmp list_push array_push n b s ≡ some r)
        × Left s.closes r.ending r.session
  unfolding loop
  loop-Left zero b s f m = absurd (omega arith)
  loop-Left (suc n) b s f m = elim (Round-cases (round strcasecmp list_push array_push b s)) [
    | inl (e, s', q) ↦ (
      record { ending = e; session = s' },
      rw (q, loop) refl,
      rw q at (round-Leads strcasecmp list_push array_push b s f),
    )
    | inr (b', s', q) ↦
        let (f', c, m') : Leads strcasecmp list_push array_push s.closes (measure b s) (go b' s') =
          rw q at (round-Leads strcasecmp list_push array_push b s f) in
        let (r, e, h) = loop-Left n b' s' f' (omega arith) in
        (r, rw (q, loop) e, subst (λ k. Left k r.ending r.session) c h)
  ]

  -- The handler returns, for a session as it is between two calls and whatever `recv` answers: two
  -- rounds for each byte that is there or comes, and two more, are enough. If it waits for the
  -- next read event, all bytes have been read, the socket gives no more (so that an
  -- edge-triggered event follows) and all is ready for the next call; if `ehd_http_handler` was
  -- called, reading is blocked and the parser's state is reset, and in neither case the
  -- connection was closed. Otherwise it was closed once or twice.
  pub process-Left :
      (s : Session)
      → Fine s
      → (r : Result) × (process strcasecmp list_push array_push s ≡ some r)
        × Left s.closes r.ending r.session
  unfolding process
  process-Left s f = loop-Left (2 * pending s + 2) true s f (omega arith)

  recv-interrupts :
      (size : ℕ) (ev : Event) (k : ℕ) (a : Answer) (xs : List Answer)
      → recv size ev (interrupts k ++ (a ∷ xs)) ≡ recv size ev (a ∷ xs)
  unfolding recv
  recv-interrupts size ev zero a xs = refl
  recv-interrupts size ev (suc k) a xs = recv-interrupts size ev k a xs

  -- the answers that end a connection
  abbrev pub IsLost : Answer → Type 0
  IsLost (count n) = n ≡ 0
  IsLost (failed eagain) = ⊥
  IsLost (failed eintr) = ⊥
  IsLost (failed (Socket.other e)) = Unit

  lost-closes :
      (s : Session) (a : Answer) (xs : List Answer)
      → IsLost a
      → let d = on_recv s (recv (s.buf.end - s.buf.last) s.event (a ∷ xs)) in
        (d.got ≡ got_error) × (d.session.closes ≡ s.closes + 1)
  unfolding recv on_recv on_ret close
  lost-closes s (count zero) xs h = (refl, refl)
  lost-closes s (count (suc n)) xs h = absurd (omega arith)
  lost-closes s (failed eagain) xs h = absurd h
  lost-closes s (failed eintr) xs h = absurd h
  lost-closes s (failed (Socket.other e)) xs h = (refl, refl)

  by_ready :
      (s : Session) (b : Bool) (a : Answer) (xs : List Answer)
      → b ≡ true
      → IsLost a
      → let d =
          if b
          then on_recv s (recv (s.buf.end - s.buf.last) s.event (a ∷ xs))
          else record { got = got_again; session = s } in
        (d.got ≡ got_error) × (d.session.closes ≡ s.closes + 1)
  by_ready s true a xs e h = lost-closes s a xs h
  by_ready s false a xs e h = cc

  read-lost :
      (s : Session) (k : ℕ) (a : Answer) (xs : List Answer)
      → s.buf.pos ≡ s.buf.last
      → s.event.rready ≡ true
      → s.answers ≡ interrupts k ++ (a ∷ xs)
      → IsLost a
      → let d = read_request_header s in (d.got ≡ got_error) × (d.session.closes ≡ s.closes + 1)
  unfolding read_request_header
  read-lost s k a xs p y e h =
      let full : ltb s.buf.pos s.buf.last ≡ false = ground arith in
      let answer : recv (s.buf.end - s.buf.last) s.event s.answers
          ≡ recv (s.buf.end - s.buf.last) s.event (a ∷ xs) =
        ap (recv (s.buf.end - s.buf.last) s.event) e
        ∙ recv-interrupts (s.buf.end - s.buf.last) s.event k a xs in
      rw full (rw answer (by_ready s s.event.rready a xs y h))

  round-lost :
      (s : Session)
      → s.buf.pos < s.buf.end
      → (read_request_header s).got ≡ got_error
      → round strcasecmp list_push array_push true s
        ≡ stop closed (close (read_request_header s).session)
  unfolding round on_read on_got
  round-lost s l e =
      let room : (s.buf.pos == s.buf.end) ≡ false = ground arith in rw room (rw e refl)

  loop-stop :
      (n : ℕ) (s s' : Session)
      → 0 < n
      → round strcasecmp list_push array_push true s ≡ stop closed s'
      → loop strcasecmp list_push array_push n true s
        ≡ some (record { ending = closed; session = s' })
  unfolding loop
  loop-stop zero s s' l e = absurd (omega arith)
  loop-stop (suc n) s s' l e = rw (e, loop) refl

  -- If all bytes have been read, there is room for more and the socket is ready, and `recv` tells
  -- the end of input or an error, behind any number of interrupted calls, the handler closes
  -- request and connection twice.
  pub process-closes :
      (s : Session) (k : ℕ) (a : Answer) (xs : List Answer)
      → s.buf.pos ≡ s.buf.last
      → s.buf.last < s.buf.end
      → s.event.rready ≡ true
      → s.answers ≡ interrupts k ++ (a ∷ xs)
      → IsLost a
      → (r : Result) × (process strcasecmp list_push array_push s ≡ some r)
        × (r.ending ≡ closed)
        × (r.session.closes ≡ s.closes + 2)
  unfolding process close
  process-closes s k a xs p l y e h =
      let (g, c) = read-lost s k a xs p y e h in
      (
        record { ending = closed; session = close (read_request_header s).session },
        loop-stop (2 * pending s + 2) s _ (omega arith) (round-lost s (omega arith) g),
        refl,
        omega arith,
      )
