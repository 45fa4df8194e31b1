-- ===== src/Headers/Reading.antt =====
-- `ehd_http_read_request_header`: what it does to the connection, whichever handler calls it.
use ehttpd.Prelude.{
  ℕ, zero, suc, ◌+◌, ◌-◌, ◌≤◌, ◌<◌, ◌≡◌, inl, inr, refl, Bool, true, false, Option, none, some,
  List, [], ◌∷◌, take, ltb, if◌then◌else◌, arith, Bool-cases,
}
use mathlib.Core.Option
use mathlib.Core.Path.{subst}
use ehttpd.Socket.{eagain, eintr, Answer, count, failed, Event, Ret, done, Called, recv}
use ehttpd.Socket
use ehttpd.Headers.{
  Session, close, Got, got, got_again, got_error, lost, on_ret, on_recv, read_request_header, total,
}
use ehttpd.Headers.Agree.{store-below}

-- `ehd_recv` returns a part of the bytes that its calls return, and clears `rready` on EAGAIN.
abbrev TakenBy : ℕ → Ret → Event → List Answer → Type 0
TakenBy n (done k) ev xs = k + total xs ≡ n
TakenBy n Socket.again ev xs = (total xs ≡ n) × (ev.rready ≡ false)
TakenBy n (Socket.error e) ev xs = Unit

abbrev Taken : ℕ → Called → Type 0
Taken n c = TakenBy n c.ret c.event c.rest

recv-Taken :
    (size : ℕ) (ev : Event) (xs : List Answer) (c : Called)
    → recv size ev xs ≡ some c
    → Taken (total xs) c
unfolding recv
recv-Taken size ev [] c e = cc
recv-Taken size ev (count n ∷ xs) c e =
    subst (Taken (n + total xs)) (Option.some-injective _ c e) refl
recv-Taken size ev (failed eagain ∷ xs) c e =
    subst (Taken (total xs)) (Option.some-injective _ c e) (refl, refl)
recv-Taken size ev (failed eintr ∷ xs) c e = recv-Taken size ev xs c e
recv-Taken size ev (failed (Socket.other k) ∷ xs) c e =
    subst (Taken (total xs)) (Option.some-injective _ c e) tt

-- the bytes that are in the buffer and those that come
abbrev pub pending : Session → ℕ
pending s = (s.buf.last - s.buf.pos) + total s.answers

-- what reading leaves as it is: the bytes that are there, the request and the place in the buffer
pub record Kept (s s' : Session) : Type 0 where
  pub below : (k : ℕ) → k < s.buf.last → s'.mem k ≡ s.mem k
  pub request : s'.request ≡ s.request
  pub pos : s'.buf.pos ≡ s.buf.pos
  pub last : s.buf.last ≤ s'.buf.last
  pub closes : s'.closes ≡ s.closes

Kept-same : (s : Session) → Kept s s
Kept-same s = record {
  below = λ k l. refl;
  request = refl;
  pos = refl;
  last = omega arith;
  closes = refl;
}

abbrev pub Reads : Session → Got → Session → Type 0
Reads s (got n) s' = Kept s s' × (s'.buf.pos < s'.buf.last) × (pending s' ≡ pending s)
Reads s got_again s' = Kept s s' × (s'.event.rready ≡ false) × (s'.buf.last ≡ s'.buf.pos)
Reads s got_error s' = s'.closes ≡ s.closes + 1
Reads s lost s' = Unit

on_ret-Reads :
    (s : Session) (r : Ret) (ev : Event) (xs : List Answer)
    → s.buf.pos ≡ s.buf.last
    → TakenBy (total s.answers) r ev xs
    → let d = on_ret r (record s { event = ev; answers = xs }) in Reads s d.got d.session
unfolding on_ret close
on_ret-Reads s (done zero) ev xs l t = refl
on_ret-Reads s (done (suc n)) ev xs l t = (
  record {
    below = λ k m. store-below (take (suc n) s.incoming) s.mem s.buf.last k m;
    request = refl;
    pos = refl;
    last = omega arith;
    closes = refl;
  },
  omega arith,
  omega arith,
)
on_ret-Reads s Socket.again ev xs l t = (
  record { below = λ k m. refl; request = refl; pos = refl; last = omega arith; closes = refl },
  t.1,
  omega arith,
)
on_ret-Reads s (Socket.error e) ev xs l t = refl

on_recv-Reads :
    (s : Session) (o : Option Called)
    → recv (s.buf.end - s.buf.last) s.event s.answers ≡ o
    → s.buf.pos ≡ s.buf.last
    → let d = on_recv s o in Reads s d.got d.session
unfolding on_recv
on_recv-Reads s none e l = tt
on_recv-Reads s (some c) e l =
    on_ret-Reads s c.ret c.event c.rest l
      (recv-Taken (s.buf.end - s.buf.last) s.event s.answers c e)

by_ready :
    (s : Session) (b : Bool)
    → s.event.rready ≡ b
    → s.buf.pos ≡ s.buf.last
    → let d =
        if b
        then on_recv s (recv (s.buf.end - s.buf.last) s.event s.answers)
        else record { got = got_again; session = s } in
      Reads s d.got d.session
by_ready s true e l = on_recv-Reads s _ refl l
by_ready s false e l = (Kept-same s, e, omega arith)

pub read-Reads :
    (s : Session)
    → s.buf.pos ≤ s.buf.last
    → let d = read_request_header s in Reads s d.got d.session
unfolding read_request_header
read-Reads s b = elim (Bool-cases (ltb s.buf.pos s.buf.last)) [
  | inl l ↦ rw l (Kept-same s, ground arith, refl)
  | inr l ↦ rw l (by_ready s s.event.rready refl (ground arith))
]
