-- ===== src/Socket/Interrupts.antt =====
-- What the two calls return, and that interrupted system calls do not show.
use ehttpd.Prelude.{
  ℕ, zero, suc, ◌<◌, ◌≤◌, ◌≡◌, ◌≢◌, ◌⊎◌, refl, true, false, Option, some, List, [], ◌∷◌, ◌++◌,
  length, arith,
}
use ehttpd.Socket.{
  eagain, eintr, other, Answer, count, failed, Event, Ret, done, again, error, Called, on_received,
  recv, send,
}

abbrev pub interrupts : ℕ → List Answer
interrupts zero = []
interrupts (suc k) = failed eintr ∷ interrupts k

-- the readiness that is left of a read of `size` bytes, by its answer
abbrev pub ReadReady : ℕ → Answer → Event → Event → Type 0
ReadReady size (count zero) ev ev' =
    (ev'.rready ≡ false) × (ev'.eof ≡ true) × (ev'.error ≡ ev.error)
ReadReady size (count (suc n)) ev ev' =
    (ev'.eof ≡ ev.eof)
    × (ev'.error ≡ ev.error)
    × (((suc n < size) × (ev'.rready ≡ false)) ⊎ ((size ≤ suc n) × (ev'.rready ≡ ev.rready)))
ReadReady size (failed eagain) ev ev' =
    (ev'.rready ≡ false) × (ev'.eof ≡ ev.eof) × (ev'.error ≡ ev.error)
ReadReady size (failed eintr) ev ev' = ⊥
ReadReady size (failed (other e)) ev ev' =
    (ev'.rready ≡ false) × (ev'.eof ≡ ev.eof) × (ev'.error ≡ true)

abbrev pub returned : Answer → Ret
returned (count n) = done n
returned (failed eagain) = again
returned (failed e) = error e

-- what `ehd_recv` has done when it returns on answer `a`
pub record Received (size : ℕ) (ev : Event) (a : Answer) (xs : List Answer) (o : Option Called)
    : Type 0 where
  pub called : Called
  pub returns : o ≡ some called
  pub ret : called.ret ≡ returned a
  pub rest : called.rest ≡ xs
  pub ready : ReadReady size a ev called.event
  pub writing_kept : called.event.wready ≡ ev.wready

-- `ehd_recv` goes on over any number of interrupted calls and returns on the first other answer:
-- the count, EHD_AGAIN or EHD_ERROR. It clears `rready` if fewer bytes than asked for came, at the
-- end of input (which sets `eof`), on EAGAIN and on an error (which sets `error`), and in no
-- other case; `wready` stays.
pub recv-Received :
    (k size : ℕ) (ev : Event) (a : Answer) (xs : List Answer)
    → a ≢ failed eintr
    → Received size ev a xs (recv size ev (interrupts k ++ (a ∷ xs)))
unfolding recv on_received
recv-Received zero size ev (count zero) xs n = record {
  called = record { ret = done 0; event = on_received size 0 ev; rest = xs };
  returns = refl;
  ret = refl;
  rest = refl;
  ready = ground arith;
  writing_kept = refl;
}
recv-Received zero size ev (count (suc m)) xs n = record {
  called = record { ret = done (suc m); event = on_received size (suc m) ev; rest = xs };
  returns = refl;
  ret = refl;
  rest = refl;
  ready = ground arith;
  writing_kept = ground arith;
}
recv-Received zero size ev (failed eagain) xs n = record {
  called = record { ret = again; event = record ev { rready = false }; rest = xs };
  returns = refl;
  ret = refl;
  rest = refl;
  ready = (refl, refl, refl);
  writing_kept = refl;
}
recv-Received zero size ev (failed eintr) xs n = absurd (n refl)
recv-Received zero size ev (failed (other e)) xs n = record {
  called = record {
    ret = error (other e);
    event = record ev { rready = false; error = true };
    rest = xs;
  };
  returns = refl;
  ret = refl;
  rest = refl;
  ready = (refl, refl, refl);
  writing_kept = refl;
}
recv-Received (suc k) size ev a xs n = recv-Received k size ev a xs n

-- `ehd_send` uses up an answer.
pub length-send :
    (size : ℕ) (ev : Event) (xs : List Answer) (c : Called)
    → send size ev xs ≡ some c
    → length c.rest < length xs
unfolding send
length-send size ev [] c e = cc
length-send size ev (failed eintr ∷ xs) c e = omega (arith, length-send size ev xs c e)
length-send size ev (_ ∷ xs) c e = ground arith
