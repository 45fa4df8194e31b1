-- ===== src/Writer/Ends.antt =====
-- Each run of the writer ends, and the way it ends says what is left.
use ehttpd.Prelude.{
  ℕ, zero, suc, ◌<◌, ◌≡◌, inl, inr, refl, ap, ◌∙◌, true, some, List, [], ◌∷◌, ◌++◌, length, arith,
  Bool-cases, Option-cases,
}
use mathlib.Core.Path.{subst}
use ehttpd.Socket.{
  eagain, eintr, other, Answer, count, failed, Event, Ret, done, again, error, Called,
}
use ehttpd.Socket.Interrupts.{length-send}
use ehttpd.Writer.{
  Chunk, memory, file, size_left, advance, is_sent, sendfile, call, keep_alive, Sent, Written,
  Round, stop, go, sent_of, on_next, on_count, on_return, on_call, round, recorded, write,
}
use ehttpd.Writer.Sends.{content, content-append, is_sent-append, write-cases, Round-cases}

-- a round that goes on has used up an answer
abbrev Used : ℕ → Round → Type 0
Used n (stop w) = Unit
Used n (go o) = length o.rest < n

on_next-Used :
    (n : ℕ) (c : Chunk) (next : List Chunk) (ev : Event) (xs : List Answer) (s : Sent)
    → length xs < n
    → Used n (on_next c next ev xs s)
unfolding on_next
on_next-Used n c [] ev xs s l = tt
on_next-Used n c (d ∷ ds) ev xs s l = l

on_return-Used :
    (n : ℕ) (c : Chunk) (next : List Chunk) (r : Ret) (ev : Event) (xs : List Answer)
    → length xs < n
    → Used n (on_return c next r ev xs)
unfolding on_return on_count
on_return-Used n c next (done zero) ev xs l = tt
on_return-Used n c next (done (suc k)) ev xs l = elim (Bool-cases (is_sent (advance (suc k) c))) [
  | inl e ↦ rw e (on_next-Used n (advance (suc k) c) next ev xs (sent_of c (suc k)) l)
  | inr e ↦ rw e l
]
on_return-Used n c next again ev xs l = tt
on_return-Used n c next (error e) ev xs l = tt

length-sendfile :
    (ev : Event) (xs : List Answer) (r : Called)
    → sendfile ev xs ≡ some r
    → length r.rest < length xs
unfolding sendfile
length-sendfile ev [] r e = cc
length-sendfile ev (count n ∷ xs) r e = ground arith
length-sendfile ev (failed eagain ∷ xs) r e = ground arith
length-sendfile ev (failed eintr ∷ xs) r e = ground arith
length-sendfile ev (failed (other n) ∷ xs) r e = ground arith

length-call :
    (ev : Event) (c : Chunk) (xs : List Answer) (r : Called)
    → call ev c xs ≡ some r
    → length r.rest < length xs
unfolding call
length-call ev (memory pos last) xs r e = length-send (size_left (memory pos last)) ev xs r e
length-call ev (file pos last) xs r e = length-sendfile ev xs r e

round-Used :
    (ev : Event) (c : Chunk) (next : List Chunk) (xs : List Answer)
    → Used (length xs) (round ev c next xs)
unfolding round on_call
round-Used ev c next xs = elim (Option-cases (call ev c xs)) [
  | inl e ↦ rw e tt
  | inr (r, e) ↦
      rw e (on_return-Used (length xs) c next r.ret r.event r.rest (length-call ev c xs r e))
]

pub write-Returns :
    (n : ℕ) (ev : Event) (c : Chunk) (next : List Chunk) (xs : List Answer)
    → length xs < n
    → (w : Written) × (write n ev c next xs ≡ some w)
unfolding write
write-Returns zero ev c next xs l = absurd (omega arith)
write-Returns (suc n) ev c next xs l = elim (Round-cases (round ev c next xs)) [
  | inl (w, r) ↦ (w, rw (r, write) refl)
  | inr (o, r) ↦
      let used : length o.rest < length xs = rw r at (round-Used ev c next xs) in
      let (w, e) = write-Returns n o.event o.chunk o.next o.rest (omega arith) in
      (recorded o w, rw (r, write) (rw e refl))
]

-- what is left of the chain when a round calls `ehd_http_keep_alive`, and what a round passes
abbrev Drained : Round → Type 0
Drained (stop w) = w.ending ≡ keep_alive → content w.chunks ≡ []
Drained (go o) = content o.passed ≡ []

on_next-Drained :
    (c : Chunk) (next : List Chunk) (ev : Event) (xs : List Answer) (s : Sent)
    → is_sent c ≡ true
    → Drained (on_next c next ev xs s)
unfolding on_next
on_next-Drained c [] ev xs s e = λ k. is_sent-append c [] e
on_next-Drained c (d ∷ ds) ev xs s e = is_sent-append c [] e

on_return-Drained :
    (c : Chunk) (next : List Chunk) (r : Ret) (ev : Event) (xs : List Answer)
    → Drained (on_return c next r ev xs)
unfolding on_return on_count
on_return-Drained c next (done zero) ev xs = λ k. cc
on_return-Drained c next (done (suc k)) ev xs = elim (Bool-cases (is_sent (advance (suc k) c))) [
  | inl e ↦ rw e (on_next-Drained (advance (suc k) c) next ev xs (sent_of c (suc k)) e)
  | inr e ↦ rw e refl
]
on_return-Drained c next again ev xs = λ k. cc
on_return-Drained c next (error e) ev xs = λ k. cc

round-Drained :
    (ev : Event) (c : Chunk) (next : List Chunk) (xs : List Answer) → Drained (round ev c next xs)
unfolding round on_call
round-Drained ev c next xs = elim (Option-cases (call ev c xs)) [
  | inl e ↦ rw e (λ k. cc)
  | inr (r, e) ↦ rw e (on_return-Drained c next r.ret r.event r.rest)
]

pub write-Drained :
    (n : ℕ) (ev : Event) (c : Chunk) (next : List Chunk) (xs : List Answer) (w : Written)
    → write n ev c next xs ≡ some w
    → w.ending ≡ keep_alive
    → content w.chunks ≡ []
unfolding write recorded
write-Drained zero ev c next xs w e k = cc
write-Drained (suc n) ev c next xs w e k = elim (write-cases n ev c next xs w e) [
  | inl r ↦ (rw r at (round-Drained ev c next xs)) k
  | inr (o, w', r, z, same) ↦
      let passed : content o.passed ≡ [] = rw r at (round-Drained ev c next xs) in
      subst (λ v. v.ending ≡ keep_alive → content v.chunks ≡ []) same
        (λ k'.
          content-append o.passed w'.chunks
          ∙ ap (λ l. l ++ content w'.chunks) passed
          ∙ write-Drained n o.event o.chunk o.next o.rest w' z k')
        k
]
