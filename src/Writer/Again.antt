-- ===== src/Writer/Again.antt =====
-- What a second call of the writer does with a response whose header is sent.
use ehttpd.Prelude.{ℕ, zero, suc, ◌<◌, ◌≡◌, refl, true, some, List, [], ◌∷◌, ◌++◌, ◌-◌}
use ehttpd.Socket.{done, eagain, Answer, count, failed, Event, send, on_sent}
use ehttpd.Socket.Interrupts.{interrupts}
use ehttpd.Writer.{
  Chunk, memory, file, size_left, sendfile, call, closed, waiting, stop, on_next, on_count,
  on_return, on_call, round, recorded, write, Response, Turn, begun, turned, write_from, writer,
}
use ehttpd.Writer.Turns.{fresh_response}
use ehttpd.Writer.Whole.{round-all_taken}

send-zero :
    (size : ℕ) (ev : Event) (k : ℕ) (xs : List Answer)
    → send size ev (interrupts k ++ (count 0 ∷ xs))
      ≡ some (record { ret = done 0; event = on_sent size 0 ev; rest = xs })
unfolding send
send-zero size ev zero xs = refl
send-zero size ev (suc k) xs = send-zero size ev k xs

round-again :
    (ev : Event) (c : Chunk) (next : List Chunk)
    → (ev' : Event) × (round ev c next (failed eagain ∷ [])
        ≡ stop (record { ending = waiting; chunks = c ∷ next; event = ev'; rest = []; trace = [] }))
unfolding round on_call on_return call send sendfile
round-again ev (memory p q) next = (_, refl)
round-again ev (file p q) next = (_, refl)

abbrev head_sent : ℕ → List Chunk → Response
head_sent q cs = record { chain = memory q q ∷ cs; last = 0; begin = true }

-- the first of the two calls
writer-head_taken :
    (ev : Event) (p q : ℕ) (d : Chunk) (ds : List Chunk) (last : ℕ)
    → p < q
    → (t : Turn) × (writer ev
          (fresh_response (memory p q) (d ∷ ds) last)
          (count (q - p) ∷ failed eagain ∷ [])
        ≡ some t)
      × (t.ending ≡ waiting)
      × (t.response ≡ head_sent q (d ∷ ds))
unfolding write on_next recorded turned begun writer write_from
writer-head_taken ev p q d ds last l =
    let (ev1, s, e) = round-all_taken ev (memory p q) (d ∷ ds) (failed eagain ∷ []) l in
    let (ev2, e') = round-again ev1 d ds in
    (
      record {
        ending = waiting;
        response = head_sent q (d ∷ ds);
        event = ev2;
        rest = [];
        trace = s ∷ [];
      },
      rw (e, write) (rw (e', write) refl),
      refl,
      refl,
    )

-- the second
writer-head_sent :
    (ev : Event) (q : ℕ) (cs : List Chunk) (k : ℕ) (xs : List Answer)
    → (u : Turn) × (writer ev (head_sent q cs) (interrupts k ++ (count 0 ∷ xs)) ≡ some u)
      × (u.ending ≡ closed)
      × (u.trace ≡ [])
      × (u.response.chain ≡ memory q q ∷ cs)
unfolding write turned begun writer write_from round call on_call on_return on_count
writer-head_sent ev q cs k xs =
    let e = send-zero (size_left (memory q q)) ev k xs in
    (
      record {
        ending = closed;
        response = head_sent q cs;
        event = on_sent (size_left (memory q q)) 0 ev;
        rest = xs;
        trace = [];
      },
      rw (e, write, round, call) refl,
      refl,
      refl,
      refl,
    )

-- If the system takes the head of a response of more chunks in full and answers the next call
-- with EAGAIN, the call of the writer waits for the next write event. That event's call starts at
-- the head again, since `r->response.last` is not moved, and offers its 0 bytes to `send`; if
-- `send` answers 0 then, whatever number of interrupted calls before, the connection is closed
-- with nothing sent of the other chunks.
pub writer-head_again :
    (ev : Event) (p q : ℕ) (d : Chunk) (ds : List Chunk) (last k : ℕ) (xs : List Answer)
    → p < q
    → (t : Turn) × (writer ev
          (fresh_response (memory p q) (d ∷ ds) last)
          (count (q - p) ∷ failed eagain ∷ [])
        ≡ some t)
      × (t.ending ≡ waiting)
      × ((u : Turn) × (writer t.event t.response (interrupts k ++ (count 0 ∷ xs)) ≡ some u)
          × (u.ending ≡ closed)
          × (u.trace ≡ [])
          × (u.response.chain ≡ memory q q ∷ d ∷ ds))
writer-head_again ev p q d ds last k xs l =
    let (t, e, w, r) = writer-head_taken ev p q d ds last l in
    (t, e, w, rw r (writer-head_sent t.event q (d ∷ ds) k xs))
