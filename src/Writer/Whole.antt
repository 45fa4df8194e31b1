-- ===== src/Writer/Whole.antt =====
-- What the writer does with a system that takes all that it is offered.
use ehttpd.Prelude.{
  ℕ, zero, suc, ◌+◌, ◌<◌, ◌≡◌, refl, ap, true, some, List, [], ◌∷◌, map, ◌-◌, length, All, arith,
}
use ehttpd.Socket.{Answer, count, Event, send}
use ehttpd.Writer.{
  Chunk, memory, file, advance, is_sent, sendfile, call, keep_alive, Sent, Written, sent_of,
  on_next, on_count, on_return, on_call, round, recorded, write, Turn, begun, turned, writer,
}
use ehttpd.Writer.Turns.{fresh_response, writer-write}

abbrev pub Within : Chunk → Type 0
Within (memory pos last) = pos < last
Within (file sys_offset size) = sys_offset < size

-- the answer of a system that takes all that is left of a chunk
abbrev pub all_taken : Chunk → Answer
all_taken (memory pos last) = count (last - pos)
all_taken (file sys_offset size) = count (size - sys_offset)

abbrev pub finished : Chunk → Chunk
finished (memory pos last) = memory last last
finished (file sys_offset size) = file size size

on_count-on_next :
    (c : Chunk) (next : List Chunk) (n : ℕ) (ev : Event) (xs : List Answer)
    → 0 < n
    → advance n c ≡ finished c
    → is_sent (finished c) ≡ true
    → on_count c next n ev xs ≡ on_next (finished c) next ev xs (sent_of c n)
unfolding on_count
on_count-on_next c next zero ev xs l e t = absurd (omega arith)
on_count-on_next c next (suc n) ev xs l e t = rw e (rw t refl)

-- a round in which the system takes all that is left
pub round-all_taken :
    (ev : Event) (c : Chunk) (next : List Chunk) (xs : List Answer)
    → Within c
    → (ev' : Event) × (s : Sent) × (round ev c next (all_taken c ∷ xs)
        ≡ on_next (finished c) next ev' xs s)
unfolding round on_call on_return call send sendfile advance is_sent
round-all_taken ev (memory p q) next xs l =
    let e : p + (q - p) ≡ q = omega arith in
    (
      _,
      _,
      on_count-on_next (memory p q) next (q - p) _ xs (omega arith) (ap (λ a. memory a q) e)
          (ground arith),
    )
round-all_taken ev (file p q) next xs l =
    let e : p + (q - p) ≡ q = omega arith in
    (
      _,
      _,
      on_count-on_next (file p q) next (q - p) _ xs (omega arith) (ap (λ a. file a q) e)
          (ground arith),
    )

write-all_taken :
    (n : ℕ) (ev : Event) (c : Chunk) (next : List Chunk)
    → All Within (c ∷ next)
    → length next < n
    → (w : Written) × (write n ev c next (map all_taken (c ∷ next)) ≡ some w)
      × (w.ending ≡ keep_alive)
unfolding write on_next recorded
write-all_taken zero ev c next o l = absurd (omega arith)
write-all_taken (suc n) ev c [] (o, os) l =
    let (ev', s, e) = round-all_taken ev c [] [] o in
    (
      record {
        ending = keep_alive;
        chunks = finished c ∷ [];
        event = ev';
        rest = [];
        trace = s ∷ [];
      },
      rw (e, write) refl,
      refl,
    )
write-all_taken (suc n) ev c (d ∷ ds) (o, os) l =
    let (ev', s, e) = round-all_taken ev c (d ∷ ds) (map all_taken (d ∷ ds)) o in
    let (w, e', k) = write-all_taken n ev' d ds os (omega arith) in
    (
      recorded
          (record {
            passed = finished c ∷ [];
            chunk = d;
            next = ds;
            event = ev';
            rest = map all_taken (d ∷ ds);
            sent = s;
          })
          w,
      rw (e, write) (rw e' refl),
      k,
    )

length-map : (cs : List Chunk) → length (map all_taken cs) ≡ length cs
length-map [] = refl
length-map (c ∷ cs) = omega (arith, length-map cs)

-- If no chunk of a response is empty and the system takes in each call all that it is offered,
-- the first call of the writer gets to `ehd_http_keep_alive`.
pub writer-all_taken :
    (ev : Event) (c : Chunk) (next : List Chunk) (last : ℕ)
    → All Within (c ∷ next)
    → (t : Turn) × (writer ev (fresh_response c next last) (map all_taken (c ∷ next)) ≡ some t)
      × (t.ending ≡ keep_alive)
unfolding turned
writer-all_taken ev c next last o =
    let xs = map all_taken (c ∷ next) in
    let (w, e, k) =
      write-all_taken (suc (length xs)) ev c next o (omega (arith, length-map (c ∷ next))) in
    (
      turned (begun (fresh_response c next last)) w,
      rw (writer-write ev c next last xs) (rw e refl),
      k,
    )
