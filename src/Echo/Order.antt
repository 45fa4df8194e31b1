-- ===== src/Echo/Order.antt =====
-- What is sent is what was received, in order.
use native.Mathlib.Nat.{zero-add, add-zero, suc-add}
use ehttpd.Prelude.{
  ℕ, zero, suc, ◌+◌, ◌-◌, ◌≤◌, ◌<◌, ◌≡◌, inl, inr, refl, sym, ap, ◌∙◌, Bool-cases, Option, none,
  some, List, [], ◌∷◌, ◌++◌, take, drop, length, arith, ◌==◌, if◌then◌else◌,
}
use mathlib.Core.Path.{subst}
use mathlib.Core.List.{append_assoc}
use ehttpd.Request.{Memory, bytes, Buf}
use ehttpd.Headers.{store}
use ehttpd.Headers.Agree.{store-below}
use ehttpd.Socket.{Answer, count, failed, eagain}
use ehttpd.Echo.{
  Peer, bzero, emptied, take_in, recv_all, start_read, echo_read, passed_on, send_all, start_write,
  echo_write,
}

-- the bytes in the buffer
abbrev pub content : Memory → Option Buf → List ℕ
content mem none = []
content mem (some b) = bytes mem b.pos (b.last - b.pos)

abbrev pub held : Option Buf → ℕ
held none = 0
held (some b) = b.last - b.pos

-- `recv` returns no more bytes than it is asked for, and than have come.
abbrev pub RecvFits : List Answer → (room come : ℕ) → Type 0
RecvFits [] room come = Unit {0}
RecvFits (count n ∷ xs) room come = (n ≤ room) × (n ≤ come) × RecvFits xs (room - n) (come - n)
RecvFits (failed e ∷ xs) room come = RecvFits xs room come

-- `send` takes no more bytes than it is given.
abbrev pub SendFits : List Answer → (left : ℕ) → Type 0
SendFits [] left = Unit {0}
SendFits (count n ∷ xs) left = (n ≤ left) × SendFits xs (left - n)
SendFits (failed e ∷ xs) left = SendFits xs left

bytes-append :
    (mem : Memory) (p m n : ℕ) → bytes mem p (m + n) ≡ bytes mem p m ++ bytes mem (p + m) n
bytes-append mem p zero n = rw (zero-add, add-zero) refl
bytes-append mem p (suc m) n =
    let e : p + suc m ≡ p + 1 + m = omega arith in
    rw (suc-add, e) (ap (λ xs. mem p ∷ xs) (bytes-append mem (p + 1) m n))

bytes-same :
    (mem mem' : Memory) (p n : ℕ)
    → ((k : ℕ) → p ≤ k → k < p + n → mem' k ≡ mem k)
    → bytes mem' p n ≡ bytes mem p n
bytes-same mem mem' p zero e = refl
bytes-same mem mem' p (suc n) e = λ i.
    e p (omega arith) (omega arith) i
    ∷ bytes-same mem mem' (p + 1) n (λ k a b. e k (omega arith) (omega arith)) i

bytes-store :
    (mem : Memory) (a n : ℕ) (xs : List ℕ)
    → n ≤ length xs
    → bytes (store mem a (take n xs)) a n ≡ take n xs
unfolding store
bytes-store mem a zero xs l = refl
bytes-store mem a (suc n) [] l = absurd (omega arith)
bytes-store mem a (suc n) (x ∷ xs) l =
    let mem' : Memory = λ k. if k == a then x else mem k in
    let here : mem' a ≡ x = ground arith in
    λ i.
      (store-below (take n xs) mem' (a + 1) a (omega arith) ∙ here) i
      ∷ bytes-store mem' (a + 1) n xs (omega arith) i

take-drop : (n : ℕ) (xs : List ℕ) → take n xs ++ drop n xs ≡ xs
take-drop zero xs = refl
take-drop (suc n) [] = refl
take-drop (suc n) (x ∷ xs) = ap (λ l. x ∷ l) (take-drop n xs)

length-drop : (n : ℕ) (xs : List ℕ) → length (drop n xs) ≡ length xs - n
length-drop zero xs = omega arith
length-drop (suc n) [] = omega arith
length-drop (suc n) (x ∷ xs) = length-drop n xs ∙ omega arith

-- what comes into the buffer stands behind what was there
take_in-content :
    (n : ℕ) (b : Buf) (c : Peer)
    → b.pos ≤ b.last
    → n ≤ length c.incoming
    → let c' = take_in n b c in
      content c'.mem c'.buf ++ c'.incoming ≡ content c.mem (some b) ++ c.incoming
unfolding take_in
take_in-content n b c l m =
    let new = take n c.incoming in
    let mem' = store c.mem b.last new in
    let held = b.last - b.pos in
    let size : b.last + n - b.pos ≡ held + n = omega arith in
    let at : b.pos + held ≡ b.last = omega arith in
    let old =
      bytes-same c.mem mem' b.pos held (λ k u v. store-below new c.mem b.last k (omega arith)) in
    let both : bytes mem' b.pos (b.last + n - b.pos) ≡ bytes c.mem b.pos held ++ new =
      ap (bytes mem' b.pos) size
      ∙ bytes-append mem' b.pos held n
      ∙ (λ i. old i ++ (ap (λ q. bytes mem' q n) at ∙ bytes-store c.mem b.last n c.incoming m) i) in
    ap (λ xs. xs ++ drop n c.incoming) both
    ∙ append_assoc (bytes c.mem b.pos held) new (drop n c.incoming)
    ∙ ap (λ xs. bytes c.mem b.pos held ++ xs) (take-drop n c.incoming)

-- The bytes that were sent, those in the buffer and those that have not come, in this order: as
-- they were.
abbrev stream : Peer → List ℕ
stream c = c.sent ++ (content c.mem c.buf ++ c.incoming)

take_in-stream :
    (n : ℕ) (b : Buf) (c : Peer)
    → c.buf ≡ some b
    → b.pos ≤ b.last
    → n ≤ length c.incoming
    → stream (take_in n b c) ≡ stream c
unfolding take_in
take_in-stream n b c e l m =
    ap (λ xs. c.sent ++ xs)
      (take_in-content n b c l m ∙ ap (λ o. content c.mem o ++ c.incoming) (sym e))

abbrev pub InOrder : Option Buf → Type 0
InOrder none = Unit {0}
InOrder (some b) = b.pos ≤ b.last

recv_all-InOrder :
    (xs : List Answer) (b : Buf) (c : Peer)
    → c.buf ≡ some b
    → b.pos ≤ b.last
    → InOrder (recv_all xs b c).client.buf
unfolding recv_all take_in
recv_all-InOrder [] b c e l = rw e l
recv_all-InOrder (failed eagain ∷ xs) b c e l = rw e l
recv_all-InOrder (failed _ ∷ xs) b c e l = rw e l
recv_all-InOrder (count zero ∷ xs) b c e l = rw e l
recv_all-InOrder (count (suc n) ∷ xs) b c e l = elim (Bool-cases ((b.last + suc n) == b.end)) [
  | inl t ↦ rw t (omega arith)
  | inr t ↦ rw t (
      recv_all-InOrder xs (record b { last = b.last + suc n }) (take_in (suc n) b c) refl
        (omega arith))
]

recv_all-stream :
    (xs : List Answer) (b : Buf) (c : Peer)
    → c.buf ≡ some b
    → b.pos ≤ b.last
    → RecvFits xs (b.end - b.last) (length c.incoming)
    → stream (recv_all xs b c).client ≡ stream c
unfolding recv_all take_in
recv_all-stream [] b c e l f = refl
recv_all-stream (failed eagain ∷ xs) b c e l f = refl
recv_all-stream (failed _ ∷ xs) b c e l f = refl
recv_all-stream (count zero ∷ xs) b c e l f = refl
recv_all-stream (count (suc n) ∷ xs) b c e l f =
    let kept = take_in-stream (suc n) b c e l f.1 in
    let room : b.end - (b.last + suc n) ≡ b.end - b.last - suc n = omega arith in
    elim (Bool-cases ((b.last + suc n) == b.end)) [
      | inl t ↦ rw t kept
      | inr t ↦ rw t (
          recv_all-stream xs (record b { last = b.last + suc n }) (take_in (suc n) b c) refl
            (omega arith) (rw (room, length-drop (suc n) c.incoming) f.2)
          ∙ kept)
    ]

passed_on-stream :
    (n : ℕ) (b : Buf) (c : Peer)
    → c.buf ≡ some b
    → b.pos + n ≤ b.last
    → stream (passed_on n b c) ≡ stream c
unfolding passed_on
passed_on-stream n b c e l =
    let first = bytes c.mem b.pos n in
    let others = bytes c.mem (b.pos + n) (b.last - (b.pos + n)) in
    let size : b.last - b.pos ≡ n + (b.last - (b.pos + n)) = omega arith in
    let both : first ++ others ≡ bytes c.mem b.pos (b.last - b.pos) =
      sym (bytes-append c.mem b.pos n (b.last - (b.pos + n))) ∙ ap (bytes c.mem b.pos) (sym size) in
    append_assoc c.sent first (others ++ c.incoming)
    ∙ ap (λ xs. c.sent ++ xs)
        (sym (append_assoc first others c.incoming)
          ∙ ap (λ xs. xs ++ c.incoming) both
          ∙ ap (λ o. content c.mem o ++ c.incoming) (sym e))

send_all-stream :
    (xs : List Answer) (b : Buf) (c : Peer)
    → c.buf ≡ some b
    → b.pos ≤ b.last
    → SendFits xs (b.last - b.pos)
    → stream (send_all xs b c).client ≡ stream c
unfolding send_all passed_on
send_all-stream [] b c e l f = refl
send_all-stream (failed eagain ∷ xs) b c e l f = refl
send_all-stream (failed _ ∷ xs) b c e l f = refl
send_all-stream (count zero ∷ xs) b c e l f = refl
send_all-stream (count (suc n) ∷ xs) b c e l f =
    let within : b.pos + suc n ≤ b.last = let few = f.0 in omega arith in
    let kept = passed_on-stream (suc n) b c e within in
    let left : b.last - (b.pos + suc n) ≡ b.last - b.pos - suc n = omega arith in
    elim (Bool-cases ((b.pos + suc n) == b.last)) [
      | inl t ↦ rw t kept
      | inr t ↦ rw t (
          send_all-stream xs (record b { pos = b.pos + suc n }) (passed_on (suc n) b c) refl within
            (rw left f.1)
          ∙ kept)
    ]

-- the buffer that a read begins with is the connection's, emptied, or a new one, which is empty
abbrev pub StartsEmpty : (made : Option Buf) → Option Buf → Type 0
StartsEmpty made (some b) = Unit {0}
StartsEmpty none none = Unit {0}
StartsEmpty (some b) none = b.pos ≡ b.last

-- the room in it
abbrev pub room : (made : Option Buf) → Option Buf → ℕ
room made (some b) = b.end - b.start
room none none = 0
room (some b) none = b.end - b.last

start_read-stream :
    (made o : Option Buf) (xs : List Answer) (c : Peer)
    → c.buf ≡ o
    → StartsEmpty made o
    → RecvFits xs (room made o) (length c.incoming)
    → let c' = (start_read made xs o c).client in
      (stream c' ≡ c.sent ++ c.incoming) × InOrder c'.buf
unfolding start_read emptied
start_read-stream made (some b) xs c e h f =
    let b' = emptied b in
    let mem = bzero b.start b.end c.mem in
    let c' = record c { mem = mem; buf = some b' } in
    let nothing : b.start - b.start ≡ 0 = omega arith in
    (
      recv_all-stream xs b' c' refl (omega arith) f
          ∙ ap (λ n. c.sent ++ (bytes mem b.start n ++ c.incoming)) nothing,
      recv_all-InOrder xs b' c' refl (omega arith),
    )
start_read-stream none none xs c e h f =
    (ap (λ o. c.sent ++ (content c.mem o ++ c.incoming)) e, subst InOrder (sym e) tt)
start_read-stream (some b) none xs c e h f =
    let c' = record c { buf = some b } in
    let nothing : b.last - b.pos ≡ 0 = omega arith in
    (
      recv_all-stream xs b c' refl (omega arith) f
          ∙ ap (λ n. c.sent ++ (bytes c.mem b.pos n ++ c.incoming)) nothing,
      recv_all-InOrder xs b c' refl (omega arith),
    )

start_write-stream :
    (ys : List Answer) (o : Option Buf) (c : Peer)
    → c.buf ≡ o
    → InOrder o
    → SendFits ys (held o)
    → stream (start_write ys o c).client ≡ stream c
unfolding start_write
start_write-stream ys none c e l f = refl
start_write-stream ys (some b) c e l f = send_all-stream ys b c e l f

-- A read and the write behind it, whatever `recv` and `send` answer: the bytes that have been sent,
-- those that are left in the buffer and those that have not come are, in this order, those that had
-- been sent before and those that had not come. What an earlier turn left in the buffer is lost.
pub echo-stream :
    (made : Option Buf) (xs ys : List Answer) (c : Peer)
    → StartsEmpty made c.buf
    → RecvFits xs (room made c.buf) (length c.incoming)
    → SendFits ys (held (echo_read made xs c).client.buf)
    → let c' = (echo_write ys (echo_read made xs c).client).client in
      c'.sent ++ (content c'.mem c'.buf ++ c'.incoming) ≡ c.sent ++ c.incoming
unfolding echo_read echo_write
echo-stream made xs ys c h f g =
    let d = (start_read made xs c.buf c).client in
    let (e, i) = start_read-stream made c.buf xs c refl h f in
    start_write-stream ys d.buf d refl i g ∙ e
