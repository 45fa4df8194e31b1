-- ===== src/Writer/Sends.antt =====
-- What a run of the writer sends.
use ehttpd.Prelude.{
  ℕ, zero, suc, ◌+◌, ◌-◌, ◌≤◌, ◌≡◌, ◌⊎◌, inl, inr, refl, ap, sym, ◌∙◌, Bool, true, false, Option,
  none, some, List, [], ◌∷◌, ◌++◌, All, arith, Bool-cases, Option-cases,
}
use mathlib.Core.Option
use mathlib.Core.Path.{subst}
use mathlib.Core.List.{append_assoc, append-nil}
use ehttpd.Socket.{Answer, Event, Ret, done, again, error, Called}
use ehttpd.Writer.{
  Chunk, memory, file, size_diff, size_left, advance, is_sent, call, Sent, Written, Onward, Round,
  stop, go, sent_of, on_next, on_count, on_return, on_call, round, recorded, write,
}

-- a byte of a response: is it of a file, and at which offset or address
abbrev pub Item : Type 0
Item = Bool × ℕ

abbrev pub range : Bool → ℕ → ℕ → List Item
range b start zero = []
range b start (suc n) = (b, start) ∷ range b (start + 1) n

-- the bytes that are left to send
abbrev pub content_of : Chunk → List Item
content_of (memory pos last) = range false pos (last - pos)
content_of (file sys_offset size) = range true sys_offset (size - sys_offset)

abbrev pub content : List Chunk → List Item
content [] = []
content (c ∷ cs) = content_of c ++ content cs

abbrev pub Ordered : Chunk → Type 0
Ordered (memory pos last) = pos ≤ last
Ordered (file sys_offset size) = sys_offset ≤ size

abbrev pub sent_bytes : List Sent → List Item
sent_bytes [] = []
sent_bytes (s ∷ ss) = range s.of_file s.start s.count ++ sent_bytes ss

abbrev pub Fits : Sent → Type 0
Fits s = s.count ≤ s.size

range-add :
    (b : Bool) (start m n : ℕ) → range b start m ++ range b (start + m) n ≡ range b start (m + n)
range-add b start zero n =
    let e : start + 0 ≡ start = omega arith in let e' : 0 + n ≡ n = omega arith in rw (e, e') refl
range-add b start (suc m) n =
    let e : start + suc m ≡ start + 1 + m = omega arith in
    let e' : suc m + n ≡ suc (m + n) = omega arith in
    rw (e, e') (ap (λ l. (b, start) ∷ l) (range-add b (start + 1) m n))

sent_range : Chunk → ℕ → List Item
sent_range c n = range (sent_of c n).of_file (sent_of c n).start n

advance-content :
    (c : Chunk) (n : ℕ)
    → Ordered c
    → n ≤ size_left c
    → sent_range c n ++ content_of (advance n c) ≡ content_of c
unfolding sent_range sent_of size_left size_diff advance
advance-content (memory pos last) n o f =
    let fit : n ≤ last - pos = ground arith in
    let e : last - (pos + n) ≡ last - pos - n = omega arith in
    let e' : n + (last - pos - n) ≡ last - pos = omega arith in
    rw e (range-add false pos n (last - pos - n) ∙ ap (range false pos) e')
advance-content (file pos last) n o f =
    let fit : n ≤ last - pos = ground arith in
    let e : last - (pos + n) ≡ last - pos - n = omega arith in
    let e' : n + (last - pos - n) ≡ last - pos = omega arith in
    rw e (range-add true pos n (last - pos - n) ∙ ap (range true pos) e')

advance-Ordered : (c : Chunk) (n : ℕ) → Ordered c → n ≤ size_left c → Ordered (advance n c)
unfolding size_left size_diff advance
advance-Ordered (memory pos last) n o f = ground arith
advance-Ordered (file pos last) n o f = ground arith

is_sent-content : (c : Chunk) → is_sent c ≡ true → content_of c ≡ []
unfolding is_sent
is_sent-content (memory pos last) e = let z : last - pos ≡ 0 = ground arith in rw z refl
is_sent-content (file pos last) e = let z : last - pos ≡ 0 = ground arith in rw z refl

-- what is known of a round that starts at chunk `c`
abbrev pub Kept : Chunk → List Chunk → Round → Type 0
Kept c next (stop w) =
    All Fits w.trace → sent_bytes w.trace ++ content w.chunks ≡ content (c ∷ next)
Kept c next (go o) =
    Fits o.sent
    → All Ordered (o.chunk ∷ o.next)
      × (content o.passed ≡ [])
      × (range o.sent.of_file o.sent.start o.sent.count ++ content (o.chunk ∷ o.next)
          ≡ content (c ∷ next))

sent_of-Fits : (c : Chunk) (n : ℕ) → Fits (sent_of c n) → n ≤ size_left c
unfolding sent_of
sent_of-Fits (memory pos last) n f = f
sent_of-Fits (file pos last) n f = f

sent_of-range :
    (c : Chunk) (n : ℕ)
    → range (sent_of c n).of_file (sent_of c n).start (sent_of c n).count ≡ sent_range c n
unfolding sent_of sent_range
sent_of-range (memory pos last) n = refl
sent_of-range (file pos last) n = refl

round-content :
    (c : Chunk) (n : ℕ) (next : List Chunk)
    → Ordered c
    → n ≤ size_left c
    → sent_range c n ++ (content_of (advance n c) ++ content next) ≡ content (c ∷ next)
round-content c n next o f =
    sym (append_assoc (sent_range c n) (content_of (advance n c)) (content next))
    ∙ ap (λ l. l ++ content next) (advance-content c n o f)

pub is_sent-append : (c : Chunk) (l : List Item) → is_sent c ≡ true → content_of c ++ l ≡ l
is_sent-append c l e = ap (λ k. k ++ l) (is_sent-content c e)

on_next-Kept :
    (c : Chunk) (n : ℕ) (next : List Chunk) (ev : Event) (xs : List Answer)
    → All Ordered (c ∷ next)
    → is_sent (advance n c) ≡ true
    → Kept c next (on_next (advance n c) next ev xs (sent_of c n))
unfolding on_next
on_next-Kept c n [] ev xs (o, os) e = λ f.
    let whole : sent_range c n ++ (content_of (advance n c) ++ []) ≡ content (c ∷ []) =
      round-content c n [] o (sent_of-Fits c n f.0) in
    let r = sent_of-range c n in let nil = append-nil (sent_range c n) in cc
on_next-Kept c n (d ∷ ds) ev xs (o, os) e = λ f.
    let z = is_sent-append (advance n c) [] e in
    let z' = is_sent-append (advance n c) (content (d ∷ ds)) e in
    let r = sent_of-range c n in
    let whole : sent_range c n ++ (content_of (advance n c) ++ content (d ∷ ds))
        ≡ content (c ∷ d ∷ ds) =
      round-content c n (d ∷ ds) o (sent_of-Fits c n f) in
    (os, z, cc)

on_count-Kept :
    (c : Chunk) (next : List Chunk) (n : ℕ) (ev : Event) (xs : List Answer)
    → All Ordered (c ∷ next)
    → Kept c next (on_count c next n ev xs)
unfolding on_count
on_count-Kept c next zero ev xs o = λ f. refl
on_count-Kept c next (suc n) ev xs (o, os) = elim (Bool-cases (is_sent (advance (suc n) c))) [
  | inl e ↦ rw e (on_next-Kept c (suc n) next ev xs (o, os) e)
  | inr e ↦ rw e (λ f.
      let fits = sent_of-Fits c (suc n) f in
      let r = sent_of-range c (suc n) in
      let whole = round-content c (suc n) next o fits in
      ((advance-Ordered c (suc n) o fits, os), refl, cc))
]

on_return-Kept :
    (c : Chunk) (next : List Chunk) (r : Ret) (ev : Event) (xs : List Answer)
    → All Ordered (c ∷ next)
    → Kept c next (on_return c next r ev xs)
unfolding on_return
on_return-Kept c next (done n) ev xs o = on_count-Kept c next n ev xs o
on_return-Kept c next again ev xs o = λ f. refl
on_return-Kept c next (error e) ev xs o = λ f. refl

on_call-Kept :
    (ev : Event) (c : Chunk) (next : List Chunk) (r : Option Called)
    → All Ordered (c ∷ next)
    → Kept c next (on_call ev c next r)
unfolding on_call
on_call-Kept ev c next none o = λ f. refl
on_call-Kept ev c next (some r) o = on_return-Kept c next r.ret r.event r.rest o

round-Kept :
    (ev : Event) (c : Chunk) (next : List Chunk) (xs : List Answer)
    → All Ordered (c ∷ next)
    → Kept c next (round ev c next xs)
unfolding round
round-Kept ev c next xs o = on_call-Kept ev c next (call ev c xs) o

pub Round-cases : (r : Round) → ((w : Written) × (r ≡ stop w)) ⊎ ((o : Onward) × (r ≡ go o))
Round-cases (stop w) = inl (w, refl)
Round-cases (go o) = inr (o, refl)

-- a run of the writer is a last round or a round and a run
pub write-cases :
    (n : ℕ) (ev : Event) (c : Chunk) (next : List Chunk) (xs : List Answer) (w : Written)
    → write (suc n) ev c next xs ≡ some w
    → (round ev c next xs ≡ stop w)
      ⊎ ((o : Onward) × (w' : Written) × (round ev c next xs ≡ go o)
          × (write n o.event o.chunk o.next o.rest ≡ some w')
          × (recorded o w' ≡ w))
unfolding write
write-cases n ev c next xs w e = elim (Round-cases (round ev c next xs)) [
  | inl (w', r) ↦ inl (r ∙ ap stop (Option.some-injective w' w (rw (r, write) at e)))
  | inr (o, r) ↦ elim (Option-cases (write n o.event o.chunk o.next o.rest)) [
    | inl z ↦ absurd (Option.none-ne-some w (rw (z, write) at (rw (r, write) at e)))
    | inr (w', z) ↦ inr (
      o,
      w',
      r,
      z,
      Option.some-injective (recorded o w') w (rw (z, write) at (rw (r, write) at e)),
    )
  ]
]

pub content-append : (cs ds : List Chunk) → content (cs ++ ds) ≡ content cs ++ content ds
content-append [] ds = refl
content-append (c ∷ cs) ds =
    ap (λ l. content_of c ++ l) (content-append cs ds)
    ∙ sym (append_assoc (content_of c) (content cs) (content ds))

recorded-content :
    (c : Chunk) (next : List Chunk) (g : Onward) (w : Written)
    → Kept c next (go g)
    → (All Ordered (g.chunk ∷ g.next)
        → All Fits w.trace
        → sent_bytes w.trace ++ content w.chunks ≡ content (g.chunk ∷ g.next))
    → All Fits (recorded g w).trace
    → sent_bytes (recorded g w).trace ++ content (recorded g w).chunks ≡ content (c ∷ next)
unfolding recorded
recorded-content c next g w k h (f, fs) =
    let passed : content (g.passed ++ w.chunks) ≡ content w.chunks =
      content-append g.passed w.chunks ∙ ap (λ l. l ++ content w.chunks) (k f).1 in
    let sent = range g.sent.of_file g.sent.start g.sent.count in
    let moved = append_assoc sent (sent_bytes w.trace) (content w.chunks) in
    let later = h (k f).0 fs in
    let whole = (k f).2 in rw passed (moved ∙ ap (λ l. sent ++ l) later ∙ whole)

-- Whatever the system answers, if it never took more bytes than it was offered: the bytes that a
-- run of the writer sent, in the order of the calls, followed by those that it leaves in the
-- chain, are the bytes that were in the chain. Nothing is lost, sent twice or out of order.
pub write-content :
    (n : ℕ) (ev : Event) (c : Chunk) (next : List Chunk) (xs : List Answer) (w : Written)
    → All Ordered (c ∷ next)
    → write n ev c next xs ≡ some w
    → All Fits w.trace
    → sent_bytes w.trace ++ content w.chunks ≡ content (c ∷ next)
unfolding write
write-content zero ev c next xs w o e f = cc
write-content (suc n) ev c next xs w o e f = elim (write-cases n ev c next xs w e) [
  | inl r ↦ (rw r at (round-Kept ev c next xs o)) f
  | inr (g, w', r, z, same) ↦
      let k : Kept c next (go g) = rw r at (round-Kept ev c next xs o) in
      subst (λ v. All Fits v.trace → sent_bytes v.trace ++ content v.chunks ≡ content (c ∷ next))
        same
        (recorded-content c next g w' k
          (λ o' f'. write-content n g.event g.chunk g.next g.rest w' o' z f'))
        f
]
