-- ===== src/Writer/Turns.antt =====
-- `ehd_http_writer` as a whole: what a first call does with a response.
use ehttpd.Prelude.{
  ℕ, suc, ◌≡◌, inl, inr, refl, ap, sym, ◌∙◌, false, some, List, [], ◌∷◌, ◌++◌, length, All, arith,
  Option-cases,
}
use mathlib.Core.Option
use mathlib.Core.Path.{subst}
use mathlib.Core.List.{append-nil}
use ehttpd.Socket.{Answer, Event}
use ehttpd.Writer.{
  Chunk, keep_alive, Written, write, Response, Turn, begun, turned, write_from, writer,
}
use ehttpd.Writer.Sends.{content, Ordered, sent_bytes, Fits, write-content}
use ehttpd.Writer.Ends.{write-Returns, write-Drained}

-- a response that has not been written to, of at least one chunk
abbrev pub fresh_response : Chunk → List Chunk → ℕ → Response
fresh_response c next last = record { chain = c ∷ next; last = last; begin = false }

pub writer-write :
    (ev : Event) (c : Chunk) (next : List Chunk) (last : ℕ) (xs : List Answer)
    → writer ev (fresh_response c next last) xs
      ≡ Option.map
          (turned (begun (fresh_response c next last)))
          (write (suc (length xs)) ev c next xs)
unfolding writer begun write_from
writer-write ev c next last xs = refl

turn-cases :
    (ev : Event) (c : Chunk) (next : List Chunk) (last : ℕ) (xs : List Answer) (t : Turn)
    → writer ev (fresh_response c next last) xs ≡ some t
    → (w : Written) × (write (suc (length xs)) ev c next xs ≡ some w)
      × (turned (begun (fresh_response c next last)) w ≡ t)
turn-cases ev c next last xs t e = elim (Option-cases (write (suc (length xs)) ev c next xs)) [
  | inl z ↦ absurd (Option.none-ne-some t (rw z at (sym (writer-write ev c next last xs) ∙ e)))
  | inr (w, z) ↦
      (w, z, Option.some-injective _ t (rw z at (sym (writer-write ev c next last xs) ∙ e)))
]

-- The first call of the writer returns, whatever the system answers: the loop takes fewer rounds
-- than there are answers, and one more.
pub writer-Returns :
    (ev : Event) (c : Chunk) (next : List Chunk) (last : ℕ) (xs : List Answer)
    → (t : Turn) × (writer ev (fresh_response c next last) xs ≡ some t)
writer-Returns ev c next last xs =
    let (w, e) = write-Returns (suc (length xs)) ev c next xs (omega arith) in
    (turned (begun (fresh_response c next last)) w, rw (writer-write ev c next last xs) (rw e refl))

-- If the system never took more bytes than it was offered: the bytes that the first call of the
-- writer sent, in the order of the calls, followed by those that are left in the chain of the
-- response, are the bytes of the response, whatever way the call ended. Nothing is lost, sent
-- twice or out of order.
pub writer-content :
    (ev : Event) (c : Chunk) (next : List Chunk) (last : ℕ) (xs : List Answer) (t : Turn)
    → All Ordered (c ∷ next)
    → writer ev (fresh_response c next last) xs ≡ some t
    → All Fits t.trace
    → sent_bytes t.trace ++ content t.response.chain ≡ content (c ∷ next)
unfolding turned begun
writer-content ev c next last xs t o e f =
    let (w, z, same) = turn-cases ev c next last xs t e in
    subst
      (λ u. All Fits u.trace → sent_bytes u.trace ++ content u.response.chain ≡ content (c ∷ next))
      same (write-content (suc (length xs)) ev c next xs w o z) f

-- If the first call of the writer ends in `ehd_http_keep_alive`, and the system never took more
-- bytes than it was offered, the bytes sent are those of the whole response, in its order.
pub writer-keep_alive :
    (ev : Event) (c : Chunk) (next : List Chunk) (last : ℕ) (xs : List Answer) (t : Turn)
    → All Ordered (c ∷ next)
    → writer ev (fresh_response c next last) xs ≡ some t
    → All Fits t.trace
    → t.ending ≡ keep_alive
    → sent_bytes t.trace ≡ content (c ∷ next)
unfolding turned begun
writer-keep_alive ev c next last xs t o e f k =
    let (w, z, same) = turn-cases ev c next last xs t e in
    let left : content t.response.chain ≡ [] =
      subst (λ u. u.ending ≡ keep_alive → content u.response.chain ≡ []) same
        (write-Drained (suc (length xs)) ev c next xs w z) k in
    let whole = writer-content ev c next last xs t o e f in
    sym (append-nil (sent_bytes t.trace)) ∙ ap (λ l. sent_bytes t.trace ++ l) (sym left) ∙ whole
