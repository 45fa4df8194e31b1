-- ===== src/ComplexUri/Kept.antt =====
-- What a round of the walk keeps: the text is as ComplexUri/Text says, it is no longer than what has
-- been read, and `u` never leaves `r->uri.data`.
use ehttpd.Prelude.{
  ℕ, ◌+◌, ◌<◌, ◌≡◌, inl, inr, Option, none, some, List, [], ◌∷◌, length, arith, ◌==◌, Bool-cases,
}
use ehttpd.Request.{Memory}
use ehttpd.ComplexUri.{
  State, sw_usual, sw_slash, sw_dot, sw_dot_dot, sw_quoted, sw_quoted_second, Cursor, Round, go,
  refuse, overrun, on_usual, on_slash, on_dot, on_dot_dot, on_quoted, on_quoted_second, up, back_4,
  hex_value, first_digit, second_digit, decode, round_in, then_read,
}
use ehttpd.ComplexUri.Text.{
  Absolute, TextInv, ends_segment-plain, put-usual, put-slash, put-plain, Absolute-drop,
  rewind-Rewound, TextInv-percent,
}

-- `length out` bytes lie behind `start` and before `p - 1`, the byte in `ch`
abbrev pub GoodIn : ℕ → State → Cursor → Type 0
GoodIn start sw_quoted c = TextInv c.quoted_state c.out c.ext × (length c.out + start + 1 < c.p)
GoodIn start sw_quoted_second c =
    TextInv c.quoted_state c.out c.ext × (length c.out + start + 1 < c.p)
GoodIn start s c = TextInv s c.out c.ext × (length c.out + start < c.p)

abbrev pub Good : ℕ → Cursor → Type 0
Good start c = GoodIn start c.state c

abbrev pub Kept : ℕ → Round → Type 0
Kept start (go c) = Good start c
Kept start refuse = Unit {0}
Kept start overrun = ⊥

module _ (mem : Memory) (start : ℕ) (c : Cursor) where
  abbrev with_text : List ℕ → Option ℕ → Cursor
  with_text out ext = record c { out = out; ext = ext }

  on_usual-Kept :
      (out : List ℕ) (ext : Option ℕ)
      → c.state ≡ sw_usual
      → TextInv sw_usual out ext
      → length out + start < c.p
      → Kept start (then_read mem (on_usual (with_text out ext)))
  unfolding on_usual
  on_usual-Kept out none s h l = ground (arith, put-usual c.ch out, put-slash c.ch out)
  on_usual-Kept out (some e) s h l = ground (arith, put-usual c.ch out, put-slash c.ch out)

  on_slash-Kept :
      (out : List ℕ) (ext : Option ℕ)
      → c.state ≡ sw_slash
      → TextInv sw_slash out ext
      → length out + start < c.p
      → Kept start (then_read mem (on_slash (with_text out ext)))
  unfolding on_slash
  on_slash-Kept (a ∷ out) none s h l =
      ground (arith, ends_segment-plain c.ch (a ∷ out), put-plain c.ch (a ∷ out))
  on_slash-Kept [] none s h l = absurd h
  on_slash-Kept out (some e) s h l = ground arith

  on_dot-Kept :
      (out : List ℕ) (ext : Option ℕ)
      → c.state ≡ sw_dot
      → TextInv sw_dot out ext
      → length out + start < c.p
      → Kept start (then_read mem (on_dot (with_text out ext)))
  unfolding on_dot
  on_dot-Kept (a ∷ b ∷ out) none s h l = ground (
    arith,
    ends_segment-plain c.ch (a ∷ b ∷ out),
    put-plain a (b ∷ out),
    put-plain c.ch (a ∷ b ∷ out),
  )
  on_dot-Kept (a ∷ []) none s h l = absurd h
  on_dot-Kept [] none s h l = absurd h
  on_dot-Kept out (some e) s h l = ground arith

  up-Kept :
      (text out : List ℕ)
      → Absolute out
      → length out + start < c.p
      → Kept start (then_read mem (up (with_text text none) (some out)))
  unfolding up
  up-Kept text out h l =
      let w = rewind-Rewound out h in
      rw (w.found, up) (ground (arith, w.is_slash, w.absolute, w.shorter))

  on_dot_dot-Kept :
      (out : List ℕ) (ext : Option ℕ)
      → c.state ≡ sw_dot_dot
      → TextInv sw_dot_dot out ext
      → length out + start < c.p
      → Kept start (then_read mem (on_dot_dot (with_text out ext)))
  unfolding on_dot_dot
  on_dot_dot-Kept (x ∷ y ∷ z ∷ out) none s h l = elim (Bool-cases (c.ch == b'/')) [
    | inl e ↦ rw e (parent out h l)
    | inr e ↦ rw e (
        ground (
          arith,
          put-plain y (z ∷ out),
          put-plain x (y ∷ z ∷ out),
          put-plain c.ch (x ∷ y ∷ z ∷ out),
        ))
  ]
    where
      parent :
          (out : List ℕ)
          → TextInv sw_dot_dot (x ∷ y ∷ z ∷ out) none
          → length (x ∷ y ∷ z ∷ out) + start < c.p
          → Kept start
              (then_read mem (up (with_text (x ∷ y ∷ z ∷ out) none) (back_4 (x ∷ y ∷ z ∷ out))))
      parent [] h l = unfold up in tt
      parent (d ∷ out) h l =
          up-Kept (x ∷ y ∷ z ∷ d ∷ out) out (Absolute-drop z d out h.0 (ground arith)) (omega arith)
  on_dot_dot-Kept (x ∷ y ∷ []) none s h l = absurd h
  on_dot_dot-Kept (x ∷ []) none s h l = absurd h
  on_dot_dot-Kept [] none s h l = absurd h
  on_dot_dot-Kept out (some e) s h l = ground arith

  first_digit-Kept :
      (d : Option ℕ) → GoodIn start sw_quoted c → Kept start (then_read mem (first_digit c d))
  unfolding first_digit
  first_digit-Kept none h = tt
  first_digit-Kept (some v) h = (h.0, omega arith)

  decode-Kept :
      (q : State) (out : List ℕ) (ext : Option ℕ) (v : ℕ)
      → TextInv q out ext
      → length out + start + 1 < c.p
      → Kept start (decode mem (record c { quoted_state = q; out = out; ext = ext }) v)
  unfolding decode
  decode-Kept sw_usual out ext v h l = ground (arith, TextInv-percent sw_usual out ext h)
  decode-Kept sw_slash out ext v h l = ground (arith, TextInv-percent sw_slash out ext h)
  decode-Kept sw_dot out ext v h l = ground (arith, TextInv-percent sw_dot out ext h)
  decode-Kept sw_dot_dot out ext v h l = ground (arith, TextInv-percent sw_dot_dot out ext h)
  decode-Kept sw_quoted out ext v h l = absurd h
  decode-Kept sw_quoted_second out ext v h l = absurd h

  second_digit-Kept :
      (d : Option ℕ) → GoodIn start sw_quoted_second c → Kept start (second_digit mem c d)
  unfolding second_digit
  second_digit-Kept none h = tt
  second_digit-Kept (some v) h = decode-Kept c.quoted_state c.out c.ext v h.0 h.1

  -- every round keeps what is known of the text, and none leaves it
  pub round_in-Kept : (s : State) → c.state ≡ s → GoodIn start s c → Kept start (round_in s mem c)
  unfolding round_in on_quoted on_quoted_second
  round_in-Kept sw_usual e h = on_usual-Kept c.out c.ext e h.0 h.1
  round_in-Kept sw_slash e h = on_slash-Kept c.out c.ext e h.0 h.1
  round_in-Kept sw_dot e h = on_dot-Kept c.out c.ext e h.0 h.1
  round_in-Kept sw_dot_dot e h = on_dot_dot-Kept c.out c.ext e h.0 h.1
  round_in-Kept sw_quoted e h = first_digit-Kept (hex_value c.ch) h
  round_in-Kept sw_quoted_second e h = second_digit-Kept (hex_value c.ch) h
