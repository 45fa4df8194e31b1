-- ===== src/ComplexUri/Safe.antt =====
-- The whole of `ehd_http_parse_complex_uri`.
use native.Mathlib.Decide.{dec_lt}
use ehttpd.Prelude.{
  ℕ, zero, suc, ◌+◌, ◌-◌, ◌*◌, ◌≤◌, ◌<◌, ◌≡◌, ◌⊎◌, inl, inr, refl, true, false, Option, none, List,
  [], ◌∷◌, length, ltb, arith,
}
use ehttpd.Request.{Memory}
use ehttpd.ComplexUri.{
  State, sw_usual, sw_slash, sw_quoted, sw_quoted_second, Cursor, Round, go, refuse, overrun,
  round_in, round, Walk, finished, refused, overran, out_of_fuel, walk, begin, parse_walk, on_usual,
}
use ehttpd.ComplexUri.Text.{
  Clean, Rooted, Absolute, TextInv, ExtWithin, TextInv-Absolute, Absolute-first, Absolute-parts,
}
use ehttpd.ComplexUri.Kept.{Good, GoodIn, Kept, round_in-Kept}
use ehttpd.ComplexUri.Fuel.{weight, Moves, round_in-Moves}

pub record Walked (start limit : ℕ) (c : Cursor) : Type 0 where
  pub clean : Clean c.out
  pub rooted : Rooted c.out
  pub fits : length c.out + start < limit
  pub all_read : c.p ≡ limit
  pub ext_within : ExtWithin c.ext c.out

-- The walk ends by its test or by a refusal: the fuel is enough, and `u` never leaves the text.
abbrev pub WalkEnds : ℕ → ℕ → Walk → Type 0
WalkEnds start limit (finished c) = Walked start limit c
WalkEnds start limit refused = Unit {0}
WalkEnds start limit overran = ⊥
WalkEnds start limit out_of_fuel = ⊥

weight-quoted :
    (start : ℕ) (s : State) (c : Cursor)
    → GoodIn start s c
    → (weight s ≡ 0) ⊎ (weight c.quoted_state ≡ 0)
weight-quoted start sw_quoted_second c h = inr (base c.quoted_state c.out c.ext h.0)
  where
    base : (q : State) (out : List ℕ) (ext : Option ℕ) → TextInv q out ext → weight q ≡ 0
    base sw_usual out ext h = refl
    base sw_quoted_second out ext h = absurd h
    base _ out ext h = refl
weight-quoted start _ c h = inl refl

-- at the loop's test, when it fails
Good-Walked :
    (start limit : ℕ) (s : State) (c : Cursor)
    → GoodIn start s c
    → c.p ≡ limit
    → Walked start limit c
Good-Walked start limit s c h e =
    let ((a, x), fits) = known s h in
    record {
      clean = (Absolute-parts c.out a).0;
      rooted = (Absolute-parts c.out a).1;
      fits = omega arith;
      all_read = e;
      ext_within = x;
    }
  where
    known :
        (s : State)
        → GoodIn start s c
        → (Absolute c.out × ExtWithin c.ext c.out) × (length c.out + start < c.p)
    known sw_quoted h = (TextInv-Absolute c.quoted_state c.out c.ext h.0, omega arith)
    known sw_quoted_second h = (TextInv-Absolute c.quoted_state c.out c.ext h.0, omega arith)
    known s h = (TextInv-Absolute s c.out c.ext h.0, h.1)

module _ (mem : Memory) (start limit : ℕ) where
  walk-step :
      (n : ℕ) (c : Cursor) (o : Round)
      → round mem c ≡ o
      → c.p < limit
      → Kept start o
      → Moves c o
      → 2 * (limit - c.p) + weight c.state < suc n
      → ((c' : Cursor)
          → Good start c'
          → c'.p ≤ limit
          → 2 * (limit - c'.p) + weight c'.state < n
          → WalkEnds start limit (walk n mem limit c'))
      → WalkEnds start limit (walk (suc n) mem limit c)
  unfolding walk
  walk-step n c (go c') e l k m f ih =
      let t : ltb c.p limit ≡ true = ground arith in
      rw (t, walk) (rw (e, walk) (ih c' k (omega arith) (omega arith)))
  walk-step n c refuse e l k m f ih =
      let t : ltb c.p limit ≡ true = ground arith in rw (t, walk) (rw (e, walk) tt)
  walk-step n c overrun e l k m f ih = absurd k

  walk-WalkEnds :
      (n : ℕ) (c : Cursor)
      → Good start c
      → c.p ≤ limit
      → 2 * (limit - c.p) + weight c.state < n
      → WalkEnds start limit (walk n mem limit c)
  unfolding walk
  walk-WalkEnds zero c h l f = absurd (omega arith)
  walk-WalkEnds (suc n) c h l f = elim (dec_lt c.p limit) [
    | yes lt ↦
        walk-step n c (round mem c) refl lt (round_in-Kept mem start c c.state refl h)
          (round_in-Moves mem c c.state refl (weight-quoted start c.state c h)) f (walk-WalkEnds n)
    | no ge ↦
        let t : ltb c.p limit ≡ false = ground arith in
        rw (t, walk) (Good-Walked start limit c.state c h (omega arith))
  ]

-- the cursor behind the first byte
abbrev after_slash : Memory → ℕ → Cursor
after_slash mem a = record {
  state = sw_slash;
  quoted_state = sw_usual;
  decoded = 0;
  ch = mem (a + 1);
  p = a + 1 + 1;
  out = b'/' ∷ [];
  ext = none;
}

round-begin :
    (mem : Memory) (a : ℕ) → mem a ≡ b'/' → round mem (begin mem a) ≡ go (after_slash mem a)
unfolding round_in on_usual
round-begin mem a e = rw e

-- For a path of at least one byte that begins with a slash the loop ends, within its fuel, and `u`
-- never leaves `r->uri.data`. If it is not refused then: the text holds no `//`, `/./` or
-- `/../` and begins with a slash; it has at most `len` bytes, so that it fits with its NUL; no
-- byte is read but those of the path and the one behind; and `r->uri_ext` points into the text.
pub parse_walk-WalkEnds :
    (mem : Memory) (uri_start len : ℕ)
    → mem uri_start ≡ b'/'
    → 0 < len
    → WalkEnds uri_start (uri_start + len + 1) (parse_walk mem uri_start len)
unfolding parse_walk
parse_walk-WalkEnds mem uri_start len slash some_byte =
    let limit = uri_start + len + 1 in
    let fuel : 2 * len + 2 ≡ suc (2 * len + 1) = omega arith in
    let first = round-begin mem uri_start slash in
    let kept : Good uri_start (after_slash mem uri_start) = ((Absolute-first, refl), omega arith) in
    rw fuel (
      walk-step mem uri_start limit (2 * len + 1) (begin mem uri_start)
        (go (after_slash mem uri_start)) first (omega arith) kept (omega arith, omega arith)
        (omega arith) (walk-WalkEnds mem uri_start limit (2 * len + 1)))
