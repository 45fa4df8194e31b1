-- ===== src/LineHandler/Copies.antt =====
-- What the handler of a request line copies: the path fits in what is allocated for it.
use ehttpd.Prelude.{
  ℕ, zero, suc, ◌+◌, ◌-◌, ◌≤◌, ◌<◌, ◌≡◌, ◌≢◌, ◌⊎◌, inl, inr, refl, sym, ap, ◌∙◌, Bool, true, false,
  List, [], ◌∷◌, ◌++◌, length, length-append, ◌==◌, if◌then◌else◌, arith, Bool-cases, Option-cases,
}
use mathlib.Core.List.{reverse, reverse_aux}
use mathlib.Core.Path.{subst}
use ehttpd.Request.{Memory, null, bytes, Code, ok, Request}
use ehttpd.RequestLine.Calls.{LineParsed}
use ehttpd.RequestLine.Slash.{Complete}
use ehttpd.ComplexUri.{
  Cursor, Walk, finished, refused, overran, out_of_fuel, parse_walk, Result, result,
}
use ehttpd.ComplexUri.Safe.{WalkEnds, Walked, parse_walk-WalkEnds}
use ehttpd.ComplexUri.Text.{Clean, Rooted}
use ehttpd.Strings.{cpystrn}
use ehttpd.Strings.Decimal.{until_nul, cpystrn-until_nul}
use ehttpd.Headers.Agree.{store-below}
use ehttpd.Writer.{size_diff}
use ehttpd.Headers.{Session, store, process_request_headers}
use ehttpd.LineHandler.{
  Text, Allocation, for_unparsed_uri, for_uri, for_decoded_exten, for_exten, for_exten_again,
  for_headers, for_cookies, Line, Step, goes_on, fails, astray, bind, copied, uri_len, mark_line,
  on_result, decoded, copy_unparsed_uri, on_walk, copy_uri, copy_exten, init_headers, copy_target,
}

-- of a part of the handler that goes on
abbrev pub After : (Line → Type 0) → Step → Type 0
After P (goes_on l) = P l
After P fails = Unit
After P astray = ⊥

bind-After :
    (P Q : Line → Type 0) (m : Step) (f : Line → Step)
    → After P m
    → ((l : Line) → P l → After Q (f l))
    → After Q (bind m f)
bind-After P Q (goes_on l) f h k = k l h
bind-After P Q fails f h k = tt
bind-After P Q astray f h k = absurd h

-- where the path ends: before the `?`, or with the target
abbrev pub PathEnd : Request → ℕ → Type 0
PathEnd r e =
    ((r.args_start ≡ null) × (e ≡ r.uri_end)) ⊎ ((r.args_start ≢ null) × (e + 1 ≡ r.args_start))

-- a path of `n` bytes copied as it is, up to a NUL in it
abbrev pub PlainUri : Memory → Request → ℕ → Text → Type 0
PlainUri mem r n t =
    (r.complex_uri ≡ false)
    × (t.len ≡ n)
    × (t.bytes ≡ until_nul (bytes mem r.uri_start n) ++ (0 ∷ []))

-- or decoded: what the parser of complex URIs leaves for it
abbrev pub DecodedUri : Memory → Request → ℕ → Text → Type 0
DecodedUri mem r n t =
    (r.complex_uri ≡ true)
    × ((c : Cursor) × (parse_walk mem r.uri_start n ≡ finished c)
        × (t.len ≡ length c.out)
        × (t.bytes ≡ reverse c.out ++ (0 ∷ []))
        × Clean c.out
        × Rooted c.out)

-- the path of the target in the memory `mem`; its bytes fit in what is allocated
abbrev pub UriOf : Memory → Request → Text → Type 0
UriOf mem r t =
    (e : ℕ) × PathEnd r e
    × (r.uri_start < e)
    × (t.room ≡ e - r.uri_start + 1)
    × (length t.bytes ≤ t.room)
    × (PlainUri mem r (e - r.uri_start) t ⊎ DecodedUri mem r (e - r.uri_start) t)

-- the session `s` behind the parser
pub record Parsed (base : ℕ) (s : Session) : Type 0 where
  pub line : LineParsed base s.request s.buf.pos
  pub complete : Complete s.mem s.request
  pub bounded : s.buf.pos ≤ s.buf.last

-- what holds of the line from the copy of the path on
pub record Copied (s : Session) (l : Line) : Type 0 where
  pub buf : l.session.buf ≡ s.buf
  pub closes : l.session.closes ≡ s.closes
  pub state : l.session.request.state ≡ 0
  pub below :
      (k : ℕ)
      → k < s.request.request_start + size_diff s.request.request_end s.request.request_start
      → l.session.mem k ≡ s.mem k
  pub request : l.session.request ≡ record s.request { uri_ext = l.session.request.uri_ext }
  pub uri : UriOf s.mem s.request l.target.uri

result-uri : (b : Bool) (c : Cursor) → (result b c).uri ≡ reverse c.out ++ (0 ∷ [])
unfolding result
result-uri b c = elim (Option-cases c.ext) [ inl e ↦ ground arith | inr (n, e) ↦ ground arith ]

length-nul : (xs : List ℕ) → length (xs ++ (0 ∷ [])) ≡ length xs + 1
length-nul xs = length-append xs (0 ∷ [])

length-reverse_aux : (xs ys : List ℕ) → length (reverse_aux xs ys) ≡ length xs + length ys
length-reverse_aux [] ys = omega arith
length-reverse_aux (x ∷ xs) ys = omega (arith, length-reverse_aux xs (x ∷ ys))

length-reverse_nul : (xs : List ℕ) → length (reverse xs ++ (0 ∷ [])) ≡ length xs + 1
length-reverse_nul xs = omega (arith, length-nul (reverse xs), length-reverse_aux xs [])

length-until_nul : (xs : List ℕ) → length (until_nul xs) ≤ length xs
length-until_nul [] = omega arith
length-until_nul (x ∷ xs) = elim (Bool-cases (x == 0)) [
  | inl e ↦ rw e (omega arith)
  | inr e ↦ rw e (omega (arith, length-until_nul xs))
]

length-bytes : (mem : Memory) (p n : ℕ) → length (bytes mem p n) ≡ n
length-bytes mem p zero = refl
length-bytes mem p (suc n) = omega (arith, length-bytes mem (p + 1) n)

-- the length that the handler gives the path, and where the path ends
PathEnd-uri_len :
    (base : ℕ) (s : Session)
    → Parsed base s
    → (e : ℕ) × PathEnd s.request e
      × (s.request.uri_start < e)
      × (uri_len s.request ≡ e - s.request.uri_start)
unfolding uri_len size_diff
PathEnd-uri_len base s h =
    let r = s.request in
    let c = h.complete.1 in
    let some_byte = h.line.target_some in
    elim (Bool-cases (r.args_start == null)) [
      | inl z ↦ (r.uri_end, inl (ground arith, refl), some_byte, ground arith)
      | inr z ↦
          (r.args_start - 1, inr ((λ q. ground arith), ground arith), ground arith, ground arith)
    ]

on_result-Copied :
    (base : ℕ) (k : Code) (s : Session) (l : Line) (c : Cursor) (d : Result)
    → Parsed base s
    → l.session ≡ s
    → s.request.complex_uri ≡ true
    → parse_walk s.mem s.request.uri_start (uri_len s.request) ≡ finished c
    → d.uri ≡ reverse c.out ++ (0 ∷ [])
    → Walked s.request.uri_start (s.request.uri_start + uri_len s.request + 1) c
    → After (Copied s) (on_result k l c d)
unfolding on_result
on_result-Copied base ok s l c d h e x o u w =
    let short = w.fits in
    let (end, at, some_byte, long) = PathEnd-uri_len base s h in
    let room : uri_len l.session.request + 1 ≡ end - s.request.uri_start + 1 =
      ap (λ t. uri_len t.request + 1) e ∙ ap (λ n. n + 1) long in
    let size : length d.uri ≡ length c.out + 1 = ap length u ∙ length-reverse_nul c.out in
    record {
      buf = ap (λ t. t.buf) e;
      closes = ap (λ t. t.closes) e;
      state = ap (λ t. t.request.state) e ∙ h.complete.2;
      below = λ k m. ap (λ t. t.mem k) e;
      request = ap (λ t. record t.request { uri_ext = null }) e;
      uri = (
        end,
        at,
        some_byte,
        room,
        omega arith,
        inr (
          x,
          (c, ap (parse_walk s.mem s.request.uri_start) (sym long) ∙ o, refl, u, w.clean, w.rooted),
        ),
      );
    }
on_result-Copied base _ s l c d h e x o u w = tt

module _ (pool_ok : Allocation → Bool) where
  on_walk-Copied :
      (base : ℕ) (s : Session) (l : Line) (o : Walk)
      → Parsed base s
      → l.session ≡ s
      → s.request.complex_uri ≡ true
      → parse_walk s.mem s.request.uri_start (uri_len s.request) ≡ o
      → WalkEnds s.request.uri_start (s.request.uri_start + uri_len s.request + 1) o
      → After (Copied s) (on_walk pool_ok l o)
  unfolding on_walk decoded
  on_walk-Copied base s l (finished c) h e x q w =
      on_result-Copied base (result (pool_ok for_decoded_exten) c).code s l c
        (result (pool_ok for_decoded_exten) c) h e x q (result-uri (pool_ok for_decoded_exten) c) w
  on_walk-Copied base s l refused h e x q w = tt
  on_walk-Copied base s l overran h e x q w = absurd w
  on_walk-Copied base s l out_of_fuel h e x q w = absurd w

  -- the path has a byte
  uri_len-pos : (base : ℕ) (s : Session) → Parsed base s → 0 < uri_len s.request
  uri_len-pos base s h = let (e, at, some_byte, long) = PathEnd-uri_len base s h in omega arith

  plain-Copied :
      (base : ℕ) (l : Line)
      → l.session.request.complex_uri ≡ false
      → Parsed base l.session
      → let r = l.session.request in
        Copied l.session (record l {
          target = record l.target { uri = copied l.session.mem r.uri_start (uri_len r) };
        })
  unfolding copied
  plain-Copied base l x h =
      let r = l.session.request in
      let (end, at, some_byte, long) = PathEnd-uri_len base l.session h in
      let text = bytes l.session.mem r.uri_start (uri_len r) in
      let written : cpystrn l.session.mem r.uri_start (uri_len r + 1) ≡ until_nul text ++ (0 ∷ []) =
        ap (cpystrn l.session.mem r.uri_start) (omega arith)
        ∙ cpystrn-until_nul l.session.mem r.uri_start (uri_len r) in
      let size = ap length written ∙ length-nul (until_nul text) in
      let less = length-until_nul text in
      let all = length-bytes l.session.mem r.uri_start (uri_len r) in
      record {
        buf = refl;
        closes = refl;
        state = h.complete.2;
        below = λ k m. refl;
        request = refl;
        uri = (
          end,
          at,
          some_byte,
          omega arith,
          omega arith,
          inl (
            x,
            long,
            written ∙ ap (λ n. until_nul (bytes l.session.mem r.uri_start n) ++ (0 ∷ [])) long,
          ),
        );
      }

  by_kind :
      (base : ℕ) (l : Line) (b : Bool)
      → l.session.request.complex_uri ≡ b
      → Parsed base l.session
      → let r = l.session.request in
        After (Copied l.session) (
          if b
          then on_walk pool_ok l (parse_walk l.session.mem r.uri_start (uri_len r))
          else goes_on (record l {
            target = record l.target { uri = copied l.session.mem r.uri_start (uri_len r) };
          }))
  by_kind base l true x h =
      let r = l.session.request in
      on_walk-Copied base l.session l _ h refl x refl (
        parse_walk-WalkEnds l.session.mem r.uri_start (uri_len r) h.complete.0
          (uri_len-pos base l.session h))
  by_kind base l false x h = plain-Copied base l x h

  copy_uri-Copied :
      (base : ℕ) (l : Line) → Parsed base l.session → After (Copied l.session) (copy_uri pool_ok l)
  unfolding copy_uri
  copy_uri-Copied base l h = elim (Bool-cases (pool_ok for_uri)) [
    | inr e ↦ rw e tt
    | inl e ↦ rw e (by_kind base l l.session.request.complex_uri refl h)
  ]

  -- the rest of the handler copies on and leaves the path alone
  mark_line-Copied : (s : Session) (l : Line) → Copied s l → Copied s (mark_line l)
  unfolding mark_line
  mark_line-Copied s l c =
      let r = l.session.request in
      let start : r.request_start ≡ s.request.request_start = ap (λ q. q.request_start) c.request in
      let end : r.request_end ≡ s.request.request_end = ap (λ q. q.request_end) c.request in
      let at : r.request_start + size_diff r.request_end r.request_start
          ≡ s.request.request_start + size_diff s.request.request_end s.request.request_start =
        λ i. start i + size_diff (end i) (start i) in
      let below : (k : ℕ)
          → k < s.request.request_start + size_diff s.request.request_end s.request.request_start
          → store l.session.mem (r.request_start + size_diff r.request_end r.request_start) (0 ∷ [])
              k
            ≡ s.mem k =
        λ k m.
          store-below (0 ∷ []) l.session.mem
            (r.request_start + size_diff r.request_end r.request_start) k (omega arith)
          ∙ c.below k m in
      elim (Bool-cases (l.session.request.method == 0)) [
        | inl e ↦ rw e (record {
          buf = c.buf;
          closes = c.closes;
          state = c.state;
          below = below;
          request = c.request;
          uri = c.uri;
        })
        | inr e ↦ rw e (record {
          buf = c.buf;
          closes = c.closes;
          state = c.state;
          below = below;
          request = c.request;
          uri = c.uri;
        })
      ]

  copy_exten-Copied :
      (s : Session) (a : Allocation) (l : Line)
      → Copied s l
      → After (Copied s) (copy_exten pool_ok a l)
  unfolding copy_exten
  copy_exten-Copied s a l c = elim (Bool-cases (l.session.request.uri_ext == null)) [
    | inl e ↦ rw e c
    | inr e ↦ elim (Bool-cases (pool_ok a)) [
      | inl f ↦
          rw (e, f)
            (record {
              buf = c.buf;
              closes = c.closes;
              state = c.state;
              below = c.below;
              request = c.request;
              uri = c.uri;
            })
      | inr f ↦ rw (e, f) tt
    ]
  ]

  -- a line that is handed over to the handler of headers
  abbrev pub HandedOver : Session → Line → Type 0
  HandedOver s l = Copied s l × (l.session.read_handler ≡ process_request_headers)

  init_headers-HandedOver :
      (s : Session) (l : Line) → Copied s l → After (HandedOver s) (init_headers pool_ok l)
  unfolding init_headers
  init_headers-HandedOver s l c = elim (Bool-cases (pool_ok for_headers)) [
    | inr e ↦ rw e tt
    | inl e ↦ elim (Bool-cases (pool_ok for_cookies)) [
      | inr f ↦ rw (e, f) tt
      | inl f ↦
          rw (e, f)
            (
              record {
                buf = c.buf;
                closes = c.closes;
                state = c.state;
                below = c.below;
                request = c.request;
                uri = c.uri;
              },
              refl,
            )
    ]
  ]

  copy_unparsed_uri-Parsed :
      (base : ℕ) (l : Line)
      → Parsed base l.session
      → After (λ l'. l'.session ≡ l.session) (copy_unparsed_uri pool_ok l)
  unfolding copy_unparsed_uri
  copy_unparsed_uri-Parsed base l h = elim (Bool-cases (pool_ok for_unparsed_uri)) [
    | inl e ↦ rw e refl
    | inr e ↦ rw e tt
  ]

  pub copy_target-HandedOver :
      (base : ℕ) (l : Line)
      → Parsed base l.session
      → After (HandedOver l.session) (copy_target pool_ok l)
  unfolding copy_target
  copy_target-HandedOver base l h =
      let s = l.session in
      bind-After (λ l1. l1.session ≡ s) (HandedOver s) _ _ (copy_unparsed_uri-Parsed base l h)
        (λ l1 e.
          bind-After (Copied s) (HandedOver s) _ _
            (subst (λ t. After (Copied t) (copy_uri pool_ok l1)) e
              (copy_uri-Copied base l1 (subst (Parsed base) (sym e) h)))
            (λ l2 c.
              bind-After (Copied s) (HandedOver s) _ _
                (copy_exten-Copied s for_exten (mark_line l2) (mark_line-Copied s l2 c))
                (λ l3 c'.
                  bind-After (Copied s) (HandedOver s) _ _
                    (copy_exten-Copied s for_exten_again (mark_line l3) (mark_line-Copied s l3 c'))
                    (λ l4 c2. init_headers-HandedOver s l4 c2))))
