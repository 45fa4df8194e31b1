-- ===== src/Headers/WellFormed.antt =====
-- The read handler on header lines as they are printed, all of them in the buffer.
use mathlib.Core.Path.{subst}
use mathlib.Core.List.{append_assoc, append-nil}
use ehttpd.Prelude.{
  ℕ, zero, suc, ◌+◌, ◌-◌, ◌*◌, ◌≤◌, ◌<◌, ◌≡◌, refl, sym, ap, ◌∙◌, Bool, true, false, Bool-cases,
  inl, inr, Option, none, some, List, [], ◌∷◌, ◌++◌, length, length-append, All, arith, ltb, ◌==◌,
}
use ehttpd.Request.{Parsed, Holds, Holds-append}
use ehttpd.HeaderLine.{parse_header_line}
use ehttpd.HeaderLine.RoundTrip.{
  IsField, ReadsLine, length-field_line, parse_header_line-field_line, parse_header_line-crlf,
}
use ehttpd.Headers.{
  Header, Session, stop, go, Result, block_read, handled, header_of, terminated,
  read_request_header, on_known, on_pushed, on_cookie, on_header, on_code, on_got, on_read, total,
  parse, round, loop, process, is_cookie, find, key_of, headers_in,
}
use ehttpd.Headers.Entries.{header_at, Holds-frame, terminated-other, header_of-at}
use ehttpd.Headers.Lines.{AfterLine, AllRead, AllRead-line, length-field_lines}
use ehttpd.ResponseHead.{Field, crlf}
use ehttpd.ResponseHead.Whole.{field_line, field_lines}

-- what looking a header up leaves as it is
record Same (s s' : Session) : Type 0 where
  mem : s'.mem ≡ s.mem
  headers : s'.headers ≡ s.headers
  buf : s'.buf ≡ s.buf
  request : s'.request ≡ s.request
  closes : s'.closes ≡ s.closes

on_known-Same : (h : Header) (o : Option ℕ) (s : Session) → Same s (on_known h o s)
unfolding on_known
on_known-Same h none s = record {
  mem = refl;
  headers = refl;
  buf = refl;
  request = refl;
  closes = refl;
}
on_known-Same h (some i) s = record {
  mem = refl;
  headers = refl;
  buf = refl;
  request = refl;
  closes = refl;
}

-- The parameters are those of the handler, with memory for every header.
module _ (strcasecmp : List ℕ → List ℕ → Bool) (list_push array_push : ℕ → Bool)
    (list_grows : (n : ℕ) → list_push n ≡ true) (array_grows : (n : ℕ) → array_push n ≡ true) where
  on_pushed-Same :
      (h : Header) (s : Session)
      → (s' : Session) × (on_pushed strcasecmp list_push array_push h s ≡ go false s') × Same s s'
  unfolding on_pushed on_cookie
  on_pushed-Same h s = elim (Bool-cases (is_cookie strcasecmp list_push array_push h s.mem)) [
    | inl e ↦ (
      record s { cookies = s.cookies ++ (h ∷ []) },
      rw e (rw (array_grows (length s.cookies)) refl),
      record { mem = refl; headers = refl; buf = refl; request = refl; closes = refl },
    )
    | inr e ↦
        let o = find strcasecmp list_push array_push (key_of h s.mem) 0 headers_in in
        (on_known h o s, rw e refl, on_known-Same h o s)
  ]

  on_header-pushed :
      (s : Session)
      → let h = header_of s.request in
        on_header strcasecmp list_push array_push s
        ≡ on_pushed strcasecmp list_push array_push h (record s {
          headers_n = s.headers_n + 1;
          headers = s.headers ++ (h ∷ []);
          mem = terminated h s.mem;
        })
  unfolding on_header
  on_header-pushed s = rw (list_grows (length s.headers)) refl

  -- `d` is what the parser leaves
  on_code-AfterLine :
      (f : Field) (s : Session) (d : Parsed)
      → ReadsLine s.buf f d
      → (s' : Session) × (on_code strcasecmp list_push array_push d.code
            (record s { request = d.request; buf = d.buf })
          ≡ go false s')
        × AfterLine f s s'
  unfolding on_code
  on_code-AfterLine f s d l =
      let read = record s { request = d.request; buf = d.buf } in
      let h = header_of d.request in
      let at =
        header_of-at d.request s.buf.pos f l.name_start l.name_end l.value_start l.value_end in
      let (s', pushed, same) = on_pushed-Same h (record read {
        headers_n = s.headers_n + 1;
        headers = s.headers ++ (h ∷ []);
        mem = terminated h s.mem;
      }) in
      (
        s',
        ap (λ c. on_code strcasecmp list_push array_push c read) l.accepted
            ∙ on_header-pushed read
            ∙ pushed,
        record {
          mem = same.mem ∙ ap (λ k. terminated k s.mem) at;
          headers = same.headers ∙ ap (λ k. s.headers ++ (k ∷ [])) at;
          pos = ap (λ b. b.pos) same.buf ∙ l.pos;
          last = ap (λ b. b.last) same.buf ∙ l.last;
          reset = ap (λ r. r.state) same.request ∙ l.reset;
          closes = same.closes;
        },
      )

  parse-AfterLine :
      (f : Field) (n : ℕ) (s : Session)
      → IsField f
      → Holds s.mem s.buf.pos (field_line f)
      → s.buf.last ≡ s.buf.pos + length (field_line f) + n
      → s.request.state ≡ 0
      → (s' : Session) × (parse strcasecmp list_push array_push s ≡ go false s') × AfterLine f s s'
  unfolding parse
  parse-AfterLine f n s g h l z =
      on_code-AfterLine f s (parse_header_line s.mem s.request s.buf)
        (parse_header_line-field_line s.mem f n s.request s.buf g h l z)

  -- the empty line
  parse-crlf :
      (n : ℕ) (s : Session)
      → Holds s.mem s.buf.pos crlf
      → s.buf.last ≡ s.buf.pos + 2 + n
      → s.request.state ≡ 0
      → (s' : Session) × (parse strcasecmp list_push array_push s ≡ stop handled s')
        × AllRead [] s s'
  unfolding parse on_code
  parse-crlf n s h l z =
      let d = parse_header_line s.mem s.request s.buf in
      let (accepted, pos, reset) = parse_header_line-crlf s.mem n s.request s.buf h l z in
      let read = record s { request = d.request; buf = d.buf } in
      (
        record read { read_handler = block_read },
        ap (λ c. on_code strcasecmp list_push array_push c read) accepted,
        record {
          headers = sym (append-nil s.headers);
          stored = tt;
          below = λ k l. refl;
          pos = pos;
          reset = reset;
          blocked = refl;
          closes = refl;
        },
      )

  abbrev LoopReads : List Field → ℕ → Session → Type 0
  LoopReads fs n s =
      (r : Result) × (loop strcasecmp list_push array_push n false s ≡ some r)
      × (r.ending ≡ handled)
      × AllRead fs s r.session

  loop-stop :
      (n : ℕ) (s : Session) (s' : Session)
      → parse strcasecmp list_push array_push s ≡ stop handled s'
      → loop strcasecmp list_push array_push (suc n) false s
        ≡ some (record { ending = handled; session = s' })
  unfolding loop round
  loop-stop n s s' e = rw (e, loop) refl

  loop-go :
      (n : ℕ) (s : Session) (s' : Session)
      → parse strcasecmp list_push array_push s ≡ go false s'
      → loop strcasecmp list_push array_push (suc n) false s
        ≡ loop strcasecmp list_push array_push n false s'
  unfolding loop round
  loop-go n s s' e = rw (e, loop) refl

  loop-field_lines :
      (fs : List Field) (k n : ℕ) (s : Session)
      → All IsField fs
      → Holds s.mem s.buf.pos (field_lines fs ++ crlf)
      → s.buf.last ≡ s.buf.pos + length (field_lines fs ++ crlf) + k
      → s.request.state ≡ 0
      → length fs < n
      → LoopReads fs n s
  loop-field_lines fs k zero s g h l z m = absurd (omega arith)
  loop-field_lines [] k (suc n) s g h l z m =
      let (s', e, a) = parse-crlf k s h l z in
      (record { ending = handled; session = s' }, loop-stop n s s' e, refl, a)
  loop-field_lines (f ∷ fs) k (suc n) s g h l z m =
      let p = s.buf.pos in
      let all = append_assoc (field_line f) (field_lines fs) crlf in
      let more = field_lines fs ++ crlf in
      let long = length-append (field_line f) more in
      let whole : length (field_lines (f ∷ fs) ++ crlf) ≡ length (field_line f ++ more) =
        ap length all in
      let (first, rest) = Holds-append s.mem p (field_line f) more (subst (Holds s.mem p) all h) in
      let (s', e, a) = parse-AfterLine f (length more + k) s g.0 first (omega arith) z in
      let at = a.pos in
      let end = a.last in
      let size = length-field_line f in
      let later : Holds s'.mem s'.buf.pos more = rw at (
        Holds-frame s.mem s'.mem (p + length (field_line f)) more
          (λ j b c.
            ap (λ mem. mem j) a.mem
            ∙ terminated-other (header_at p f) s.mem j (λ e. omega arith) (λ e. omega arith))
          rest) in
      let (r, run, ending, b) =
        loop-field_lines fs k n s' g.1 later (omega arith) a.reset (omega arith) in
      (r, loop-go n s s' e ∙ run, ending, AllRead-line f fs s s' r.session first a b)

  -- the round that reads: the bytes are there
  round-read :
      (s : Session)
      → s.buf.pos < s.buf.last
      → s.buf.last ≤ s.buf.end
      → round strcasecmp list_push array_push true s ≡ parse strcasecmp list_push array_push s
  unfolding round on_read on_got read_request_header
  round-read s l m =
      let space : (s.buf.pos == s.buf.end) ≡ false = ground arith in
      let there : ltb s.buf.pos s.buf.last ≡ true = ground arith in rw space (rw there refl)

  loop-read :
      (n : ℕ) (s : Session)
      → s.buf.pos < s.buf.last
      → s.buf.last ≤ s.buf.end
      → 0 < n
      → loop strcasecmp list_push array_push n true s
        ≡ loop strcasecmp list_push array_push n false s
  unfolding loop
  loop-read zero s l m p = absurd (omega arith)
  loop-read (suc n) s l m p = rw (round-read s l m, loop) (unfold round in refl)

  -- Where the buffer holds the lines of headers that can be sent, in the form in which a response's
  -- headers are printed, and the empty line, whatever stands behind them, a handler that starts
  -- afresh returns with the request handled: it has added an entry for each header, in their
  -- order, each name and each value stands there as a string of C, nothing in front of the first
  -- line has changed, and the buffer is read to the end of the empty line.
  pub process-field_lines :
      (fs : List Field) (k : ℕ) (s : Session)
      → All IsField fs
      → Holds s.mem s.buf.pos (field_lines fs ++ crlf)
      → s.buf.last ≡ s.buf.pos + length (field_lines fs ++ crlf) + k
      → s.buf.last ≤ s.buf.end
      → s.request.state ≡ 0
      → (r : Result) × (process strcasecmp list_push array_push s ≡ some r)
        × (r.ending ≡ handled)
        × AllRead fs s r.session
  unfolding process
  process-field_lines fs k s g h l m z =
      let long = length-field_lines fs in
      let size = length-append (field_lines fs) crlf in
      let n = 2 * ((s.buf.last - s.buf.pos) + total s.answers) + 2 in
      let (r, run, ending, all) = loop-field_lines fs k n s g h l z (omega arith) in
      (r, loop-read n s (omega arith) m (omega arith) ∙ run, ending, all)
