-- ===== src/Headers/Rounds.antt =====
-- What a round of `ehd_http_process_request_headers` does to the state of the connection.
use ehttpd.Prelude.{
  ℕ, ◌+◌, ◌*◌, ◌≤◌, ◌<◌, ◌≡◌, ◌⊎◌, inl, inr, refl, sym, Bool, true, false, Option, none, some, List,
  [], ◌∷◌, ◌++◌, length, ◌==◌, arith, Bool-cases,
}
use mathlib.Core.Path.{subst}
use ehttpd.Request.{Buf, Code, ok, again, header_done, Request}
use ehttpd.HeaderLine.{parse_header_line}
use ehttpd.HeaderLine.Advance.{Advances, parse_header_line-Advances}
use ehttpd.HeaderLine.Found.{Ready, Post, parse_header_line-Post}
use ehttpd.HeaderLine.States.{sw_start, of_uint}
use ehttpd.Headers.{
  Header, block_read, Session, Ending, waiting, closed, handled, unanswered, close, Got, got,
  got_again, got_error, lost, read_request_header, headers_in, find, header_of, terminated, key_of,
  on_known, Round, stop, go, on_cookie, is_cookie, on_pushed, on_header, on_code, parse, on_got,
  on_read, round,
}
use ehttpd.Headers.Agree.{Ready-Agree}
use ehttpd.Headers.Reading.{Kept, Reads, pending, read-Reads}

-- the session between two rounds
abbrev pub Fine : Session → Type 0
Fine s = Ready s.mem s.request s.buf

abbrev GotFrom : Session → Got → Session → Type 0
GotFrom s (got n) s' =
    Fine s' × (s'.buf.pos < s'.buf.last) × (pending s' ≡ pending s) × (s'.closes ≡ s.closes)
GotFrom s got_again s' =
    Fine s' × (s'.closes ≡ s.closes) × (s'.event.rready ≡ false) × (s'.buf.last ≡ s'.buf.pos)
GotFrom s got_error s' = s'.closes ≡ s.closes + 1
GotFrom s lost s' = Unit

Fine-Kept : (s s' : Session) → Fine s → Kept s s' → Fine s'
Fine-Kept s s' f k =
    let below = f.bounded in
    subst (λ r. Ready s'.mem r s'.buf) (sym k.request)
      (Ready-Agree s.mem s'.mem s.request s.buf s'.buf (λ j l. k.below j (omega arith)) k.pos k.last
        f)

Reads-GotFrom : (s : Session) (g : Got) (s' : Session) → Fine s → Reads s g s' → GotFrom s g s'
Reads-GotFrom s (got n) s' f (k, l, p) = (Fine-Kept s s' f k, l, p, k.closes)
Reads-GotFrom s got_again s' f (k, r, l) = (Fine-Kept s s' f k, k.closes, r, l)
Reads-GotFrom s got_error s' f h = h
Reads-GotFrom s lost s' f h = tt

read-GotFrom : (s : Session) → Fine s → let d = read_request_header s in GotFrom s d.got d.session
read-GotFrom s f = Reads-GotFrom s _ _ f (read-Reads s f.bounded)

-- twice the bytes that are there or come, and one more behind EHD_OK
abbrev pub measure : Bool → Session → ℕ
measure true s = 2 * pending s
measure false s = 2 * pending s + 1

-- how the handler leaves the connection
abbrev pub Left : ℕ → Ending → Session → Type 0
Left closes waiting s =
    Fine s × (s.closes ≡ closes) × (s.event.rready ≡ false) × (s.buf.last ≡ s.buf.pos)
Left closes handled s = (s.closes ≡ closes) × (s.read_handler ≡ block_read) × (s.request.state ≡ 0)
Left closes closed s = (s.closes ≡ closes + 1) ⊎ (s.closes ≡ closes + 2)
Left closes unanswered s = Unit

pub Fine-start : (s : Session) → s.request.state ≡ 0 → s.buf.pos ≤ s.buf.last → Fine s
unfolding of_uint
Fine-start s z l = record {
  state = sw_start;
  known = rw z refl;
  unfinished = refl;
  inv = tt;
  bounded = l;
}

module _ (strcasecmp : List ℕ → List ℕ → Bool) (list_push array_push : ℕ → Bool) where
  abbrev pub Leads : ℕ → ℕ → Round → Type 0
  Leads closes n (stop e s) = Left closes e s
  Leads closes n (go b s) = Fine s × (s.closes ≡ closes) × (measure b s < n)

  on_known-Leads :
      (n : ℕ) (h : Header) (o : Option ℕ) (s : Session)
      → Fine s
      → measure false s < n
      → Leads s.closes n (go false (on_known h o s))
  unfolding on_known
  on_known-Leads n h none s f m = (f, refl, m)
  on_known-Leads n h (some i) s f m = (f, refl, m)

  -- behind EHD_OK, with a byte less to come
  on_header-Leads :
      (n : ℕ) (s : Session)
      → s.request.state ≡ 0
      → s.buf.pos ≤ s.buf.last
      → measure false s < n
      → Leads s.closes n (on_header strcasecmp list_push array_push s)
  unfolding on_header on_pushed on_cookie close
  on_header-Leads n s z l m =
      let h = header_of s.request in
      let s' = record s {
        headers_n = s.headers_n + 1;
        headers = s.headers ++ (h ∷ []);
        mem = terminated h s.mem;
      } in
      elim (Bool-cases (list_push (length s.headers))) [
        | inr e ↦ rw e (inl refl)
        | inl e ↦ elim (Bool-cases (is_cookie strcasecmp list_push array_push h s'.mem)) [
          | inr c ↦
              rw (e, c)
                (on_known-Leads n h
                  (find strcasecmp list_push array_push (key_of h s'.mem) 0 headers_in) s'
                  (Fine-start s' z l) m)
          | inl c ↦ elim (Bool-cases (array_push (length s.cookies))) [
            | inl a ↦
                rw (e, c, a)
                  (Fine-start (record s' { cookies = s.cookies ++ (h ∷ []) }) z l, refl, m)
            | inr a ↦ rw (e, c, a) (inl refl)
          ]
        ]
      ]

  on_code-Leads :
      (n : ℕ) (s : Session) (c : Code) (r : Request) (b : Buf)
      → Post s.mem s.buf c r b
      → Advances s.buf c b
      → s.buf.pos ≤ s.buf.last
      → ((s.buf.pos < s.buf.last) × (2 * pending s ≤ n)) ⊎ (2 * pending s < n)
      → Leads s.closes n
          (on_code strcasecmp list_push array_push c (record s { request = r; buf = b }))
  unfolding on_code close
  on_code-Leads n s ok r b p a l m =
      on_header-Leads n (record s { request = r; buf = b }) p.2 (ground arith) (ground arith)
  on_code-Leads n s header_done r b p a l m = (refl, refl, p.1)
  on_code-Leads n s again r b p a l m = (p.0, refl, ground arith)
  on_code-Leads n s c r b p a l m = inl refl

  parse-Leads :
      (n : ℕ) (s : Session)
      → Fine s
      → ((s.buf.pos < s.buf.last) × (2 * pending s ≤ n)) ⊎ (2 * pending s < n)
      → Leads s.closes n (parse strcasecmp list_push array_push s)
  unfolding parse
  parse-Leads n s f m =
      let d = parse_header_line s.mem s.request s.buf in
      on_code-Leads n s d.code d.request d.buf (parse_header_line-Post s.mem s.request s.buf f)
        (parse_header_line-Advances s.mem s.request s.buf f) f.bounded m

  on_got-Leads :
      (s : Session) (g : Got) (s' : Session)
      → GotFrom s g s'
      → Leads s.closes (2 * pending s) (on_got strcasecmp list_push array_push g s')
  unfolding on_got close
  on_got-Leads s (got n) s' (f, l, p, c) =
      subst (λ k. Leads k (2 * pending s) (parse strcasecmp list_push array_push s')) c
        (parse-Leads (2 * pending s) s' f (inl (l, omega arith)))
  on_got-Leads s got_again s' h = h
  on_got-Leads s got_error s' h = inr (omega arith)
  on_got-Leads s lost s' h = tt

  pub round-Leads :
      (b : Bool) (s : Session)
      → Fine s
      → Leads s.closes (measure b s) (round strcasecmp list_push array_push b s)
  unfolding round on_read on_got close
  round-Leads true s f = elim (Bool-cases (s.buf.pos == s.buf.end)) [
    | inl e ↦ rw e (inl refl)
    | inr e ↦ rw e (on_got-Leads s _ _ (read-GotFrom s f))
  ]
  round-Leads false s f = parse-Leads (measure false s) s f (inr (omega arith))
