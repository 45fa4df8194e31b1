-- ===== src/RequestLine/Calls.antt =====
-- What a call of `ehd_http_parse_request_line` leaves behind, by its return code.
use ehttpd.Prelude.{ℕ, ◌-◌, ◌≤◌, ◌<◌, ◌≡◌, ◌⊎◌, inl, inr, Bool-cases, true, false, some, arith}
use ehttpd.Request.{Memory, Buf, Code, ok, again, invalid_09_method, Request}
use ehttpd.RequestLine.{
  is_done, machine, finish, answer, after_scan, parse_from, parse_request_line,
}
use ehttpd.RequestLine.States.{State, sw_start, sw_done, to_uint, of_uint, of_uint-to_uint}
use ehttpd.Scanner.{Scan, stopped, refused}
use ehttpd.Scanner.Invariant.{Ends, scan_inv, StopsWithin, scan-StopsWithin}
use ehttpd.RequestLine.Order.{Inv, Marks, step-Inv}
use ehttpd.RequestLine.Resume.{scan-Refuses}
use ehttpd.Scanner.Cut.{is_refusal, Refuses}

module _ (base : ℕ) where
  -- between two calls: `r->state` is an enumerator below `sw_done` whose facts hold at `b->pos`
  pub record Ready (r : Request) (b : Buf) : Type 0 where
    pub state : State
    pub stored : of_uint r.state ≡ some state
    pub unfinished : is_done state ≡ false
    pub inv : Inv base state r b.pos
    pub bounded : b.pos ≤ b.last

  -- the request line is complete, and `p` is behind it
  pub record LineParsed (r : Request) (p : ℕ) : Type 0 where
    pub begins : base ≤ r.request_start
    pub method_some : r.request_start < r.method_end
    pub target_after : r.method_end < r.uri_start
    pub target_some : r.uri_start < r.uri_end
    pub target_in_line : r.uri_end ≤ r.request_end
    pub line_read : r.request_end < p
    pub marks : Marks base r r.uri_end

  abbrev pub Post : Buf → Code → Request → Buf → Type 0
  Post b ok r b' = LineParsed r b'.pos × (b'.pos ≤ b.last) × (b.pos ≤ b'.pos)
  Post b invalid_09_method r b' = LineParsed r b'.pos × (b'.pos ≤ b.last) × (b.pos ≤ b'.pos)
  Post b again r b' = Ready r b' × (b'.pos ≡ b.last) × (b.pos ≤ b'.pos)
  Post b _ r b' = b' ≡ b

  LineParsed-finish : (r : Request) (p : ℕ) → Inv base sw_done r p → LineParsed (finish r p) p
  unfolding finish
  LineParsed-finish r p h = ground arith

  answer_cases : (r : Request) → (answer r ≡ ok) ⊎ (answer r ≡ invalid_09_method)
  unfolding answer
  answer_cases r = ground arith

  Post-refused : (b : Buf) (c : Code) (r : Request) → is_refusal c ≡ true → Post b c r b
  Post-refused b ok r q = cc
  Post-refused b _ r q = ground arith

  Inv-done :
      (s : State) (r : Request) (p : ℕ) → is_done s ≡ true → Inv base s r p → Inv base sw_done r p
  Inv-done sw_done r p d h = h
  Inv-done _ r p d h = cc

  Inv-with_state :
      (x : ℕ) (s : State) (r : Request) (p : ℕ)
      → Inv base s r p
      → Inv base s (record r { state = x }) p
  Inv-with_state x sw_start r p h = h
  Inv-with_state x _ r p h = h

  Post-done :
      (b : Buf) (r : Request) (p : ℕ)
      → b.pos ≤ b.last
      → Inv base sw_done r p
      → (b.pos ≤ p) × (p ≤ b.last)
      → Post b (answer (finish r p)) (finish r p) (record b { pos = p })
  Post-done b r p le h w = elim (answer_cases (finish r p)) [
    | inl e ↦ rw e (LineParsed-finish r p h, w.1, w.0)
    | inr e ↦ rw e (LineParsed-finish r p h, w.1, w.0)
  ]

  after_scan-Post :
      (mem : Memory) (b : Buf) (o : Scan State)
      → b.pos ≤ b.last
      → StopsWithin machine mem (b.last - b.pos) b.pos o
      → Ends (Inv base) (λ _ _. Unit {0}) o
      → Ends (λ _ _ _. Unit {0}) Refuses o
      → let d = after_scan b o in Post b d.code d.request d.buf
  unfolding after_scan
  after_scan-Post mem b (refused c r) le w h q = Post-refused b c r q
  after_scan-Post mem b (stopped s r p) le w h q = elim (Bool-cases (is_done s)) [
    | inl d ↦ rw d (Post-done b r p le (Inv-done s r p d h) (ground arith))
    | inr d ↦ rw d (
      record {
        state = s;
        stored = of_uint-to_uint s;
        unfinished = d;
        inv = Inv-with_state (to_uint s) s r p h;
        bounded = ground arith;
      },
      ground arith,
      ground arith,
    )
  ]

  -- For a buffer and request as they are between two calls: after EHD_OK the line has been read
  -- within the buffer, with method, target and line end in this order and the marks inside the
  -- target (likewise after the refusal of a 0.9 method); after EHD_AGAIN all
  -- bytes have been read and all is ready for the next call; any other code leaves `*b` alone.
  pub parse_request_line-Post :
      (mem : Memory) (r : Request) (b : Buf)
      → Ready r b
      → let d = parse_request_line mem r b in Post b d.code d.request d.buf
  unfolding parse_request_line parse_from
  parse_request_line-Post mem r b h =
      rw (h.stored, parse_from)
        (after_scan-Post mem b _ h.bounded
          (scan-StopsWithin machine mem (b.last - b.pos) h.state r b.pos)
          (scan_inv machine mem (Inv base) (λ _ _. Unit {0}) (λ s r p f. step-Inv base mem s r p)
            (b.last - b.pos) h.state r b.pos h.inv)
          (scan-Refuses mem (b.last - b.pos) h.state r b.pos))
