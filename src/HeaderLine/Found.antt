-- ===== src/HeaderLine/Found.antt =====
-- What a header line that has been read consists of.
use ehttpd.Prelude.{
  ℕ, ◌+◌, ◌-◌, ◌≤◌, ◌<◌, ◌≡◌, ◌≢◌, ◌⊎◌, refl, Bool, true, false, not, ◌||◌, some, arith, ◌==◌,
}
use ehttpd.Request.{
  cr, lf, Memory, Buf, Code, ok, again, header_done, Request, Every, Every-one, Every-suc,
  Every-nil,
}
use ehttpd.HeaderLine.{
  is_done, step, machine, stored, answer, after_scan, parse_from, parse_header_line,
}
use ehttpd.HeaderLine.Cases.{is_name}
use ehttpd.HeaderLine.Resume.{scan-Refuses}
use ehttpd.HeaderLine.States.{
  State, sw_start, sw_name, sw_space_before_value, sw_value, sw_space_after_value, sw_almost_done,
  sw_header_almost_done, sw_ignore_line, sw_done, sw_header_done, to_uint, of_uint, of_uint-to_uint,
}
use ehttpd.Scanner.{Scan, stopped, refused}
use ehttpd.Scanner.Cut.{is_refusal, Refuses, with_state}
use ehttpd.Scanner.Invariant.{Keeps, Ends, scan_inv, StopsWithin, scan-StopsWithin}

-- a byte that does not end a line
abbrev pub in_line : ℕ → Bool
in_line c = not (c == cr || c == lf)

module _ (mem : Memory) where
  -- the name: bytes of a name, at least one, and a colon behind it
  abbrev pub HasName : Request → ℕ → Type 0
  HasName r p =
      (r.header_name_start < r.header_name_end)
      × (r.header_name_end < p)
      × (mem r.header_name_end ≡ b':')
      × Every is_name mem r.header_name_start r.header_name_end

  -- the value: in one line, with no space at either end
  abbrev pub HasValue : Request → ℕ → Type 0
  HasValue r p =
      (r.header_name_end < r.header_start)
      × (r.header_start ≤ r.header_end)
      × (r.header_end < p)
      × Every in_line mem r.header_start r.header_end
      × (mem r.header_start ≢ b' ')
      × ((r.header_start ≡ r.header_end) ⊎ (mem (r.header_end - 1) ≢ b' '))

  abbrev pub InValue : Request → ℕ → Type 0
  InValue r p =
      HasName r p
      × (r.header_name_end < r.header_start)
      × (r.header_start < p)
      × Every in_line mem r.header_start p
      × (mem r.header_start ≢ b' ')

  abbrev pub Inv : State → Request → ℕ → Type 0
  Inv sw_start r p = Unit {0}
  Inv sw_name r p = (r.header_name_start < p) × Every is_name mem r.header_name_start p
  Inv sw_space_before_value r p = HasName r p
  Inv sw_value r p = InValue r p × (mem (p - 1) ≢ b' ')
  Inv sw_space_after_value r p = InValue r p × HasValue r p
  Inv sw_almost_done r p = HasName r p × HasValue r p
  Inv sw_done r p = HasName r p × HasValue r p
  Inv sw_ignore_line r p = Unit {0}
  Inv sw_header_almost_done r p = r.header_end < p
  Inv sw_header_done r p = r.header_end < p

  step-Inv :
      (s : State) (r : Request) (p : ℕ)
      → is_done s ≡ false
      → Inv s r p
      → Keeps Inv (λ _ _. Unit {0}) (p + 1) (step mem s r p (mem p))
  unfolding step
  step-Inv sw_start r p f h = grind (arith, Every-one)
  step-Inv sw_name r p f h = grind (arith, Every-suc)
  step-Inv sw_space_before_value r p f h = grind (arith, Every-one, Every-nil)
  step-Inv sw_value r p f h = grind (arith, Every-suc)
  step-Inv sw_space_after_value r p f h = grind (arith, Every-suc)
  step-Inv sw_almost_done r p f h = grind arith
  step-Inv sw_ignore_line r p f h = grind arith
  step-Inv sw_header_almost_done r p f h = grind arith
  step-Inv sw_done r p f h = cc
  step-Inv sw_header_done r p f h = cc

  -- between two calls: `r->state` is an enumerator below `sw_done` whose facts hold at `b->pos`
  pub record Ready (r : Request) (b : Buf) : Type 0 where
    pub state : State
    pub known : of_uint r.state ≡ some state
    pub unfinished : is_done state ≡ false
    pub inv : Inv state r b.pos
    pub bounded : b.pos ≤ b.last

  abbrev pub Within : Buf → Buf → Type 0
  Within b b' = (b.pos ≤ b'.pos) × (b'.pos ≤ b.last)

  abbrev pub Post : Buf → Code → Request → Buf → Type 0
  Post b ok r b' = HasName r b'.pos × HasValue r b'.pos × (r.state ≡ 0) × Within b b'
  Post b header_done r b' = (r.header_end < b'.pos) × (r.state ≡ 0) × Within b b'
  Post b again r b' = Ready r b' × (b'.pos ≡ b.last)
  Post b _ r b' = b' ≡ b

  Post-refused : (b : Buf) (c : Code) (r : Request) → is_refusal c ≡ true → Post b c r b
  Post-refused b ok r q = cc
  Post-refused b _ r q = ground arith

  Inv-with_state : (x : ℕ) (s : State) (r : Request) (p : ℕ) → Inv s r p → Inv s (with_state x r) p
  Inv-with_state x sw_start r p h = h
  Inv-with_state x _ r p h = h

  Ready-again :
      (s : State) (r : Request) (b : Buf) (p : ℕ)
      → is_done s ≡ false
      → p ≤ b.last
      → Inv s r p
      → Ready (with_state (to_uint s) r) (record b { pos = p })
  Ready-again s r b p f le h = record {
    state = s;
    known = of_uint-to_uint s;
    unfinished = f;
    inv = Inv-with_state (to_uint s) s r p h;
    bounded = le;
  }

  Post-stopped :
      (b : Buf) (s : State) (r : Request) (p : ℕ)
      → b.pos ≤ b.last
      → StopsWithin machine mem (b.last - b.pos) b.pos (stopped s r p)
      → Inv s r p
      → Post b (answer s) (record r { state = to_uint (stored s) }) (record b { pos = p })
  unfolding to_uint
  Post-stopped b sw_done r p le w h = (h.0, h.1, refl, (ground arith, ground arith))
  Post-stopped b sw_header_done r p le w h = (h, refl, (ground arith, ground arith))
  Post-stopped b s r p le w h = (Ready-again s r b p refl (ground arith) h, ground arith)

  after_scan-Post :
      (b : Buf) (o : Scan State)
      → b.pos ≤ b.last
      → StopsWithin machine mem (b.last - b.pos) b.pos o
      → Ends Inv (λ _ _. Unit {0}) o
      → Ends (λ _ _ _. Unit {0}) Refuses o
      → let d = after_scan b o in Post b d.code d.request d.buf
  unfolding after_scan
  after_scan-Post b (refused c r) le w h q = Post-refused b c r q
  after_scan-Post b (stopped s r p) le w h q = Post-stopped b s r p le w h

  -- For a buffer and request as they are between two calls: after EHD_OK a header has been read
  -- within the buffer. Its name is made of name bytes, at least one, and stands before a colon; its
  -- value stands behind that, in one line and with no space at either end. After
  -- EHD_HTTP_PARSE_HEADER_DONE the empty line has been read. After EHD_AGAIN all bytes have been
  -- read and all is ready for the next call. Any other code leaves `*b` alone.
  pub parse_header_line-Post :
      (r : Request) (b : Buf)
      → Ready r b
      → let d = parse_header_line mem r b in Post b d.code d.request d.buf
  unfolding parse_header_line parse_from
  parse_header_line-Post r b h =
      rw (h.known, parse_from)
        (after_scan-Post b _ h.bounded
          (scan-StopsWithin machine mem (b.last - b.pos) h.state r b.pos)
          (scan_inv machine mem Inv (λ _ _. Unit {0}) step-Inv (b.last - b.pos) h.state r b.pos
            h.inv)
          (scan-Refuses mem (b.last - b.pos) h.state r b.pos))
