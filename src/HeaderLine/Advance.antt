-- ===== src/HeaderLine/Advance.antt =====
-- A call that reads a header or the end of the header reads at least a byte.
use ehttpd.Prelude.{ℕ, ◌+◌, ◌-◌, ◌≤◌, ◌<◌, ◌≡◌, refl, true, arith}
use ehttpd.Request.{Memory, Buf, Code, ok, header_done, Request}
use ehttpd.HeaderLine.{is_done, step, machine, answer, after_scan, parse_from, parse_header_line}
use ehttpd.HeaderLine.Found.{Ready}
use ehttpd.HeaderLine.Resume.{scan-Refuses}
use ehttpd.HeaderLine.States.{State, sw_done, sw_header_done}
use ehttpd.Scanner.{Scan, stopped, refused, Outcome, next, refuse}
use ehttpd.Scanner.Cut.{is_refusal, Refuses}
use ehttpd.Scanner.Invariant.{Keeps, Ends, scan_inv}

abbrev Behind : ℕ → State → Request → ℕ → Type 0
Behind p0 s r p = (p0 ≤ p) × (is_done s ≡ true → p0 < p)

Keeps-Behind :
    (p0 p : ℕ) (o : Outcome State) → p0 ≤ p → Keeps (Behind p0) (λ _ _. Unit {0}) (p + 1) o
Keeps-Behind p0 p (next s r) l = (omega arith, λ e. omega arith)
Keeps-Behind p0 p (refuse c r) l = tt

abbrev pub Advances : Buf → Code → Buf → Type 0
Advances b ok b' = (b.pos < b'.pos) × (b'.last ≡ b.last)
Advances b header_done b' = (b.pos < b'.pos) × (b'.last ≡ b.last)
Advances b _ b' = b'.last ≡ b.last

Advances-refused : (b : Buf) (c : Code) → is_refusal c ≡ true → Advances b c b
Advances-refused b ok q = cc
Advances-refused b header_done q = cc
Advances-refused b c q = refl

Advances-stopped :
    (b b' : Buf) (s : State)
    → (is_done s ≡ true → b.pos < b'.pos)
    → b'.last ≡ b.last
    → Advances b (answer s) b'
Advances-stopped b b' sw_done h e = (h refl, e)
Advances-stopped b b' sw_header_done h e = (h refl, e)
Advances-stopped b b' s h e = e

after_scan-Advances :
    (b : Buf) (o : Scan State)
    → Ends (Behind b.pos) (λ _ _. Unit {0}) o
    → Ends (λ _ _ _. Unit {0}) Refuses o
    → let d = after_scan b o in Advances b d.code d.buf
unfolding after_scan
after_scan-Advances b (refused c r) h q = Advances-refused b c q
after_scan-Advances b (stopped s r p) h q = Advances-stopped b (record b { pos = p }) s h.1 refl

pub parse_header_line-Advances :
    (mem : Memory) (r : Request) (b : Buf)
    → Ready mem r b
    → let d = parse_header_line mem r b in Advances b d.code d.buf
unfolding parse_header_line parse_from
parse_header_line-Advances mem r b h =
    rw (h.known, parse_from)
      (after_scan-Advances b _
        (scan_inv machine mem (Behind b.pos) (λ _ _. Unit {0})
          (λ s r p f k. Keeps-Behind b.pos p (step mem s r p (mem p)) k.0) (b.last - b.pos) h.state
          r b.pos (omega arith, λ e. let u = h.unfinished in cc))
        (scan-Refuses mem (b.last - b.pos) h.state r b.pos))
