-- ===== src/RequestLine/Finished.antt =====
-- What an invariant of the switch says of a request line that one call has read to its end.
use ehttpd.Prelude.{ℕ, ◌+◌, ◌-◌, ◌≡◌, ◌⊎◌, refl, false, some, arith, ap}
use ehttpd.Request.{Memory, Buf, Code, ok, invalid_09_method, Request, Parsed}
use ehttpd.RequestLine.{
  is_done, step, machine, finish, answer, after_scan, parse_from, parse_request_line,
}
use ehttpd.RequestLine.Resume.{scan-Refuses}
use ehttpd.Scanner.Cut.{Refuses}
use ehttpd.RequestLine.States.{State, sw_start, sw_done, of_uint}
use ehttpd.Scanner.{Scan, stopped, refused, scan}
use ehttpd.Scanner.Invariant.{Keeps, Ends, scan_inv}

abbrev pub IsFinished : Code → Type 0
IsFinished c = (c ≡ ok) ⊎ (c ≡ invalid_09_method)

module _ (mem : Memory) (P : State → Request → ℕ → Type 0) where
  -- the request as the loop leaves it, and what is made of it
  pub record Finished (d : Parsed) : Type 0 where
    pub left : Request
    pub end : ℕ
    pub holds : P sw_done left end
    pub code : d.code ≡ answer (finish left end)
    pub request : d.request ≡ finish left end

  after_scan-Finished :
      (b : Buf) (o : Scan State)
      → Ends P (λ _ _. Unit {0}) o
      → Ends (λ _ _ _. Unit {0}) Refuses o
      → IsFinished (after_scan b o).code
      → Finished (after_scan b o)
  unfolding after_scan
  after_scan-Finished b (refused c r) h q f = ground arith
  after_scan-Finished b (stopped sw_done r p) h q f = record {
    left = r;
    end = p;
    holds = h;
    code = refl;
    request = refl;
  }
  after_scan-Finished b (stopped _ r p) h q f = ground arith

  pub parse_request_line-Finished :
      ((s : State) (r : Request) (p : ℕ)
        → is_done s ≡ false
        → P s r p
        → Keeps P (λ _ _. Unit {0}) (p + 1) (step mem s r p (mem p)))
      → (r : Request) (b : Buf) → r.state ≡ 0
      → P sw_start r b.pos
      → IsFinished (parse_request_line mem r b).code
      → Finished (parse_request_line mem r b)
  unfolding parse_request_line
  parse_request_line-Finished keep r b z h f =
      let start : of_uint r.state ≡ some sw_start = unfold of_uint in ap of_uint z in
      rw start (
        unfold parse_from in
        after_scan-Finished b (scan machine mem (b.last - b.pos) sw_start r b.pos)
          (scan_inv machine mem P (λ _ _. Unit {0}) keep (b.last - b.pos) sw_start r b.pos h)
          (scan-Refuses mem (b.last - b.pos) sw_start r b.pos) (rw start at f))
