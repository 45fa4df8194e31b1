-- ===== src/RequestLine/Resume.antt =====
-- The request line may arrive in pieces: after EHD_AGAIN and a `recv` that adds bytes behind
-- `b->last` the parser goes on as if it had seen all of them at once.
use ehttpd.Prelude.{
  ℕ, ◌+◌, ◌-◌, ◌≤◌, ◌≡◌, refl, sym, ap, ◌∙◌, Bool-cases, inl, inr, arith, if◌then◌else◌, some, none,
  Option,
}
use ehttpd.Request.{Memory, Buf, Request}
use ehttpd.RequestLine.{
  is_done, step, machine, finish, answer, after_scan, parse_from, parse_request_line,
}
use ehttpd.RequestLine.Method.{on_start, on_method, on_space_after_method}
use ehttpd.RequestLine.States.{State, sw_start, to_uint, of_uint, of_uint-to_uint}
use ehttpd.RequestLine.Target.{
  on_spaces_before_uri, on_schema, on_schema_slash, on_schema_slash_slash, on_host, on_port,
  on_after_slash_in_uri, on_check_uri, on_uri,
}
use ehttpd.RequestLine.Version.{
  on_http_09, on_letter, on_first_major_digit, on_major_digit, on_first_minor_digit, on_minor_digit,
  on_almost_done,
}
use ehttpd.Scanner.{Scan, stopped, refused, scan}
use ehttpd.Scanner.Cut.{with_state, grow, Refuses, settled, resume}
use ehttpd.Scanner.Commute.{map_outcome, map_scan, scan-commute}
use ehttpd.Scanner.Resume.{continue, scan-final, scan-add}
use ehttpd.Scanner.Invariant.{Keeps, Ends, scan_inv, StopsWithin, scan-StopsWithin}

step-with_state :
    (mem : Memory) (x : ℕ) (s : State) (r : Request) (p : ℕ)
    → step mem s (with_state x r) p (mem p) ≡ map_outcome (with_state x) (step mem s r p (mem p))
unfolding step on_start on_method on_space_after_method on_spaces_before_uri on_schema
    on_schema_slash on_schema_slash_slash on_host on_port on_after_slash_in_uri on_check_uri on_uri
    on_http_09 on_letter on_first_major_digit on_major_digit on_first_minor_digit on_minor_digit
    on_almost_done
step-with_state mem x sw_start r p = ground arith
step-with_state mem x _ r p = ground arith

scan-with_state :
    (mem : Memory) (x k : ℕ) (s : State) (r : Request) (p : ℕ)
    → scan machine mem k s (with_state x r) p ≡ map_scan (with_state x) (scan machine mem k s r p)
scan-with_state mem x = scan-commute machine mem (with_state x) (step-with_state mem x)

step-Refuses :
    (mem : Memory) (s : State) (r : Request) (p : ℕ)
    → Keeps (λ _ _ _. Unit {0}) Refuses (p + 1) (step mem s r p (mem p))
unfolding step
step-Refuses mem sw_start r p = ground arith
step-Refuses mem _ r p = ground arith

-- where the second scan starts does not show
settled-after_scan :
    (b : Buf) (p x : ℕ) (o : Scan State)
    → Ends (λ _ _ _. Unit {0}) Refuses o
    → settled (after_scan b o)
      ≡ settled (after_scan (record b { pos = p }) (map_scan (with_state x) o))
unfolding settled after_scan finish answer
settled-after_scan b p x (refused c r) h = rw (h, if◌then◌else◌)
settled-after_scan b p x (stopped s r q) h = elim (Bool-cases (is_done s)) [
  | inl d ↦ rw (d, if◌then◌else◌)
  | inr d ↦ rw (d, if◌then◌else◌)
]

pub scan-Refuses :
    (mem : Memory) (k : ℕ) (s : State) (r : Request) (p : ℕ)
    → Ends (λ _ _ _. Unit {0}) Refuses (scan machine mem k s r p)
scan-Refuses mem k s r p =
    scan_inv machine mem (λ _ _ _. Unit {0}) Refuses (λ s r p f h. step-Refuses mem s r p) k s r p
      tt

-- the second call, when the first has used up its bytes
parse_request_line-again :
    (mem : Memory) (n : ℕ) (b : Buf) (s : State) (r : Request) (p : ℕ)
    → p ≡ b.last
    → parse_request_line mem (record r { state = to_uint s }) (grow n (record b { pos = p }))
      ≡ after_scan
          (record (grow n b) { pos = p })
          (map_scan (with_state (to_uint s)) (scan machine mem n s r p))
unfolding parse_request_line parse_from
parse_request_line-again mem n b s r p e =
    let left : b.last + n - p ≡ n = omega arith in
    rw (of_uint-to_uint, parse_from)
      (rw left
        (ap (after_scan (record (grow n b) { pos = p })) (scan-with_state mem (to_uint s) n s r p)))

-- `o` is how a scan of the first bytes ended
resume-after_scan :
    (mem : Memory) (n : ℕ) (b : Buf) (o : Scan State)
    → b.pos ≤ b.last
    → StopsWithin machine mem (b.last - b.pos) b.pos o
    → Ends (λ _ _ _. Unit {0}) Refuses o
    → settled (after_scan (grow n b) (continue machine mem n o))
      ≡ settled (resume parse_request_line mem n (after_scan b o))
unfolding resume after_scan
resume-after_scan mem n b (refused c r) le w h = unfold settled in ground arith
resume-after_scan mem n b (stopped s r p) le w h = elim (Bool-cases (is_done s)) [
  | inl d ↦ rw (scan-final machine mem n s r p d, d) (unfold answer in ground arith)
  | inr d ↦ rw d (
      settled-after_scan (grow n b) p (to_uint s) (scan machine mem n s r p)
        (scan-Refuses mem n s r p)
      ∙ ap settled (sym (parse_request_line-again mem n b s r p (ground arith))))
]

parse_from-grow :
    (mem : Memory) (r : Request) (b : Buf) (n : ℕ) (s : Option State)
    → of_uint r.state ≡ s
    → b.pos ≤ b.last
    → settled (parse_from s mem r (grow n b))
      ≡ settled (resume parse_request_line mem n (parse_from s mem r b))
unfolding parse_from
parse_from-grow mem r b n none e le = unfold resume parse_request_line in rw (e, parse_from)
parse_from-grow mem r b n (some s) e le =
    let split : b.last + n - b.pos ≡ (b.last - b.pos) + n = omega arith in
    rw (split, scan-add machine mem (b.last - b.pos) n s r b.pos)
      (resume-after_scan mem n b _ le (scan-StopsWithin machine mem (b.last - b.pos) s r b.pos)
        (scan-Refuses mem (b.last - b.pos) s r b.pos))

-- A request line may be cut anywhere: for a buffer that is in order, parsing it with `n` more
-- bytes at once gives the same as parsing it, and on EHD_AGAIN parsing on with the `n` bytes: the
-- same code, and the same request and buffer but for `r->state` and `b->pos` after a refusal.
pub parse_request_line-grow :
    (mem : Memory) (r : Request) (b : Buf) (n : ℕ)
    → b.pos ≤ b.last
    → settled (parse_request_line mem r (grow n b))
      ≡ settled (resume parse_request_line mem n (parse_request_line mem r b))
unfolding parse_request_line
parse_request_line-grow mem r b n le = parse_from-grow mem r b n (of_uint r.state) refl le
