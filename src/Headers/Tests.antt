-- ===== src/Headers/Tests.antt =====
-- The read handler on a concrete connection, and its theorems at it.
use ehttpd.Prelude.{
  ℕ, ◌+◌, ◌≡◌, refl, Bool, true, false, Option, map, none, some, List, [], ◌∷◌, ◌++◌, ◌&&◌, ◌==◌,
  codes, length, arith,
}
use ehttpd.Request.{fresh, from_one, Holds}
use ehttpd.HeaderLine.{step, after_scan, parse_from, parse_header_line}
use ehttpd.HeaderLine.States.{sw_start, of_uint, to_uint}
use ehttpd.HeaderLine.Cases.{lower, starts_http}
use ehttpd.Scanner.{scan}
use ehttpd.Socket.{eagain, count, failed, Answer, recv, on_received}
use ehttpd.Socket.Interrupts.{interrupts}
use ehttpd.Headers.{
  Session, Ending, unanswered, waiting, handled, process_request_headers, waiting, closed, handled,
  close, store, on_ret, on_recv, read_request_header, find, header_of, terminated, on_known,
  on_cookie, is_cookie, on_pushed, on_header, on_code, parse, on_got, on_read, round, Result, loop,
  process,
}
use ehttpd.Headers.Ends.{process-Left, process-closes}
use ehttpd.Headers.Lines.{AllRead}
use ehttpd.Headers.WellFormed.{process-field_lines}
use ehttpd.HeaderLine.RoundTrip.{IsField}
use ehttpd.ResponseHead.{Field, crlf}
use ehttpd.ResponseHead.Whole.{field_lines}
use ehttpd.Headers.Rounds.{Fine, Left}

-- texts that are equal but for the case of letters
abbrev same_text : List ℕ → List ℕ → Bool
same_text [] [] = true
same_text [] (y ∷ ys) = false
same_text (x ∷ xs) [] = false
same_text (x ∷ xs) (y ∷ ys) = (lower x == lower y) && same_text xs ys

-- how a run ended, the numbers of the known headers, and the two counts
abbrev summary : Option Result → Ending × List ℕ × ℕ × ℕ
summary none = (unanswered, [], 0, 0)
summary (some r) = (r.ending, map (λ e. e.0) r.session.known, r.session.headers_n, r.session.closes)

abbrev enough : ℕ → Bool
enough n = true

abbrev header : List ℕ
header = codes "hOST: x\n\n"

abbrev session : List ℕ → List Answer → List ℕ → Session
session text answers incoming = record {
  mem = from_one text;
  buf = record { pos = 1; last = 1 + length text; start = 1; end = 4097 };
  request = fresh;
  event = record { rready = true; wready = true; eof = false; error = false };
  answers = answers;
  incoming = incoming;
  headers_n = 0;
  headers = [];
  cookies = [];
  known = [];
  read_handler = process_request_headers;
  closes = 0;
}

session-Fine :
    (text : List ℕ) (answers : List Answer) (incoming : List ℕ)
    → Fine (session text answers incoming)
unfolding of_uint
session-Fine text answers incoming = record {
  state = sw_start;
  known = refl;
  unfinished = refl;
  inv = tt;
  bounded = omega arith;
}

process-Left_example :
    (r : Result) × (process same_text enough enough
        (session (codes "hO") (count 7 ∷ []) (codes "ST: x\n\n"))
      ≡ some r)
    × Left 0 r.ending r.session
process-Left_example =
    process-Left same_text enough enough (session (codes "hO") (count 7 ∷ []) (codes "ST: x\n\n"))
      (session-Fine (codes "hO") (count 7 ∷ []) (codes "ST: x\n\n"))

process-closes_example :
    (r : Result) × (process same_text enough enough (session [] (interrupts 1 ++ (count 0 ∷ [])) [])
      ≡ some r)
    × (r.ending ≡ closed)
    × (r.session.closes ≡ 0 + 2)
process-closes_example =
    process-closes same_text enough enough (session [] (interrupts 1 ++ (count 0 ∷ [])) []) 1
      (count 0) [] refl (omega arith) refl refl refl

run : List ℕ → List Answer → List ℕ → Option Result
unfolding close store on_ret on_recv read_request_header find header_of terminated on_known
    on_cookie is_cookie on_pushed on_header on_code parse on_got on_read round loop process recv
    on_received parse_header_line parse_from of_uint to_uint after_scan scan step lower starts_http
run text answers incoming = process same_text enough enough (session text answers incoming)

-- a header in two pieces is found, and stored under the number of "Host"
run_header : summary (run (codes "hO") (count 7 ∷ []) (codes "ST: x\n\n")) ≡ (handled, 0 ∷ [], 1, 0)
unfolding run
run_header = refl

-- and without the empty line the handler waits
run_waits :
    summary (run (codes "hO") (count 6 ∷ failed eagain ∷ []) (codes "ST: x\n"))
    ≡ (waiting, 0 ∷ [], 1, 0)
unfolding run
run_waits = refl

abbrev host : Field
host = record { key = codes "Host"; value = codes "a b" }

abbrev empty_value : Field
empty_value = record { key = codes "X-1"; value = [] }

abbrev sent : List ℕ
sent = field_lines (host ∷ empty_value ∷ []) ++ crlf

host-IsField : IsField host
unfolding lower
host-IsField = record {
  named = λ e. ground arith;
  name = (refl, (refl, (refl, (refl, tt))));
  value = (refl, (refl, (refl, tt)));
  trimmed = (λ e. omega arith, λ e. omega arith);
}

empty_value-IsField : IsField empty_value
unfolding lower
empty_value-IsField = record {
  named = λ e. ground arith;
  name = (refl, (refl, (refl, tt)));
  value = tt;
  trimmed = tt;
}

sent-Holds : Holds (from_one sent) 1 sent
sent-Holds = ground arith

process-field_lines_example :
    (r : Result) × (process same_text enough enough (session sent [] []) ≡ some r)
    × (r.ending ≡ handled)
    × AllRead (host ∷ empty_value ∷ []) (session sent [] []) r.session
process-field_lines_example =
    process-field_lines same_text enough enough (λ n. refl) (λ n. refl) (host ∷ empty_value ∷ []) 0
      (session sent [] []) (host-IsField, (empty_value-IsField, tt)) sent-Holds refl (omega arith)
      refl
