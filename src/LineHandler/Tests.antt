-- ===== src/LineHandler/Tests.antt =====
-- The handlers on concrete requests, and the theorems at one.
use ehttpd.Prelude.{
  ℕ, ◌+◌, ◌≡◌, refl, Bool, true, false, Option, none, some, List, [], ◌∷◌, ◌++◌, codes, length,
  arith,
}
use ehttpd.Request.{fresh, from_one}
use ehttpd.RequestLine.States.{sw_start, of_uint, to_uint}
use ehttpd.Socket.{eagain, count, failed, Answer}
use ehttpd.Socket.{recv, on_received}
use ehttpd.Headers.{process_request_line, read_request_header, on_recv, on_ret, store, close}
use ehttpd.RequestLine.{parse_request_line, parse_from, after_scan, step, finish, answer}
use ehttpd.RequestLine.Method.{recognise}
use ehttpd.Scanner.{scan}
use ehttpd.Strings.{cpystrn}
use ehttpd.Writer.{size_diff}
use ehttpd.ComplexUri.{
  parse_walk, walk, round_in, on_usual, on_slash, on_dot, on_dot_dot, rewind, up, hex_value,
  first_digit, on_quoted, second_digit, on_quoted_second, decode, result,
}
use ehttpd.LineHandler.{
  Allocation, Line, no_text, Left, process, loop, round, on_read, on_got, parse, on_code, on_step,
  copy_target, copy_unparsed_uri, copy_uri, copy_exten, init_headers, on_walk, decoded, on_result,
  mark_line, copied, uri_len, exten_len,
}
use ehttpd.LineHandler.Ends.{Waits, LeftBy, process-LeftBy}

abbrev line : List ℕ → List Answer → List ℕ → Line
line text answers incoming = record {
  session = record {
    mem = from_one text;
    buf = record { pos = 1; last = 1 + length text; start = 1; end = 4097 };
    request = fresh;
    event = record { rready = true; wready = true; eof = false; error = false };
    answers = answers;
    incoming = incoming;
    headers_n = 0;
    headers = [];
    cookies = [];
    known = [];
    read_handler = process_request_line;
    closes = 0;
  };
  target = record {
    unparsed_uri = no_text;
    uri = no_text;
    exten = no_text;
    request_line = record { start = 0; len = 0 };
    method_name = record { start = 0; len = 0 };
  };
}

line-Waits :
    (text : List ℕ) (answers : List Answer) (incoming : List ℕ)
    → Waits 1 (line text answers incoming).session
unfolding of_uint
line-Waits text answers incoming = record {
  ready = record {
    state = sw_start;
    stored = refl;
    unfinished = refl;
    inv = omega arith;
    bounded = omega arith;
  };
  begins = refl;
}

abbrev enough : Allocation → Bool
enough a = true

abbrev request : Line
request = line (codes "GET /a/../") (count 18 ∷ failed eagain ∷ []) (codes "b%20c HTTP/1.1\r\n\r\n")

-- the path that is copied, and the extension
abbrev copies : Option Left → List ℕ × List ℕ
copies none = ([], [])
copies (some e) = (e.line.target.uri.bytes, e.line.target.exten.bytes)

run : List ℕ → List Answer → List ℕ → List ℕ × List ℕ
unfolding process loop round on_read on_got parse on_code on_step copy_target copy_unparsed_uri
    copy_uri copy_exten init_headers on_walk decoded on_result mark_line copied uri_len exten_len
    read_request_header on_recv on_ret store close recv on_received parse_request_line parse_from
    after_scan scan step finish answer recognise of_uint to_uint size_diff cpystrn parse_walk walk
    round_in on_usual on_slash on_dot on_dot_dot rewind up hex_value first_digit on_quoted
    second_digit on_quoted_second decode result
run text answers incoming = copies (process enough (line text answers incoming))

run_complex :
    run (codes "GET /a/../") (count 18 ∷ failed eagain ∷ []) (codes "b%20c HTTP/1.1\r\n\r\n")
    ≡ (codes "/b c" ++ (0 ∷ []), [])
unfolding run
run_complex = refl

run_exten :
    run (codes "GET /a.js HTTP/1.1\n") [] [] ≡ (codes "/a.js" ++ (0 ∷ []), codes "js" ++ (0 ∷ []))
unfolding run
run_exten = refl

-- a path that needs decoding keeps its `?` and what follows
run_query : run (codes "GET /a%20b?x=1 HTTP/1.1\n") [] [] ≡ (codes "/a b?x=1" ++ (0 ∷ []), [])
unfolding run
run_query = refl

process-LeftBy_example : (e : Left) × (process enough request ≡ some e) × LeftBy 1 0 e.ending e.line
process-LeftBy_example = process-LeftBy enough 1 request (
    line-Waits (codes "GET /a/../") (count 18 ∷ failed eagain ∷ [])
      (codes "b%20c HTTP/1.1\r\n\r\n"))
