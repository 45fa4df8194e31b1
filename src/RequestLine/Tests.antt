-- ===== src/RequestLine/Tests.antt =====
-- The request line parser on concrete lines, and its theorems at them.
use ehttpd.Prelude.{ℕ, ◌≡◌, refl, inl, List, codes, length, arith, ◌+◌}
use ehttpd.Request.{
  Memory, Buf, ok, again, invalid_method, invalid_request, Parsed, fresh, from_one,
}
use ehttpd.RequestLine.{step, finish, answer, after_scan, parse_from, parse_request_line}
use ehttpd.RequestLine.Accepts.{Found, parse_request_line-request_line}
use ehttpd.RequestLine.Calls.{Post, parse_request_line-Post}
use ehttpd.RequestLine.Method.{recognise}
use ehttpd.RequestLine.Resume.{parse_request_line-grow}
use ehttpd.RequestLine.Runs.{request_line}
use ehttpd.RequestLine.NoVersion.{simple_line, SimpleFound, parse_request_line-simple_line}
use ehttpd.RequestLine.States.{sw_start, of_uint, to_uint}
use ehttpd.RequestLine.Word.{WordFound, parse_request_line-WordFound}
use ehttpd.Scanner.{scan}
use ehttpd.Scanner.Cut.{settled, resume, grow}

abbrev get_line : List ℕ
get_line = request_line (codes "GET") (codes "a/b.html?x=1") b'1'

abbrev get_memory : Memory
get_memory = from_one get_line

abbrev whole : List ℕ → Buf
whole text = record { pos = 1; last = 1 + length text; start = 1; end = 4097 }

-- `parse_request_line`, with all that it calls in the open
run : List ℕ → Parsed
unfolding parse_request_line parse_from of_uint to_uint after_scan scan step finish answer recognise
run text = parse_request_line (from_one text) fresh (whole text)

run_get : (run get_line).code ≡ ok
unfolding run
run_get = refl

run_post : (run (request_line (codes "POST") (codes "form") b'1')).request.method ≡ 0
unfolding run
run_post = refl

run_simple : (run (codes "PUT /x\n")).code ≡ ok
unfolding run
run_simple = refl

run_errors :
    ((run (codes "get / HTTP/1.1")).code ≡ invalid_method)
    × ((run (codes "GET x:/ HTTP/1.1")).code ≡ invalid_request)
    × ((run (codes "GET / HTTP")).code ≡ again)
unfolding run
run_errors = (refl, refl, refl)

-- every byte but a slash passes for a digit of the port
run_port : (run (codes "GET http://a:b c/ HTTP/1.1\n")).code ≡ ok
unfolding run
run_port = refl

parse_request_line-grow_example :
    settled (parse_request_line get_memory fresh (grow 20 (whole (codes "GET /a/"))))
    ≡ settled (
        resume parse_request_line get_memory 20
          (parse_request_line get_memory fresh (whole (codes "GET /a/"))))
parse_request_line-grow_example =
    parse_request_line-grow get_memory fresh (whole (codes "GET /a/")) 20 (omega arith)

parse_request_line-Post_example :
    let d = parse_request_line get_memory fresh (whole get_line) in
    Post 1 (whole get_line) d.code d.request d.buf
parse_request_line-Post_example =
    parse_request_line-Post 1 get_memory fresh (whole get_line) (record {
      state = sw_start;
      stored = unfold of_uint in refl;
      unfinished = refl;
      inv = omega arith;
      bounded = omega arith;
    })

parse_request_line-WordFound_example :
    WordFound get_memory (parse_request_line get_memory fresh (whole get_line)).request
unfolding parse_request_line run
parse_request_line-WordFound_example =
    parse_request_line-WordFound get_memory fresh (whole get_line) refl refl (inl run_get)

parse_request_line-request_line_example :
    Found get_memory fresh 1
      (codes "GET")
      (codes "a/b.html?x=1")
      b'1'
      (parse_request_line get_memory fresh (whole get_line))
parse_request_line-request_line_example =
    parse_request_line-request_line get_memory (codes "GET") (codes "a/b.html?x=1") b'1' 0 fresh
      (whole get_line) (λ e. cc) (ground arith) (ground arith) refl (omega arith) refl refl

abbrev post_line : List ℕ
post_line = simple_line (codes "POST") (codes "a")

parse_request_line-simple_line_example :
    SimpleFound
      (from_one post_line)
      fresh
      1
      (codes "POST")
      (codes "a")
      (parse_request_line (from_one post_line) fresh (whole post_line))
parse_request_line-simple_line_example =
    parse_request_line-simple_line (from_one post_line) (codes "POST") (codes "a") 0 fresh
      (whole post_line) (λ e. cc) (ground arith) (ground arith) (ground arith) (omega arith) refl
      refl
