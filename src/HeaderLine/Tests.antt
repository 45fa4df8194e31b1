-- ===== src/HeaderLine/Tests.antt =====
-- The header line parser on concrete lines, and its theorems at them.
use ehttpd.Prelude.{ℕ, ◌+◌, ◌≡◌, refl, List, codes, length, arith, ◌-◌}
use ehttpd.Request.{
  Memory, Buf, ok, again, header_done, invalid_header, Parsed, fresh, from_one, bytes,
}
use ehttpd.HeaderLine.{step, after_scan, parse_from, parse_header_line}
use ehttpd.HeaderLine.Cases.{lower, starts_http}
use ehttpd.HeaderLine.Found.{Post, parse_header_line-Post}
use ehttpd.HeaderLine.Resume.{parse_header_line-grow}
use ehttpd.HeaderLine.States.{sw_start, of_uint, to_uint}
use ehttpd.Scanner.{scan}
use ehttpd.Scanner.Cut.{settled, resume, grow}

abbrev header : List ℕ
header = codes "Host:  a b \r\nX-Y: 1\r\n"

abbrev header_memory : Memory
header_memory = from_one header

abbrev whole : List ℕ → Buf
whole text = record { pos = 1; last = 1 + length text; start = 1; end = 4097 }

-- `parse_header_line`, with all that it calls in the open
run : List ℕ → Parsed
unfolding parse_header_line parse_from of_uint to_uint after_scan scan step lower starts_http
run text = parse_header_line (from_one text) fresh (whole text)

abbrev value : List ℕ → List ℕ
value text =
    let r = (run text).request in
    bytes (from_one text) r.header_start (r.header_end - r.header_start)

run_host : ((run header).code ≡ ok) × (value header ≡ codes "a b") × ((run header).buf.pos ≡ 14)
unfolding run
run_host = (refl, refl, refl)

run_errors :
    ((run (codes "\r\n")).code ≡ header_done)
    × ((run (codes "a b: c\n")).code ≡ invalid_header)
    × ((run (codes "Host: x")).code ≡ again)
unfolding run
run_errors = (refl, refl, refl)

parse_header_line-grow_example :
    settled (parse_header_line header_memory fresh (grow 9 (whole (codes "Host:  a b "))))
    ≡ settled (
        resume parse_header_line header_memory 9
          (parse_header_line header_memory fresh (whole (codes "Host:  a b "))))
parse_header_line-grow_example =
    parse_header_line-grow header_memory fresh (whole (codes "Host:  a b ")) 9 (omega arith)

parse_header_line-Post_example :
    let d = parse_header_line header_memory fresh (whole header) in
    Post header_memory (whole header) d.code d.request d.buf
parse_header_line-Post_example = parse_header_line-Post header_memory fresh (whole header) (record {
  state = sw_start;
  known = unfold of_uint in refl;
  unfinished = refl;
  inv = tt;
  bounded = omega arith;
})
