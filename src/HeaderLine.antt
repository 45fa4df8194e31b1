-- ===== src/HeaderLine.antt =====
-- `ehd_http_parse_header_line` of http/ehd_http_parse.c: the switch, put together from the cases,
-- and what is done before and after the loop.
pub mod Advance
pub mod Found
pub mod Resume
pub mod RoundTrip
pub mod Runs
pub mod States
mod Tests
pub mod Cases
use ehttpd.Prelude.{ℕ, ◌-◌, Bool, true, false, Option, none, some}
use ehttpd.Request.{Memory, Buf, Code, ok, again, header_done, Request, Parsed}
use ehttpd.HeaderLine.Cases.{
  on_start, on_name, on_space_before_value, on_value, on_space_after_value, on_ignore_line,
  on_almost_done, on_header_almost_done,
}
use ehttpd.HeaderLine.States.{
  State, sw_start, sw_name, sw_space_before_value, sw_value, sw_space_after_value, sw_almost_done,
  sw_header_almost_done, sw_ignore_line, sw_done, sw_header_done, to_uint, of_uint,
}
use ehttpd.Scanner.{Outcome, next, Scan, stopped, refused, Machine, scan}

-- `!(state < sw_done)`
abbrev pub is_done : State → Bool
is_done sw_done = true
is_done sw_header_done = true
is_done _ = false

-- `switch (state)`, with `i` the address of `ch`
unfoldable pub step : Memory → State → Request → ℕ → ℕ → Outcome State
unfolding on_start on_name on_space_before_value on_value on_space_after_value on_ignore_line
    on_almost_done on_header_almost_done
step mem sw_start r i ch = on_start r i ch
step mem sw_name r i ch = on_name mem r i ch
step mem sw_space_before_value r i ch = on_space_before_value r i ch
step mem sw_value r i ch = on_value r i ch
step mem sw_space_after_value r i ch = on_space_after_value r ch
step mem sw_ignore_line r i ch = on_ignore_line r ch
step mem sw_almost_done r i ch = on_almost_done r ch
step mem sw_header_almost_done r i ch = on_header_almost_done r ch
step mem sw_done r i ch = next sw_done r
step mem sw_header_done r i ch = next sw_header_done r

abbrev pub machine : Machine
machine = record { State = State; final = is_done; step = step }

-- `r->state` and the code, by the state in which the loop has stopped
abbrev pub stored : State → State
stored sw_done = sw_start
stored sw_header_done = sw_start
stored s = s

abbrev pub answer : State → Code
answer sw_done = ok
answer sw_header_done = header_done
answer _ = again

-- `b->pos = p` and the rest; a return from inside the loop leaves `*b` alone
unfoldable pub after_scan : Buf → Scan State → Parsed
after_scan b (refused c r) = record { code = c; request = r; buf = b }
after_scan b (stopped s r p) = record {
  code = answer s;
  request = record r { state = to_uint (stored s) };
  buf = record b { pos = p };
}

-- With a number in `r->state` that is no enumerator the loop is not entered.
unfoldable pub parse_from : Option State → Memory → Request → Buf → Parsed
parse_from none mem r b = record { code = again; request = r; buf = b }
parse_from (some s) mem r b = after_scan b (scan machine mem (b.last - b.pos) s r b.pos)

unfoldable pub parse_header_line : Memory → Request → Buf → Parsed
parse_header_line mem r b = parse_from (of_uint r.state) mem r b
