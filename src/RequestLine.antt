-- ===== src/RequestLine.antt =====
-- `ehd_http_parse_request_line` of http/ehd_http_parse.c: the switch, put together from the cases
-- of the child modules, and what is done before and after the loop.
pub mod Accepts
pub mod Calls
pub mod Finished
pub mod NoVersion
pub mod Order
pub mod Slash
pub mod Resume
pub mod Runs
pub mod Simple
pub mod States
pub mod Method
pub mod Target
mod Tests
pub mod Version
pub mod Word
use ehttpd.Prelude.{
  ℕ, ◌+◌, ◌-◌, ◌*◌, ◌%◌, Bool, true, false, not, ◌&&◌, Option, none, some, ◌==◌, if◌then◌else◌,
}
use ehttpd.Request.{Memory, null, Buf, Code, ok, again, invalid_09_method, Request, Parsed}
use ehttpd.RequestLine.Method.{http_get, on_start, on_method, on_space_after_method}
use ehttpd.RequestLine.States.{
  State, sw_start, sw_method, sw_space_after_method, sw_spaces_before_uri, sw_schema,
  sw_schema_slash, sw_schema_slash_slash, sw_host, sw_port, sw_after_slash_in_uri, sw_check_uri,
  sw_uri, sw_http_09, sw_http_h, sw_http_ht, sw_http_htt, sw_http_http, sw_first_major_digit,
  sw_major_digit, sw_first_minor_digit, sw_minor_digit, sw_almost_done, sw_done, to_uint, of_uint,
}
use ehttpd.RequestLine.Target.{
  on_spaces_before_uri, on_schema, on_schema_slash, on_schema_slash_slash, on_host, on_port,
  on_after_slash_in_uri, on_check_uri, on_uri,
}
use ehttpd.RequestLine.Version.{
  uint_mod, on_http_09, on_letter, on_first_major_digit, on_major_digit, on_first_minor_digit,
  on_minor_digit, on_almost_done,
}
use ehttpd.Scanner.{Outcome, next, refuse, Scan, stopped, refused, Machine, scan}

-- `!(state < sw_done)`
abbrev pub is_done : State → Bool
is_done sw_done = true
is_done _ = false

-- `switch (state)`, with `i` the address of `ch`
unfoldable pub step : Memory → State → Request → ℕ → ℕ → Outcome State
unfolding on_start on_method on_space_after_method on_spaces_before_uri on_schema on_schema_slash
    on_schema_slash_slash on_host on_port on_after_slash_in_uri on_check_uri on_uri on_http_09
    on_letter on_first_major_digit on_major_digit on_first_minor_digit on_minor_digit on_almost_done
step mem sw_start r i ch = on_start r i ch
step mem sw_method r i ch = on_method mem r i ch
step mem sw_space_after_method r i ch = on_space_after_method r ch
step mem sw_spaces_before_uri r i ch = on_spaces_before_uri r i ch
step mem sw_schema r i ch = on_schema r i ch
step mem sw_schema_slash r i ch = on_schema_slash r ch
step mem sw_schema_slash_slash r i ch = on_schema_slash_slash r i ch
step mem sw_host r i ch = on_host r i ch
step mem sw_port r i ch = on_port r i ch
step mem sw_after_slash_in_uri r i ch = on_after_slash_in_uri r i ch
step mem sw_check_uri r i ch = on_check_uri r i ch
step mem sw_uri r i ch = on_uri r i ch
step mem sw_http_09 r i ch = on_http_09 r ch
step mem sw_http_h r i ch = on_letter b'T' sw_http_ht r ch
step mem sw_http_ht r i ch = on_letter b'T' sw_http_htt r ch
step mem sw_http_htt r i ch = on_letter b'P' sw_http_http r ch
step mem sw_http_http r i ch = on_letter b'/' sw_first_major_digit r ch
step mem sw_first_major_digit r i ch = on_first_major_digit r ch
step mem sw_major_digit r i ch = on_major_digit r ch
step mem sw_first_minor_digit r i ch = on_first_minor_digit r ch
step mem sw_minor_digit r i ch = on_minor_digit r ch
step mem sw_almost_done r i ch = on_almost_done r i ch
step mem sw_done r i ch = next sw_done r

abbrev pub machine : Machine
machine = record { State = State; final = is_done; step = step }

-- behind the loop, in state `sw_done`; `http_major` is added where the minor version is meant
unfoldable pub finish : Request → ℕ → Request
finish r p = record r {
  request_end = if r.request_end == null then p - 1 else r.request_end;
  http_version = (r.http_major * 1000 + r.http_major) % uint_mod;
  state = to_uint sw_start;
}

unfoldable pub answer : Request → Code
answer r = if (r.http_version == 9) && not (r.method == http_get) then invalid_09_method else ok

-- `b->pos = p` and the rest; a return from inside the loop leaves `*b` alone
unfoldable pub after_scan : Buf → Scan State → Parsed
after_scan b (refused c r) = record { code = c; request = r; buf = b }
after_scan b (stopped s r p) =
    if is_done s
    then record { code = answer (finish r p); request = finish r p; buf = record b { pos = p } }
    else record {
      code = again;
      request = record r { state = to_uint s };
      buf = record b { pos = p };
    }

-- With a number in `r->state` that is no enumerator the loop is not entered, and the code goes
-- on as if the bytes had run out.
unfoldable pub parse_from : Option State → Memory → Request → Buf → Parsed
parse_from none mem r b = record { code = again; request = r; buf = b }
parse_from (some s) mem r b = after_scan b (scan machine mem (b.last - b.pos) s r b.pos)

unfoldable pub parse_request_line : Memory → Request → Buf → Parsed
parse_request_line mem r b = parse_from (of_uint r.state) mem r b
