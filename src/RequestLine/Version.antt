-- ===== src/RequestLine/Version.antt =====
-- The cases of the request line machine behind the request target (http/ehd_http_parse.c): the
-- protocol version and the line's end. In every case `i` is the address of `ch`.
use ehttpd.Prelude.{ℕ, ◌+◌, ◌-◌, ◌*◌, ◌%◌, ◌^◌, Bool, ◌||◌, ltb, ◌==◌, if◌then◌else◌}
use ehttpd.Request.{cr, lf, invalid_request, Request}
use ehttpd.RequestLine.States.{
  State, sw_http_09, sw_http_h, sw_major_digit, sw_first_minor_digit, sw_minor_digit,
  sw_almost_done, sw_done,
}
use ehttpd.Scanner.{Outcome, next, refuse}

-- `uint` arithmetic
abbrev pub uint_mod : ℕ
uint_mod = 2 ^ 32

unfoldable pub on_http_09 : Request → ℕ → Outcome State
on_http_09 r ch =
    if ch == b' '
    then next sw_http_09 r
    else if ch == cr
    then next sw_almost_done (record r { http_minor = 9 })
    else if ch == lf
    then next sw_done (record r { http_minor = 9 })
    else if ch == b'H'
    then next sw_http_h r
    else refuse invalid_request r

-- `case sw_http_H` to `case sw_http_HTTP`: one byte, and the state behind it
unfoldable pub on_letter : ℕ → State → Request → ℕ → Outcome State
on_letter want s r ch = if ch == want then next s r else refuse invalid_request r

-- `ch < '0' || ch > '9'`
abbrev pub not_digit : ℕ → Bool
not_digit ch = ltb ch b'0' || ltb b'9' ch

unfoldable pub on_first_major_digit : Request → ℕ → Outcome State
on_first_major_digit r ch =
    if ltb ch b'1' || ltb b'9' ch
    then refuse invalid_request r
    else next sw_major_digit (record r { http_major = ch - b'0' })

unfoldable pub on_major_digit : Request → ℕ → Outcome State
on_major_digit r ch =
    if ch == b'.'
    then next sw_first_minor_digit r
    else if not_digit ch
    then refuse invalid_request r
    else next sw_major_digit (record r { http_major = (r.http_major * 10 + ch - b'0') % uint_mod })

unfoldable pub on_first_minor_digit : Request → ℕ → Outcome State
on_first_minor_digit r ch =
    if not_digit ch
    then refuse invalid_request r
    else next sw_minor_digit (record r { http_minor = ch - b'0' })

unfoldable pub on_minor_digit : Request → ℕ → Outcome State
on_minor_digit r ch =
    if ch == cr
    then next sw_almost_done r
    else if ch == lf
    then next sw_done r
    else if not_digit ch
    then refuse invalid_request r
    else next sw_minor_digit (record r { http_minor = (r.http_minor * 10 + ch - b'0') % uint_mod })

-- `r->request_end = p - 2` comes before the test
unfoldable pub on_almost_done : Request → ℕ → ℕ → Outcome State
on_almost_done r i ch =
    let r' = record r { request_end = i - 1 } in
    if ch == lf then next sw_done r' else refuse invalid_request r'
