-- ===== src/RequestLine/Method.antt =====
-- The cases of the request line machine up to the method's end (http/ehd_http_parse.c).
-- In every case `i` is the address of `ch`, `p - 1` of the source.
use ehttpd.Prelude.{ℕ, ◌+◌, ◌-◌, Bool, ◌&&◌, ◌||◌, ltb, ◌==◌, if◌then◌else◌}
use ehttpd.Request.{cr, lf, Memory, invalid_method, Request}
use ehttpd.RequestLine.States.{State, sw_start, sw_method, sw_spaces_before_uri}
use ehttpd.Scanner.{Outcome, next, refuse}

-- `ch < 'A' || ch > 'Z'`
abbrev pub not_upper : ℕ → Bool
not_upper ch = ltb ch b'A' || ltb b'Z' ch

abbrev pub http_get : ℕ
http_get = 1

abbrev pub http_head : ℕ
http_head = 2

abbrev pub http_post : ℕ
http_post = 3

unfoldable pub on_start : Request → ℕ → ℕ → Outcome State
on_start r i ch =
    let r' = record r { request_start = i } in
    if ch == cr || ch == lf
    then next sw_start r'
    else if not_upper ch
    then refuse invalid_method r'
    else next sw_method r'

-- the comparisons with "GET", "POTT" and "HEAD": `r->method` after them
unfoldable pub recognise : Memory → (m end method : ℕ) → ℕ
recognise mem m end method =
    if (end - m) == 3
    then if (mem m == b'G') && (mem (m + 1) == b'E') && (mem (m + 2) == b'T')
      then http_get
      else method
    else if (end - m) == 4
    then if (mem m == b'P')
        && (mem (m + 1) == b'O')
        && (mem (m + 2) == b'T')
        && (mem (m + 3) == b'T')
      then http_post
      else if (mem m == b'H')
          && (mem (m + 1) == b'E')
          && (mem (m + 2) == b'A')
          && (mem (m + 3) == b'D')
      then http_head
      else method
    else method

unfoldable pub on_method : Memory → Request → ℕ → ℕ → Outcome State
on_method mem r i ch =
    if ch == b' '
    then next sw_spaces_before_uri
        (record r { method_end = i; method = recognise mem r.request_start i r.method })
    else if not_upper ch
    then refuse invalid_method r
    else next sw_method r

unfoldable pub on_space_after_method : Request → ℕ → Outcome State
on_space_after_method r ch =
    if ch == b' ' then next sw_spaces_before_uri r else refuse invalid_method r
