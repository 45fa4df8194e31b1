-- ===== src/RequestLine/Target.antt =====
-- The cases of the request line machine for the request target (http/ehd_http_parse.c): the spaces
-- before it, an absolute URI's scheme, host and port, and the path with its arguments.
-- In every case `i` is the address of `ch`, `p - 1` of the source.
use ehttpd.Prelude.{ℕ, ◌+◌, Bool, true, ◌&&◌, ◌||◌, ltb, within, ◌==◌, if◌then◌else◌}
use ehttpd.Request.{cr, lf, null, invalid_request, Request}
use ehttpd.RequestLine.States.{
  State, sw_spaces_before_uri, sw_schema, sw_schema_slash, sw_schema_slash_slash, sw_host, sw_port,
  sw_after_slash_in_uri, sw_check_uri, sw_uri, sw_http_09, sw_almost_done, sw_done,
}
use ehttpd.Scanner.{Outcome, next, refuse}

-- `(ch >= 'A' && ch <= 'Z') || (ch >= 'a' && ch <= 'z')`
abbrev pub is_letter : ℕ → Bool
is_letter ch = within b'A' b'Z' ch || within b'a' b'z' ch

unfoldable pub on_spaces_before_uri : Request → ℕ → ℕ → Outcome State
on_spaces_before_uri r i ch =
    if ch == b'/'
    then next sw_after_slash_in_uri (record r { uri_start = i })
    else if ch == b' '
    then next sw_spaces_before_uri r
    else if is_letter ch
    then next sw_schema (record r { schema_start = i })
    else refuse invalid_request r

unfoldable pub on_schema : Request → ℕ → ℕ → Outcome State
on_schema r i ch =
    if ch == b':'
    then next sw_schema_slash (record r { schema_end = i })
    else if is_letter ch
    then next sw_schema r
    else refuse invalid_request r

unfoldable pub on_schema_slash : Request → ℕ → Outcome State
on_schema_slash r ch = if ch == b'/' then next sw_schema_slash_slash r else refuse invalid_request r

unfoldable pub on_schema_slash_slash : Request → ℕ → ℕ → Outcome State
on_schema_slash_slash r i ch =
    if ch == b'/' then next sw_host (record r { host_start = i }) else refuse invalid_request r

unfoldable pub on_host : Request → ℕ → ℕ → Outcome State
on_host r i ch =
    if ch == b':'
    then next sw_port (record r { host_end = i })
    else if ch == b'/'
    then next sw_after_slash_in_uri (record r { host_end = i; uri_start = i })
    else if is_letter ch || within b'0' b'9' ch || ch == b'.' || ch == b'-'
    then next sw_host r
    else refuse invalid_request r

-- the source's test for a digit is `ch < '0' && ch > '9'`
unfoldable pub on_port : Request → ℕ → ℕ → Outcome State
on_port r i ch =
    if ch == b'/'
    then next sw_after_slash_in_uri (record r { port_end = i; uri_start = i })
    else if ltb ch b'0' && ltb b'9' ch
    then refuse invalid_request r
    else next sw_port r

unfoldable pub on_after_slash_in_uri : Request → ℕ → ℕ → Outcome State
on_after_slash_in_uri r i ch =
    if ch == cr
    then next sw_almost_done (record r { uri_end = i; http_minor = 9 })
    else if ch == lf
    then next sw_done (record r { uri_end = i; http_minor = 9 })
    else if ch == b' '
    then next sw_http_09 (record r { uri_end = i })
    else if ch == b'.' || ch == b'%'
    then next sw_uri (record r { complex_uri = true })
    else if ch == b'/'
    then next sw_after_slash_in_uri (record r { complex_uri = true })
    else if ch == b'?'
    then next sw_uri (record r { args_start = i + 1 })
    else next sw_check_uri r

unfoldable pub on_check_uri : Request → ℕ → ℕ → Outcome State
on_check_uri r i ch =
    if ch == cr
    then next sw_almost_done (record r { uri_end = i; http_minor = 9 })
    else if ch == lf
    then next sw_done (record r { uri_end = i; http_minor = 9 })
    else if ch == b' '
    then next sw_http_09 (record r { uri_end = i })
    else if ch == b'.'
    then next sw_check_uri (record r { uri_ext = i + 1 })
    else if ch == b'/'
    then next sw_after_slash_in_uri (record r { uri_ext = null })
    else if ch == b'%'
    then next sw_uri (record r { complex_uri = true })
    else if ch == b'?'
    then next sw_uri (record r { args_start = i + 1 })
    else next sw_check_uri r

unfoldable pub on_uri : Request → ℕ → ℕ → Outcome State
on_uri r i ch =
    if ch == cr
    then next sw_almost_done (record r { uri_end = i; http_minor = 9 })
    else if ch == lf
    then next sw_done (record r { uri_end = i; http_minor = 9 })
    else if ch == b' '
    then next sw_http_09 (record r { uri_end = i })
    else next sw_uri r
