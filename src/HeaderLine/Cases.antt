-- ===== src/HeaderLine/Cases.antt =====
-- The cases of the header line machine (http/ehd_http_parse.c). In every case `i` is the address
-- of `ch`, `p - 1` of the source.
use Prim.Native.Nat.{bit_or}
use ehttpd.Prelude.{ℕ, ◌+◌, ◌-◌, ◌%◌, Bool, ◌&&◌, ◌||◌, within, ◌==◌, if◌then◌else◌}
use ehttpd.Request.{cr, lf, Memory, invalid_header, Request}
use ehttpd.HeaderLine.States.{
  State, sw_start, sw_name, sw_space_before_value, sw_value, sw_space_after_value, sw_almost_done,
  sw_header_almost_done, sw_ignore_line, sw_done, sw_header_done,
}
use ehttpd.Scanner.{Outcome, next, refuse}

-- `c = (u_char) (ch | 0x20)`
unfoldable pub lower : ℕ → ℕ
lower ch = bit_or ch 0x20 % 256

-- the tests that a byte of a name passes: a letter, `-`, `_`, `~`, `.` or a digit
abbrev pub is_name : ℕ → Bool
is_name ch =
    within b'a' b'z' (lower ch)
    || (ch == b'-' || ch == b'_' || ch == b'~' || ch == b'.')
    || within b'0' b'9' ch

unfoldable pub on_start : Request → ℕ → ℕ → Outcome State
on_start r i ch =
    if ch == cr
    then next sw_header_almost_done (record r { header_end = i })
    else if ch == lf
    then next sw_header_done (record r { header_end = i })
    else let r' = record r { header_name_start = i } in
      if is_name ch then next sw_name r' else refuse invalid_header r'

-- `strncmp((const char *) r->header_start, "HTTP", 4) == 0`
unfoldable pub starts_http : Memory → ℕ → Bool
starts_http mem a =
    (mem a == b'H') && (mem (a + 1) == b'T') && (mem (a + 2) == b'T') && (mem (a + 3) == b'P')

unfoldable pub on_name : Memory → Request → ℕ → ℕ → Outcome State
on_name mem r i ch =
    if within b'a' b'z' (lower ch)
    then next sw_name r
    else if ch == b':'
    then next sw_space_before_value (record r { header_name_end = i })
    else if ch == b'-' || ch == b'_' || ch == b'~' || ch == b'.'
    then next sw_name r
    else if within b'0' b'9' ch
    then next sw_name r
    else if (ch == b'/')
        && r.proxy
        && ((i + 1 - r.header_start) == 5)
        && starts_http mem r.header_start
    then next sw_ignore_line r
    else refuse invalid_header r

unfoldable pub on_space_before_value : Request → ℕ → ℕ → Outcome State
on_space_before_value r i ch =
    if ch == b' '
    then next sw_space_before_value r
    else if ch == cr
    then next sw_almost_done (record r { header_start = i; header_end = i })
    else if ch == lf
    then next sw_done (record r { header_start = i; header_end = i })
    else next sw_value (record r { header_start = i })

unfoldable pub on_value : Request → ℕ → ℕ → Outcome State
on_value r i ch =
    if ch == b' '
    then next sw_space_after_value (record r { header_end = i })
    else if ch == cr
    then next sw_almost_done (record r { header_end = i })
    else if ch == lf
    then next sw_done (record r { header_end = i })
    else next sw_value r

unfoldable pub on_space_after_value : Request → ℕ → Outcome State
on_space_after_value r ch =
    if ch == b' '
    then next sw_space_after_value r
    else if ch == cr
    then next sw_almost_done r
    else if ch == lf
    then next sw_done r
    else next sw_value r

unfoldable pub on_ignore_line : Request → ℕ → Outcome State
on_ignore_line r ch = if ch == lf then next sw_start r else next sw_ignore_line r

unfoldable pub on_almost_done : Request → ℕ → Outcome State
on_almost_done r ch = if ch == lf then next sw_done r else refuse invalid_header r

unfoldable pub on_header_almost_done : Request → ℕ → Outcome State
on_header_almost_done r ch = if ch == lf then next sw_header_done r else refuse invalid_header r
