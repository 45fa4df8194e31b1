-- ===== src/ComplexUri/Tests.antt =====
-- The complex URI parser on concrete paths, and its theorem at one.
use mathlib.Core.List.{reverse}
use ehttpd.Prelude.{ℕ, ◌≡◌, refl, true, Option, none, some, List, [], codes, length, arith}
use ehttpd.Request.{from_one}
use ehttpd.ComplexUri.{
  Walk, finished, on_usual, on_slash, on_dot, on_dot_dot, rewind, up, hex_value, first_digit,
  on_quoted, decode, second_digit, on_quoted_second, round_in, walk, parse_walk, result,
}
use ehttpd.ComplexUri.Safe.{WalkEnds, parse_walk-WalkEnds}
use ehttpd.Strings.{cpystrn}

abbrev path_of : Walk → Option (List ℕ)
path_of (finished c) = some (reverse c.out)
path_of _ = none

-- `parse_walk`, with all that it calls in the open
run : List ℕ → Walk
unfolding parse_walk walk round_in on_usual on_slash on_dot on_dot_dot up rewind hex_value on_quoted
    first_digit on_quoted_second second_digit decode
run text = parse_walk (from_one text) 1 (length text)

run_paths :
    (path_of (run (codes "/a//b/./c/../d%20e%2Fx")) ≡ some (codes "/a/b/d e/x"))
    × (path_of (run (codes "/a/../../b")) ≡ none)
    × (path_of (run (codes "/%2e%2E/b")) ≡ none)
    × (path_of (run (codes "/a%zz")) ≡ none)
unfolding run
run_paths = (refl, refl, refl, refl)

-- a parent that ends the path is left as it stands, and so is an escape that is cut off
run_ends :
    (path_of (run (codes "/a/..")) ≡ some (codes "/a/.."))
    × (path_of (run (codes "/a%4")) ≡ some (codes "/a"))
unfolding run
run_ends = (refl, refl)

abbrev extension_of : Walk → List ℕ
extension_of (finished c) = (result true c).exten
extension_of _ = []

run_extension : extension_of (run (codes "//a.tar.gz")) ≡ codes "gz\0"
unfolding run result cpystrn
run_extension = refl

parse_walk-WalkEnds_example : WalkEnds 1 16 (parse_walk (from_one (codes "/a//b/../c%2e.d")) 1 14)
parse_walk-WalkEnds_example =
    parse_walk-WalkEnds (from_one (codes "/a//b/../c%2e.d")) 1 14 refl (omega arith)
