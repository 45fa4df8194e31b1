-- ===== src/StaticFiles/Tests.antt =====
-- A request for a file at a concrete path.
use ehttpd.Prelude.{ℕ, ◌≡◌, refl, ◌⊎◌, false, Option, none, some, List, [], length, codes, arith}
use ehttpd.Request.{Memory, from_one}
use ehttpd.RequestLine.Method.{http_get}
use ehttpd.ResponseHead.{HeadersOut, Generated, Special}
use ehttpd.StaticFiles.{
  Kind, directory, regular, give, move_to, mime, ends_in, find_type, on_stat, choose, handler,
}
use ehttpd.StaticFiles.Suffixes.{First, find_type-First}
use ehttpd.StaticFiles.Replies.{Sound, handler-Sound}

abbrev path : Memory
path = from_one (codes "/a/b.css")

abbrev all_regular : List ℕ → Option Kind
all_regular name = some regular

abbrev all_directories : List ℕ → Option Kind
all_directories name = some directory

abbrev no_headers : HeadersOut
no_headers = record {
  status = 0;
  status_line = none;
  has_server = false;
  has_content_length = false;
  content_length_n = none;
  content_type = none;
  headers = [];
}

run_type : find_type path 9 mime ≡ some (codes "text/css")
unfolding find_type ends_in
run_type = refl

run_file :
    choose all_regular (codes "/srv") (codes "index.html") path 1 8 ≡ give (codes "/srv/a/b.css")
unfolding choose on_stat
run_file = refl

run_moved :
    choose all_directories (codes "/srv") (codes "index.html") path 1 8
    ≡ move_to (codes "/a/b.css/")
unfolding choose on_stat
run_moved = refl

find_type-First_example : First path 9 mime (find_type path 9 mime)
find_type-First_example = find_type-First path 9 mime (
  (omega arith),
  (
    omega arith,
    (
      omega arith,
      (
        omega arith,
        (
          omega arith,
          (omega arith, (omega arith, (omega arith, (omega arith, (omega arith, tt))))),
        ),
      ),
    ),
  ),
)

handler-Sound_example :
    (r : Special ⊎ (Generated × List ℕ)) × (handler all_regular
        (codes "/srv")
        (codes "index.html")
        path
        1
        8
        (λ n. codes "12")
        length
        http_get
        no_headers
      ≡ some r)
    × Sound all_regular
        (codes "/srv")
        (codes "index.html")
        path
        1
        8
        (λ n. codes "12")
        length
        http_get
        r
handler-Sound_example =
    handler-Sound all_regular (codes "/srv") (codes "index.html") path 1 8 (λ n. codes "12") length
      http_get no_headers
