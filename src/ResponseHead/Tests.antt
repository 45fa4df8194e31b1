-- ===== src/ResponseHead/Tests.antt =====
-- The heads of responses at concrete inputs.
use ehttpd.Prelude.{
  ℕ, ◌+◌, ◌≤◌, ◌≡◌, refl, inl, inr, true, false, none, some, List, [], ◌++◌, length, codes, arith,
  if◌then◌else◌, ◌==◌,
}
use ehttpd.ResponseHead.{
  HeadersOut, Special, buf_size, crlf, has_room, put_value, put_field, put_fields, push_field,
  push_unless, add_server, add_length, complete, status_text, gen_header, page_index, error_page,
  special_response,
}
use ehttpd.ResponseHead.Bounds.{gen_header-length}
use ehttpd.ResponseHead.Whole.{head_lines, gen_header-lines}
use ehttpd.ResponseHead.Answer.{Answers, special_response-Answers}

abbrev some_decimal : ℕ → List ℕ
some_decimal n = if n == 200 then codes "200" else if n == 404 then codes "404" else codes "12"

abbrev plain : HeadersOut
plain = record {
  status = 200;
  status_line = none;
  has_server = false;
  has_content_length = false;
  content_length_n = some 12;
  content_type = none;
  headers = [];
}

run_plain :
    (gen_header some_decimal plain).text
    ≡ codes "HTTP/1.1 200\r\nServer: ehttpd/0.0.1\r\nContent-Length: 12\r\n\r\n"
unfolding gen_header complete add_server add_length push_unless push_field status_text put_fields
    put_field put_value has_room
run_plain = refl

-- the page that 304 is answered with
run_304 : error_page 304 ≡ some (some 400)
unfolding error_page page_index
run_304 = refl

-- beyond the table
run_430 : error_page 430 ≡ none
unfolding error_page page_index
run_430 = refl

short : length (status_text some_decimal 200 none) ≤ buf_size
unfolding status_text
short = ground arith

short_lines : length (head_lines some_decimal plain) + 2 ≤ buf_size
unfolding status_text complete add_server add_length push_unless push_field
short_lines = ground arith

gen_header-length_example : length (gen_header some_decimal plain).text ≤ buf_size
gen_header-length_example = gen_header-length some_decimal plain short

gen_header-lines_example :
    ((gen_header some_decimal plain).text ≡ head_lines some_decimal plain ++ crlf)
    × ((gen_header some_decimal plain).ok ≡ true)
gen_header-lines_example = gen_header-lines some_decimal plain short_lines

special_response-Answers_example :
    (s : Special) × (special_response some_decimal 404 plain ≡ some s)
    × Answers some_decimal plain 404 s
special_response-Answers_example =
    special_response-Answers some_decimal 404 plain (inr (inl (omega arith, omega arith))) refl refl
