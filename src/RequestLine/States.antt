-- ===== src/RequestLine/States.antt =====
-- The states of the request line machine, `enum { sw_start = 0, ... } state` in
-- `ehd_http_parse_request_line` of http/ehd_http_parse.c, and the numbers that `r->state` holds.
use ehttpd.Prelude.{ℕ, ◌≡◌, refl, Option, some, List, [], ◌∷◌, get_elem?}

pub data State : Type 0 where
  sw_start sw_method sw_space_after_method sw_spaces_before_uri : State
  sw_schema sw_schema_slash sw_schema_slash_slash sw_host sw_port : State
  sw_after_slash_in_uri sw_check_uri sw_uri : State
  sw_http_09 sw_http_h sw_http_ht sw_http_htt sw_http_http : State
  sw_first_major_digit sw_major_digit sw_first_minor_digit sw_minor_digit : State
  sw_almost_done sw_done : State

-- the enumerator's value
unfoldable pub to_uint : State → ℕ
to_uint sw_start = 0
to_uint sw_method = 1
to_uint sw_space_after_method = 2
to_uint sw_spaces_before_uri = 3
to_uint sw_schema = 4
to_uint sw_schema_slash = 5
to_uint sw_schema_slash_slash = 6
to_uint sw_host = 7
to_uint sw_port = 8
to_uint sw_after_slash_in_uri = 9
to_uint sw_check_uri = 10
to_uint sw_uri = 11
to_uint sw_http_09 = 12
to_uint sw_http_h = 13
to_uint sw_http_ht = 14
to_uint sw_http_htt = 15
to_uint sw_http_http = 16
to_uint sw_first_major_digit = 17
to_uint sw_major_digit = 18
to_uint sw_first_minor_digit = 19
to_uint sw_minor_digit = 20
to_uint sw_almost_done = 21
to_uint sw_done = 22

abbrev states : List State
states =
    sw_start ∷ sw_method ∷ sw_space_after_method ∷ sw_spaces_before_uri ∷ sw_schema
    ∷ sw_schema_slash ∷ sw_schema_slash_slash ∷ sw_host ∷ sw_port ∷ sw_after_slash_in_uri
    ∷ sw_check_uri ∷ sw_uri ∷ sw_http_09 ∷ sw_http_h ∷ sw_http_ht ∷ sw_http_htt ∷ sw_http_http
    ∷ sw_first_major_digit ∷ sw_major_digit ∷ sw_first_minor_digit ∷ sw_minor_digit ∷ sw_almost_done
    ∷ sw_done ∷ []

-- the enumerator with a value, if there is one
unfoldable pub of_uint : ℕ → Option State
of_uint = get_elem? states

pub of_uint-to_uint : (s : State) → of_uint (to_uint s) ≡ some s
unfolding of_uint to_uint
of_uint-to_uint sw_start = refl
of_uint-to_uint sw_method = refl
of_uint-to_uint sw_space_after_method = refl
of_uint-to_uint sw_spaces_before_uri = refl
of_uint-to_uint sw_schema = refl
of_uint-to_uint sw_schema_slash = refl
of_uint-to_uint sw_schema_slash_slash = refl
of_uint-to_uint sw_host = refl
of_uint-to_uint sw_port = refl
of_uint-to_uint sw_after_slash_in_uri = refl
of_uint-to_uint sw_check_uri = refl
of_uint-to_uint sw_uri = refl
of_uint-to_uint sw_http_09 = refl
of_uint-to_uint sw_http_h = refl
of_uint-to_uint sw_http_ht = refl
of_uint-to_uint sw_http_htt = refl
of_uint-to_uint sw_http_http = refl
of_uint-to_uint sw_first_major_digit = refl
of_uint-to_uint sw_major_digit = refl
of_uint-to_uint sw_first_minor_digit = refl
of_uint-to_uint sw_minor_digit = refl
of_uint-to_uint sw_almost_done = refl
of_uint-to_uint sw_done = refl
