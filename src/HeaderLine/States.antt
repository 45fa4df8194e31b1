-- ===== src/HeaderLine/States.antt =====
-- The states of the header line machine, `enum { sw_start = 0, ... } state` in
-- `ehd_http_parse_header_line` of http/ehd_http_parse.c, and the numbers that `r->state` holds.
use ehttpd.Prelude.{ℕ, ◌≡◌, refl, Option, some, List, [], ◌∷◌, get_elem?}

pub data State : Type 0 where
  sw_start sw_name sw_space_before_value sw_value sw_space_after_value : State
  sw_almost_done sw_header_almost_done sw_ignore_line sw_done sw_header_done : State

-- the enumerator's value
unfoldable pub to_uint : State → ℕ
to_uint sw_start = 0
to_uint sw_name = 1
to_uint sw_space_before_value = 2
to_uint sw_value = 3
to_uint sw_space_after_value = 4
to_uint sw_almost_done = 5
to_uint sw_header_almost_done = 6
to_uint sw_ignore_line = 7
to_uint sw_done = 8
to_uint sw_header_done = 9

abbrev states : List State
states =
    sw_start ∷ sw_name ∷ sw_space_before_value ∷ sw_value ∷ sw_space_after_value ∷ sw_almost_done
    ∷ sw_header_almost_done ∷ sw_ignore_line ∷ sw_done ∷ sw_header_done ∷ []

-- the enumerator with a value, if there is one
unfoldable pub of_uint : ℕ → Option State
of_uint = get_elem? states

pub of_uint-to_uint : (s : State) → of_uint (to_uint s) ≡ some s
unfolding of_uint to_uint
of_uint-to_uint sw_start = refl
of_uint-to_uint _ = refl
