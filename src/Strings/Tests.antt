-- ===== src/Strings/Tests.antt =====
-- The string helpers on concrete texts, and their theorems at them.
use ehttpd.Prelude.{◌≡◌, refl, if◌then◌else◌, codes, ◌++◌, [], ◌∷◌, ◌%◌}
use ehttpd.Request.{bytes, from_one}
use ehttpd.Strings.{uint_mod, uint_error, atoi, atoi_loop, cpystrn}
use ehttpd.Strings.Decimal.{all_digits, number, until_nul, atoi-number, cpystrn-until_nul}

atoi_2018 : atoi (from_one (codes "2018")) 1 4 ≡ 2018
unfolding atoi atoi_loop
atoi_2018 = refl

-- a number that does not fit wraps round
atoi_wraps : atoi (from_one (codes "4294967297")) 1 10 ≡ 1
unfolding atoi atoi_loop
atoi_wraps = refl

atoi-number_example : atoi (from_one (codes "12a")) 1 3 ≡ (
    if all_digits (bytes (from_one (codes "12a")) 1 3)
    then number 0 (bytes (from_one (codes "12a")) 1 3) % uint_mod
    else uint_error)
atoi-number_example = atoi-number (from_one (codes "12a")) 1 3

cpystrn-until_nul_example :
    cpystrn (from_one (codes "/index")) 1 4
    ≡ until_nul (bytes (from_one (codes "/index")) 1 3) ++ (0 ∷ [])
cpystrn-until_nul_example = cpystrn-until_nul (from_one (codes "/index")) 1 3
