-- ===== src/Strings.antt =====
-- core/ehd_string.c: `ehd_atoi` and `ehd_cpystrn`.
pub mod Decimal
mod Tests
use ehttpd.Prelude.{
  ℕ, zero, suc, ◌+◌, ◌-◌, ◌*◌, ◌%◌, ◌^◌, ◌||◌, Option, none, some, List, [], ◌∷◌, ltb, ◌==◌,
  if◌then◌else◌,
}
use ehttpd.Request.{Memory}

abbrev pub uint_mod : ℕ
uint_mod = 2 ^ 32

-- `return EHD_ERROR` from a function whose result is a `uint`: -1 as an unsigned number
abbrev pub uint_error : ℕ
uint_error = uint_mod - 1

-- the loop, with `n` bytes left at `line`; `none` is the return from inside it
unfoldable pub atoi_loop : Memory → ℕ → ℕ → ℕ → Option ℕ
atoi_loop mem value line zero = some value
atoi_loop mem value line (suc n) =
    let rest = atoi_loop mem ((value * 10 + (mem line - b'0')) % uint_mod) (line + 1) n in
    if ltb (mem line) b'0' || ltb b'9' (mem line) then none else rest

-- `value < 0` is false of a `uint`
unfoldable pub atoi : Memory → ℕ → ℕ → ℕ
atoi mem line n =
    if n == 0
    then uint_error
    else elim (atoi_loop mem 0 line n) [ none ↦ uint_error | some value ↦ value ]

-- The bytes that are written to `dst`. With `n` below 2 nothing is read.
unfoldable pub cpystrn : Memory → (src n : ℕ) → List ℕ
cpystrn mem src zero = []
cpystrn mem src (suc zero) = 0 ∷ []
cpystrn mem src (suc (suc n)) =
    let rest = cpystrn mem (src + 1) (suc n) in mem src ∷ (if mem src == 0 then [] else rest)
