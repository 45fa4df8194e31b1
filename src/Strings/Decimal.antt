-- ===== src/Strings/Decimal.antt =====
-- `ehd_atoi` and `ehd_cpystrn` against what they compute, told over lists of bytes.
use ehttpd.Prelude.{
  ℕ, zero, suc, ◌+◌, ◌-◌, ◌*◌, ◌%◌, ◌≡◌, refl, ap, Bool, true, false, ◌&&◌, ◌||◌, none, some, List,
  [], ◌∷◌, ◌++◌, within, ltb, ◌==◌, if◌then◌else◌, arith, Bool-cases, inl, inr,
}
use ehttpd.Request.{Memory, bytes}
use ehttpd.Strings.{uint_mod, uint_error, atoi_loop, atoi, cpystrn}

abbrev pub all_digits : List ℕ → Bool
all_digits [] = true
all_digits (c ∷ cs) = within b'0' b'9' c && all_digits cs

-- the number that digits stand for, behind a number that has been read
abbrev pub number : ℕ → List ℕ → ℕ
number v [] = v
number v (c ∷ cs) = number (v * 10 + (c - b'0')) cs

digit_tests : (c : ℕ) → (ltb c b'0' || ltb b'9' c) ≡ (if within b'0' b'9' c then false else true)
digit_tests c = ground arith

atoi_loop-number :
    (mem : Memory) (n v line : ℕ)
    → atoi_loop mem (v % uint_mod) line n ≡ (
        if all_digits (bytes mem line n)
        then some (number v (bytes mem line n) % uint_mod)
        else none)
unfolding atoi_loop
atoi_loop-number mem zero v line = refl
atoi_loop-number mem (suc n) v line = elim (Bool-cases (within b'0' b'9' (mem line))) [
  | inl d ↦
      let value : (v % uint_mod * 10 + (mem line - b'0')) % uint_mod
          ≡ (v * 10 + (mem line - b'0')) % uint_mod =
        omega arith in
      rw (digit_tests (mem line), d)
        (rw value (atoi_loop-number mem n (v * 10 + (mem line - b'0')) (line + 1)))
  | inr d ↦ rw (digit_tests (mem line), d)
]

-- `ehd_atoi` of `n` bytes is the number that they stand for, modulo 2^32, if there is a byte and
-- all are digits; in every other case it is EHD_ERROR as an unsigned number, 2^32 - 1. (So a
-- text for 2^32 - 1 can not be told from an error, and larger numbers wrap round.)
pub atoi-number :
    (mem : Memory) (line n : ℕ)
    → atoi mem line n ≡ (
        if (if n == 0 then false else all_digits (bytes mem line n))
        then number 0 (bytes mem line n) % uint_mod
        else uint_error)
unfolding atoi
atoi-number mem line n = ground (arith, atoi_loop-number mem n 0 line)

abbrev pub until_nul : List ℕ → List ℕ
until_nul [] = []
until_nul (c ∷ cs) = if c == 0 then [] else c ∷ until_nul cs

-- With room for `n + 1` bytes `ehd_cpystrn` writes the bytes before the first NUL of the first `n`,
-- or all of them, and a NUL behind.
pub cpystrn-until_nul :
    (mem : Memory) (src n : ℕ) → cpystrn mem src (suc n) ≡ until_nul (bytes mem src n) ++ (0 ∷ [])
unfolding cpystrn
cpystrn-until_nul mem src zero = refl
cpystrn-until_nul mem src (suc n) = elim (Bool-cases (mem src == 0)) [
  | inl z ↦ ground arith
  | inr z ↦ rw z (ap (λ l. mem src ∷ l) (cpystrn-until_nul mem (src + 1) n))
]
