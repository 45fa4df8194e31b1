-- ===== src/HeaderLine/Runs.antt =====
-- Runs of the header line machine over the pieces of a well-formed line.
use native.Mathlib.Nat.{zero-add, add-zero, suc-add}
use mathlib.Core.Bool.{true≢false}
use ehttpd.Prelude.{
  ℕ, suc, ◌+◌, ◌≡◌, ◌≢◌, refl, sym, ap, ◌∙◌, ◌⊎◌, true, false, Bool-cases, inl, inr, List, [], ◌∷◌,
  length, All, arith, ◌==◌, if◌then◌else◌,
}
use ehttpd.Request.{Memory, Request, Holds, cr, lf}
use ehttpd.HeaderLine.{is_done, step, machine}
use ehttpd.HeaderLine.Cases.{
  is_name, lower, on_start, on_name, on_space_before_value, on_value, on_space_after_value,
}
use ehttpd.HeaderLine.Found.{in_line}
use ehttpd.HeaderLine.States.{
  State, sw_start, sw_name, sw_space_before_value, sw_value, sw_space_after_value, sw_almost_done,
  sw_done,
}
use ehttpd.Scanner.{next, stopped, scan}
use ehttpd.Scanner.Resume.{scan-byte, scan-final}

abbrev pub IsName : ℕ → Type 0
IsName c = is_name c ≡ true

abbrev pub IsInLine : ℕ → Type 0
IsInLine c = in_line c ≡ true

-- the last one of `c ∷ v`
abbrev pub final_byte : ℕ → List ℕ → ℕ
final_byte c [] = c
final_byte c (d ∷ v) = final_byte d v

-- no space at either end
abbrev pub IsTrimmed : List ℕ → Type 0
IsTrimmed [] = Unit {0}
IsTrimmed (c ∷ v) = (c ≢ b' ') × (final_byte c v ≢ b' ')

-- the state behind a byte of the value
abbrev pub value_state : ℕ → State
value_state c = if c == b' ' then sw_space_after_value else sw_value

-- what the value's bytes leave alone
abbrev pub SameName : Request → Request → Type 0
SameName r r' =
    (r'.header_name_start ≡ r.header_name_start)
    × (r'.header_name_end ≡ r.header_name_end)
    × (r'.header_start ≡ r.header_start)

pub value_state-text : (c : ℕ) → c ≢ b' ' → value_state c ≡ sw_value
value_state-text c n = ground arith

is_name-ends : (is_name cr ≡ false) × (is_name lf ≡ false)
unfolding lower
is_name-ends = (refl, refl)

name-not : (c d : ℕ) → IsName c → is_name d ≡ false → (c == d) ≡ false
name-not c d u n = elim (Bool-cases (c == d)) [
  | inl e ↦ let same : c ≡ d = ground arith in absurd (true≢false (sym u ∙ ap is_name same ∙ n))
  | inr e ↦ e
]

module _ (mem : Memory) where
  on_name-name : (r : Request) (p c : ℕ) → IsName c → step mem sw_name r p c ≡ next sw_name r
  unfolding step on_name
  on_name-name r p c u = ground arith

  scan-name :
      (w : List ℕ) (k : ℕ) (r : Request) (p : ℕ)
      → All IsName w
      → Holds mem p w
      → scan machine mem (length w + k) sw_name r p ≡ scan machine mem k sw_name r (p + length w)
  scan-name [] k r p u h = rw (zero-add, add-zero)
  scan-name (c ∷ w) k r p u h =
      let e : p + suc (length w) ≡ p + 1 + length w = omega arith in
      let f : suc (length w) + k ≡ suc (length w + k) = omega arith in
      rw (e, f)
        (scan-byte machine mem (length w + k) sw_name r p c h.0 refl (on_name-name r p c u.0)
          ∙ scan-name w k r (p + 1) u.1 h.1)

  on_start-name :
      (r : Request) (p c : ℕ)
      → IsName c
      → step mem sw_start r p c ≡ next sw_name (record r { header_name_start = p })
  unfolding step on_start
  on_start-name r p c u =
      rw (name-not c cr u is_name-ends.0) (rw (name-not c lf u is_name-ends.1) (rw u refl))

  -- the name, the colon and the space behind it
  pub scan-key :
      (c : ℕ) (w : List ℕ) (k : ℕ) (r : Request) (p : ℕ)
      → All IsName (c ∷ w)
      → Holds mem p (c ∷ w)
      → mem (p + suc (length w)) ≡ b':'
      → mem (p + suc (length w) + 1) ≡ b' '
      → scan machine mem (suc (length w + suc (suc k))) sw_start r p
        ≡ scan machine mem k sw_space_before_value
            (record r { header_name_start = p; header_name_end = p + suc (length w) })
            (p + suc (length w) + 1 + 1)
  unfolding step lower
  scan-key c w k r p u h colon space =
      let n = suc (length w) in
      let begun = record r { header_name_start = p } in
      let named = record begun { header_name_end = p + n } in
      let at : p + 1 + length w ≡ p + n = omega arith in
      scan-byte machine mem (length w + suc (suc k)) sw_start r p c h.0 refl
        (on_start-name r p c u.0)
      ∙ scan-name w (suc (suc k)) begun (p + 1) u.1 h.1
      ∙ rw at (
          scan-byte machine mem (suc k) sw_name begun (p + n) b':' colon refl refl
          ∙ scan-byte machine mem k sw_space_before_value named (p + n + 1) b' ' space refl refl)

  abbrev pub InValue : State → Type 0
  InValue s = (s ≡ sw_value) ⊎ (s ≡ sw_space_after_value)

  -- a byte of the value
  value-byte :
      (s : State) (r : Request) (p c : ℕ)
      → InValue s
      → IsInLine c
      → (r' : Request) × (step mem s r p c ≡ next (value_state c) r') × SameName r r'
  unfolding step on_value on_space_after_value
  value-byte sw_value r p c i u = elim (Bool-cases (c == b' ')) [
    | inl e ↦ (record r { header_end = p }, ground arith, (refl, refl, refl))
    | inr e ↦ (r, ground arith, (refl, refl, refl))
  ]
  value-byte sw_space_after_value r p c i u = (r, ground arith, (refl, refl, refl))
  value-byte _ r p c i u = ground arith

  InValue-value_state : (c : ℕ) → InValue (value_state c)
  InValue-value_state c = ground arith

  InValue-unfinished : (s : State) → InValue s → is_done s ≡ false
  InValue-unfinished sw_done i = ground arith
  InValue-unfinished _ i = ground arith

  -- the bytes of the value behind its byte `c`
  pub scan-value :
      (c : ℕ) (v : List ℕ) (k : ℕ) (r : Request) (p : ℕ)
      → All IsInLine v
      → Holds mem p v
      → (r' : Request) × (scan machine mem (length v + k) (value_state c) r p
          ≡ scan machine mem k (value_state (final_byte c v)) r' (p + length v))
        × SameName r r'
  scan-value c [] k r p u h = (r, rw (zero-add, add-zero), (refl, refl, refl))
  scan-value c (d ∷ v) k r p u h =
      let s = value_state c in
      let i = InValue-value_state c in
      let (r', e, same) = value-byte s r p d i u.0 in
      let (r'', e', same') = scan-value d v k r' (p + 1) u.1 h.1 in
      let at : p + suc (length v) ≡ p + 1 + length v = omega arith in
      (
        r'',
        rw (at, suc-add)
            (scan-byte machine mem (length v + k) s r p d h.0 (InValue-unfinished s i) e ∙ e'),
        ground arith,
      )

  -- the first byte of the value
  pub first-byte :
      (r : Request) (p c : ℕ)
      → c ≢ b' '
      → IsInLine c
      → step mem sw_space_before_value r p c ≡ next sw_value (record r { header_start = p })
  unfolding step on_space_before_value
  first-byte r p c n u = ground arith

  -- the end of the line behind a value that does not end with a space
  pub scan-end :
      (r : Request) (p : ℕ)
      → Holds mem p (cr ∷ lf ∷ [])
      → scan machine mem 2 sw_value r p ≡ stopped sw_done (record r { header_end = p }) (p + 2)
  unfolding step
  scan-end r p h =
      scan-byte machine mem 1 sw_value r p cr h.0 refl refl
      ∙ scan-byte machine mem 0 sw_almost_done _ _ lf h.1.0 refl refl
      ∙ scan-final machine mem 0 sw_done _ _ refl
      ∙ ground arith
