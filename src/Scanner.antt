-- ===== src/Scanner.antt =====
-- The loop that the two byte machines of http/ehd_http_parse.c share:
-- `while (p < b->last && state < sw_done) { ch = *p++; switch (state) { ... } }`.
pub mod Commute
pub mod Cut
pub mod Invariant
pub mod Resume
use ehttpd.Prelude.{ℕ, zero, suc, ◌+◌, Bool, true, false}
use ehttpd.Request.{Memory, Code, Request}

-- what one round of the switch does: go on in a state, or return a code from inside
pub data Outcome (S : Type 0) : Type 0 where
  next : S → Request → Outcome S
  refuse : Code → Request → Outcome S

-- how the loop ends: by its test, with `state`, `*r` and `p`, or by a return from inside
pub data Scan (S : Type 0) : Type 0 where
  stopped : S → Request → ℕ → Scan S
  refused : Code → Request → Scan S

-- A machine: `step` is the switch, given `p - 1` and `ch`; `final` says that `state >= sw_done`.
pub record Machine : Type 1 where
  pub State : Type 0
  pub final : State → Bool
  pub step : Memory → State → Request → ℕ → ℕ → Outcome State

module _ (m : Machine) where
  open m use {State, final, step}

  -- the number is `b->last - p`, the bytes that are left
  unfoldable pub scan : Memory → ℕ → State → Request → ℕ → Scan State
  scan mem zero s r p = stopped s r p
  scan mem (suc k) s r p = elim (final s) [
    | true ↦ stopped s r p
    | false ↦ elim (step mem s r p (mem p)) [
      | next s' r' ↦ scan mem k s' r' (p + 1)
      | refuse c r' ↦ refused c r'
    ]
  ]
