-- ===== src/ComplexUri/Fuel.antt =====
-- The walk ends: every round moves `p` on, or leaves `sw_quoted_second`.
use ehttpd.Prelude.{ℕ, ◌+◌, ◌*◌, ◌≤◌, ◌<◌, ◌≡◌, ◌⊎◌, inl, inr, Option, none, some, List, arith}
use ehttpd.Request.{Memory}
use ehttpd.ComplexUri.{
  State, sw_usual, sw_slash, sw_dot, sw_dot_dot, sw_quoted, sw_quoted_second, Cursor, Round, go,
  refuse, overrun, on_usual, on_slash, on_dot, on_dot_dot, on_quoted, on_quoted_second, up, back_4,
  hex_value, first_digit, second_digit, decode, round_in, then_read,
}

abbrev pub weight : State → ℕ
weight sw_quoted_second = 1
weight _ = 0

-- twice `p`, less the weight, grows
abbrev pub Moves : Cursor → Round → Type 0
Moves c (go c') = (c'.p ≤ c.p + 1) × (2 * c.p + weight c'.state < 2 * c'.p + weight c.state)
Moves c refuse = Unit {0}
Moves c overrun = Unit {0}

module _ (mem : Memory) (c : Cursor) where
  up-Moves : (out : Option (List ℕ)) → Moves c (then_read mem (up c out))
  unfolding up
  up-Moves none = tt
  up-Moves (some out) = ground arith

  decode-Moves :
      (v : ℕ) → c.state ≡ sw_quoted_second → weight c.quoted_state ≡ 0 → Moves c (decode mem c v)
  unfolding decode
  decode-Moves v e w = ground arith

  second_digit-Moves :
      (d : Option ℕ)
      → c.state ≡ sw_quoted_second
      → weight c.quoted_state ≡ 0
      → Moves c (second_digit mem c d)
  unfolding second_digit
  second_digit-Moves none e w = tt
  second_digit-Moves (some v) e w = decode-Moves v e w

  pub round_in-Moves :
      (s : State)
      → c.state ≡ s
      → (weight s ≡ 0) ⊎ (weight c.quoted_state ≡ 0)
      → Moves c (round_in s mem c)
  unfolding round_in on_usual on_slash on_dot on_dot_dot on_quoted on_quoted_second first_digit
      second_digit
  round_in-Moves sw_usual e w = ground arith
  round_in-Moves sw_slash e w = ground arith
  round_in-Moves sw_dot e w = ground arith
  round_in-Moves sw_dot_dot e w = ground (arith, up-Moves (back_4 c.out))
  round_in-Moves sw_quoted e w = ground arith
  round_in-Moves sw_quoted_second e (inl w) = absurd (omega arith)
  round_in-Moves sw_quoted_second e (inr w) = second_digit-Moves (hex_value c.ch) e w
