-- ===== src/RequestLine/Order.antt =====
-- The pointers that the request line machine keeps: in which order they lie, state by state.
use ehttpd.Prelude.{ℕ, ◌+◌, ◌≤◌, ◌<◌, ◌≡◌, ◌⊎◌, arith}
use ehttpd.Request.{Memory, Request}
use ehttpd.RequestLine.{step}
use ehttpd.RequestLine.States.{
  State, sw_start, sw_method, sw_space_after_method, sw_spaces_before_uri, sw_schema,
  sw_schema_slash, sw_schema_slash_slash, sw_host, sw_port, sw_after_slash_in_uri, sw_check_uri,
  sw_uri, sw_done,
}
use ehttpd.Scanner.Invariant.{Keeps}

module _ (base : ℕ) where
  -- nothing of the target is known yet
  abbrev pub NoTarget : Request → Type 0
  NoTarget r = (r.args_start ≡ 0) × (r.uri_ext ≡ 0) × (r.request_end ≡ 0)

  -- the method's word, and something behind it
  abbrev pub HasMethod : Request → ℕ → Type 0
  HasMethod r p = (base ≤ r.request_start) × (r.request_start < r.method_end) × (r.method_end < p)

  -- `uri_ext` and `args_start` are NULL or point into the target, past its first byte; the extension
  -- begins before the `?` of the arguments.
  abbrev pub Marks : Request → ℕ → Type 0
  Marks r end =
      ((r.args_start ≡ 0) ⊎ ((r.uri_start < r.args_start) × (r.args_start ≤ end)))
      × ((r.uri_ext ≡ 0) ⊎ ((r.uri_start < r.uri_ext) × (r.uri_ext ≤ end)))
      × ((r.args_start ≡ 0) ⊎ (r.uri_ext < r.args_start))

  abbrev pub InTarget : Request → ℕ → Type 0
  InTarget r p =
      HasMethod r p × (r.method_end < r.uri_start) × (r.uri_start < p) × (r.request_end ≡ 0)

  -- the target is complete
  abbrev pub HasTarget : Request → ℕ → Type 0
  HasTarget r p =
      HasMethod r p
      × (r.method_end < r.uri_start)
      × (r.uri_start < r.uri_end)
      × (r.uri_end < p)
      × Marks r r.uri_end

  -- what each state knows, with `p` the address of the next byte
  abbrev pub Inv : State → Request → ℕ → Type 0
  Inv sw_start r p = (base ≤ p) × NoTarget r
  Inv sw_method r p = (base ≤ r.request_start) × (r.request_start < p) × NoTarget r
  Inv sw_space_after_method r p = HasMethod r p × NoTarget r
  Inv sw_spaces_before_uri r p = HasMethod r p × NoTarget r
  Inv sw_schema r p = HasMethod r p × NoTarget r
  Inv sw_schema_slash r p = HasMethod r p × NoTarget r
  Inv sw_schema_slash_slash r p = HasMethod r p × NoTarget r
  Inv sw_host r p = HasMethod r p × NoTarget r
  Inv sw_port r p = HasMethod r p × NoTarget r
  Inv sw_after_slash_in_uri r p = InTarget r p × (r.args_start ≡ 0) × (r.uri_ext ≡ 0)
  Inv sw_check_uri r p = InTarget r p × (r.args_start ≡ 0) × Marks r p
  Inv sw_uri r p = InTarget r p × Marks r p
  Inv sw_done r p =
      HasTarget r p × ((r.request_end ≡ 0) ⊎ ((r.uri_end ≤ r.request_end) × (r.request_end < p)))
  Inv _ r p = HasTarget r p × (r.request_end ≡ 0)

  pub step-Inv :
      (mem : Memory) (s : State) (r : Request) (p : ℕ)
      → Inv s r p
      → Keeps Inv (λ _ _. Unit {0}) (p + 1) (step mem s r p (mem p))
  unfolding step
  step-Inv mem sw_start r p h = ground arith
  step-Inv mem sw_method r p h = ground arith
  step-Inv mem _ r p h = ground arith
