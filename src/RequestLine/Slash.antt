-- ===== src/RequestLine/Slash.antt =====
-- What a call of the request line parser leaves for those who copy the target: its first byte is a
-- slash, there is a byte before the `?`, and the parser is set for the header lines.
use ehttpd.Prelude.{ℕ, ◌+◌, ◌-◌, ◌≤◌, ◌<◌, ◌≡◌, ◌⊎◌, inl, inr, refl, Bool-cases, true, some, arith}
use ehttpd.Request.{Memory, Buf, Code, ok, again, Request}
use ehttpd.RequestLine.{
  is_done, step, machine, finish, answer, after_scan, parse_from, parse_request_line,
}
use ehttpd.RequestLine.States.{
  State, sw_start, sw_method, sw_space_after_method, sw_spaces_before_uri, sw_schema,
  sw_schema_slash, sw_schema_slash_slash, sw_host, sw_port, sw_done, to_uint, of_uint,
  of_uint-to_uint,
}
use ehttpd.Scanner.{Scan, stopped, refused}
use ehttpd.Scanner.Invariant.{Keeps, Ends, scan_inv}
use ehttpd.Scanner.Cut.{is_refusal, Refuses}
use ehttpd.RequestLine.Resume.{scan-Refuses}

-- the target, as far as it has been read, before address `p`
abbrev pub HasSlash : Memory → Request → ℕ → Type 0
HasSlash mem r p =
    (mem r.uri_start ≡ b'/')
    × (r.uri_start < p)
    × ((r.args_start ≡ 0) ⊎ ((r.uri_start + 1 < r.args_start) × (r.args_start ≤ p)))

abbrev pub Begins : Memory → State → Request → ℕ → Type 0
Begins mem sw_start r p = r.args_start ≡ 0
Begins mem sw_method r p = r.args_start ≡ 0
Begins mem sw_space_after_method r p = r.args_start ≡ 0
Begins mem sw_spaces_before_uri r p = r.args_start ≡ 0
Begins mem sw_schema r p = r.args_start ≡ 0
Begins mem sw_schema_slash r p = r.args_start ≡ 0
Begins mem sw_schema_slash_slash r p = r.args_start ≡ 0
Begins mem sw_host r p = r.args_start ≡ 0
Begins mem sw_port r p = r.args_start ≡ 0
Begins mem s r p = HasSlash mem r p

step-Begins :
    (mem : Memory) (s : State) (r : Request) (p : ℕ)
    → Begins mem s r p
    → Keeps (Begins mem) (λ _ _. Unit {0}) (p + 1) (step mem s r p (mem p))
unfolding step
step-Begins mem sw_start r p h = ground arith
step-Begins mem _ r p h = ground arith

-- the target of a line that has been read, and where the next call starts
abbrev pub Complete : Memory → Request → Type 0
Complete mem r =
    (mem r.uri_start ≡ b'/')
    × ((r.args_start ≡ 0) ⊎ (r.uri_start + 1 < r.args_start))
    × (r.state ≡ 0)

abbrev pub Leaves : Memory → Buf → Code → Request → Buf → Type 0
Leaves mem b ok r b' = Complete mem r × (b'.last ≡ b.last)
Leaves mem b again r b' =
    ((s : State) × (of_uint r.state ≡ some s) × Begins mem s r b'.pos) × (b'.last ≡ b.last)
Leaves mem b _ r b' = b'.last ≡ b.last

Leaves-refused :
    (mem : Memory) (b : Buf) (c : Code) (r : Request) → is_refusal c ≡ true → Leaves mem b c r b
Leaves-refused mem b ok r q = cc
Leaves-refused mem b again r q = cc
Leaves-refused mem b _ r q = refl

HasSlash-done :
    (mem : Memory) (s : State) (r : Request) (p : ℕ)
    → is_done s ≡ true
    → Begins mem s r p
    → HasSlash mem r p
HasSlash-done mem sw_done r p d h = h
HasSlash-done mem _ r p d h = cc

Begins-with_state :
    (mem : Memory) (x : ℕ) (s : State) (r : Request) (p : ℕ)
    → Begins mem s r p
    → Begins mem s (record r { state = x }) p
Begins-with_state mem x sw_start r p h = h
Begins-with_state mem x _ r p h = h

after_scan-Leaves :
    (mem : Memory) (b : Buf) (o : Scan State)
    → Ends (Begins mem) (λ _ _. Unit {0}) o
    → Ends (λ _ _ _. Unit {0}) Refuses o
    → let d = after_scan b o in Leaves mem b d.code d.request d.buf
unfolding after_scan
after_scan-Leaves mem b (refused c r) h q = Leaves-refused mem b c r q
after_scan-Leaves mem b (stopped s r p) h q = elim (Bool-cases (is_done s)) [
  | inl d ↦ rw d (finished (HasSlash-done mem s r p d h))
  | inr d ↦ rw d ((s, of_uint-to_uint s, Begins-with_state mem (to_uint s) s r p h), refl)
]
  where
    finished :
        HasSlash mem r p → Leaves mem b (answer (finish r p)) (finish r p) (record b { pos = p })
    finished h = unfold answer finish to_uint in ground arith

pub parse_request_line-Leaves :
    (mem : Memory) (r : Request) (b : Buf) (s : State)
    → of_uint r.state ≡ some s
    → Begins mem s r b.pos
    → let d = parse_request_line mem r b in Leaves mem b d.code d.request d.buf
unfolding parse_request_line parse_from
parse_request_line-Leaves mem r b s e h =
    rw (e, parse_from)
      (after_scan-Leaves mem b _
        (scan_inv machine mem (Begins mem) (λ _ _. Unit {0}) (λ s r p f. step-Begins mem s r p)
          (b.last - b.pos) s r b.pos h)
        (scan-Refuses mem (b.last - b.pos) s r b.pos))

-- what has been read does not depend on the memory behind it
pub Begins-Agree :
    (mem mem' : Memory) (s : State) (r : Request) (p : ℕ)
    → ((k : ℕ) → k < p → mem' k ≡ mem k)
    → Begins mem s r p
    → Begins mem' s r p
Begins-Agree mem mem' sw_start r p a h = h
Begins-Agree mem mem' _ r p a h = ground (arith, a r.uri_start)
