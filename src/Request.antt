-- ===== src/Request.antt =====
-- `ehd_http_request_t` as the parsers of http/ehd_http_parse.c see it, and `ehd_buf_t`.
-- Pointers are addresses: natural numbers, with NULL = 0. Memory maps an address to its byte.
use native.Mathlib.Nat.{add-zero}
use native.Mathlib.Decide.{dec_lt}
use ehttpd.Prelude.{
  ℕ, zero, suc, ◌+◌, ◌≤◌, ◌<◌, ◌≡◌, Bool, true, false, List, [], ◌∷◌, ◌++◌, length, All, get_or,
  arith,
}

abbrev pub Memory : Type 0
Memory = ℕ → ℕ

abbrev pub null : ℕ
null = 0

-- the bytes that end a line (core/ehd_core.h)
abbrev pub cr : ℕ
cr = 13

abbrev pub lf : ℕ
lf = 10

-- core/ehd_buf.h; the fields for file buffers are not used by the parsers
pub record Buf : Type 0 where
  pub pos : ℕ
  pub last : ℕ
  pub start : ℕ
  pub end : ℕ

-- the return codes of core/ehd_core.h and http/ehd_http_request.h
pub data Code : Type 0 where
  ok error again : Code
  invalid_method invalid_request invalid_09_method invalid_header header_done : Code
  internal_server_error : Code

-- the fields of `ehd_http_request_t` under "used to parse http headers", and those that the
-- request line sets
pub record Request : Type 0 where
  pub method : ℕ
  pub http_version : ℕ
  pub http_major : ℕ
  pub http_minor : ℕ
  pub state : ℕ
  pub request_start : ℕ
  pub method_end : ℕ
  pub uri_start : ℕ
  pub schema_start : ℕ
  pub schema_end : ℕ
  pub host_start : ℕ
  pub host_end : ℕ
  pub port_end : ℕ
  pub uri_end : ℕ
  pub args_start : ℕ
  pub uri_ext : ℕ
  pub request_end : ℕ
  pub header_end : ℕ
  pub header_name_start : ℕ
  pub header_name_end : ℕ
  pub proxy : Bool
  pub complex_uri : Bool
  pub header_start : ℕ

-- what a parser leaves: its return code, and what it has written to `*r` and `*b`
pub record Parsed : Type 0 where
  pub code : Code
  pub request : Request
  pub buf : Buf

-- the bytes from address `p` on, `n` of them
abbrev pub bytes : Memory → ℕ → ℕ → List ℕ
bytes mem p zero = []
bytes mem p (suc n) = mem p ∷ bytes mem (p + 1) n

-- these bytes stand in memory from address `p` on
abbrev pub Holds : Memory → ℕ → List ℕ → Type 0
Holds mem p [] = Unit {0}
Holds mem p (c ∷ cs) = (mem p ≡ c) × Holds mem (p + 1) cs

pub Holds-append :
    (mem : Memory) (p : ℕ) (xs ys : List ℕ)
    → Holds mem p (xs ++ ys)
    → Holds mem p xs × Holds mem (p + length xs) ys
Holds-append mem p [] ys h = (tt, rw add-zero h)
Holds-append mem p (x ∷ xs) ys h =
    let (hx, hy) = Holds-append mem (p + 1) xs ys h.1 in
    let e : p + suc (length xs) ≡ p + 1 + length xs = omega arith in ((h.0, hx), rw e hy)

-- every byte from one address up to another passes a test
abbrev pub Every : (ℕ → Bool) → Memory → ℕ → ℕ → Type 0
Every test mem from to = (k : ℕ) → from ≤ k → k < to → test (mem k) ≡ true

module _ (test : ℕ → Bool) (mem : Memory) where
  pub Every-nil : (p : ℕ) → Every test mem p p
  Every-nil p k from to = absurd (omega arith)

  pub Every-one : (p : ℕ) → test (mem p) ≡ true → Every test mem p (p + 1)
  Every-one p u k from to = let e : k ≡ p = omega arith in rw e u

  pub Every-suc : (a p : ℕ) → Every test mem a p → test (mem p) ≡ true → Every test mem a (p + 1)
  Every-suc a p h u k from to = elim (dec_lt k p) [
    | yes l ↦ h k from l
    | no l ↦ let e : k ≡ p = omega arith in rw e u
  ]

-- a request as `bzero` leaves it, and memory that holds a text from address 1 on
abbrev pub fresh : Request
fresh = record {
  method = 0;
  http_version = 0;
  http_major = 0;
  http_minor = 0;
  state = 0;
  request_start = null;
  method_end = null;
  uri_start = null;
  schema_start = null;
  schema_end = null;
  host_start = null;
  host_end = null;
  port_end = null;
  uri_end = null;
  args_start = null;
  uri_ext = null;
  request_end = null;
  header_end = null;
  header_name_start = null;
  header_name_end = null;
  proxy = false;
  complex_uri = false;
  header_start = null;
}

abbrev pub from_one : List ℕ → Memory
from_one text zero = 0
from_one text (suc a) = get_or text a 0

get_or-lt : (n : ℕ) (text : List ℕ) (a : ℕ) → 0 < n → All (λ c. c < n) text → get_or text a 0 < n
get_or-lt n [] a z h = z
get_or-lt n (c ∷ text) zero z h = h.0
get_or-lt n (c ∷ text) (suc a) z h = get_or-lt n text a z h.1

pub from_one-lt :
    (n : ℕ) (text : List ℕ) (a : ℕ) → 0 < n → All (λ c. c < n) text → from_one text a < n
from_one-lt n text zero z h = z
from_one-lt n text (suc a) z h = get_or-lt n text a z h
