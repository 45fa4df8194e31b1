-- ===== src/RequestLine/Simple.antt =====
-- The protocol version, and the check for HTTP/0.9 requests behind the loop.
use native.Mathlib.Decide.{ℕ_discrete}
use ehttpd.Prelude.{ℕ, ◌+◌, ◌*◌, ◌%◌, ◌<◌, ◌≡◌, ◌≢◌, ◌⊎◌, inl, inr, false, arith}
use ehttpd.Request.{Memory, Buf, Code, ok, invalid_09_method, Request}
use ehttpd.RequestLine.{is_done, step, finish, answer, parse_request_line}
use ehttpd.RequestLine.Finished.{IsFinished, parse_request_line-Finished}
use ehttpd.RequestLine.Method.{http_get}
use ehttpd.RequestLine.States.{
  State, sw_start, sw_done, sw_almost_done, sw_major_digit, sw_first_minor_digit, sw_minor_digit,
}
use ehttpd.RequestLine.Version.{uint_mod}
use ehttpd.Scanner.Invariant.{Keeps}

-- no version yet, or a simple request's, or one that has been read
abbrev VersionInv : State → Request → ℕ → Type 0
VersionInv sw_major_digit r p = r.http_major < uint_mod
VersionInv sw_first_minor_digit r p = r.http_major < uint_mod
VersionInv sw_minor_digit r p = r.http_major < uint_mod
VersionInv sw_almost_done r p = r.http_major < uint_mod
VersionInv sw_done r p = r.http_major < uint_mod
VersionInv _ r p = r.http_major ≡ 0

step-VersionInv :
    (mem : Memory) (s : State) (r : Request) (p : ℕ)
    → ((q : ℕ) → mem q < 256)
    → is_done s ≡ false
    → VersionInv s r p
    → Keeps VersionInv (λ _ _. Unit {0}) (p + 1) (step mem s r p (mem p))
unfolding step
step-VersionInv mem sw_start r p m f h = ground arith
step-VersionInv mem _ r p m f h = ground (arith, m p)

-- the one `uint` whose 1001-fold is 9
abbrev pub odd_major : ℕ
odd_major = 1_724_852_001

abbrev pub VersionFound : Code → Request → Type 0
VersionFound c r =
    (r.http_version ≡ (1001 * r.http_major) % uint_mod)
    × (((c ≡ ok) × ((r.http_major ≢ odd_major) ⊎ (r.method ≡ http_get)))
        ⊎ ((c ≡ invalid_09_method) × (r.http_major ≡ odd_major) × (r.method ≢ http_get)))

VersionFound-finish :
    (r : Request) (p : ℕ)
    → r.http_major < uint_mod
    → VersionFound (answer (finish r p)) (finish r p)
unfolding finish answer
VersionFound-finish r p h = (
  omega arith,
  elim (ℕ_discrete r.http_major odd_major) [
    | yes e ↦ elim (ℕ_discrete r.method http_get) [
      | yes g ↦ inl (ground arith, inr g)
      | no g ↦ inr (ground arith, e, g)
    ]
    | no e ↦
        let v : (r.http_major * 1000 + r.http_major) % uint_mod ≢ 9 = omega arith in
        inl (ground arith, inl e)
  ],
)

-- When a call on a fresh request has read the line to its end, the version number is the major
-- version times 1001 modulo 2^32: the minor version does not enter. The refusal of other methods than
-- GET is for the major version 1724852001 alone.
pub parse_request_line-VersionFound :
    (mem : Memory) (r : Request) (b : Buf)
    → ((q : ℕ) → mem q < 256)
    → r.state ≡ 0
    → r.http_major ≡ 0
    → IsFinished (parse_request_line mem r b).code
    → let d = parse_request_line mem r b in VersionFound d.code d.request
parse_request_line-VersionFound mem r b m z v f =
    let done =
      parse_request_line-Finished mem VersionInv (λ s r p. step-VersionInv mem s r p m) r b z v f in
    rw (done.code, done.request) (VersionFound-finish done.left done.end done.holds)
