-- ===== src/Scanner/Cut.antt =====
-- Input that arrives in pieces: what the two parsers of http/ehd_http_parse.c have in common when
-- they are called again after EHD_AGAIN.
use ehttpd.Prelude.{ℕ, ◌+◌, ◌≡◌, Bool, true, false, if◌then◌else◌}
use ehttpd.Request.{
  Memory, Buf, Code, again, invalid_method, invalid_request, invalid_header, Request, Parsed,
}

abbrev pub with_state : ℕ → Request → Request
with_state x r = record r { state = x }

-- `recv` has put `n` more bytes behind `b->last`.
abbrev pub grow : ℕ → Buf → Buf
grow n b = record b { last = b.last + n }

-- the codes that are returned from inside the loop
abbrev pub is_refusal : Code → Bool
is_refusal invalid_method = true
is_refusal invalid_request = true
is_refusal invalid_header = true
is_refusal _ = false

abbrev pub Refuses : Code → Request → Type 0
Refuses c r = is_refusal c ≡ true

-- The source leaves `r->state` and `b->pos` as they were when it refuses, so they depend on how the
-- bytes were cut. All else does not.
unfoldable pub settled : Parsed → Parsed
settled d =
    if is_refusal d.code
    then record d { request = with_state 0 d.request; buf = record d.buf { pos = 0 } }
    else d

-- the caller's loop around a parser: on EHD_AGAIN receive `n` bytes and parse again
unfoldable pub resume : (Memory → Request → Buf → Parsed) → Memory → ℕ → Parsed → Parsed
resume parse mem n d = elim d.code [
  | again ↦ parse mem d.request (grow n d.buf)
  | _ ↦ record d { buf = grow n d.buf }
]
