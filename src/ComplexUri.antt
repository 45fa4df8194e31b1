-- ===== src/ComplexUri.antt =====
-- `ehd_http_parse_complex_uri` of http/ehd_http_parse.c: it copies the path of the request target
-- to `r->uri.data`, decoding `%XX`, joining slashes and resolving `.` and `..`.
-- The bytes from `r->uri.data` up to `u` are a list, the last one written first: `*u++ = ch` puts a
-- byte in front, `u--` takes one away. No byte at `u` or behind it is read before it is written.
pub mod Kept
mod Tests
pub mod Text
pub mod Fuel
pub mod Safe
use Prim.Native.Nat.{bit_or}
use mathlib.Core.List.{reverse}
use ehttpd.Prelude.{
  ℕ, zero, suc, ◌+◌, ◌-◌, ◌*◌, ◌%◌, Bool, true, false, Option, none, some, List, [], ◌∷◌, ◌++◌,
  length, get_or, ltb, within, ◌==◌, if◌then◌else◌,
}
use ehttpd.Request.{Memory, Code, ok, invalid_request, internal_server_error}
use ehttpd.Strings.{cpystrn}

pub data State : Type 0 where
  sw_usual sw_slash sw_dot sw_dot_dot sw_quoted sw_quoted_second : State

-- the local variables, `uri.data` up to `u`, and `r->uri_ext` as an offset into that
pub record Cursor : Type 0 where
  pub state : State
  pub quoted_state : State
  pub decoded : ℕ
  pub ch : ℕ
  pub p : ℕ
  pub out : List ℕ
  pub ext : Option ℕ

-- how a round of the loop ends; `overrun` is a read or a pointer below `r->uri.data` that the code
-- does not check
pub data Round : Type 0 where
  go : Cursor → Round
  refuse : Round
  overrun : Round

-- `ch = *p++`
abbrev pub read : Memory → Cursor → Cursor
read mem c = record c { ch = mem c.p; p = c.p + 1 }

-- `*u++ = ch`, and the state behind it
abbrev pub put : State → Cursor → Cursor
put s c = record c { state = s; out = c.ch ∷ c.out }

-- `quoted_state = state; state = sw_quoted`
abbrev pub quote : Cursor → Cursor
quote c = record c { quoted_state = c.state; state = sw_quoted }

unfoldable pub on_usual : Cursor → Round
on_usual c =
    if c.ch == b'/'
    then go (put sw_slash (record c { ext = none }))
    else if c.ch == b'%'
    then go (quote c)
    else if c.ch == b'.'
    then go (put sw_usual (record c { ext = some (length c.out + 1) }))
    else go (put sw_usual c)

unfoldable pub on_slash : Cursor → Round
on_slash c =
    if c.ch == b'/'
    then go c
    else if c.ch == b'.'
    then go (put sw_dot c)
    else if c.ch == b'%'
    then go (quote c)
    else go (put sw_usual c)

-- `u--`
abbrev pub back : List ℕ → Option (List ℕ)
back [] = none
back (_ ∷ out) = some out

unfoldable pub on_dot : Cursor → Round
on_dot c =
    if c.ch == b'/'
    then elim (back c.out) [
      | none ↦ overrun
      | some out ↦ go (record c { state = sw_slash; out = out })
    ]
    else if c.ch == b'.'
    then go (put sw_dot_dot c)
    else if c.ch == b'%'
    then go (quote c)
    else go (put sw_usual c)

-- `u -= 4`; `none` if that is below `r->uri.data`
abbrev pub back_4 : List ℕ → Option (List ℕ)
back_4 (_ ∷ _ ∷ _ ∷ _ ∷ out) = some out
back_4 _ = none

-- `while (*(u - 1) != '/') u--`; `none` if there is no byte at `u - 1`
unfoldable pub rewind : List ℕ → Option (List ℕ)
rewind [] = none
rewind (c ∷ out) = if c == b'/' then some (c ∷ out) else rewind out

unfoldable pub up : Cursor → Option (List ℕ) → Round
up c none = refuse
up c (some out) = elim (rewind out) [
  | none ↦ overrun
  | some out' ↦ go (record c { state = sw_slash; out = out' })
]

unfoldable pub on_dot_dot : Cursor → Round
on_dot_dot c =
    if c.ch == b'/'
    then up c (back_4 c.out)
    else if c.ch == b'%'
    then go (quote c)
    else go (put sw_usual c)

-- the value of a hexadecimal digit, as the two tests on `ch` and on `ch | 0x20` find it
unfoldable pub hex_value : ℕ → Option ℕ
hex_value ch =
    if within b'0' b'9' ch
    then some (ch - b'0')
    else let c = bit_or ch 0x20 % 256 in if within b'a' b'f' c then some (c - b'a' + 10) else none

unfoldable pub first_digit : Cursor → Option ℕ → Round
first_digit c none = refuse
first_digit c (some v) = go (record c { decoded = v; state = sw_quoted_second })

unfoldable pub on_quoted : Cursor → Round
on_quoted c = first_digit c (hex_value c.ch)

-- the decoded byte is `ch` now, and is looked at in the state before the `%`; `%25` is written
unfoldable pub decode : Memory → Cursor → ℕ → Round
decode mem c v =
    let d = record c { ch = (c.decoded * 16 + v) % 256 } in
    if d.ch == b'%'
    then go (read mem (put sw_usual d))
    else go (record d { state = d.quoted_state })

unfoldable pub second_digit : Memory → Cursor → Option ℕ → Round
second_digit mem c none = refuse
second_digit mem c (some v) = decode mem c v

unfoldable pub on_quoted_second : Memory → Cursor → Round
on_quoted_second mem c = second_digit mem c (hex_value c.ch)

-- every case but the last one ends by `ch = *p++`
abbrev pub then_read : Memory → Round → Round
then_read mem (go c) = go (read mem c)
then_read mem refuse = refuse
then_read mem overrun = overrun

unfoldable pub round_in : State → Memory → Cursor → Round
round_in sw_usual mem c = then_read mem (on_usual c)
round_in sw_slash mem c = then_read mem (on_slash c)
round_in sw_dot mem c = then_read mem (on_dot c)
round_in sw_dot_dot mem c = then_read mem (on_dot_dot c)
round_in sw_quoted mem c = then_read mem (on_quoted c)
round_in sw_quoted_second mem c = on_quoted_second mem c

abbrev pub round : Memory → Cursor → Round
round mem c = round_in c.state mem c

pub data Walk : Type 0 where
  finished : Cursor → Walk
  refused : Walk
  overran : Walk
  out_of_fuel : Walk

-- `while (p < limit)`, on fuel
unfoldable pub walk : ℕ → Memory → ℕ → Cursor → Walk
walk zero mem limit c = out_of_fuel
walk (suc n) mem limit c = elim (ltb c.p limit) [
  | false ↦ finished c
  | true ↦ elim (round mem c) [ go c' ↦ walk n mem limit c' | refuse ↦ refused | overrun ↦ overran ]
]

-- before the loop, with `ch = *p++` done
abbrev pub begin : Memory → ℕ → Cursor
begin mem uri_start = record {
  state = sw_usual;
  quoted_state = sw_usual;
  decoded = 0;
  ch = mem uri_start;
  p = uri_start + 1;
  out = [];
  ext = none;
}

-- two rounds for each byte, and one to leave the loop
unfoldable pub parse_walk : Memory → (uri_start len : ℕ) → Walk
parse_walk mem uri_start len = walk (2 * len + 2) mem (uri_start + len + 1) (begin mem uri_start)

-- what is left in `*r`: the code, the bytes of `uri` and, where there is one, of `exten`, as
-- `ehd_cpystrn` writes them
pub record Result : Type 0 where
  pub code : Code
  pub uri : List ℕ
  pub exten_len : ℕ
  pub exten : List ℕ

-- the text as memory, from address 0 on, with the NUL that is written behind it
abbrev pub text_memory : List ℕ → Memory
text_memory text a = get_or text a 0

-- behind the loop; the flag says whether `ehd_palloc` gives the memory for `exten`
unfoldable pub result : Bool → Cursor → Result
result pool_ok c =
    let uri = reverse c.out ++ (0 ∷ []) in
    elim c.ext [
      | none ↦ record { code = ok; uri = uri; exten_len = 0; exten = [] }
      | some e ↦
          let n = length c.out - e in
          if pool_ok
          then record {
            code = ok;
            uri = uri;
            exten_len = n;
            exten = cpystrn (text_memory uri) e (n + 1);
          }
          else record { code = internal_server_error; uri = uri; exten_len = n; exten = [] }
    ]
