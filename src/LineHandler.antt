-- ===== src/LineHandler.antt =====
-- `ehd_http_process_request_line` of http/ehd_http_request.c: the read handler of a new request. It
-- reads and parses the request line, copies the target, and hands over to the handler of headers.
-- The connection is the `Session` of Headers, where reading is modelled too.
pub mod Copies
pub mod Ends
pub mod Whole
mod Tests
use mathlib.Core.List.{reverse}
use ehttpd.Prelude.{
  ℕ, zero, suc, ◌+◌, ◌-◌, ◌*◌, Bool, true, false, Option, none, some, List, [], ◌∷◌, length, leb,
  ◌==◌, if◌then◌else◌,
}
use ehttpd.Request.{Memory, null, Buf, Code, ok, again, Request, Parsed}
use ehttpd.RequestLine.{parse_request_line}
use ehttpd.ComplexUri.{
  Cursor, Walk, finished, refused, overran, out_of_fuel, parse_walk, Result, result,
}
use ehttpd.Strings.{cpystrn}
use ehttpd.Writer.{size_diff}
use ehttpd.Headers.{
  Session, close, store, Got, got, got_again, got_error, lost, Read, read_request_header,
  process_request_headers, total,
}
use ehttpd.Headers

-- a text that was copied to the pool: what `ehd_palloc` was asked for, kept for the record, its `len`,
-- and the bytes written, with the NUL behind
pub record Text : Type 0 where
  pub room : ℕ
  pub len : ℕ
  pub bytes : List ℕ

abbrev pub no_text : Text
no_text = record { room = 0; len = 0; bytes = [] }

-- a part of the buffer
pub record Slice : Type 0 where
  pub start : ℕ
  pub len : ℕ

-- the fields of `ehd_http_request_t` that the handler fills in
pub record Target : Type 0 where
  pub unparsed_uri : Text
  pub uri : Text
  pub exten : Text
  pub request_line : Slice
  pub method_name : Slice

-- the allocations, in their order
pub data Allocation : Type 0 where
  for_unparsed_uri for_uri for_decoded_exten for_exten for_exten_again for_headers for_cookies :
      Allocation

pub record Line : Type 0 where
  pub session : Session
  pub target : Target

-- How a part of the handler ends: it goes on, it closes, or it does what the model has no account
-- of (`ehd_http_parse_complex_uri` leaves its memory or does not end).
pub data Step : Type 0 where
  goes_on : Line → Step
  fails : Step
  astray : Step

abbrev pub bind : Step → (Line → Step) → Step
bind (goes_on l) f = f l
bind fails f = fails
bind astray f = astray

unfoldable pub copied : Memory → (from len : ℕ) → Text
copied mem from len = record { room = len + 1; len = len; bytes = cpystrn mem from (len + 1) }

unfoldable pub uri_len : Request → ℕ
uri_len r =
    if r.args_start == null
    then size_diff r.uri_end r.uri_start
    else size_diff (r.args_start - 1) r.uri_start

unfoldable pub exten_len : Request → ℕ
exten_len r =
    if r.args_start == null
    then size_diff r.uri_end r.uri_ext
    else size_diff (r.args_start - 1) r.uri_ext

-- `request_line` with its NUL, and `method_name`
unfoldable pub mark_line : Line → Line
mark_line l =
    let r = l.session.request in
    let n = size_diff r.request_end r.request_start in
    let t = record l.target { request_line = record { start = r.request_start; len = n } } in
    record {
      session = record l.session { mem = store l.session.mem (r.request_start + n) (0 ∷ []) };
      target =
          if r.method == 0
          then record t {
            method_name = record {
              start = r.request_start;
              len = size_diff r.method_end r.request_start + 1;
            };
          }
          else t;
    }

abbrev pub with_exten : Option ℕ → Result → Text → Text
with_exten none d t = t
with_exten (some e) d t = record { room = d.exten_len + 1; len = d.exten_len; bytes = d.exten }

-- the end of `ehd_http_parse_complex_uri`, which sets `uri_ext` to NULL, by its code
unfoldable pub on_result : Code → Line → Cursor → Result → Step
on_result ok l c d = goes_on (record l {
  session = record l.session { request = record l.session.request { uri_ext = null } };
  target = record l.target {
    uri = record { room = uri_len l.session.request + 1; len = length c.out; bytes = d.uri };
    exten = with_exten c.ext d l.target.exten;
  };
})
on_result _ l c d = fails

unfoldable pub decoded : Line → Cursor → Result → Step
decoded l c d = on_result d.code l c d

-- `waiting` and `closed` as for headers; `parsed` calls `ehd_http_process_request_headers`
pub data Ending : Type 0 where
  waiting closed parsed unanswered stuck : Ending

pub record Left : Type 0 where
  pub ending : Ending
  pub line : Line

pub data Round : Type 0 where
  stop : Left → Round
  go : Line → Round

module _ (pool_ok : Allocation → Bool) where
  unfoldable pub copy_unparsed_uri : Line → Step
  copy_unparsed_uri l =
      let r = l.session.request in
      let n = size_diff r.uri_end r.uri_start in
      if pool_ok for_unparsed_uri
      then goes_on (record l {
        target = record l.target { unparsed_uri = copied l.session.mem r.uri_start n };
      })
      else fails

  unfoldable pub on_walk : Line → Walk → Step
  on_walk l (finished c) = decoded l c (result (pool_ok for_decoded_exten) c)
  on_walk l refused = fails
  on_walk l overran = astray
  on_walk l out_of_fuel = astray

  unfoldable pub copy_uri : Line → Step
  copy_uri l =
      let r = l.session.request in
      if pool_ok for_uri
      then (if r.complex_uri
          then on_walk l (parse_walk l.session.mem r.uri_start (uri_len r))
          else goes_on (record l {
            target = record l.target { uri = copied l.session.mem r.uri_start (uri_len r) };
          }))
      else fails

  unfoldable pub copy_exten : Allocation → Line → Step
  copy_exten a l =
      let r = l.session.request in
      if r.uri_ext == null
      then goes_on l
      else (if pool_ok a
          then goes_on (record l {
            target = record l.target { exten = copied l.session.mem r.uri_ext (exten_len r) };
          })
          else fails)

  -- the list of headers and the array of cookies
  unfoldable pub init_headers : Line → Step
  init_headers l =
      if pool_ok for_headers
      then (if pool_ok for_cookies
          then goes_on
              (record l { session = record l.session { read_handler = process_request_headers } })
          else fails)
      else fails

  -- Behind EHD_OK. The request line and the extension are copied twice.
  unfoldable pub copy_target : Line → Step
  copy_target l = bind (copy_unparsed_uri l) (λ l1. bind (copy_uri l1) (λ l2.
      bind (copy_exten for_exten (mark_line l2))
        (λ l3. bind (copy_exten for_exten_again (mark_line l3)) (λ l4. init_headers l4))))

  unfoldable pub on_step : Line → Step → Round
  on_step l (goes_on l') = stop (record { ending = parsed; line = l' })
  on_step l fails = stop (record { ending = closed; line = record l { session = close l.session } })
  on_step l astray = stop (record { ending = stuck; line = l })

  -- by the parser's code; behind EHD_AGAIN a full buffer is an error
  unfoldable pub on_code : Code → Line → Round
  on_code ok l = on_step l (copy_target l)
  on_code again l =
      if l.session.buf.pos == l.session.buf.end
      then stop (record { ending = closed; line = record l { session = close l.session } })
      else go l
  on_code _ l = stop (record { ending = closed; line = record l { session = close l.session } })

  unfoldable pub parse : Line → Round
  parse l =
      let s = l.session in
      let d = parse_request_line s.mem s.request s.buf in
      on_code d.code (record l { session = record s { request = d.request; buf = d.buf } })

  -- on EHD_ERROR reading has closed the connection
  unfoldable pub on_got : Got → Line → Round
  on_got got_again l = stop (record { ending = waiting; line = l })
  on_got lost l = stop (record { ending = unanswered; line = l })
  on_got got_error l = stop (record { ending = closed; line = l })
  on_got (got n) l = parse l

  unfoldable pub on_read : Line → Read → Round
  on_read l r = on_got r.got (record l { session = r.session })

  unfoldable pub round : Line → Round
  round l = on_read l (read_request_header l.session)

  -- `for( ;; )`: each round that goes on had EHD_AGAIN
  unfoldable pub loop : ℕ → Line → Option Left
  loop zero l = none
  loop (suc n) l = elim (round l) [ stop e ↦ some e | go l' ↦ loop n l' ]

  -- one round for each byte that is there or comes, and one more
  unfoldable pub process : Line → Option Left
  process l = loop ((l.session.buf.last - l.session.buf.pos) + total l.session.answers + 1) l
