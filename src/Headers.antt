-- ===== src/Headers.antt =====
-- `ehd_http_process_request_headers` and `ehd_http_read_request_header` of
-- http/ehd_http_request.c: the read handler of a connection whose request line has been parsed.
pub mod Agree
pub mod Ends
pub mod Entries
pub mod Lines
pub mod Reading
pub mod Rounds
pub mod WellFormed
mod Tests
use mathlib.Core.Option
use ehttpd.Prelude.{
  ℕ, zero, suc, ◌+◌, ◌-◌, ◌*◌, Bool, true, false, Option, none, some, List, [], ◌∷◌, ◌++◌, length,
  codes, take, drop, ltb, ◌==◌, ◌&&◌, if◌then◌else◌,
}
use ehttpd.Request.{Memory, bytes, Buf, Code, ok, again, header_done, Request, Parsed}
use ehttpd.HeaderLine.{parse_header_line}
use ehttpd.Socket.{Answer, count, failed, Event, Ret, done, Called, recv}
use ehttpd.Socket

-- `ehd_table_data_t`, a name and a value as address and length
pub record Header : Type 0 where
  pub key_data : ℕ
  pub key_len : ℕ
  pub value_data : ℕ
  pub value_len : ℕ

-- `c->read_handler`
pub data ReadHandler : Type 0 where
  process_request_line process_request_headers block_read : ReadHandler

-- What the handler changes. `incoming` holds the bytes that the peer sends, `answers` what the
-- calls of `recv` return; `known` holds the headers stored by their number in
-- `ehd_http_headers_in`, the last one first. `closes` counts the calls of
-- `ehd_http_close_request` and `ehd_http_close_connection`, which are made one after the other.
pub record Session : Type 0 where
  pub mem : Memory
  pub buf : Buf
  pub request : Request
  pub event : Event
  pub answers : List Answer
  pub incoming : List ℕ
  pub headers_n : ℕ
  pub headers : List Header
  pub cookies : List Header
  pub known : List (ℕ × Header)
  pub read_handler : ReadHandler
  pub closes : ℕ

-- How the handler returns: behind `EHD_AGAIN`, behind closing the connection, behind
-- `ehd_http_handler`. `unanswered`: the list of answers is too short.
pub data Ending : Type 0 where
  waiting closed handled unanswered : Ending

unfoldable pub close : Session → Session
close s = record s { closes = s.closes + 1 }

unfoldable pub store : Memory → ℕ → List ℕ → Memory
store mem a [] = mem
store mem a (x ∷ xs) = store (λ k. if k == a then x else mem k) (a + 1) xs

-- what `ehd_http_read_request_header` returns: a count, EHD_AGAIN or EHD_ERROR; `lost` if the list
-- of answers is too short
pub data Got : Type 0 where
  got : ℕ → Got
  got_again got_error lost : Got

pub record Read : Type 0 where
  pub got : Got
  pub session : Session

unfoldable pub on_ret : Ret → Session → Read
on_ret Socket.again s = record { got = got_again; session = s }
on_ret (done zero) s = record { got = got_error; session = close s }
on_ret (Socket.error e) s = record { got = got_error; session = close s }
on_ret (done (suc n)) s = record {
  got = got (suc n);
  session = record s {
    mem = store s.mem s.buf.last (take (suc n) s.incoming);
    incoming = drop (suc n) s.incoming;
    buf = record s.buf { last = s.buf.last + suc n };
  };
}

unfoldable pub on_recv : Session → Option Called → Read
on_recv s none = record { got = lost; session = s }
on_recv s (some c) = on_ret c.ret (record s { event = c.event; answers = c.rest })

unfoldable pub read_request_header : Session → Read
read_request_header s =
    if ltb s.buf.pos s.buf.last
    then record { got = got (s.buf.last - s.buf.pos); session = s }
    else (if s.event.rready
        then on_recv s (recv (s.buf.end - s.buf.last) s.event s.answers)
        else record { got = got_again; session = s })

-- the names of `ehd_http_headers_in`, in its order
abbrev pub headers_in : List (List ℕ)
headers_in =
    codes "Host"
    ∷ codes "Connection"
    ∷ codes "If-Modified-Since"
    ∷ codes "User-Agent"
    ∷ codes "Referer"
    ∷ codes "Content-Length"
    ∷ codes "Range"
    ∷ codes "Authorization"
    ∷ codes "Keep-Alive"
    ∷ []

-- the bytes that the calls of `recv` return
abbrev pub total : List Answer → ℕ
total [] = 0
total (count n ∷ xs) = n + total xs
total (failed e ∷ xs) = total xs

-- one round, with a flag for `rc == EHD_AGAIN` of the next
pub data Round : Type 0 where
  stop : Ending → Session → Round
  go : Bool → Session → Round

pub record Result : Type 0 where
  pub ending : Ending
  pub session : Session

unfoldable pub header_of : Request → Header
header_of r = record {
  key_data = r.header_name_start;
  key_len = r.header_name_end - r.header_name_start;
  value_data = r.header_start;
  value_len = r.header_end - r.header_start;
}

-- `h->key.data[h->key.len] = '\0'`, and the same of the value
unfoldable pub terminated : Header → Memory → Memory
terminated h mem =
    store (store mem (h.key_data + h.key_len) (0 ∷ [])) (h.value_data + h.value_len) (0 ∷ [])

abbrev pub key_of : Header → Memory → List ℕ
key_of h mem = bytes mem h.key_data h.key_len

unfoldable pub on_known : Header → Option ℕ → Session → Session
on_known h none s = s
on_known h (some i) s = record s { known = (i, h) ∷ s.known }

-- The parameters are the C library's `strcasecmp(a, b) == 0`, and whether `ehd_list_push` and
-- `ehd_array_push` have the memory for one more element behind that many.
module _ (strcasecmp : List ℕ → List ℕ → Bool) (list_push array_push : ℕ → Bool) where
  -- the loop over the table, from number `i` on
  unfoldable pub find : List ℕ → ℕ → List (List ℕ) → Option ℕ
  find key i [] = none
  find key i (name ∷ names) =
      let later = find key (i + 1) names in
      if (length name == length key) && strcasecmp name key then some i else later

  unfoldable pub on_cookie : Header → Session → Round
  on_cookie h s =
      if array_push (length s.cookies)
      then go false (record s { cookies = s.cookies ++ (h ∷ []) })
      else stop closed (close s)

  unfoldable pub is_cookie : Header → Memory → Bool
  is_cookie h mem = (h.key_len == 6) && strcasecmp (key_of h mem) (codes "Cookie")

  unfoldable pub on_pushed : Header → Session → Round
  on_pushed h s =
      if is_cookie h s.mem
      then on_cookie h s
      else go false (on_known h (find (key_of h s.mem) 0 headers_in) s)

  -- `rc == EHD_OK`
  unfoldable pub on_header : Session → Round
  on_header s =
      let h = header_of s.request in
      if list_push (length s.headers)
      then on_pushed h (record s {
        headers_n = s.headers_n + 1;
        headers = s.headers ++ (h ∷ []);
        mem = terminated h s.mem;
      })
      else stop closed (close (record s { headers_n = s.headers_n + 1 }))

  -- `ehd_http_process_request_header` is `return EHD_OK`.
  unfoldable pub on_code : Code → Session → Round
  on_code ok s = on_header s
  on_code header_done s = stop handled (record s { read_handler = block_read })
  on_code again s = go true s
  on_code _ s = stop closed (close s)

  unfoldable pub parse : Session → Round
  parse s =
      let d = parse_header_line s.mem s.request s.buf in
      on_code d.code (record s { request = d.request; buf = d.buf })

  unfoldable pub on_got : Got → Session → Round
  on_got got_again s = stop waiting s
  on_got lost s = stop unanswered s
  on_got got_error s = stop closed (close s)
  on_got (got n) s = parse s

  unfoldable pub on_read : Read → Round
  on_read r = on_got r.got r.session

  unfoldable pub round : Bool → Session → Round
  round true s =
      if s.buf.pos == s.buf.end then stop closed (close s) else on_read (read_request_header s)
  round false s = parse s

  -- `for(;;)`, on fuel
  unfoldable pub loop : ℕ → Bool → Session → Option Result
  loop zero b s = none
  loop (suc n) b s = elim (round b s) [
    | stop e s' ↦ some (record { ending = e; session = s' })
    | go b' s' ↦ loop n b' s'
  ]

  -- two rounds for each byte that is there or comes, and two more
  unfoldable pub process : Session → Option Result
  process s = loop (2 * ((s.buf.last - s.buf.pos) + total s.answers) + 2) true s
