-- ===== src/SetUp.antt =====
-- `ehd_http_init_connection` and `ehd_http_init_request` of http/ehd_http_request.c, and
-- `ehd_create_temp_buf` of core/ehd_buf.c: a connection gets its buffer and a request.
pub mod Begins
mod Tests
use ehttpd.Prelude.{
  ℕ, ◌+◌, Bool, true, false, ◌&&◌, ◌||◌, Option, none, some, List, [], ◌==◌, if◌then◌else◌,
}
use mathlib.Core.Option
use ehttpd.Request.{Memory, null, Buf, fresh}
use ehttpd.Socket.{Answer, Event}
use ehttpd.Headers.{process_request_line}
use ehttpd.LineHandler.{Allocation, Line, no_text}
use ehttpd.LineHandler.Whole.{Outcome, read_head}

-- The connection before a request: `c->buf`, with `none` for NULL, whether `c->data` is an
-- `ehd_http_connection_t`, and whether its `request` is set. `incoming` and `answers` are what the
-- peer sends and what `recv` answers.
pub record Client : Type 0 where
  pub mem : Memory
  pub buf : Option Buf
  pub event : Event
  pub answers : List Answer
  pub incoming : List ℕ
  pub has_http : Bool
  pub has_request : Bool

-- what is allocated, in this order: the `ehd_http_connection_t`, the request, the `ehd_buf_t`, the
-- request's pool and the block of its list of headers
pub data Resource : Type 0 where
  for_http for_request for_buf for_pool for_list : Resource

abbrev pub default_buf_size : ℕ
default_buf_size = 4096

-- `struct_ok`: whether the `ehd_buf_t` is allocated; `block`: what `ehd_palloc` gives for its bytes
unfoldable pub create_temp_buf : (struct_ok : Bool) → (block size : ℕ) → Option Buf
create_temp_buf struct_ok block size =
    if struct_ok
    then if block == null
      then none
      else some (record { pos = block; last = block; start = block; end = block + size })
    else none

-- How the set-up ends: the connection is closed, or the request's pool is destroyed and the
-- connection closed, or the handler of the request line is called.
pub data Begun : Type 0 where
  closes_connection closes_both : Begun
  begins : Line → Begun

-- the zeroed request, and what is set in it
unfoldable pub new_line : Client → Buf → Line
new_line c b = record {
  session = record {
    mem = c.mem;
    buf = b;
    request = fresh;
    event = c.event;
    answers = c.answers;
    incoming = c.incoming;
    headers_n = 0;
    headers = [];
    cookies = [];
    known = [];
    read_handler = process_request_line;
    closes = 0;
  };
  target = record {
    unparsed_uri = no_text;
    uri = no_text;
    exten = no_text;
    request_line = record { start = 0; len = 0 };
    method_name = record { start = 0; len = 0 };
  };
}

module _ (ok : Resource → Bool) (block : ℕ) where
  -- `if (c->buf == NULL)`
  unfoldable pub connection_buf : Option Buf → Option Buf
  connection_buf (some b) = some b
  connection_buf none = create_temp_buf (ok for_buf) block default_buf_size

  -- behind the buffer
  unfoldable pub on_buf : Client → Option Buf → Begun
  on_buf c none = closes_connection
  on_buf c (some b) =
      if ok for_pool
      then if ok for_list then begins (new_line c b) else closes_both
      else closes_connection

  unfoldable pub init_request : Client → Begun
  init_request c =
      if c.has_http || ok for_http
      then if (c.has_http && c.has_request) || ok for_request
        then on_buf c (connection_buf c.buf)
        else closes_connection
      else closes_connection

  -- `none` when the event is closed already and nothing is called
  unfoldable pub init_connection : (closed : Bool) → Client → Option Begun
  init_connection closed c = if closed then none else some (init_request c)

-- the end of the set-up, or of the handlers of the request's head
pub data Served : Type 0 where
  not_begun : (pool_destroyed : Bool) → Served
  begun : Outcome → Served

module _ (ok : Resource → Bool) (block : ℕ) (pool_ok : Allocation → Bool)
    (strcasecmp : List ℕ → List ℕ → Bool) (list_push array_push : ℕ → Bool) where
  -- `c->read_handler(c)`
  unfoldable pub on_begun : Begun → Option Served
  on_begun closes_connection = some (not_begun false)
  on_begun closes_both = some (not_begun true)
  on_begun (begins l) = Option.map begun (read_head pool_ok strcasecmp list_push array_push l)

  unfoldable pub serve_request : Client → Option Served
  serve_request c = on_begun (init_request ok block c)
