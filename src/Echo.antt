-- ===== src/Echo.antt =====
-- event/ehd_event_echo.c: the handlers of a connection that sends back what it has received. What
-- `recv` and `send` return is an argument, an answer for each call.
pub mod Order
mod Tests
use ehttpd.Prelude.{
  ℕ, zero, suc, ◌+◌, ◌-◌, Bool, Option, none, some, List, [], ◌∷◌, ◌++◌, take, drop, leb, ltb, ◌==◌,
  ◌&&◌, if◌then◌else◌,
}
use ehttpd.Request.{Memory, bytes, Buf}
use ehttpd.Headers.{store}
use ehttpd.Socket.{Answer, count, failed, eagain}

-- The connection: `c->buf`, with `none` for NULL, the bytes that the peer sends, and those that
-- were sent to it.
pub record Peer : Type 0 where
  pub mem : Memory
  pub buf : Option Buf
  pub incoming : List ℕ
  pub sent : List ℕ

-- How a handler ends: the event of the connection is changed, the connection is closed, or a buffer
-- at NULL is used. `no_answer`: the list of answers is too short.
pub data EchoEnd : Type 0 where
  waits_to_write waits_to_read closes uses_null no_answer : EchoEnd

pub record Echoed : Type 0 where
  pub ending : EchoEnd
  pub client : Peer

-- `bzero(buf->start, buf->end - buf->start)`
unfoldable pub bzero : (from to : ℕ) → Memory → Memory
bzero from to mem k = if leb from k && ltb k to then 0 else mem k

-- a buffer that is there already
unfoldable pub emptied : Buf → Buf
emptied b = record b { pos = b.start; last = b.start }

unfoldable pub take_in : ℕ → Buf → Peer → Peer
take_in n b c = record c {
  mem = store c.mem b.last (take n c.incoming);
  buf = some (record b { last = b.last + n });
  incoming = drop n c.incoming;
}

-- the loop of `ehd_event_echo_read`; every error but EAGAIN closes, EINTR included
unfoldable pub recv_all : List Answer → Buf → Peer → Echoed
recv_all [] b c = record { ending = no_answer; client = c }
recv_all (failed eagain ∷ xs) b c = record { ending = waits_to_write; client = c }
recv_all (failed e ∷ xs) b c = record { ending = closes; client = c }
recv_all (count zero ∷ xs) b c = record { ending = closes; client = c }
recv_all (count (suc n) ∷ xs) b c =
    let rest = recv_all xs (record b { last = b.last + suc n }) (take_in (suc n) b c) in
    if (b.last + suc n) == b.end
    then record { ending = waits_to_write; client = take_in (suc n) b c }
    else rest

-- `made`: what `ehd_create_temp_buf` returns, if it is called
unfoldable pub start_read : (made : Option Buf) → List Answer → Option Buf → Peer → Echoed
start_read made xs (some b) c =
    recv_all xs (emptied b) (record c { mem = bzero b.start b.end c.mem; buf = some (emptied b) })
start_read none xs none c = record { ending = uses_null; client = c }
start_read (some b) xs none c = recv_all xs b (record c { buf = some b })

unfoldable pub echo_read : (made : Option Buf) → List Answer → Peer → Echoed
echo_read made xs c = start_read made xs c.buf c

unfoldable pub passed_on : ℕ → Buf → Peer → Peer
passed_on n b c = record c {
  buf = some (record b { pos = b.pos + n });
  sent = c.sent ++ bytes c.mem b.pos n;
}

-- the loop of `ehd_event_echo_write`
unfoldable pub send_all : List Answer → Buf → Peer → Echoed
send_all [] b c = record { ending = no_answer; client = c }
send_all (failed eagain ∷ xs) b c = record { ending = waits_to_read; client = c }
send_all (failed e ∷ xs) b c = record { ending = closes; client = c }
send_all (count zero ∷ xs) b c = record { ending = closes; client = c }
send_all (count (suc n) ∷ xs) b c =
    let rest = send_all xs (record b { pos = b.pos + suc n }) (passed_on (suc n) b c) in
    if (b.pos + suc n) == b.last
    then record { ending = waits_to_read; client = passed_on (suc n) b c }
    else rest

unfoldable pub start_write : List Answer → Option Buf → Peer → Echoed
start_write xs none c = record { ending = uses_null; client = c }
start_write xs (some b) c = send_all xs b c

unfoldable pub echo_write : List Answer → Peer → Echoed
echo_write xs c = start_write xs c.buf c
