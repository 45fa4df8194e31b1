-- ===== src/Writer.antt =====
-- `ehd_http_writer` of http/ehd_http_core.c: the response is a chain of chunks, in memory or of a
-- file, that is sent as far as the socket takes it. The answers of `send` and `sendfile` are an
-- argument, as in Socket.
pub mod Sends
pub mod Ends
pub mod Turns
pub mod Whole
pub mod Again
mod Tests
use ehttpd.Prelude.{
  ℕ, zero, suc, ◌+◌, ◌-◌, ◌^◌, Bool, true, false, Option, none, some, List, [], ◌∷◌, ◌++◌, drop,
  length, take, leb, ◌==◌, if◌then◌else◌,
}
use mathlib.Core.Option
use ehttpd.Socket.{
  Errno, eagain, Answer, count, failed, Event, Ret, done, again, error, Called, send,
}

-- the two types of an `ehd_buf_t`: bytes from `pos` on, before `last`, and a file that is sent
-- from `sys_offset` on, up to `size`
pub data Chunk : Type 0 where
  memory : (pos last : ℕ) → Chunk
  file : (sys_offset size : ℕ) → Chunk

-- `a - b` as a `size_t`
unfoldable pub size_diff : ℕ → ℕ → ℕ
size_diff a b = if leb b a then a - b else (a + 2 ^ 64) - b

unfoldable pub size_left : Chunk → ℕ
size_left (memory pos last) = size_diff last pos
size_left (file sys_offset size) = size_diff size sys_offset

unfoldable pub advance : ℕ → Chunk → Chunk
advance n (memory pos last) = memory (pos + n) last
advance n (file sys_offset size) = file (sys_offset + n) size

unfoldable pub is_sent : Chunk → Bool
is_sent (memory pos last) = pos == last
is_sent (file sys_offset size) = sys_offset == size

-- `sendfile` is called once: EINTR is an error like any other.
unfoldable pub sendfile : Event → List Answer → Option Called
sendfile ev [] = none
sendfile ev (count n ∷ xs) = some (record { ret = done n; event = ev; rest = xs })
sendfile ev (failed eagain ∷ xs) = some (record { ret = again; event = ev; rest = xs })
sendfile ev (failed e ∷ xs) = some (record { ret = error e; event = ev; rest = xs })

unfoldable pub call : Event → Chunk → List Answer → Option Called
call ev (memory pos last) xs = send (size_left (memory pos last)) ev xs
call ev (file sys_offset size) xs = sendfile ev xs

-- How the writer returns: it calls `ehd_http_keep_alive`, it closes request and connection, or
-- it waits for the next write event. `unanswered`: the list of answers is too short.
pub data Ending : Type 0 where
  keep_alive closed waiting unanswered : Ending

-- a call that sent something, for the record: `count` bytes from `start` on, of `size` asked for
pub record Sent : Type 0 where
  pub of_file : Bool
  pub start : ℕ
  pub size : ℕ
  pub count : ℕ

pub record Written : Type 0 where
  pub ending : Ending
  pub chunks : List Chunk
  pub event : Event
  pub rest : List Answer
  pub trace : List Sent

-- where the loop goes on: the chunks passed, the chunk that `last` is at and those behind it
pub record Onward : Type 0 where
  pub passed : List Chunk
  pub chunk : Chunk
  pub next : List Chunk
  pub event : Event
  pub rest : List Answer
  pub sent : Sent

pub data Round : Type 0 where
  stop : Written → Round
  go : Onward → Round

unfoldable pub sent_of : Chunk → ℕ → Sent
sent_of (memory pos last) n = record {
  of_file = false;
  start = pos;
  size = size_left (memory pos last);
  count = n;
}
sent_of (file sys_offset size) n = record {
  of_file = true;
  start = sys_offset;
  size = size_left (file sys_offset size);
  count = n;
}

-- the chunk is sent
unfoldable pub on_next : Chunk → List Chunk → Event → List Answer → Sent → Round
on_next c [] ev xs s =
    stop (record { ending = keep_alive; chunks = c ∷ []; event = ev; rest = xs; trace = s ∷ [] })
on_next c (d ∷ ds) ev xs s =
    go (record { passed = c ∷ []; chunk = d; next = ds; event = ev; rest = xs; sent = s })

unfoldable pub on_count : Chunk → List Chunk → (n : ℕ) → Event → List Answer → Round
on_count c next zero ev xs =
    stop (record { ending = closed; chunks = c ∷ next; event = ev; rest = xs; trace = [] })
on_count c next (suc n) ev xs =
    if is_sent (advance (suc n) c)
    then on_next (advance (suc n) c) next ev xs (sent_of c (suc n))
    else go (record {
      passed = [];
      chunk = advance (suc n) c;
      next = next;
      event = ev;
      rest = xs;
      sent = sent_of c (suc n);
    })

unfoldable pub on_return : Chunk → List Chunk → Ret → Event → List Answer → Round
on_return c next (done n) ev xs = on_count c next n ev xs
on_return c next again ev xs =
    stop (record { ending = waiting; chunks = c ∷ next; event = ev; rest = xs; trace = [] })
on_return c next (error e) ev xs =
    stop (record { ending = closed; chunks = c ∷ next; event = ev; rest = xs; trace = [] })

unfoldable pub on_call : Event → Chunk → List Chunk → Option Called → Round
on_call ev c next none =
    stop (record { ending = unanswered; chunks = c ∷ next; event = ev; rest = []; trace = [] })
on_call ev c next (some r) = on_return c next r.ret r.event r.rest

unfoldable pub round : Event → Chunk → List Chunk → List Answer → Round
round ev c next xs = on_call ev c next (call ev c xs)

unfoldable pub recorded : Onward → Written → Written
recorded o w = record w { chunks = o.passed ++ w.chunks; trace = o.sent ∷ w.trace }

-- `for(;;)`, on fuel
unfoldable pub write : ℕ → Event → Chunk → List Chunk → List Answer → Option Written
write zero ev c next xs = none
write (suc n) ev c next xs = elim (round ev c next xs) [
  | stop w ↦ some w
  | go o ↦ Option.map (recorded o) (write n o.event o.chunk o.next o.rest)
]

-- `ehd_http_response_t`: the chain, the place in it that `last` points to, and `begin`
pub record Response : Type 0 where
  pub chain : List Chunk
  pub last : ℕ
  pub begin : Bool

pub record Turn : Type 0 where
  pub ending : Ending
  pub response : Response
  pub event : Event
  pub rest : List Answer
  pub trace : List Sent

unfoldable pub begun : Response → Response
begun r = if r.begin then r else record r { last = 0; begin = true }

-- The chunks are changed in place, `r->response.last` is not.
unfoldable pub turned : Response → Written → Turn
turned r w = record {
  ending = w.ending;
  response = record r { chain = take r.last r.chain ++ w.chunks };
  event = w.event;
  rest = w.rest;
  trace = w.trace;
}

unfoldable pub write_from : ℕ → Event → List Chunk → List Answer → Option Written
write_from n ev [] xs = none
write_from n ev (c ∷ next) xs = write n ev c next xs

-- one iteration for each answer at most
unfoldable pub writer : Event → Response → List Answer → Option Turn
writer ev r xs =
    let r' = begun r in
    Option.map (turned r') (write_from (suc (length xs)) ev (drop r'.last r'.chain) xs)
