-- ===== src/KeepAlive.antt =====
-- `ehd_http_keep_alive` of http/ehd_http_request.c: what has been read behind a request is moved
-- to the start of the buffer, and the connection waits for the next request.
pub mod Moved
pub mod Tests
use ehttpd.Prelude.{ℕ, zero, suc, ◌+◌, ◌-◌, Bool, true, false, ltb, ◌==◌, if◌then◌else◌}
use ehttpd.Request.{Memory, Buf}

-- `c->read_handler` and `c->write_handler`
pub data Handler : Type 0 where
  init_request empty_handler http_writer : Handler

-- The connection, as far as it is changed: `has_request` is `hc->request != NULL`, and
-- `pool_destroyed` and `closed` tell whether the request's pool and the connection are gone.
pub record Connection : Type 0 where
  pub mem : Memory
  pub buf : Buf
  pub has_request : Bool
  pub read_handler : Handler
  pub write_handler : Handler
  pub pool_destroyed : Bool
  pub closed : Bool

abbrev pub write_byte : Memory → ℕ → ℕ → Memory
write_byte mem a x = λ k. if k == a then x else mem k

-- the loop, with `n` of its rounds left: `b->start[i] = b->pos[i]`
unfoldable pub move : ℕ → (start pos i : ℕ) → Memory → Memory
move zero start pos i mem = mem
move (suc n) start pos i mem = move n start pos (i + 1) (write_byte mem (start + i) (mem (pos + i)))

unfoldable pub shifted : Connection → Connection
shifted c =
    let b = c.buf in
    let n = b.last - b.pos in
    if ltb b.pos b.last
    then record c {
      mem = move n b.start b.pos 0 c.mem;
      buf = record b { pos = b.start; last = b.start + n };
    }
    else record c { buf = record b { pos = b.start; last = b.start } }

-- `added` tells whether `ehd_add_event` succeeds; `pool_destroyed` is `ehd_http_close_request`.
unfoldable pub keep_alive : (added : Bool) → Connection → Connection
keep_alive added c =
    let c' = shifted (record c { has_request = false; read_handler = init_request }) in
    let c2 = record c' { pool_destroyed = true; write_handler = empty_handler } in
    if added then c2 else record c2 { closed = true }
