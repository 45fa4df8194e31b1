-- ===== src/KeepAlive/Tests.antt =====
-- Keep-alive on a concrete buffer, whose bytes overlap with where they go.
use ehttpd.Prelude.{◌≡◌, refl, true, false, codes}
use ehttpd.Request.{from_one, bytes}
use ehttpd.KeepAlive.{http_writer, init_request, Connection, move, shifted, keep_alive}

abbrev pub pipelined : Connection
pipelined = record {
  mem = from_one (codes "ab\nGET /");
  buf = record { pos = 4; last = 9; start = 1; end = 4097 };
  has_request = true;
  read_handler = init_request;
  write_handler = http_writer;
  pool_destroyed = false;
  closed = false;
}

run_moved : bytes (keep_alive true pipelined).mem 1 5 ≡ codes "GET /"
unfolding keep_alive shifted move
run_moved = refl
