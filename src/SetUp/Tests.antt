-- ===== src/SetUp/Tests.antt =====
-- The set-up of a request on a new connection, and behind a request.
use ehttpd.Prelude.{
  ℕ, ◌-◌, ◌≡◌, refl, Bool, true, false, ◌&&◌, ◌==◌, none, some, List, [], ◌∷◌, codes, arith,
}
use ehttpd.Request.{Buf, bytes}
use ehttpd.Socket.{Event, count, failed, eagain}
use ehttpd.KeepAlive.{keep_alive}
use ehttpd.KeepAlive.Tests.{pipelined}
use ehttpd.LineHandler.{Allocation}
use ehttpd.SetUp.{
  Client, Resource, create_temp_buf, connection_buf, on_buf, init_request, init_connection,
  closes_connection, Served, serve_request,
}
use ehttpd.SetUp.Begins.{Serves, next_client, serve_request-Serves, keep_alive-Serves}

abbrev enough : Allocation → Bool
enough a = true

abbrev all_there : Resource → Bool
all_there r = true

abbrev same_text : List ℕ → List ℕ → Bool
same_text [] [] = true
same_text [] (y ∷ ys) = false
same_text (x ∷ xs) [] = false
same_text (x ∷ xs) (y ∷ ys) = (x == y) && same_text xs ys

abbrev always : ℕ → Bool
always n = true

abbrev readable : Event
readable = record { rready = true; wready = true; eof = false; error = false }

abbrev new_client : Client
new_client = record {
  mem = λ a. 0;
  buf = none;
  event = readable;
  answers = count 18 ∷ failed eagain ∷ [];
  incoming = codes "GET / HTTP/1.1\r\n\r\n";
  has_http = false;
  has_request = false;
}

run_no_block : init_request all_there 0 new_client ≡ closes_connection
unfolding init_request connection_buf create_temp_buf on_buf
run_no_block = refl

run_closed : init_connection all_there 1 true new_client ≡ none
unfolding init_connection
run_closed = refl

serve_request-Serves_example :
    (s : Served) × (serve_request all_there 1 enough same_text always always new_client ≡ some s)
    × Serves all_there 1 enough same_text always always new_client s
serve_request-Serves_example =
    serve_request-Serves all_there 1 enough same_text always always new_client tt

keep_alive-Serves_example :
    let n =
      next_client
        (keep_alive true pipelined)
        readable
        (count 12 ∷ failed eagain ∷ [])
        (codes " HTTP/1.1\n\n") in
    (s : Served) × (serve_request all_there 1 enough same_text always always n ≡ some s)
    × Serves all_there 1 enough same_text always always n s
    × ((b : Buf) × (n.buf ≡ some b)
        × (b.pos ≡ 1)
        × (bytes n.mem b.pos (b.last - b.pos) ≡ bytes pipelined.mem 4 5))
keep_alive-Serves_example =
    keep_alive-Serves all_there 1 enough same_text always always true pipelined readable
      (count 12 ∷ failed eagain ∷ []) (codes " HTTP/1.1\n\n") (omega arith) (omega arith)
      (omega arith)
