-- ===== src/Echo/Tests.antt =====
-- A connection that sends back what it has received, and its theorem.
use ehttpd.Prelude.{ℕ, ◌≡◌, refl, Option, some, none, List, [], ◌∷◌, ◌++◌, codes, arith}
use ehttpd.Request.{Buf}
use ehttpd.Headers.{store}
use ehttpd.Socket.{count, failed, eagain}
use ehttpd.Echo.{
  Peer, waits_to_write, waits_to_read, closes, bzero, emptied, take_in, recv_all, start_read,
  echo_read, passed_on, send_all, start_write, echo_write,
}
use ehttpd.Echo.Order.{content, echo-stream}

abbrev made : Option Buf
made = some (record { pos = 10; last = 10; start = 10; end = 14 })

abbrev peer : List ℕ → Peer
peer text = record { mem = λ k. 0; buf = none; incoming = text; sent = [] }

echo-stream_example :
    let c' =
      (echo_write
        (count 1 ∷ failed eagain ∷ [])
        (echo_read made (count 2 ∷ failed eagain ∷ []) (peer (codes "abc"))).client).client in
    c'.sent ++ (content c'.mem c'.buf ++ c'.incoming) ≡ [] ++ codes "abc"
unfolding echo_read start_read recv_all take_in
echo-stream_example =
    echo-stream made (count 2 ∷ failed eagain ∷ []) (count 1 ∷ failed eagain ∷ [])
      (peer (codes "abc")) refl (omega arith, omega arith, tt) (omega arith, tt)

-- a turn with every byte that the buffer has room for
run_turn :
    let r = echo_read made (count 2 ∷ count 2 ∷ []) (peer (codes "abcde")) in
    let w = echo_write (count 3 ∷ count 1 ∷ []) r.client in
    (r.ending ≡ waits_to_write)
    × (w.ending ≡ waits_to_read)
    × (w.client.sent ≡ codes "abcd")
    × (w.client.incoming ≡ codes "e")
unfolding echo_read start_read recv_all take_in store echo_write start_write send_all passed_on
run_turn = (refl, refl, refl, refl)

-- what `send` does not take at once is not sent in the next turn
run_lost :
    let r = echo_read made (count 2 ∷ failed eagain ∷ []) (peer (codes "abc")) in
    let w = echo_write (count 1 ∷ failed eagain ∷ []) r.client in
    let r' = echo_read none (count 1 ∷ failed eagain ∷ []) w.client in
    (echo_write (count 1 ∷ []) r'.client).client.sent ≡ codes "ac"
unfolding echo_read start_read recv_all take_in store echo_write start_write send_all passed_on
    bzero emptied
run_lost = refl

-- a write event with nothing in the buffer closes the connection
run_closes :
    (echo_write (count 0 ∷ []) (echo_read made (failed eagain ∷ []) (peer [])).client).ending
    ≡ closes
unfolding echo_read start_read recv_all echo_write start_write send_all
run_closes = refl
