-- ===== src/Events/Tests.antt =====
-- The event loop with a listening socket 3 and a client 7.
use ehttpd.Prelude.{ℕ, ◌≡◌, refl, true, false, some, [], ◌∷◌, ◌++◌, ltb, if◌then◌else◌, arith}
use ehttpd.Socket.{count, failed, eagain}
use ehttpd.Kernel.{Kernel, accept, create_pool}
use ehttpd.Listening.{Listening, other_handler}
use ehttpd.Events.{Cycle, close_connection, accept_connections, new_connection, new_event}
use ehttpd.Events.Loop.{Entry, on_entries}
use ehttpd.Events.Accepting.{Accepts, Gives, accepts, accept_connections-Accepts}
use ehttpd.Events.Turns.{Keeps}
use ehttpd.Events.Closing.{close_connection-Keeps, close_connection-skipped}

-- one client, whose descriptor is 7
abbrev one_client : Kernel
one_client (accept fd ∷ log) = if ltb (accepts log) 1 then count 7 else failed eagain
one_client (create_pool size ∷ log) = count 4096
one_client log = count 0

abbrev listening_socket : Listening
listening_socket = record {
  fd = some 3;
  address = 7;
  backlog = 0;
  pool_size = 16384;
  handler = other_handler 0;
}

abbrev before : Cycle
before = record {
  connection_num = 16;
  connections = λ i. new_connection i 1 listening_socket;
  events = new_event;
  listening = listening_socket ∷ [];
  log = [];
}

-- each handler closes its connection
abbrev run_close : ℕ → ℕ → Cycle → Cycle
run_close h i w = close_connection one_client i w

one_client-Gives : Gives one_client 1
one_client-Gives log fd h =
    let e : ltb (accepts log) 1 ≡ false = ground arith in (eagain, rw e refl)

accept_connections-Accepts_example :
    (w' : Cycle) × (accept_connections one_client 2 3 before ≡ some w')
    × Accepts listening_socket before w'
accept_connections-Accepts_example =
    accept_connections-Accepts one_client 1 3 before one_client-Gives

close_connection-Keeps_example : Keeps (λ h i w. close_connection one_client i w)
close_connection-Keeps_example = close_connection-Keeps one_client

abbrev stale : Entry
stale = record { writes = true; reads = true; connection = 7 }

abbrev next_entry : Entry
next_entry = record { writes = false; reads = true; connection = 3 }

close_connection-skipped_example :
    on_entries one_client 2 run_close false
      ((stale ∷ []) ++ (next_entry ∷ []))
      (close_connection one_client 7 before)
    ≡ on_entries one_client 2 run_close false
        (next_entry ∷ [])
        (close_connection one_client 7 before)
close_connection-skipped_example =
    close_connection-skipped one_client 2 run_close false 7 1 before refl (stale ∷ [])
      (next_entry ∷ []) (refl, tt)
