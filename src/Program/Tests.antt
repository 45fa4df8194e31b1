-- ===== src/Program/Tests.antt =====
-- The program from its start, with a client 7 at the first of its listening sockets, 3 and 4.
use ehttpd.Prelude.{
  ℕ, ◌+◌, ◌≡◌, refl, true, false, ◌&&◌, Option, none, some, List, [], ◌∷◌, ltb, All, if◌then◌else◌,
  arith,
}
use mathlib.Core.Option
use ehttpd.Socket.{count, failed, eagain}
use ehttpd.Kernel.{Log, Kernel, socket, accept, create_pool, close, destroy_pool}
use ehttpd.Listening.{
  Listening, null_handler, open_listening_socket, tries, on_pass, pass, on_fd, on_tried, behind,
  attempt, on_socket, on_option, on_nonblocking, on_bind, on_listen,
}
use ehttpd.Listening.Passes.{all_open}
use ehttpd.Listening.Sockets.{binds}
use ehttpd.Events.{
  Cycle, set_event, set_connection, ask, control, epoll_add, epoll_del, install, close_with,
  close_unless_null, close_connection, on_ready_socket, on_pool, on_client, on_accept, accept_loop,
  accept_connections, new_connection, new_event, succeeded,
}
use ehttpd.Events.Loop.{
  Wait, entries, on_enabled, enable_one, enable_accept, call, call_now, on_writable, on_readable,
  on_open, on_entry, on_entries, turn, turns, process,
}
use ehttpd.Events.Accepting.{Gives, accepts}
use ehttpd.Events.Turns.{WaitsReported}
use ehttpd.Events.Start.{
  clear_tables, add_one, add_listening, event_init, set_tables, epoll_init, with_functions, Polling,
}
use ehttpd.Events.Acts.{Act, closes, adds_writing, acts, runs, runs-Keeps}
use ehttpd.Program.{
  conf_init, new_listening, add_node, add_nodes, listening_init, http_init, Initialised,
  initialised, init_error, out_of_tables, on_events, init_events, cycle_init, process_event, main,
}
use ehttpd.Program.Starts.{HasEntry, Initialises, cycle_init-Initialises}

abbrev one_client : Kernel
one_client (socket ∷ log) = count (3 + binds log)
one_client (accept fd ∷ log) = if ltb (accepts log) 1 then count 7 else failed eagain
one_client (create_pool size ∷ log) = count 4096
one_client log = count 0

abbrev some_sockaddr : List ℕ → ℕ → ℕ
some_sockaddr addr port = port

abbrev nothing : Listening
nothing = new_listening some_sockaddr null_handler [] 0

abbrev before : Cycle
before = record {
  connection_num = 0;
  connections = λ i. new_connection i 1 nothing;
  events = new_event;
  listening = [];
  log = [];
}

-- each handler registers its event for writing, and then closes its connection
abbrev chosen : ℕ → (i : ℕ) → Cycle → List Act
chosen h i w = adds_writing 2 ∷ closes ∷ []

abbrev run_close : ℕ → ℕ → Cycle → Cycle
run_close h i w = runs one_client chosen h i w

abbrev polls : Polling
polls = record { made = true; listed = true }

abbrev two_entries : List Wait
two_entries =
    entries (
      record { writes = false; reads = true; connection = 3 }
      ∷ record { writes = false; reads = true; connection = 7 }
      ∷ [])
    ∷ []

abbrev end_log : Option Cycle → Log
end_log none = []
end_log (some w) = w.log

abbrev head_two : Log → Log
head_two (c ∷ d ∷ log) = c ∷ d ∷ []
head_two log = []

-- the client is accepted and its handler registers its event and closes it
run_main :
    head_two (
      end_log
        (main one_client some_sockaddr null_handler true polls 2 run_close two_entries before))
    ≡ close (some 7) ∷ destroy_pool 4096 ∷ []
unfolding main process_event epoll_init with_functions set_tables cycle_init init_events on_events
    http_init listening_init add_nodes add_node new_listening open_listening_socket tries on_pass
    pass on_fd on_tried behind attempt on_socket on_option on_nonblocking on_bind on_listen
    event_init clear_tables add_listening add_one set_connection set_event process enable_accept
    enable_one on_enabled epoll_add control ask succeeded turns turn on_entries on_entry on_open
    on_writable on_readable call_now call accept_connections accept_loop on_accept on_client on_pool
    on_ready_socket install close_connection close_unless_null close_with epoll_del acts
run_main = refl

one_client-Gives : Gives one_client 1
one_client-Gives log fd h =
    let e : ltb (accepts log) 1 ≡ false = ground arith in (eagain, rw e refl)

abbrev sockets : List Listening
sockets =
    (open_listening_socket one_client (listening_init some_sockaddr null_handler conf_init)
      []).listenings

below : All (HasEntry 1024) sockets
unfolding listening_init add_nodes add_node new_listening open_listening_socket tries on_pass pass
    on_fd on_tried behind attempt on_socket on_option on_nonblocking on_bind on_listen
below = (
  (λ fd e. let h = Option.some-injective 3 fd e in omega arith),
  ((λ fd e. let h = Option.some-injective 4 fd e in omega arith), tt),
)

cycle_init-Initialises_example :
    Initialises
      (all_open sockets && true)
      (true && true)
      (cycle_init one_client some_sockaddr null_handler true polls conf_init before)
cycle_init-Initialises_example =
    cycle_init-Initialises one_client some_sockaddr null_handler true true true conf_init before
      below

abbrev size : Option Cycle → ℕ
size none = 0
size (some w) = w.connection_num

abbrev cycle_of : Initialised → Cycle
cycle_of (initialised v) = v.cycle
cycle_of init_error = before
cycle_of out_of_tables = before

abbrev started : Cycle
started = cycle_of (cycle_init one_client some_sockaddr null_handler true polls conf_init before)

abbrev ReportedFrom : Cycle → Type 0
ReportedFrom v =
    WaitsReported one_client 1 one_client-Gives run_close (runs-Keeps one_client chosen) false
      two_entries (enable_accept one_client v.listening v).cycle

-- without a list of events `main` calls NULL
run_no_list :
    main one_client some_sockaddr null_handler true
      (record { made = true; listed = false })
      2
      run_close
      two_entries
      before
    ≡ none
unfolding main process_event epoll_init with_functions set_tables cycle_init init_events on_events
    http_init listening_init add_nodes add_node new_listening open_listening_socket tries on_pass
    pass on_fd on_tried behind attempt on_socket on_option on_nonblocking on_bind on_listen
    event_init clear_tables add_listening add_one set_connection set_event
run_no_list = refl
