-- ===== src/Listening/Tests.antt =====
-- The opening of listening sockets at concrete inputs.
use ehttpd.Prelude.{
  ℕ, ◌≡◌, refl, false, Option, none, some, List, [], ◌∷◌, length, All, map, ltb, ◌==◌, ◌&&◌,
  if◌then◌else◌,
}
use ehttpd.Socket.{count, failed, other}
use ehttpd.Kernel.{Kernel, socket, bind}
use ehttpd.Listening.{
  Listening, other_handler, eaddrinuse, Result, bind_failed, on_listen, on_bind, on_nonblocking,
  on_option, on_socket, attempt, behind, on_tried, on_fd, pass, on_pass, tries,
  open_listening_socket,
}
use ehttpd.Listening.Passes.{all_open}
use ehttpd.Listening.Sockets.{binds, IsServed}
use ehttpd.Listening.Outcome.{open_listening_socket-Opened, open_listening_socket-IsServed}

-- Every call succeeds, but that address 8 can be bound from the third `bind` on. The descriptor of
-- a new socket is the number of calls so far.
abbrev patient : Kernel
patient (bind s a ∷ log) = if a == 8 && ltb (binds log) 2 then failed (other 13) else count 0
patient (socket ∷ log) = count (length log)
patient log = count 0

abbrev in_use : Kernel
in_use (bind s a ∷ log) = if a == 8 then failed (other eaddrinuse) else count 0
in_use (socket ∷ log) = count (length log)
in_use log = count 0

abbrev two : List Listening
two =
    record { fd = none; address = 7; backlog = 5; pool_size = 16384; handler = other_handler 0 }
    ∷ record { fd = none; address = 8; backlog = 5; pool_size = 16384; handler = other_handler 0 }
    ∷ []

abbrev fds : Result → List (Option ℕ)
fds r = map (λ l. l.fd) r.listenings

-- the second pass binds the second address; the descriptor 5 of the first one is lost
run_patient : fds (open_listening_socket patient two []) ≡ some 0 ∷ some 10 ∷ []
unfolding open_listening_socket tries on_pass pass on_fd on_tried behind attempt on_socket on_option
    on_nonblocking on_bind on_listen bind_failed
run_patient = refl

run_in_use : (open_listening_socket in_use two []).ok ≡ false
unfolding open_listening_socket tries on_pass pass on_fd on_tried behind attempt on_socket on_option
    on_nonblocking on_bind on_listen bind_failed
run_in_use = refl

open_listening_socket-Opened_example :
    (open_listening_socket in_use two []).ok
    ≡ all_open (open_listening_socket in_use two []).listenings
open_listening_socket-Opened_example = open_listening_socket-Opened in_use two []

open_listening_socket-IsServed_example :
    All
      (IsServed patient (open_listening_socket patient two []).log)
      (open_listening_socket patient two []).listenings
open_listening_socket-IsServed_example =
    open_listening_socket-IsServed patient two [] (tt, (tt, tt))
