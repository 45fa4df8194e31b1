-- ===== src/Socket/Tests.antt =====
-- `ehd_recv` and `ehd_send` on concrete answers, and their theorem at one.
use ehttpd.Prelude.{◌≡◌, refl, true, false, some, [], ◌∷◌, ◌++◌}
use ehttpd.Socket.{eagain, other, count, failed, Event, error, recv, send}
use ehttpd.Socket.Interrupts.{Received, interrupts, recv-Received}

abbrev ready : Event
ready = record { rready = true; wready = true; eof = false; error = false }

-- a failed write leaves `wready` and clears `rready`
send_reset :
    send 10 ready (failed (other 104) ∷ [])
    ≡ some (record {
      ret = error (other 104);
      event = record { rready = false; wready = true; eof = false; error = true };
      rest = [];
    })
unfolding send
send_reset = refl

recv-Received_example :
    Received 100 ready
      (count 20)
      (failed eagain ∷ [])
      (recv 100 ready (interrupts 2 ++ (count 20 ∷ failed eagain ∷ [])))
recv-Received_example = recv-Received 2 100 ready (count 20) (failed eagain ∷ []) (λ e. cc)
