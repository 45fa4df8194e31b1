-- ===== src/Socket.antt =====
-- `ehd_recv` and `ehd_send` of core/ehd_socket.c, over the answers of the system calls `recv` and
-- `send`, which are not the program's: a list of them is an argument, one for each call made.
pub mod Interrupts
mod Tests
use ehttpd.Prelude.{
  ℕ, zero, suc, Bool, true, false, Option, none, some, List, [], ◌∷◌, ltb, if◌then◌else◌,
}

pub data Errno : Type 0 where
  eagain eintr : Errno
  other : ℕ → Errno

-- what a system call returns: a count, 0 included, or -1 with `errno`
pub data Answer : Type 0 where
  count : ℕ → Answer
  failed : Errno → Answer

-- the flags of `ehd_event_t` that the two functions set
pub record Event : Type 0 where
  pub rready : Bool
  pub wready : Bool
  pub eof : Bool
  pub error : Bool

-- the result: a count, EHD_AGAIN or EHD_ERROR, the latter with `errno` as it was left
pub data Ret : Type 0 where
  done : ℕ → Ret
  again : Ret
  error : Errno → Ret

pub record Called : Type 0 where
  pub ret : Ret
  pub event : Event
  pub rest : List Answer

-- the branches `n == 0` and `n > 0` of `ehd_recv`
unfoldable pub on_received : (size n : ℕ) → Event → Event
on_received size zero ev = record ev { rready = false; eof = true }
on_received size (suc n) ev = if ltb (suc n) size then record ev { rready = false } else ev

-- the branches `n > 0` and `n == 0` of `ehd_send`
unfoldable pub on_sent : (size n : ℕ) → Event → Event
on_sent size zero ev = record ev { wready = false }
on_sent size (suc n) ev = if ltb (suc n) size then record ev { wready = false } else ev

-- `do { ... } while (err == EINTR)`; `none` if the list of answers is too short
unfoldable pub recv : (size : ℕ) → Event → List Answer → Option Called
recv size ev [] = none
recv size ev (count n ∷ xs) =
    some (record { ret = done n; event = on_received size n ev; rest = xs })
recv size ev (failed eagain ∷ xs) =
    some (record { ret = again; event = record ev { rready = false }; rest = xs })
recv size ev (failed eintr ∷ xs) = recv size ev xs
recv size ev (failed (other e) ∷ xs) = some (record {
  ret = error (other e);
  event = record ev { rready = false; error = true };
  rest = xs;
})

-- On an error `ehd_send` clears `rready`, as `ehd_recv` does.
unfoldable pub send : (size : ℕ) → Event → List Answer → Option Called
send size ev [] = none
send size ev (count n ∷ xs) = some (record { ret = done n; event = on_sent size n ev; rest = xs })
send size ev (failed eagain ∷ xs) =
    some (record { ret = again; event = record ev { wready = false }; rest = xs })
send size ev (failed eintr ∷ xs) = send size ev xs
send size ev (failed (other e) ∷ xs) = some (record {
  ret = error (other e);
  event = record ev { rready = false; error = true };
  rest = xs;
})
