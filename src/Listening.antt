-- ===== src/Listening.antt =====
-- `ehd_open_listening_socket` of core/ehd_connection.c.
pub mod Passes
pub mod Sockets
pub mod Outcome
mod Tests
use ehttpd.Prelude.{
  ℕ, zero, suc, Bool, true, false, not, Option, none, some, List, [], ◌∷◌, ◌==◌, if◌then◌else◌,
}
use ehttpd.Socket.{Errno, eagain, eintr, other, Answer, count, failed}
use ehttpd.Kernel.{Call, Log, Kernel, socket, reuse_address, set_nonblocking, bind, listen, usleep}

abbrev pub eaddrinuse : ℕ
eaddrinuse = 98

-- a function pointer: NULL, `ehd_event_accept_handler`, or another function, by its number
pub data Handler : Type 0 where
  null_handler accept_handler : Handler
  other_handler : ℕ → Handler

-- `ehd_listening_t`; `fd` is `none` for -1
pub record Listening : Type 0 where
  pub fd : Option ℕ
  pub address : ℕ
  pub backlog : ℕ
  pub pool_size : ℕ
  pub handler : Handler

-- how the body of the inner loop ends: at its end, by `continue` behind `failed = 1`, or by return
-- of EHD_ERROR
pub data Tried : Type 0 where
  opened : ℕ → Tried
  not_bound refused : Tried

pub record Attempt : Type 0 where
  pub tried : Tried
  pub log : Log

unfoldable pub bind_failed : Errno → Tried
bind_failed eagain = not_bound
bind_failed eintr = not_bound
bind_failed (other e) = if e == eaddrinuse then refused else not_bound

module _ (k : Kernel) (lis : Listening) where
  unfoldable pub on_listen : (s : ℕ) → Log → Answer → Attempt
  on_listen s log (count n) = record { tried = opened s; log = log }
  on_listen s log (failed e) = record { tried = refused; log = log }

  unfoldable pub on_bind : (s : ℕ) → Log → Answer → Attempt
  on_bind s log (count n) = let asked = listen s lis.backlog ∷ log in on_listen s asked (k asked)
  on_bind s log (failed e) = record { tried = bind_failed e; log = log }

  unfoldable pub on_nonblocking : (s : ℕ) → Log → Answer → Attempt
  on_nonblocking s log (count n) = let asked = bind s lis.address ∷ log in on_bind s asked (k asked)
  on_nonblocking s log (failed e) = record { tried = refused; log = log }

  unfoldable pub on_option : (s : ℕ) → Log → Answer → Attempt
  on_option s log (count n) =
      let asked = set_nonblocking s ∷ log in on_nonblocking s asked (k asked)
  on_option s log (failed e) = record { tried = refused; log = log }

  unfoldable pub on_socket : Log → Answer → Attempt
  on_socket log (count s) = let asked = reuse_address s ∷ log in on_option s asked (k asked)
  on_socket log (failed e) = record { tried = refused; log = log }

  unfoldable pub attempt : Log → Attempt
  attempt log = let asked = socket ∷ log in on_socket asked (k asked)

-- the inner loop: `stopped` when it returns EHD_ERROR
pub record Pass : Type 0 where
  pub listenings : List Listening
  pub failed : Bool
  pub stopped : Bool
  pub log : Log

unfoldable pub behind : Listening → Pass → Pass
behind l p = record p { listenings = l ∷ p.listenings }

-- What is done behind the body for a socket, where `rest` is the loop over those that follow.
unfoldable pub on_tried :
    Listening → List Listening → (failed : Bool) → Log → (Bool → Log → Pass) → Tried → Pass
on_tried l ls f log rest (opened s) = behind (record l { fd = some s }) (rest f log)
on_tried l ls f log rest not_bound = behind l (rest true log)
on_tried l ls f log rest refused = record {
  listenings = l ∷ ls;
  failed = f;
  stopped = true;
  log = log;
}

unfoldable pub on_fd :
    Kernel
    → Listening
    → List Listening
    → (failed : Bool) → Log
    → (Bool → Log → Pass)
    → Option ℕ
    → Pass
on_fd k l ls f log rest (some fd) = behind l (rest f log)
on_fd k l ls f log rest none = let a = attempt k l log in on_tried l ls f a.log rest a.tried

unfoldable pub pass : Kernel → List Listening → (failed : Bool) → Log → Pass
pass k [] f log = record { listenings = []; failed = f; stopped = false; log = log }
pass k (l ∷ ls) f log = on_fd k l ls f log (λ g m. pass k ls g m) l.fd

-- what is returned, EHD_OK or EHD_ERROR, and what is left
pub record Result : Type 0 where
  pub ok : Bool
  pub listenings : List Listening
  pub log : Log

unfoldable pub on_pass : Pass → Result → Result
on_pass p rest =
    if p.stopped
    then record { ok = false; listenings = p.listenings; log = p.log }
    else if p.failed
    then rest
    else record { ok = true; listenings = p.listenings; log = p.log }

-- `for(tries = n; tries; tries--)` and what is behind it
unfoldable pub tries : Kernel → ℕ → (failed : Bool) → List Listening → Log → Result
tries k zero f ls log = record { ok = not f; listenings = ls; log = log }
tries k (suc n) f ls log =
    let p = pass k ls false log in on_pass p (tries k n true p.listenings (usleep 500 ∷ p.log))

unfoldable pub open_listening_socket : Kernel → List Listening → Log → Result
open_listening_socket k ls log = tries k 5 false ls log
