-- ===== src/Kernel.antt =====
-- The system calls around sockets and epoll: the program asks, and what answers is an argument, a
-- function of all the calls made so far, the last one first.
use ehttpd.Prelude.{ℕ, ◌≡◌, Bool, Option, List, ◌∷◌}
use ehttpd.Socket.{Answer, count}

-- the operations of `epoll_ctl`
pub data Op : Type 0 where
  ctl_add ctl_mod ctl_del : Op

-- EPOLLIN, EPOLLOUT and EPOLLET of an event mask
pub record Mask : Type 0 where
  pub reads : Bool
  pub writes : Bool
  pub edge : Bool

-- A call with the arguments the program chose; `none` stands for the descriptor -1. An address to bind is known by its number.
pub data Call : Type 0 where
  socket : Call
  reuse_address : (fd : ℕ) → Call
  set_nonblocking : (fd : ℕ) → Call
  bind : (fd address : ℕ) → Call
  listen : (fd backlog : ℕ) → Call
  usleep : (time : ℕ) → Call
  accept : (fd : Option ℕ) → Call
  epoll_ctl : Op → (fd : Option ℕ) → Option Mask → Call
  close : (fd : Option ℕ) → Call
  create_pool : (size : ℕ) → Call
  destroy_pool : (pool : ℕ) → Call

abbrev pub Log : Type 0
Log = List Call

-- the answer to the head of the log, given the calls before it
abbrev pub Kernel : Type 0
Kernel = Log → Answer

-- a call that was made and did not fail
pub data Answered (k : Kernel) (c : Call) : Log → Type 0 where
  here : {log : Log} → (n : ℕ) → k (c ∷ log) ≡ count n → Answered k c (c ∷ log)
  there : {log : Log} {d : Call} → Answered k c log → Answered k c (d ∷ log)
