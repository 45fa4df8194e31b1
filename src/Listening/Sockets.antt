-- ===== src/Listening/Sockets.antt =====
-- What has been called for the sockets of one pass.
use ehttpd.Prelude.{
  inl, inr, ℕ, suc, ◌+◌, ◌≤◌, ◌≡◌, refl, Bool, true, Option, none, some, List, [], ◌∷◌, length, All,
  arith, ap, Bool-cases, ◌==◌,
}
use ehttpd.Socket.{Errno, eagain, eintr, other, Answer, count, failed}
use ehttpd.Kernel.{Call, Log, Kernel, Answered, here, there, bind, listen}
use ehttpd.Listening.{
  Listening, Tried, Attempt, Pass, opened, not_bound, refused, bind_failed, eaddrinuse, on_listen,
  on_bind, on_nonblocking, on_option, on_socket, attempt, behind, on_tried, on_fd, pass,
}

-- the number of calls of `bind`
abbrev pub binds : Log → ℕ
binds [] = 0
binds (bind s a ∷ log) = 1 + binds log
binds (_ ∷ log) = binds log

-- a descriptor that was bound to the address of its listening socket and made to listen
abbrev pub ServedBy : Kernel → Log → Listening → Option ℕ → Type 0
ServedBy k log l none = Unit
ServedBy k log l (some s) = Answered k (bind s l.address) log × Answered k (listen s l.backlog) log

abbrev pub IsServed : Kernel → Log → Listening → Type 0
IsServed k log l = ServedBy k log l l.fd

abbrev OpenedBy : Kernel → Log → Listening → Tried → Type 0
OpenedBy k log l (opened s) = ServedBy k log l (some s)
OpenedBy k log l _ = Unit

-- `log'` is reached from `log` with `n` calls of `bind` at most
pub record Later (k : Kernel) (n : ℕ) (log log' : Log) : Type 0 where
  pub answered : (c : Call) → Answered k c log → Answered k c log'
  pub bound : binds log' ≤ binds log + n

Later-refl : (k : Kernel) (log : Log) → Later k 0 log log
Later-refl k log = record { answered = λ c x. x; bound = omega arith }

Later-more : (k : Kernel) (log : Log) → Later k 1 log log
Later-more k log = record { answered = λ c x. x; bound = omega arith }

pub Later-trans :
    (k : Kernel) (n m : ℕ) (a b c : Log) → Later k n a b → Later k m b c → Later k (n + m) a c
Later-trans k n m a b c u v = record {
  answered = λ d x. v.answered d (u.answered d x);
  bound = let l = u.bound in let r = v.bound in omega arith;
}

pub ServedBy-Later :
    (k : Kernel) (n : ℕ) (log log' : Log) (l : Listening) (fd : Option ℕ)
    → Later k n log log'
    → ServedBy k log l fd
    → ServedBy k log' l fd
ServedBy-Later k n log log' l none u s = tt
ServedBy-Later k n log log' l (some fd) u (b, s) = (u.answered _ b, u.answered _ s)

module _ (k : Kernel) (l : Listening) where
  abbrev After : ℕ → Log → Attempt → Type 0
  After n log a = Later k n log a.log × OpenedBy k a.log l a.tried

  on_listen-After :
      (s : ℕ) (log : Log) (x : Answer)
      → k (listen s l.backlog ∷ log) ≡ x
      → Answered k (bind s l.address) log
      → After 0 (listen s l.backlog ∷ log) (on_listen k l s (listen s l.backlog ∷ log) x)
  unfolding on_listen
  on_listen-After s log (count n) e b = (Later-refl k _, (there b, here n e))
  on_listen-After s log (failed x) e b = (Later-refl k _, tt)

  call-After :
      (c : Call) (n m : ℕ) (log : Log) (a : Attempt)
      → binds (c ∷ log) + m ≤ binds log + n
      → After m (c ∷ log) a
      → After n log a
  call-After c n m log a h (u, o) = (
    record {
      answered = λ d x. u.answered d (there x);
      bound = let b = u.bound in omega (arith, h);
    },
    o,
  )

  failed-After : (log : Log) (e : Errno) → OpenedBy k log l (bind_failed e)
  unfolding bind_failed
  failed-After log eagain = tt
  failed-After log eintr = tt
  failed-After log (other e) = elim (Bool-cases (e == eaddrinuse)) [
    | inl t ↦ rw t tt
    | inr t ↦ rw t tt
  ]

  on_bind-After :
      (s : ℕ) (log : Log) (x : Answer)
      → k (bind s l.address ∷ log) ≡ x
      → After 0 (bind s l.address ∷ log) (on_bind k l s (bind s l.address ∷ log) x)
  unfolding on_bind
  on_bind-After s log (count n) e =
      call-After _ 0 0 _ _ (omega arith) (on_listen-After s _ _ refl (here n e))
  on_bind-After s log (failed x) e = (Later-refl k _, failed-After _ x)

  on_nonblocking-After : (s : ℕ) (log : Log) (x : Answer) → After 1 log (on_nonblocking k l s log x)
  unfolding on_nonblocking
  on_nonblocking-After s log (count n) =
      call-After _ 1 0 _ _ (omega arith) (on_bind-After s log _ refl)
  on_nonblocking-After s log (failed x) = (Later-more k log, tt)

  on_option-After : (s : ℕ) (log : Log) (x : Answer) → After 1 log (on_option k l s log x)
  unfolding on_option
  on_option-After s log (count n) = call-After _ 1 1 _ _ (omega arith) (on_nonblocking-After s _ _)
  on_option-After s log (failed x) = (Later-more k log, tt)

  on_socket-After : (log : Log) (x : Answer) → After 1 log (on_socket k l log x)
  unfolding on_socket
  on_socket-After log (count s) = call-After _ 1 1 _ _ (omega arith) (on_option-After s _ _)
  on_socket-After log (failed x) = (Later-more k log, tt)

  attempt-After : (log : Log) → After 1 log (attempt k l log)
  unfolding attempt
  attempt-After log = call-After _ 1 1 _ _ (omega arith) (on_socket-After _ _)

-- what a pass has done with the sockets `ls`
pub record Serves (k : Kernel) (ls : List Listening) (log : Log) (p : Pass) : Type 0 where
  pub later : Later k (length ls) log p.log
  pub size : length p.listenings ≡ length ls
  pub served : All (IsServed k log) ls → All (IsServed k p.log) p.listenings

pub All-Later :
    (k : Kernel) (n : ℕ) (log log' : Log) (ls : List Listening)
    → Later k n log log'
    → All (IsServed k log) ls
    → All (IsServed k log') ls
All-Later k n log log' [] u w = tt
All-Later k n log log' (l ∷ ls) u (x, w) =
    (ServedBy-Later k n log log' l l.fd u x, All-Later k n log log' ls u w)

module _ (k : Kernel) (l : Listening) (ls : List Listening) where
  behind-Serves :
      (m : Listening) (n : ℕ) (log mid : Log) (p : Pass)
      → n ≤ 1
      → Later k n log mid
      → (IsServed k log l → IsServed k mid m)
      → Serves k ls mid p
      → Serves k (l ∷ ls) log (behind m p)
  unfolding behind
  behind-Serves m n log mid p h u f w = record {
    later = record {
      answered = λ c x. w.later.answered c (u.answered c x);
      bound = let a = w.later.bound in let b = u.bound in omega (arith, h);
    };
    size = ap suc w.size;
    served = λ (x, xs). (
      ServedBy-Later k (length ls) mid p.log m m.fd w.later (f x),
      w.served (All-Later k n log mid ls u xs),
    );
  }

  on_tried-Serves :
      (rest : Bool → Log → Pass) (f : Bool) (log mid : Log) (t : Tried)
      → Later k 1 log mid
      → OpenedBy k mid l t
      → ((g : Bool) (m : Log) → Serves k ls m (rest g m))
      → Serves k (l ∷ ls) log (on_tried l ls f mid rest t)
  unfolding on_tried
  on_tried-Serves rest f log mid (opened s) u o w =
      behind-Serves (record l { fd = some s }) 1 log mid (rest f mid) (omega arith) u (λ x. o)
        (w f mid)
  on_tried-Serves rest f log mid not_bound u o w =
      behind-Serves l 1 log mid (rest true mid) (omega arith) u
        (ServedBy-Later k 1 log mid l l.fd u) (w true mid)
  on_tried-Serves rest f log mid refused u o w = record {
    later = record { answered = u.answered; bound = let b = u.bound in omega arith };
    size = refl;
    served = All-Later k 1 log mid (l ∷ ls) u;
  }

  on_fd-Serves :
      (rest : Bool → Log → Pass) (f : Bool) (log : Log) (fd : Option ℕ)
      → ((g : Bool) (m : Log) → Serves k ls m (rest g m))
      → Serves k (l ∷ ls) log (on_fd k l ls f log rest fd)
  unfolding on_fd
  on_fd-Serves rest f log (some s) w =
      behind-Serves l 0 log log (rest f log) (omega arith) (Later-refl k log) (λ x. x) (w f log)
  on_fd-Serves rest f log none w =
      let a = attempt k l log in
      let (u, o) = attempt-After k l log in on_tried-Serves rest f log a.log a.tried u o w

pub pass-Serves :
    (k : Kernel) (ls : List Listening) (f : Bool) (log : Log) → Serves k ls log (pass k ls f log)
unfolding pass
pass-Serves k [] f log = record { later = Later-refl k log; size = refl; served = λ w. tt }
pass-Serves k (l ∷ ls) f log =
    on_fd-Serves k l ls (λ g m. pass k ls g m) f log l.fd (λ g m. pass-Serves k ls g m)
