-- ===== src/Listening/Outcome.antt =====
-- What `ehd_open_listening_socket` returns, and what it leaves.
use ehttpd.Prelude.{
  ℕ, zero, suc, ◌+◌, ◌*◌, ◌≤◌, length, All, ◌≡◌, refl, inl, inr, Bool, true, false, List, ◌∷◌,
  arith, Bool-cases,
}
use mathlib.Core.Path.{subst}
use ehttpd.Kernel.{Log, Kernel, there, usleep}
use ehttpd.Listening.{Listening, Pass, Result, pass, on_pass, tries, open_listening_socket}
use ehttpd.Listening.Passes.{all_open, Passed, pass-Passed}
use ehttpd.Listening.Sockets.{binds, IsServed, Later, Serves, All-Later, pass-Serves}

abbrev Opened : Result → Type 0
Opened r = r.ok ≡ all_open r.listenings

on_pass-Opened :
    (p : Pass) (rest : Result)
    → Passed false p
    → (all_open p.listenings ≡ false → Opened rest)
    → Opened (on_pass p rest)
unfolding on_pass
on_pass-Opened p rest (inl (e, o)) w = rw e (rw o refl)
on_pass-Opened p rest (inr (e, f)) w = elim (Bool-cases p.failed) [
  | inl t ↦ rw e (rw t (w (ground arith)))
  | inr t ↦ rw e (rw t (ground arith))
]

tries-Opened :
    (k : Kernel) (n : ℕ) (ls : List Listening) (log : Log)
    → all_open ls ≡ false
    → Opened (tries k n true ls log)
unfolding tries
tries-Opened k zero ls log e = rw e refl
tries-Opened k (suc n) ls log e =
    let p = pass k ls false log in
    on_pass-Opened p (tries k n true p.listenings (usleep 500 ∷ p.log)) (pass-Passed k ls false log)
      (λ o. tries-Opened k n p.listenings (usleep 500 ∷ p.log) o)

-- `ehd_open_listening_socket` returns EHD_OK if and only if each listening socket has a descriptor
-- when it returns.
pub open_listening_socket-Opened :
    (k : Kernel) (ls : List Listening) (log : Log)
    → (open_listening_socket k ls log).ok ≡ all_open (open_listening_socket k ls log).listenings
unfolding open_listening_socket tries
open_listening_socket-Opened k ls log =
    let p = pass k ls false log in
    on_pass-Opened p (tries k 4 true p.listenings (usleep 500 ∷ p.log)) (pass-Passed k ls false log)
      (λ o. tries-Opened k 4 p.listenings (usleep 500 ∷ p.log) o)

-- what the call has done, with `n` passes at most
record Served (k : Kernel) (n : ℕ) (ls : List Listening) (log : Log) (r : Result) : Type 0 where
  later : Later k (n * length ls) log r.log
  served : All (IsServed k log) ls → All (IsServed k r.log) r.listenings

more_passes : (n x a b : ℕ) → a ≤ b + x → a ≤ b + suc n * x
more_passes n x a b h = omega arith

passes : (n x y a b c : ℕ) → y ≡ x → a ≤ b + x → c ≤ a + n * y → c ≤ b + suc n * x
passes n x y a b c e h g = let g' : c ≤ a + n * x = subst (λ t. c ≤ a + n * t) e g in omega arith

module _ (k : Kernel) where
  on_pass-Served :
      (n : ℕ) (ls : List Listening) (log : Log) (p : Pass) (rest : Result)
      → Serves k ls log p
      → Served k n p.listenings (usleep 500 ∷ p.log) rest
      → Served k (suc n) ls log (on_pass p rest)
  unfolding on_pass
  on_pass-Served n ls log p rest w r =
      let returned : Later k (suc n * length ls) log p.log = record {
        answered = w.later.answered;
        bound = more_passes n (length ls) _ _ w.later.bound;
      } in
      elim (Bool-cases p.stopped) [
        | inl e ↦ rw e (record { later = returned; served = w.served })
        | inr e ↦ elim (Bool-cases p.failed) [
          | inl t ↦ rw e (
              rw t (record {
                later = record {
                  answered = λ c x. r.later.answered c (there (w.later.answered c x));
                  bound =
                      passes n (length ls) (length p.listenings) (binds p.log) (binds log)
                        (binds rest.log) w.size w.later.bound r.later.bound;
                };
                served = λ x. r.served (
                    All-Later k 0 p.log (usleep 500 ∷ p.log) p.listenings
                      (record { answered = λ c y. there y; bound = omega arith }) (w.served x));
              }))
          | inr t ↦ rw e (rw t (record { later = returned; served = w.served }))
        ]
      ]

  tries-Served :
      (n : ℕ) (f : Bool) (ls : List Listening) (log : Log) → Served k n ls log (tries k n f ls log)
  unfolding tries
  tries-Served zero f ls log = record {
    later = record { answered = λ c x. x; bound = omega arith };
    served = λ x. x;
  }
  tries-Served (suc n) f ls log =
      let p = pass k ls false log in
      on_pass-Served n ls log p _ (pass-Serves k ls false log)
        (tries-Served n true p.listenings (usleep 500 ∷ p.log))

-- If every descriptor in the table was bound to the address of its socket and made to listen with
-- its backlog, by calls that did not fail, then so was every descriptor that
-- `ehd_open_listening_socket` leaves there, whatever it returns.
pub open_listening_socket-IsServed :
    (k : Kernel) (ls : List Listening) (log : Log)
    → All (IsServed k log) ls
    → All
        (IsServed k (open_listening_socket k ls log).log)
        (open_listening_socket k ls log).listenings
unfolding open_listening_socket
open_listening_socket-IsServed k ls log w = (tries-Served k 5 false ls log).served w

-- `ehd_open_listening_socket` calls `bind` at most five times for each listening socket.
pub open_listening_socket-binds :
    (k : Kernel) (ls : List Listening) (log : Log)
    → binds (open_listening_socket k ls log).log ≤ binds log + 5 * length ls
unfolding open_listening_socket
open_listening_socket-binds k ls log = (tries-Served k 5 false ls log).later.bound
