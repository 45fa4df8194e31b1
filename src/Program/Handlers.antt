-- ===== src/Program/Handlers.antt =====
-- `ehd_http_init`, which sets the handlers of the listening sockets behind `ehd_event_init`, against
-- setting them before it.
use ehttpd.Prelude.{
  ℕ, ◌≡◌, refl, ap, ◌∙◌, inl, inr, Option, none, some, List, [], ◌∷◌, map, ltb, ◌==◌, Bool-cases,
}
use mathlib.Core.Option
use mathlib.Core.Path.{fun_ext}
use ehttpd.Listening.{Listening}
use ehttpd.Events.{Connection, Cycle, set_event, set_connection}
use ehttpd.Events.Start.{
  clear_tables, listening_connection, listening_event, add_one, add_listening, set_tables,
}
use ehttpd.Program.{with_handler, http_init}

-- the cycle with other connections
abbrev in_cycle : Cycle → (ℕ → Connection) → Cycle
in_cycle w f = record w { connections = f }

http_init-clear_tables :
    (n : ℕ) (w : Cycle) → clear_tables n (http_init w) ≡ http_init (clear_tables n w)
unfolding clear_tables http_init
http_init-clear_tables n w =
    ap (in_cycle (clear_tables n (http_init w)))
      (fun_ext (λ i. elim (Bool-cases (ltb i n)) [ inl e ↦ rw e refl | inr e ↦ rw e refl ]))

http_init-put :
    (fd : ℕ) (l : Listening) (w : Cycle)
    → set_connection fd
        (listening_connection fd (with_handler l))
        (set_event fd (listening_event fd) (http_init w))
      ≡ http_init
          (set_connection fd (listening_connection fd l) (set_event fd (listening_event fd) w))
unfolding set_connection set_event http_init
http_init-put fd l w =
    ap (in_cycle (http_init (set_event fd (listening_event fd) w)))
      (fun_ext (λ i. elim (Bool-cases (i == fd)) [ inl e ↦ rw e refl | inr e ↦ rw e refl ]))

http_init-add_one :
    (rest rest' : Cycle → Option Cycle) (l : Listening) (w : Cycle) (fd : Option ℕ)
    → ((v : Cycle) → rest' (http_init v) ≡ Option.map http_init (rest v))
    → add_one rest' (with_handler l) (http_init w) fd ≡ Option.map http_init (add_one rest l w fd)
unfolding add_one http_init
http_init-add_one rest rest' l w none h = refl
http_init-add_one rest rest' l w (some fd) h = elim (Bool-cases (ltb fd w.connection_num)) [
  | inl b ↦ rw b (ap rest' (http_init-put fd l w) ∙ h _)
  | inr b ↦ rw b refl
]

http_init-add_listening :
    (ls : List Listening) (w : Cycle)
    → add_listening (map with_handler ls) (http_init w) ≡ Option.map http_init (add_listening ls w)
unfolding add_listening
http_init-add_listening [] w = refl
http_init-add_listening (l ∷ ls) w =
    http_init-add_one (λ v. add_listening ls v) (λ v. add_listening (map with_handler ls) v) l w
      l.fd (http_init-add_listening ls)

pub http_init-set_tables :
    (n : ℕ) (w : Cycle) → set_tables n (http_init w) ≡ Option.map http_init (set_tables n w)
unfolding set_tables http_init
http_init-set_tables n w =
    ap (add_listening (map with_handler w.listening)) (http_init-clear_tables n w)
    ∙ http_init-add_listening w.listening (clear_tables n w)
