-- ===== src/Program/Starts.antt =====
-- The program from its start.
use ehttpd.Prelude.{
  ℕ, ◌<◌, ◌≡◌, refl, ap, ◌∙◌, sym, inl, inr, Bool, true, false, ◌&&◌, Option, none, some, List, [],
  ◌∷◌, map, All, Option-cases, Bool-cases,
}
use mathlib.Core.Option
use mathlib.Core.Bool.{false≢true}
use mathlib.Core.Path.{subst}
use ehttpd.Kernel.{Kernel}
use ehttpd.Listening.{Listening, Handler, open_listening_socket}
use ehttpd.Listening.Passes.{is_open, all_open}
use ehttpd.Listening.Outcome.{open_listening_socket-Opened}
use ehttpd.Events.{Cycle}
use ehttpd.Events.Table.{IsTable}
use ehttpd.Events.Start.{
  event_init, set_tables, Polling, epoll_init, with_functions, IsReady, add_listening-IsTable,
  clear_tables, clear_tables-IsTable,
}
use ehttpd.Program.{
  Conf, with_handler, http_init, listening_init, Initialised, initialised, init_error,
  out_of_tables, on_events, init_events, cycle_init,
}
use ehttpd.Program.Handlers.{http_init-set_tables}

-- a descriptor that has an entry in tables of size `n`
abbrev pub HasEntry : ℕ → Listening → Type 0
HasEntry n l = (fd : ℕ) → l.fd ≡ some fd → fd < n

fd-IsReady :
    (n : ℕ) (l : Listening) (fd : Option ℕ)
    → l.fd ≡ fd
    → is_open fd ≡ true
    → HasEntry n l
    → IsReady n (with_handler l)
fd-IsReady n l none e o h = absurd (false≢true o)
fd-IsReady n l (some fd) e o h = (fd, e, h fd e, tt)

both : (a b : Bool) → (a && b) ≡ true → (a ≡ true) × (b ≡ true)
both true b e = (refl, e)
both false b e = absurd (false≢true e)

open-IsReady :
    (n : ℕ) (ls : List Listening)
    → all_open ls ≡ true
    → All (HasEntry n) ls
    → All (IsReady n) (map with_handler ls)
open-IsReady n [] h b = tt
open-IsReady n (l ∷ ls) h (b, bs) =
    let (o, os) = both (is_open l.fd) (all_open ls) h in
    (fd-IsReady n l l.fd refl o b, open-IsReady n ls os bs)

polls :
    (made listed : Bool) → epoll_init (record { made = made; listed = listed }) ≡ (made && listed)
unfolding epoll_init
polls true listed = refl
polls false listed = refl

-- the cycle that `ehd_event_init` finds
abbrev listening_cycle : Kernel → (List ℕ → ℕ → ℕ) → Handler → Conf → Cycle → Cycle
listening_cycle k sockaddr unset conf w =
    let r = open_listening_socket k (listening_init sockaddr unset conf) w.log in
    record w { listening = r.listenings; log = r.log }

module _ (k : Kernel) (sockaddr : List ℕ → ℕ → ℕ) (unset : Handler) (p : Polling) (conf : Conf)
    (w : Cycle)
    (opened : (open_listening_socket k (listening_init sockaddr unset conf) w.log).ok ≡ true)
    (below : All
      (HasEntry conf.connection_num)
      (open_listening_socket k (listening_init sockaddr unset conf) w.log).listenings) where
  abbrev Before : Cycle
  Before = listening_cycle k sockaddr unset conf w

  before-IsReady : All (IsReady conf.connection_num) (http_init Before).listening
  unfolding http_init
  before-IsReady =
      open-IsReady conf.connection_num Before.listening
        (sym (open_listening_socket-Opened k (listening_init sockaddr unset conf) w.log) ∙ opened)
        below

  starts : (u : Cycle) × (set_tables conf.connection_num (http_init Before) ≡ some u) × IsTable u
  unfolding set_tables clear_tables
  starts =
      add_listening-IsTable conf.connection_num (http_init Before).listening
        (clear_tables conf.connection_num (http_init Before)) refl before-IsReady
        (clear_tables-IsTable conf.connection_num (http_init Before))

  set_tables-some :
      (v : Cycle) × (set_tables conf.connection_num Before ≡ some v) × IsTable (http_init v)
  set_tables-some =
      let (u, f, t) = starts in
      let moved = http_init-set_tables conf.connection_num Before in
      elim (Option-cases (set_tables conf.connection_num Before)) [
        | inl e ↦
            absurd (Option.none-ne-some u (sym (moved ∙ ap (λ o. Option.map http_init o) e) ∙ f))
        | inr (v, e) ↦
            let g = moved ∙ ap (λ o. Option.map http_init o) e in
            (v, e, subst (λ c. IsTable c) (Option.some-injective u (http_init v) (sym f ∙ g)) t)
      ]

  pub cycle_init-initialised :
      (v : Cycle) × (cycle_init k sockaddr unset true p conf w
        ≡ initialised (record { cycle = v; callable = epoll_init p }))
      × IsTable v
  unfolding cycle_init init_events on_events event_init with_functions
  cycle_init-initialised = let (v, e, t) = set_tables-some in (http_init v, rw (opened, e) refl, t)

-- EHD_OK, with the tables in order, when `ok`, and EHD_ERROR otherwise
abbrev pub Initialises : (ok callable : Bool) → Initialised → Type 0
Initialises ok callable (initialised v) = (ok ≡ true) × IsTable v.cycle × (v.callable ≡ callable)
Initialises ok callable init_error = ok ≡ false
Initialises ok callable out_of_tables = ⊥

opened-Initialises :
    (k : Kernel) (sockaddr : List ℕ → ℕ → ℕ) (unset : Handler) (tables_ok : Bool) (p : Polling)
    (conf : Conf) (w : Cycle)
    → (open_listening_socket k (listening_init sockaddr unset conf) w.log).ok ≡ true
    → All
        (HasEntry conf.connection_num)
        (open_listening_socket k (listening_init sockaddr unset conf) w.log).listenings
    → Initialises tables_ok (epoll_init p) (cycle_init k sockaddr unset tables_ok p conf w)
unfolding cycle_init init_events
opened-Initialises k sockaddr unset true p conf w o b =
    let (v, e, t) = cycle_init-initialised k sockaddr unset p conf w o b in
    subst (λ r. Initialises true (epoll_init p) r) (sym e) (refl, t, refl)
opened-Initialises k sockaddr unset false p conf w o b = rw o refl

-- Where the descriptors of the listening sockets are below `connection_num`, `ehd_cycle_init` writes
-- nothing outside the tables of connections and events. It returns EHD_OK if and only if each
-- listening socket of the configuration has a descriptor and the two tables are allocated, and then
-- the tables are in order, whatever was in their memory, and in that of the handlers of the
-- listening sockets, before; the functions of the event loop are set then if and only if both
-- `epoll_create` and the allocation of the list of events succeed, on which EHD_OK does not depend.
pub cycle_init-Initialises :
    (k : Kernel) (sockaddr : List ℕ → ℕ → ℕ) (unset : Handler) (tables_ok made listed : Bool)
    (conf : Conf) (w : Cycle)
    → All
        (HasEntry conf.connection_num)
        (open_listening_socket k (listening_init sockaddr unset conf) w.log).listenings
    → Initialises
        (all_open (open_listening_socket k (listening_init sockaddr unset conf) w.log).listenings
          && tables_ok)
        (made && listed)
        (cycle_init k sockaddr unset tables_ok (record { made = made; listed = listed }) conf w)
unfolding cycle_init epoll_init
cycle_init-Initialises k sockaddr unset tables_ok made listed conf w b =
    let p : Polling = record { made = made; listed = listed } in
    let ls = listening_init sockaddr unset conf in
    let same = open_listening_socket-Opened k ls w.log in
    elim (Bool-cases (open_listening_socket k ls w.log).ok) [
      | inl o ↦ rw (sym same ∙ o) (
          subst (λ c. Initialises tables_ok c (cycle_init k sockaddr unset tables_ok p conf w))
            (polls made listed) (opened-Initialises k sockaddr unset tables_ok p conf w o b))
      | inr o ↦ rw (sym same ∙ o) (rw o refl)
    ]
