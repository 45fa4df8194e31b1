-- ===== src/Events/Start.antt =====
-- `ehd_event_init` of event/ehd_event.c, which sets up the two tables, and the loop from there on.
use ehttpd.Prelude.{
  ℕ, suc, ◌≡◌, refl, ◌∙◌, ap, inl, inr, Bool, true, false, Option, none, some, List, [], ◌∷◌, All,
  ltb, ◌<◌, ◌==◌, if◌then◌else◌, arith, Bool-cases,
}
use mathlib.Core.Option
use mathlib.Core.Path.{subst}
use ehttpd.Kernel.{Kernel}
use ehttpd.Listening.{Listening, null_handler, accept_handler}
use ehttpd.Events.{
  Event, Connection, Cycle, set_event, set_connection, ask, read_events, control, epoll_add,
}
use ehttpd.Events.Loop.{Wait, Enabling, enable_one, on_enabled, enable_accept, process}
use ehttpd.Events.Accepting.{SameSlot, Gives, same_index, index_eq}
use ehttpd.Events.Table.{IsFunction, InUse, IsTable, SameSlot-InUse}
use ehttpd.Events.Turns.{Keeps, WaitsReported, turns-Kept}

-- the loops over the two tables, whose memory held anything before
unfoldable pub clear_tables : (conn_n : ℕ) → Cycle → Cycle
clear_tables conn_n w = record w {
  connection_num = conn_n;
  connections = λ i.
      let c = w.connections i in
      if ltb i conn_n then record c { fd = none; has_data = false } else c;
  events = λ i. let ev = w.events i in if ltb i conn_n then record ev { closed = true } else ev;
}

-- the entry of a listening socket, and that of its event
abbrev pub listening_connection : (fd : ℕ) → Listening → Connection
listening_connection fd l = record {
  fd = some fd;
  event = fd;
  read_handler = accept_handler;
  write_handler = null_handler;
  listening = l;
  pool = none;
  has_data = false;
}

abbrev pub listening_event : (fd : ℕ) → Event
listening_event fd = record {
  connection = fd;
  events = record { reads = false; writes = false; edge = false };
  closed = false;
  accepts = true;
  active = false;
  rready = false;
  wready = false;
  disabled = false;
  error = false;
}

-- the body of the loop over `cycle->listening`, where `rest` is the loop over those that follow;
-- `none` when the descriptor is -1 or not below `connection_num`: the entries that are written then
-- are outside the tables
unfoldable pub add_one : (rest : Cycle → Option Cycle) → Listening → Cycle → Option ℕ → Option Cycle
add_one rest l w none = none
add_one rest l w (some fd) =
    if ltb fd w.connection_num
    then rest (set_connection fd (listening_connection fd l) (set_event fd (listening_event fd) w))
    else none

unfoldable pub add_listening : List Listening → Cycle → Option Cycle
add_listening [] w = some w
add_listening (l ∷ ls) w = add_one (λ v. add_listening ls v) l w l.fd

unfoldable pub set_tables : (conn_n : ℕ) → Cycle → Option Cycle
set_tables conn_n w = add_listening w.listening (clear_tables conn_n w)

-- what `epoll_create` and `malloc` give: whether there is a descriptor, and a list of events
pub record Polling : Type 0 where
  pub made : Bool
  pub listed : Bool

-- `ehd_event_epoll_init`, at the start of the program: whether it gets to the assignment to
-- `ehd_event_funps`, behind which it returns EHD_OK
unfoldable pub epoll_init : Polling → Bool
epoll_init p = if p.made then p.listed else false

-- `callable`: whether `ehd_event_funps` holds functions, and is not full of NULL
pub record Started : Type 0 where
  pub cycle : Cycle
  pub callable : Bool

unfoldable pub with_functions : Polling → Cycle → Started
with_functions p w = record { cycle = w; callable = epoll_init p }

-- What the `init` of `ehd_event_impl` returns is not looked at.
unfoldable pub event_init : Polling → (conn_n : ℕ) → Cycle → Option Started
event_init p conn_n w = Option.map (with_functions p) (set_tables conn_n w)

-- a listening socket that is open, with an entry in tables of size `n` and a handler for its clients
abbrev pub IsReady : ℕ → Listening → Type 0
IsReady n l = (fd : ℕ) × (l.fd ≡ some fd) × (fd < n) × IsFunction l.handler

pub clear_tables-IsTable : (n : ℕ) (w : Cycle) → IsTable (clear_tables n w)
unfolding clear_tables
clear_tables-IsTable n w i b = let h : ltb i n ≡ true = ground arith in inl (rw h refl)

module _ (fd : ℕ) (c : Connection) (ev : Event) (w : Cycle) where
  abbrev Put : Cycle
  Put = set_connection fd c (set_event fd ev w)

  other-SameSlot : (j : ℕ) → (j == fd) ≡ false → SameSlot w Put j
  unfolding set_connection set_event
  other-SameSlot j e = record {
    connection = rw e refl;
    pointer = rw e refl;
    events = rw e refl;
    closed = rw e refl;
    active = rw e refl;
  }

  put-IsTable : InUse Put fd → IsTable w → IsTable Put
  unfolding set_connection set_event
  put-IsTable u t j b = elim (Bool-cases (j == fd)) [
    | inl e ↦ inr (subst (λ i. InUse Put i) (index_eq j fd e) u)
    | inr e ↦ elim (t j b) [
      | inl n ↦ inl (rw e n)
      | inr v ↦ inr (SameSlot-InUse w Put j (other-SameSlot j e) v)
    ]
  ]

listening-InUse :
    (l : Listening) (fd : ℕ) (w : Cycle)
    → IsFunction l.handler
    → InUse (set_connection fd (listening_connection fd l) (set_event fd (listening_event fd) w)) fd
unfolding set_connection set_event
listening-InUse l fd w f = record {
  fd = rw (same_index fd) refl;
  event = rw (same_index fd) refl;
  pointer = rw (same_index fd) refl;
  closed = rw (same_index fd) refl;
  reader = rw (same_index fd) f;
  writer = inl (rw (same_index fd) refl);
}

add_one-within :
    (rest : Cycle → Option Cycle) (l : Listening) (w : Cycle) (fd : ℕ)
    → fd < w.connection_num
    → add_one rest l w (some fd)
      ≡ rest (set_connection fd (listening_connection fd l) (set_event fd (listening_event fd) w))
unfolding add_one
add_one-within rest l w fd h =
    let within : ltb fd w.connection_num ≡ true = ground arith in rw within refl

pub add_listening-IsTable :
    (n : ℕ) (ls : List Listening) (w : Cycle)
    → w.connection_num ≡ n
    → All (IsReady n) ls
    → IsTable w
    → (w' : Cycle) × (add_listening ls w ≡ some w') × IsTable w'
unfolding add_listening set_connection set_event
add_listening-IsTable n [] w z r t = (w, refl, t)
add_listening-IsTable n (l ∷ ls) w z ((fd, e, b, f), rs) t =
    let (w', e', t') =
      add_listening-IsTable n ls _ z rs (put-IsTable fd _ _ w (listening-InUse l fd w f) t) in
    (
      w',
      ap (add_one (λ v. add_listening ls v) l w) e
          ∙ add_one-within (λ v. add_listening ls v) l w fd (omega arith)
          ∙ e',
      t',
    )

module _ (k : Kernel) where
  -- An event that is registered for reading only needs no write handler.
  added-InUse :
      (e : ℕ) (w : Cycle) (j : ℕ) → InUse w j → InUse (epoll_add k e read_events w).cycle j
  unfolding epoll_add control set_event ask
  added-InUse e w j u = elim (Bool-cases (j == e)) [
    | inl h ↦
        let i = index_eq j e h in
        record {
          fd = u.fd;
          event = u.event;
          pointer = rw h (ap (λ n. (w.events n).connection) i ∙ u.pointer);
          closed = rw h (ap (λ n. (w.events n).closed) i ∙ u.closed);
          reader = u.reader;
          writer = inl (rw h refl);
        }
    | inr h ↦
        SameSlot-InUse w _ j
          (record {
            connection = refl;
            pointer = rw h refl;
            events = rw h refl;
            closed = rw h refl;
            active = rw h refl;
          })
          u
  ]

  added-IsTable : (e : ℕ) (w : Cycle) → IsTable w → IsTable (epoll_add k e read_events w).cycle
  unfolding epoll_add control set_event ask
  added-IsTable e w t j b = elim (t j b) [ inl n ↦ inl n | inr u ↦ inr (added-InUse e w j u) ]

  on_enabled-IsTable :
      (rest : Cycle → Enabling) (e : ℕ) (w : Cycle)
      → ((v : Cycle) → IsTable v → IsTable (rest v).cycle)
      → IsTable w
      → IsTable (on_enabled rest (epoll_add k e read_events w)).cycle
  unfolding on_enabled
  on_enabled-IsTable rest e w r t = elim (Bool-cases (epoll_add k e read_events w).ok) [
    | inl o ↦ rw o (r (epoll_add k e read_events w).cycle (added-IsTable e w t))
    | inr o ↦ rw o (added-IsTable e w t)
  ]

  enable_one-IsTable :
      (rest : Cycle → Enabling) (w : Cycle) (fd : Option ℕ)
      → ((v : Cycle) → IsTable v → IsTable (rest v).cycle)
      → IsTable w
      → IsTable (enable_one k rest w fd).cycle
  unfolding enable_one
  enable_one-IsTable rest w none r t = t
  enable_one-IsTable rest w (some fd) r t = on_enabled-IsTable rest fd w r t

  enable_accept-IsTable :
      (ls : List Listening) (w : Cycle) → IsTable w → IsTable (enable_accept k ls w).cycle
  unfolding enable_accept
  enable_accept-IsTable [] w t = t
  enable_accept-IsTable (l ∷ ls) w t =
      enable_one-IsTable (λ v. enable_accept k ls v) w l.fd (enable_accept-IsTable ls) t

-- Let the tables be in order, let `accept` give `n` clients at most, let each handler, called with
-- the tables in order, leave them in order and a read handler in its connection whose event is its
-- own, and let `epoll_wait` report only entries of the table, and EPOLLOUT only where it is
-- registered or the connection is closed. Then the loop goes through any waits without a call of a
-- NULL function, each call of the accepting handler returns, and the tables are in order at the end.
pub process-IsTable :
    (k : Kernel) (n : ℕ) (run : ℕ → ℕ → Cycle → Cycle) (th : Bool) (xs : List Wait) (w : Cycle)
    (gives : Gives k n) (keeps : Keeps run)
    → IsTable w
    → WaitsReported k n gives run keeps th xs (enable_accept k w.listening w).cycle
    → (w' : Cycle) × (process k (suc n) run th xs w ≡ some w') × IsTable w'
unfolding process
process-IsTable k n run th xs w gives keeps t v =
    turns-Kept k n gives run keeps th xs _ v (enable_accept-IsTable k w.listening w t)
