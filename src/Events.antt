-- ===== src/Events.antt =====
-- The event loop: the operations of event/ehd_epoll.c, `ehd_event_accept_handler` and
-- `ehd_event_enable_accept` of event/ehd_event_accept.c, and `ehd_close_connection` of
-- core/ehd_connection.c. A pointer into one of the cycle's two tables is its index there.
pub mod Loop
pub mod Table
pub mod Accepting
pub mod Acts
pub mod Turns
pub mod Closing
pub mod Start
mod Tests
use ehttpd.Prelude.{
  ℕ, zero, suc, Bool, true, false, Option, none, some, List, [], ◌∷◌, ◌==◌, leb, if◌then◌else◌,
}
use ehttpd.Socket.{Errno, eagain, eintr, other, Answer, count, failed}
use ehttpd.Kernel.{
  Op, Mask, Call, Log, Kernel, ctl_add, ctl_mod, ctl_del, set_nonblocking, accept, epoll_ctl, close,
  create_pool, destroy_pool,
}
use ehttpd.Listening.{Listening, Handler, null_handler}

-- `ehd_event_t`
pub record Event : Type 0 where
  pub connection : ℕ
  pub events : Mask
  pub closed : Bool
  pub accepts : Bool
  pub active : Bool
  pub rready : Bool
  pub wready : Bool
  pub disabled : Bool
  pub error : Bool

-- `ehd_connection_t`; `fd` is `none` for -1 and `pool` for NULL, and of `data` it is kept whether
-- it is NULL
pub record Connection : Type 0 where
  pub fd : Option ℕ
  pub event : ℕ
  pub read_handler : Handler
  pub write_handler : Handler
  pub listening : Listening
  pub pool : Option ℕ
  pub has_data : Bool

-- `ehd_cycle_t`, and the calls made so far
pub record Cycle : Type 0 where
  pub connection_num : ℕ
  pub connections : ℕ → Connection
  pub events : ℕ → Event
  pub listening : List Listening
  pub log : Log

abbrev pub set : {A : Type 0} → (ℕ → A) → ℕ → A → ℕ → A
set f i a j = if j == i then a else f j

unfoldable pub set_event : ℕ → Event → Cycle → Cycle
set_event e ev w = record w { events = set w.events e ev }

unfoldable pub set_connection : ℕ → Connection → Cycle → Cycle
set_connection i c w = record w { connections = set w.connections i c }

unfoldable pub ask : Call → Cycle → Cycle
ask c w = record w { log = c ∷ w.log }

-- EPOLLIN | EPOLLET
abbrev pub read_events : Mask
read_events = record { reads = true; writes = false; edge = true }

-- the entry of a new connection, and that of its event
abbrev pub new_connection : (s pool : ℕ) → Listening → Connection
new_connection s pool l = record {
  fd = some s;
  event = s;
  read_handler = l.handler;
  write_handler = null_handler;
  listening = l;
  pool = some pool;
  has_data = false;
}

abbrev pub new_event : (s : ℕ) → Event
new_event s = record {
  connection = s;
  events = record { reads = false; writes = false; edge = false };
  closed = false;
  accepts = false;
  active = false;
  rready = false;
  wready = false;
  disabled = false;
  error = false;
}

-- what is returned, EHD_OK or EHD_ERROR, and the cycle
pub record Called : Type 0 where
  pub ok : Bool
  pub cycle : Cycle

unfoldable pub succeeded : Answer → Bool
succeeded (count n) = true
succeeded (failed e) = false

module _ (k : Kernel) where
  -- `epoll_ctl(ep, op, c->fd, ...)` for the connection of event `e`
  unfoldable pub control : Op → (e : ℕ) → Option Mask → Cycle → Called
  control op e m w =
      let w' = ask (epoll_ctl op (w.connections (w.events e).connection).fd m) w in
      record { ok = succeeded (k w'.log); cycle = w' }

  unfoldable pub epoll_mod : (e : ℕ) → Mask → Cycle → Called
  epoll_mod e m w = control ctl_mod e (some m) (set_event e (record (w.events e) { events = m }) w)

  unfoldable pub epoll_add : (e : ℕ) → Mask → Cycle → Called
  epoll_add e m w =
      let op = if (w.events e).active then ctl_mod else ctl_add in
      control op e (some m) (set_event e (record (w.events e) { active = true; events = m }) w)

  -- `closing` is `flags == EHD_CLOSE_EVENT`. The flag `active` is stored from a variable that is
  -- not set, whose value is `unset`.
  unfoldable pub epoll_del : (unset : Bool) → (e : ℕ) → (closing : Bool) → Cycle → Called
  epoll_del unset e true w = record { ok = true; cycle = w }
  epoll_del unset e false w =
      let d = control ctl_del e none w in
      let w' = d.cycle in
      if d.ok
      then record { ok = true; cycle = set_event e (record (w'.events e) { active = unset }) w' }
      else d

  -- `ehd_close_connection`, behind the test of `c->pool`
  unfoldable pub close_with : (i pool : ℕ) → Cycle → Cycle
  close_with i pool w =
      let e = (w.connections i).event in
      let u = (epoll_del false e true w).cycle in
      let v = set_event e (record (u.events e) { closed = true }) u in
      let c = v.connections i in
      let x = set_connection i (record c { fd = none; has_data = false }) v in
      ask (close c.fd) (ask (destroy_pool pool) x)

  -- `if (c->pool == NULL) { return; }`
  unfoldable pub close_unless_null : (i : ℕ) → Cycle → Option ℕ → Cycle
  close_unless_null i w none = w
  close_unless_null i w (some pool) = close_with i pool w

  unfoldable pub close_connection : (i : ℕ) → Cycle → Cycle
  close_connection i w = close_unless_null i w (w.connections i).pool

  -- `bzero` of the two entries of `s`, what is assigned there, and `ehd_add_event`
  unfoldable pub install : (s pool : ℕ) → Listening → Cycle → Cycle
  install s pool l w =
      (epoll_add s read_events
        (set_event s (new_event s) (set_connection s (new_connection s pool l) w))).cycle

  module _ (i : ℕ) (rest : Cycle → Option Cycle) where
    -- behind `ehd_setnonblocking`
    unfoldable pub on_ready_socket : (s pool : ℕ) → Cycle → Answer → Option Cycle
    on_ready_socket s pool w (count n) = rest (install s pool (w.connections i).listening w)
    on_ready_socket s pool w (failed e) = some w

    -- behind `ehd_create_pool`
    unfoldable pub on_pool : (s : ℕ) → Cycle → Answer → Option Cycle
    on_pool s w (count pool) =
        let w' = ask (set_nonblocking s) w in on_ready_socket s pool w' (k w'.log)
    on_pool s w (failed e) = some w

    unfoldable pub on_client : (s : ℕ) → Cycle → Option Cycle
    on_client s w =
        let w' = ask (create_pool (w.connections i).listening.pool_size) w in
        if leb w.connection_num s then some (ask (close (some s)) w) else on_pool s w' (k w'.log)

    -- behind `accept`; `e` is the listening connection's event, `ev` of the source
    unfoldable pub on_accept : (e : ℕ) → Cycle → Answer → Option Cycle
    on_accept e w (count s) = on_client s w
    on_accept e w (failed eagain) = some w
    on_accept e w (failed _) =
        some (set_event e (record (w.events e) { disabled = true; error = true }) w)

  -- `while(1)`; `none` if the fuel is used up
  unfoldable pub accept_loop : ℕ → (i e : ℕ) → Cycle → Option Cycle
  accept_loop zero i e w = none
  accept_loop (suc n) i e w =
      let w' = ask (accept (w.connections i).fd) w in
      on_accept i (λ v. accept_loop n i e v) e w' (k w'.log)

  unfoldable pub accept_connections : ℕ → (i : ℕ) → Cycle → Option Cycle
  accept_connections n i w = accept_loop n i (w.connections i).event w
