-- ===== src/Events/Loop.antt =====
-- `ehd_event_enable_accept` and `ehd_event_epoll_process`: the calls of the handlers.
use ehttpd.Prelude.{◌>>=◌, ℕ, Bool, true, false, Option, none, some, List, [], ◌∷◌, if◌then◌else◌}
use ehttpd.Kernel.{Kernel}
use ehttpd.Listening.{Listening, Handler, null_handler, accept_handler, other_handler}
use ehttpd.Events.{Cycle, Called, set_event, read_events, epoll_add, accept_connections}

-- how `ehd_event_enable_accept` ends; `astray` when it takes an event at index -1
pub data Enabled : Type 0 where
  enabled refused astray : Enabled

pub record Enabling : Type 0 where
  pub ending : Enabled
  pub cycle : Cycle

-- one entry of `event_list`: EPOLLOUT, EPOLLIN and the connection they are for
pub record Entry : Type 0 where
  pub writes : Bool
  pub reads : Bool
  pub connection : ℕ

-- what `epoll_wait` returns: -1, or entries
pub data Wait : Type 0 where
  interrupted : Wait
  entries : List Entry → Wait

unfoldable pub on_enabled : (rest : Cycle → Enabling) → Called → Enabling
on_enabled rest d = if d.ok then rest d.cycle else record { ending = refused; cycle = d.cycle }

unfoldable pub enable_one : Kernel → (rest : Cycle → Enabling) → Cycle → Option ℕ → Enabling
enable_one k rest w none = record { ending = astray; cycle = w }
enable_one k rest w (some fd) = on_enabled rest (epoll_add k fd read_events w)

unfoldable pub enable_accept : Kernel → List Listening → Cycle → Enabling
enable_accept k [] w = record { ending = enabled; cycle = w }
enable_accept k (l ∷ ls) w = enable_one k (λ v. enable_accept k ls v) w l.fd

-- The handlers other than that of a listening connection are `run`; `fuel` is for `accept`.
-- `none`: the function called is NULL, or the fuel is used up.
module _ (k : Kernel) (fuel : ℕ) (run : ℕ → (i : ℕ) → Cycle → Cycle) where
  unfoldable pub call : Handler → (i : ℕ) → Cycle → Option Cycle
  call null_handler i w = none
  call accept_handler i w = accept_connections k fuel i w
  call (other_handler h) i w = some (run h i w)

  -- `if (ehd_threaded) { } else { ... }`
  unfoldable pub call_now : (threaded : Bool) → Handler → (i : ℕ) → Cycle → Option Cycle
  call_now true h i w = some w
  call_now false h i w = call h i w

  -- `if (ee->events & EPOLLOUT)`, for the event `e` of connection `i`
  unfoldable pub on_writable : (threaded : Bool) → (e : ℕ) → (i : ℕ) → Cycle → Bool → Option Cycle
  on_writable th e i w false = some w
  on_writable th e i w true =
      let w' = set_event e (record (w.events e) { wready = true }) w in
      call_now th (w'.connections i).write_handler i w'

  -- `if (ee->events & EPOLLIN)`
  unfoldable pub on_readable : (threaded : Bool) → (e : ℕ) → (i : ℕ) → Cycle → Bool → Option Cycle
  on_readable th e i w false = some w
  on_readable th e i w true =
      let w' = set_event e (record (w.events e) { rready = true }) w in
      call_now th (w'.connections i).read_handler i w'

  unfoldable pub on_open : (threaded : Bool) → Entry → Cycle → Option ℕ → Option Cycle
  on_open th r w none = some w
  on_open th r w (some fd) =
      let e = (w.connections r.connection).event in
      do w' ← on_writable th e r.connection w r.writes; on_readable th e r.connection w' r.reads

  -- the body of the loop over `event_list`
  unfoldable pub on_entry : (threaded : Bool) → Entry → Cycle → Option Cycle
  on_entry th r w = on_open th r w (w.connections r.connection).fd

  unfoldable pub on_entries : (threaded : Bool) → List Entry → Cycle → Option Cycle
  on_entries th [] w = some w
  on_entries th (r ∷ rs) w = do w' ← on_entry th r w; on_entries th rs w'

  unfoldable pub turn : (threaded : Bool) → Wait → Cycle → Option Cycle
  turn th interrupted w = some w
  turn th (entries rs) w = on_entries th rs w

  -- the turns of `for( ; ; )` for the waits given
  unfoldable pub turns : (threaded : Bool) → List Wait → Cycle → Option Cycle
  turns th [] w = some w
  turns th (x ∷ xs) w = do w' ← turn th x w; turns th xs w'

  unfoldable pub process : (threaded : Bool) → List Wait → Cycle → Option Cycle
  process th xs w = turns th xs (enable_accept k w.listening w).cycle
