-- ===== src/Program.antt =====
-- From `main` of core/ehttpd.c to the event loop: `ehd_conf_init` of core/ehd_conf.c,
-- `ehd_listening_init` of core/ehd_connection.c, `ehd_cycle_init` of core/ehd_cycle.c and
-- `ehd_http_init` of http/ehd_http.c.
pub mod Handlers
pub mod Starts
mod Tests
use ehttpd.Prelude.{
  ℕ, zero, suc, ◌+◌, ◌%◌, ◌^◌, ◌≡◌, Bool, true, false, ◌&&◌, Option, none, some, List, [], ◌∷◌,
  ◌++◌, map, length, codes, if◌then◌else◌,
}
use ehttpd.Kernel.{Log, Kernel}
use ehttpd.Listening.{Listening, Handler, other_handler, open_listening_socket}
use ehttpd.Events.{Connection, Cycle}
use ehttpd.Events.Loop.{Wait, process}
use ehttpd.Events.Start.{Polling, Started, event_init}

-- `ehd_conf_t`; a list is told by what its nodes hold, a node after the other
pub record Conf : Type 0 where
  pub connection_num : ℕ
  pub addrs_str : List (List (List ℕ))
  pub ports_int : List (List ℕ)
  pub root : List ℕ
  pub index : List ℕ

-- the settings, which are not read from a file
abbrev pub conf_init : Conf
conf_init = record {
  connection_num = 1024;
  addrs_str = (codes "0.0.0.0" ∷ codes "127.0.1.1" ∷ []) ∷ [];
  ports_int = (8080 ∷ 9999 ∷ []) ∷ [];
  root = codes "/var/www/html/";
  index = codes "index.html";
}

-- `ehd_http_init_connection` among the functions that a handler can be
abbrev pub init_connection : Handler
init_connection = other_handler 0

-- What `inet_pton` and `ntohs` make of an address and a port is an argument; the `handler` of a new
-- element is what the memory held, `unset`. The new element and the memory for its address, whose
-- allocation is not tested, are taken to be there.
module _ (sockaddr : List ℕ → ℕ → ℕ) (unset : Handler) where
  -- the assignments to a new element; the port is read as `uint16_t`
  unfoldable pub new_listening : List ℕ → ℕ → Listening
  new_listening addr port = record {
    fd = none;
    address = sockaddr addr (port % 2 ^ 16);
    backlog = 0;
    pool_size = 16384;
    handler = unset;
  }

  -- the inner loop, over the elements of a node of each list
  unfoldable pub add_node : List (List ℕ) → List ℕ → List Listening
  add_node (addr ∷ addrs) (port ∷ ports) = new_listening addr port ∷ add_node addrs ports
  add_node addrs ports = []

  -- the outer loop, over the nodes
  unfoldable pub add_nodes : List (List (List ℕ)) → List (List ℕ) → List Listening
  add_nodes (addr_node ∷ addr_nodes) (port_node ∷ port_nodes) =
      add_node addr_node port_node ++ add_nodes addr_nodes port_nodes
  add_nodes addr_nodes port_nodes = []

  unfoldable pub listening_init : Conf → List Listening
  listening_init conf = add_nodes conf.addrs_str conf.ports_int

-- `ls[i].handler = ehd_http_init_connection`
abbrev pub with_handler : Listening → Listening
with_handler l = record l { handler = init_connection }

-- What a connection's `listening` points to is an element of the table, so it is written there too.
unfoldable pub http_init : Cycle → Cycle
http_init w = record w {
  listening = map with_handler w.listening;
  connections = λ i. let c = w.connections i in record c { listening = with_handler c.listening };
}

-- EHD_OK with the cycle and whether the functions of the event loop are set, or EHD_ERROR, or a
-- write outside the tables
pub data Initialised : Type 0 where
  initialised : Started → Initialised
  init_error out_of_tables : Initialised

-- behind `ehd_event_init`
unfoldable pub on_events : Option Started → Initialised
on_events none = out_of_tables
on_events (some v) = initialised (record v { cycle = http_init v.cycle })

-- `ehd_event_init` returns EHD_ERROR when one of its tables is not allocated.
unfoldable pub init_events : (tables_ok : Bool) → Polling → (conn_n : ℕ) → Cycle → Initialised
init_events tables_ok p conn_n w =
    if tables_ok then on_events (event_init p conn_n w) else init_error

-- `tables_ok`: whether `ehd_palloc` gives the two tables, which hold anything before. What
-- `ehd_listening_init` returns is not set; it is taken not to be EHD_ERROR.
unfoldable pub cycle_init :
    Kernel
    → (List ℕ → ℕ → ℕ)
    → (unset : Handler) → (tables_ok : Bool) → Polling
    → Conf
    → Cycle
    → Initialised
cycle_init k sockaddr unset tables_ok p conf w =
    let r = open_listening_socket k (listening_init sockaddr unset conf) w.log in
    if r.ok
    then init_events tables_ok p conf.connection_num
        (record w { listening = r.listenings; log = r.log })
    else init_error

-- `ehd_process_event`, of which `none` is a call of NULL
unfoldable pub process_event :
    Kernel → (fuel : ℕ) → (ℕ → ℕ → Cycle → Cycle) → List Wait → Started → Option Cycle
process_event k fuel run xs v = if v.callable then process k fuel run false xs v.cycle else none

-- `main` does not look at what `ehd_cycle_init` returns. Behind an error the functions of the loop
-- are not set; `none` is a call of NULL, or a write outside the tables.
unfoldable pub main :
    Kernel
    → (List ℕ → ℕ → ℕ)
    → (unset : Handler) → (tables_ok : Bool) → Polling
    → (fuel : ℕ) → (ℕ → ℕ → Cycle → Cycle)
    → List Wait
    → Cycle
    → Option Cycle
main k sockaddr unset tables_ok p fuel run xs w =
    elim (cycle_init k sockaddr unset tables_ok p conf_init w) [
      | initialised v ↦ process_event k fuel run xs v
      | init_error ↦ none
      | out_of_tables ↦ none
    ]
