-- ===== src/Events/Table.antt =====
-- The tables of connections and events in order.
use ehttpd.Prelude.{ℕ, ◌<◌, ◌≡◌, refl, sym, ◌∙◌, ap, ◌⊎◌, inl, inr, false, none, some}
use mathlib.Core.Path.{subst}
use ehttpd.Listening.{Listening, Handler, null_handler, accept_handler, other_handler}
use ehttpd.Events.{Cycle}
use ehttpd.Events.Accepting.{SameSlot, Fresh, Accepts}

abbrev pub IsFunction : Handler → Type 0
IsFunction null_handler = ⊥
IsFunction _ = Unit

-- a handler that can be called for a connection of the listening socket `l`: not NULL, and the
-- accepting one only where it has a handler to give to clients
abbrev pub Runs : Listening → Handler → Type 0
Runs l null_handler = ⊥
Runs l accept_handler = IsFunction l.handler
Runs l (other_handler h) = Unit

-- the entry of an open connection
pub record InUse (w : Cycle) (i : ℕ) : Type 0 where
  pub fd : (w.connections i).fd ≡ some i
  pub event : (w.connections i).event ≡ i
  pub pointer : (w.events i).connection ≡ i
  pub closed : (w.events i).closed ≡ false
  pub reader : Runs (w.connections i).listening (w.connections i).read_handler
  pub writer :
      ((w.events i).events.writes ≡ false)
      ⊎ Runs (w.connections i).listening (w.connections i).write_handler

abbrev pub IsTable : Cycle → Type 0
IsTable w = (i : ℕ) → i < w.connection_num → ((w.connections i).fd ≡ none) ⊎ InUse w i

pub Runs-handler : (l : Listening) (h : Handler) → l.handler ≡ h → IsFunction h → Runs l h
Runs-handler l null_handler e f = f
Runs-handler l accept_handler e f = rw e f
Runs-handler l (other_handler h) e f = tt

pub Fresh-InUse :
    (l : Listening) (w : Cycle) (j : ℕ) → IsFunction l.handler → Fresh l w j → InUse w j
Fresh-InUse l w j f h = record {
  fd = ap (λ c. c.fd) h.connection;
  event = ap (λ c. c.event) h.connection;
  pointer = h.pointer;
  closed = h.closed;
  reader =
      subst (λ c. Runs c.listening c.read_handler) (sym h.connection)
        (Runs-handler l l.handler refl f);
  writer = inl (ap (λ m. m.writes) h.events);
}

pub SameSlot-InUse : (w w' : Cycle) (j : ℕ) → SameSlot w w' j → InUse w j → InUse w' j
SameSlot-InUse w w' j s u = record {
  fd = ap (λ c. c.fd) s.connection ∙ u.fd;
  event = ap (λ c. c.event) s.connection ∙ u.event;
  pointer = s.pointer ∙ u.pointer;
  closed = s.closed ∙ u.closed;
  reader = subst (λ c. Runs c.listening c.read_handler) (sym s.connection) u.reader;
  writer = same_writer u.writer;
}
  where
    same_writer :
        ((w.events j).events.writes ≡ false)
          ⊎ Runs (w.connections j).listening (w.connections j).write_handler
        → ((w'.events j).events.writes ≡ false)
          ⊎ Runs (w'.connections j).listening (w'.connections j).write_handler
    same_writer (inl e) = inl (ap (λ m. m.writes) s.events ∙ e)
    same_writer (inr r) = inr (subst (λ c. Runs c.listening c.write_handler) (sym s.connection) r)

pub Accepts-IsTable :
    (l : Listening) (w w' : Cycle) → IsFunction l.handler → Accepts l w w' → IsTable w → IsTable w'
Accepts-IsTable l w w' f a t j b = elim (a.slots j) [
  | inr (h, n) ↦ inr (Fresh-InUse l w' j f n)
  | inl s ↦ elim (t j (subst (λ n. j < n) a.size b)) [
    | inl e ↦ inl (ap (λ c. c.fd) s.connection ∙ e)
    | inr u ↦ inr (SameSlot-InUse w w' j s u)
  ]
]

-- the read handler of the connection can be called, and the event is its own, be it open or not
abbrev pub Reads : Cycle → ℕ → Type 0
Reads w i =
    Runs (w.connections i).listening (w.connections i).read_handler × ((w.connections i).event ≡ i)

pub Accepts-Reads :
    (l : Listening) (w w' : Cycle) (i : ℕ)
    → IsFunction l.handler
    → Accepts l w w'
    → Reads w i
    → Reads w' i
Accepts-Reads l w w' i f a r = elim (a.slots i) [
  | inr (h, n) ↦ let u = Fresh-InUse l w' i f n in (u.reader, u.event)
  | inl s ↦ (
    subst (λ c. Runs c.listening c.read_handler) (sym s.connection) r.0,
    ap (λ c. c.event) s.connection ∙ r.1,
  )
]
