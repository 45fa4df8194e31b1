-- ===== src/Events/Acts.antt =====
-- Handlers that do to the tables what the handlers of http/ehd_http_request.c and http/ehd_http_core.c
-- do: any sequence of `ehd_close_connection`, the assignment of a function to `c->read_handler` or
-- `c->write_handler`, `ehd_add_event` for reading, or for writing behind `c->write_handler` was set,
-- and `ehd_del_event` for reading, for the connection that they are called for.
use ehttpd.Prelude.{
  ℕ, ◌<◌, ◌≡◌, ◌⊎◌, refl, sym, ◌∙◌, ap, inl, inr, none, List, [], ◌∷◌, ◌==◌, Bool-cases, Bool, true,
  false,
}
use mathlib.Core.Path.{subst}
use ehttpd.Kernel.{Kernel, ctl_del}
use ehttpd.Listening.{other_handler}
use ehttpd.Events.{
  Cycle, Connection, Mask, set_event, set_connection, ask, read_events, control, epoll_add,
  epoll_del, close_connection,
}
use ehttpd.Events.Accepting.{SameSlot, same_index, index_eq}
use ehttpd.Events.Closing.{close_connection-Keeps}
use ehttpd.Events.Table.{Runs, InUse, IsTable, Reads, SameSlot-InUse}
use ehttpd.Events.Turns.{Keeps}

pub data Act : Type 0 where
  closes adds_reading : Act
  deletes_reading : (unset : Bool) → Act
  sets_reader sets_writer adds_writing : (handler : ℕ) → Act

-- EPOLLOUT | EPOLLET
abbrev write_events : Mask
write_events = record { reads = false; writes = true; edge = true }

abbrev with_reader : ℕ → Connection → Connection
with_reader h c = record c { read_handler = other_handler h }

abbrev with_writer : ℕ → Connection → Connection
with_writer h c = record c { write_handler = other_handler h }

-- The entry of `i`, whose event is its own, is changed alone.
changed-IsTable :
    (i : ℕ) (w w' : Cycle)
    → w'.connection_num ≡ w.connection_num
    → ((j : ℕ) → (j == i) ≡ false → SameSlot w w' j)
    → (w'.connections i).fd ≡ (w.connections i).fd
    → (InUse w i → InUse w' i)
    → IsTable w
    → IsTable w'
changed-IsTable i w w' n s f u t j b = elim (Bool-cases (j == i)) [
  | inl e ↦
      subst (λ m. ((w'.connections m).fd ≡ none) ⊎ InUse w' m) (index_eq j i e)
        (elim (t i
          (subst (λ m. m < w.connection_num) (sym (index_eq j i e)) (subst (λ m. j < m) n b))) [
            | inl z ↦ inl (f ∙ z)
            | inr v ↦ inr (u v)
          ])
  | inr e ↦ elim (t j (subst (λ m. j < m) n b)) [
    | inl z ↦ inl (ap (λ c. c.fd) (s j e).connection ∙ z)
    | inr v ↦ inr (SameSlot-InUse w w' j (s j e) v)
  ]
]

module _ (k : Kernel) where
  act : Act → (i : ℕ) → Cycle → Cycle
  act closes i w = close_connection k i w
  act adds_reading i w = (epoll_add k (w.connections i).event read_events w).cycle
  act (deletes_reading unset) i w = (epoll_del k unset (w.connections i).event false w).cycle
  act (sets_writer h) i w = set_connection i (with_writer h (w.connections i)) w
  act (sets_reader h) i w = set_connection i (with_reader h (w.connections i)) w
  act (adds_writing h) i w =
      (epoll_add k (w.connections i).event write_events
        (set_connection i (with_writer h (w.connections i)) w)).cycle

  unfoldable pub acts : List Act → (i : ℕ) → Cycle → Cycle
  unfolding act
  acts [] i w = w
  acts (a ∷ rest) i w = acts rest i (act a i w)

  -- `epoll_add` of the event of `i`, for writing only where there is a function to call
  add-InUse :
      (i : ℕ) (m : Mask) (w : Cycle)
      → (m.writes ≡ false) ⊎ Runs (w.connections i).listening (w.connections i).write_handler
      → InUse w i
      → InUse (epoll_add k i m w).cycle i
  unfolding epoll_add control set_event ask
  add-InUse i m w r u = record {
    fd = u.fd;
    event = u.event;
    pointer = rw (same_index i) u.pointer;
    closed = rw (same_index i) u.closed;
    reader = u.reader;
    writer = rw (same_index i) r;
  }

  add-SameSlot :
      (i : ℕ) (m : Mask) (w : Cycle) (j : ℕ)
      → (j == i) ≡ false
      → SameSlot w (epoll_add k i m w).cycle j
  unfolding epoll_add control set_event ask
  add-SameSlot i m w j e = record {
    connection = refl;
    pointer = rw e refl;
    events = rw e refl;
    closed = rw e refl;
    active = rw e refl;
  }

  abbrev Kept : ℕ → Cycle → Type 0
  Kept i w = IsTable w × Reads w i

  add-Kept :
      (i e : ℕ) (m : Mask) (w : Cycle)
      → e ≡ i
      → (m.writes ≡ false) ⊎ Runs (w.connections i).listening (w.connections i).write_handler
      → Kept i w
      → Kept i (epoll_add k e m w).cycle
  unfolding epoll_add control set_event ask
  add-Kept i e m w own r (t, s) =
      subst (λ n. Kept i (epoll_add k n m w).cycle) (sym own)
        (
          changed-IsTable i w (epoll_add k i m w).cycle refl (add-SameSlot i m w) refl
              (add-InUse i m w r) t,
          s,
        )

  deleted-InUse :
      (unset : Bool) (i : ℕ) (w : Cycle) → InUse w i → InUse (epoll_del k unset i false w).cycle i
  unfolding epoll_del control set_event ask
  deleted-InUse unset i w u = elim (Bool-cases (control k ctl_del i none w).ok) [
    | inl o ↦ rw o (record {
      fd = u.fd;
      event = u.event;
      pointer = rw (same_index i) u.pointer;
      closed = rw (same_index i) u.closed;
      reader = u.reader;
      writer = rw (same_index i) u.writer;
    })
    | inr o ↦ rw o (record {
      fd = u.fd;
      event = u.event;
      pointer = u.pointer;
      closed = u.closed;
      reader = u.reader;
      writer = u.writer;
    })
  ]

  deleted-SameSlot :
      (unset : Bool) (i : ℕ) (w : Cycle) (j : ℕ)
      → (j == i) ≡ false
      → SameSlot w (epoll_del k unset i false w).cycle j
  unfolding epoll_del control set_event ask
  deleted-SameSlot unset i w j e = elim (Bool-cases (control k ctl_del i none w).ok) [
    | inl o ↦ rw o (record {
      connection = refl;
      pointer = rw e refl;
      events = rw e refl;
      closed = rw e refl;
      active = rw e refl;
    })
    | inr o ↦
        rw o (record {
          connection = refl;
          pointer = refl;
          events = refl;
          closed = refl;
          active = refl;
        })
  ]

  -- the connections and the size of the tables
  deleted-connections :
      (unset : Bool) (i : ℕ) (w : Cycle)
      → let w' = (epoll_del k unset i false w).cycle in
        (w'.connection_num ≡ w.connection_num) × (w'.connections ≡ w.connections)
  unfolding epoll_del control set_event ask
  deleted-connections unset i w = elim (Bool-cases (control k ctl_del i none w).ok) [
    | inl o ↦ rw o (refl, refl)
    | inr o ↦ rw o (refl, refl)
  ]

  deleted-Kept :
      (unset : Bool) (i e : ℕ) (w : Cycle)
      → e ≡ i
      → Kept i w
      → Kept i (epoll_del k unset e false w).cycle
  deleted-Kept unset i e w own (t, s) =
      let w' = (epoll_del k unset i false w).cycle in
      let (n, c) = deleted-connections unset i w in
      subst (λ m. Kept i (epoll_del k unset m false w).cycle) (sym own)
        (
          changed-IsTable i w w' n (deleted-SameSlot unset i w) (ap (λ f. (f i).fd) c)
              (deleted-InUse unset i w) t,
          subst (λ f. Runs (f i).listening (f i).read_handler × ((f i).event ≡ i)) (sym c) s,
        )

  reader-Kept :
      (i h : ℕ) (w : Cycle)
      → Kept i w
      → Kept i (set_connection i (with_reader h (w.connections i)) w)
  unfolding set_connection
  reader-Kept i h w (t, s) = (
    changed-IsTable i w _ refl
        (λ j e. record {
          connection = rw e refl;
          pointer = refl;
          events = refl;
          closed = refl;
          active = refl;
        })
        (rw (same_index i) refl)
        (λ u. record {
          fd = rw (same_index i) u.fd;
          event = rw (same_index i) u.event;
          pointer = u.pointer;
          closed = u.closed;
          reader = rw (same_index i) tt;
          writer = rw (same_index i) u.writer;
        })
        t,
    (rw (same_index i) tt, rw (same_index i) s.1),
  )

  writer-Kept :
      (i h : ℕ) (w : Cycle)
      → Kept i w
      → let w' = set_connection i (with_writer h (w.connections i)) w in
        Kept i w'
        × ((w.connections i).event ≡ i)
        × Runs (w'.connections i).listening (w'.connections i).write_handler
  unfolding set_connection
  writer-Kept i h w (t, s) = (
    (
      changed-IsTable i w _ refl
          (λ j e. record {
            connection = rw e refl;
            pointer = refl;
            events = refl;
            closed = refl;
            active = refl;
          })
          (rw (same_index i) refl)
          (λ u. record {
            fd = rw (same_index i) u.fd;
            event = rw (same_index i) u.event;
            pointer = u.pointer;
            closed = u.closed;
            reader = rw (same_index i) u.reader;
            writer = inr (rw (same_index i) tt);
          })
          t,
      (rw (same_index i) s.0, rw (same_index i) s.1),
    ),
    s.1,
    rw (same_index i) tt,
  )

  act-Kept : (a : Act) (i : ℕ) (w : Cycle) → Kept i w → Kept i (act a i w)
  unfolding act
  act-Kept closes i w (t, s) = close_connection-Keeps k 0 i w t s
  act-Kept adds_reading i w c = add-Kept i (w.connections i).event read_events w c.1.1 (inl refl) c
  act-Kept (deletes_reading unset) i w c = deleted-Kept unset i (w.connections i).event w c.1.1 c
  act-Kept (sets_writer h) i w c = (writer-Kept i h w c).0
  act-Kept (sets_reader h) i w c = reader-Kept i h w c
  act-Kept (adds_writing h) i w c =
      let (c', own, r) = writer-Kept i h w c in
      add-Kept i (w.connections i).event write_events
        (set_connection i (with_writer h (w.connections i)) w) own (inr r) c'

  acts-Kept : (xs : List Act) (i : ℕ) (w : Cycle) → Kept i w → Kept i (acts xs i w)
  unfolding acts
  acts-Kept [] i w c = c
  acts-Kept (a ∷ xs) i w c = acts-Kept xs i (act a i w) (act-Kept a i w c)

  -- a handler that looks at the tables and then does any of this
  abbrev pub runs : (ℕ → (i : ℕ) → Cycle → List Act) → ℕ → (i : ℕ) → Cycle → Cycle
  runs choose h i w = acts (choose h i w) i w

  pub runs-Keeps : (choose : ℕ → (i : ℕ) → Cycle → List Act) → Keeps (runs choose)
  runs-Keeps choose h i w t s = acts-Kept (choose h i w) i w (t, s)
