-- ===== src/Events/Accepting.antt =====
-- What `ehd_event_accept_handler` leaves in the two tables.
use ehttpd.Prelude.{
  ℕ, zero, suc, ◌+◌, ◌≤◌, ◌<◌, ◌≡◌, refl, sym, ◌∙◌, ◌⊎◌, inl, inr, true, false, Option, some, [],
  ◌∷◌, leb, ◌==◌, arith, Bool-cases,
}
use mathlib.Core.Path.{subst}
use ehttpd.Socket.{Errno, eagain, eintr, other, Answer, count, failed}
use ehttpd.Kernel.{Call, Log, Kernel, set_nonblocking, accept, create_pool, close}
use ehttpd.Listening.{Listening}
use ehttpd.Events.{
  Event, Cycle, set_event, set_connection, ask, read_events, new_connection, control, epoll_add,
  install, on_ready_socket, on_pool, on_client, on_accept, accept_loop, accept_connections,
}

-- the entries of `j` are the same, but for the flags of readiness and of errors
pub record SameSlot (w w' : Cycle) (j : ℕ) : Type 0 where
  pub connection : w'.connections j ≡ w.connections j
  pub pointer : (w'.events j).connection ≡ (w.events j).connection
  pub events : (w'.events j).events ≡ (w.events j).events
  pub closed : (w'.events j).closed ≡ (w.events j).closed
  pub active : (w'.events j).active ≡ (w.events j).active

-- `j` is a new connection of the listening socket `l`
pub record Fresh (l : Listening) (w : Cycle) (j : ℕ) : Type 0 where
  pub pool : ℕ
  pub connection : w.connections j ≡ new_connection j pool l
  pub pointer : (w.events j).connection ≡ j
  pub events : (w.events j).events ≡ read_events
  pub closed : (w.events j).closed ≡ false
  pub active : (w.events j).active ≡ true

pub record Accepts (l : Listening) (w w' : Cycle) : Type 0 where
  pub size : w'.connection_num ≡ w.connection_num
  pub slots : (j : ℕ) → SameSlot w w' j ⊎ ((j < w.connection_num) × Fresh l w' j)

pub SameSlot-refl : (w : Cycle) (j : ℕ) → SameSlot w w j
SameSlot-refl w j = record {
  connection = refl;
  pointer = refl;
  events = refl;
  closed = refl;
  active = refl;
}

-- only the log differs
Accepts-ask : (l : Listening) (w : Cycle) (c : Call) → Accepts l w (ask c w)
unfolding ask
Accepts-ask l w c = record {
  size = refl;
  slots = λ j.
      inl
        (record { connection = refl; pointer = refl; events = refl; closed = refl; active = refl });
}

module _ (l : Listening) (u v w : Cycle) (a : Accepts l u v) where
  then_slot :
      (j : ℕ)
      → SameSlot u v j ⊎ ((j < u.connection_num) × Fresh l v j)
      → SameSlot v w j ⊎ ((j < v.connection_num) × Fresh l w j)
      → SameSlot u w j ⊎ ((j < u.connection_num) × Fresh l w j)
  then_slot j s (inr (h, f)) = inr (let e = a.size in omega arith, f)
  then_slot j (inl s) (inl t) = inl (record {
    connection = t.connection ∙ s.connection;
    pointer = t.pointer ∙ s.pointer;
    events = t.events ∙ s.events;
    closed = t.closed ∙ s.closed;
    active = t.active ∙ s.active;
  })
  then_slot j (inr (h, f)) (inl t) = inr (
    h,
    record {
      pool = f.pool;
      connection = t.connection ∙ f.connection;
      pointer = t.pointer ∙ f.pointer;
      events = t.events ∙ f.events;
      closed = t.closed ∙ f.closed;
      active = t.active ∙ f.active;
    },
  )

Accepts-refl : (l : Listening) (w : Cycle) → Accepts l w w
Accepts-refl l w = record { size = refl; slots = λ j. inl (SameSlot-refl w j) }

Accepts-trans : (l : Listening) (u v w : Cycle) → Accepts l u v → Accepts l v w → Accepts l u w
Accepts-trans l u v w a b = record {
  size = b.size ∙ a.size;
  slots = λ j. then_slot l u v w a j (a.slots j) (b.slots j);
}

pub same_index : (s : ℕ) → (s == s) ≡ true
same_index s = ground arith

pub index_eq : (j s : ℕ) → (j == s) ≡ true → s ≡ j
index_eq j s e = ground arith

pub set_event-flags :
    (w : Cycle) (e : ℕ) (ev : Event)
    → ev.connection ≡ (w.events e).connection
    → ev.events ≡ (w.events e).events
    → ev.closed ≡ (w.events e).closed
    → ev.active ≡ (w.events e).active
    → (j : ℕ) → SameSlot w (set_event e ev w) j
unfolding set_event
set_event-flags w e ev p m c a j = elim (Bool-cases (j == e)) [
  | inl h ↦
      subst (λ i. SameSlot w (set_event e ev w) i) (index_eq j e h)
        (record {
          connection = refl;
          pointer = rw (same_index e) p;
          events = rw (same_index e) m;
          closed = rw (same_index e) c;
          active = rw (same_index e) a;
        })
  | inr h ↦ record {
    connection = refl;
    pointer = rw h refl;
    events = rw h refl;
    closed = rw h refl;
    active = rw h refl;
  }
]

set_event-Accepts :
    (l : Listening) (w : Cycle) (e : ℕ) (ev : Event)
    → ev.connection ≡ (w.events e).connection
    → ev.events ≡ (w.events e).events
    → ev.closed ≡ (w.events e).closed
    → ev.active ≡ (w.events e).active
    → Accepts l w (set_event e ev w)
unfolding set_event
set_event-Accepts l w e ev p m c a = record {
  size = refl;
  slots = λ j. inl (set_event-flags w e ev p m c a j);
}

-- the number of calls of `accept`
abbrev pub accepts : Log → ℕ
accepts [] = 0
accepts (accept fd ∷ log) = 1 + accepts log
accepts (_ ∷ log) = accepts log

module _ (k : Kernel) where
  install-Accepts :
      (s pool : ℕ) (l : Listening) (w : Cycle)
      → s < w.connection_num
      → Accepts l w (install k s pool l w)
  unfolding install epoll_add control set_event set_connection ask
  install-Accepts s pool l w h = record {
    size = refl;
    slots = λ j. elim (Bool-cases (j == s)) [
      | inl e ↦
          let i = index_eq j s e in
          inr (
            subst (λ t. t < w.connection_num) i h,
            subst (λ t. Fresh l (install k s pool l w) t) i
                (record {
                  pool = pool;
                  connection = rw (same_index s) refl;
                  pointer = rw (same_index s) refl;
                  events = rw (same_index s) refl;
                  closed = rw (same_index s) refl;
                  active = rw (same_index s) refl;
                }),
          )
      | inr e ↦ inl (record {
        connection = rw e refl;
        pointer = rw e refl;
        events = rw e refl;
        closed = rw e refl;
        active = rw e refl;
      })
    ];
  }

  -- `d` more calls of `accept` make `n`
  abbrev Soon : ℕ → ℕ → Log → Type 0
  Soon n d log = n ≤ accepts log + d

  -- how the handler ends: it has accepted clients of the socket `l`
  abbrev Ends : Listening → Cycle → Option Cycle → Type 0
  Ends l w o = (w' : Cycle) × (o ≡ some w') × Accepts l w w'

  Ends-after :
      (l : Listening) (u v : Cycle) (o : Option Cycle) → Accepts l u v → Ends l v o → Ends l u o
  Ends-after l u v o a (w', e, b) = (w', e, Accepts-trans l u v w' a b)

  failed-Ends :
      (i e : ℕ) (l : Listening) (rest : Cycle → Option Cycle) (w : Cycle) (x : Errno)
      → Ends l w (on_accept k i rest e w (failed x))
  unfolding on_accept
  failed-Ends i e l rest w eagain = (w, refl, Accepts-refl l w)
  failed-Ends i e l rest w eintr = (_, refl, set_event-Accepts l w e _ refl refl refl refl)
  failed-Ends i e l rest w (other x) = (_, refl, set_event-Accepts l w e _ refl refl refl refl)

  module _ (n d i : ℕ) (l : Listening) (rest : Cycle → Option Cycle)
      (go : (v : Cycle)
        → Soon n d v.log
        → (v.connections i).listening ≡ l
        → Ends l v (rest v)) where
    install-listening :
        (s pool : ℕ) (w : Cycle)
        → (w.connections i).listening ≡ l
        → ((install k s pool l w).connections i).listening ≡ l
    unfolding install epoll_add control set_event set_connection ask
    install-listening s pool w e = elim (Bool-cases (i == s)) [ inl h ↦ rw h refl | inr h ↦ rw h e ]

    on_ready_socket-Ends :
        (s pool : ℕ) (w : Cycle) (x : Answer)
        → Soon n d w.log
        → (w.connections i).listening ≡ l
        → s < w.connection_num
        → Ends l w (on_ready_socket k i rest s pool w x)
    unfolding on_ready_socket install epoll_add control set_event set_connection ask
    on_ready_socket-Ends s pool w (count n) t e h =
        subst (λ m. Ends l w (rest (install k s pool m w))) (sym e)
          (Ends-after l w (install k s pool l w) _ (install-Accepts s pool l w h)
            (go _ t (install-listening s pool w e)))
    on_ready_socket-Ends s pool w (failed x) t e h = (w, refl, Accepts-refl l w)

    on_pool-Ends :
        (s : ℕ) (w : Cycle) (x : Answer)
        → Soon n d w.log
        → (w.connections i).listening ≡ l
        → s < w.connection_num
        → Ends l w (on_pool k i rest s w x)
    unfolding on_pool ask
    on_pool-Ends s w (count p) t e h =
        Ends-after l w _ _ (Accepts-ask l w (set_nonblocking s))
          (on_ready_socket-Ends s p _ _ t e h)
    on_pool-Ends s w (failed x) t e h = (w, refl, Accepts-refl l w)

    on_client-Ends :
        (s : ℕ) (w : Cycle)
        → Soon n d w.log
        → (w.connections i).listening ≡ l
        → Ends l w (on_client k i rest s w)
    unfolding on_client ask
    on_client-Ends s w t e = elim (Bool-cases (leb w.connection_num s)) [
      | inl h ↦ rw h (_, refl, Accepts-ask l w (close (some s)))
      | inr h ↦ rw h (
          Ends-after l w _ _ (Accepts-ask l w (create_pool (w.connections i).listening.pool_size))
            (on_pool-Ends s _ _ t e (ground arith)))
    ]

    on_accept-Ends :
        (e : ℕ) (w : Cycle) (x : Answer)
        → Soon n d w.log
        → (w.connections i).listening ≡ l
        → Ends l w (on_accept k i rest e w x)
    unfolding on_accept
    on_accept-Ends e w (count s) t p = on_client-Ends s w t p
    on_accept-Ends e w (failed x) t p = failed-Ends i e l rest w x

  -- The queue gives `n` clients at most.
  abbrev pub Gives : ℕ → Type 0
  Gives n =
      (log : Log) (fd : Option ℕ) → n ≤ accepts log → (e : Errno) × (k (accept fd ∷ log) ≡ failed e)

  module _ (n : ℕ) (gives : Gives n) (i e : ℕ) (l : Listening) where
    accept_loop-Ends :
        (d : ℕ) (w : Cycle)
        → Soon n d w.log
        → (w.connections i).listening ≡ l
        → Ends l w (accept_loop k (suc d) i e w)
    unfolding accept_loop ask
    accept_loop-Ends zero w t p =
        let (x, f) = gives w.log (w.connections i).fd (omega arith) in
        Ends-after l w _ _ (Accepts-ask l w (accept (w.connections i).fd))
          (rw f (failed-Ends i e l _ _ x))
    accept_loop-Ends (suc d) w t p =
        Ends-after l w _ _ (Accepts-ask l w (accept (w.connections i).fd)) (
          on_accept-Ends n d i l (λ v. accept_loop k (suc d) i e v) (accept_loop-Ends d) e _ _
            (omega arith) p)

-- If the queue gives `n` clients at most, `ehd_event_accept_handler` returns after `n + 1` calls of
-- `accept` at most. What it leaves in an entry of the two tables is what was there, but for the
-- flags of readiness and errors, or, at an index inside the table, a new connection of the
-- listening socket, registered for reading, with a pool, its read handler and no write handler.
pub accept_connections-Accepts :
    (k : Kernel) (n i : ℕ) (w : Cycle)
    → Gives k n
    → (w' : Cycle) × (accept_connections k (suc n) i w ≡ some w')
      × Accepts (w.connections i).listening w w'
unfolding accept_connections
accept_connections-Accepts k n i w g =
    accept_loop-Ends k n g i (w.connections i).event (w.connections i).listening n w (omega arith)
      refl
