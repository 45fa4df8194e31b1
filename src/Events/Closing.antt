-- ===== src/Events/Closing.antt =====
-- `ehd_close_connection`, called once and again.
use ehttpd.Prelude.{
  ℕ, ◌≡◌, refl, ◌∙◌, ap, inl, inr, Bool, false, Option, none, some, List, [], ◌∷◌, ◌++◌, All, ◌>>=◌,
  ◌==◌, Bool-cases,
}
use ehttpd.Kernel.{Kernel, close, destroy_pool}
use ehttpd.Events.{
  Cycle, set_event, set_connection, ask, epoll_del, close_with, close_unless_null, close_connection,
}
use ehttpd.Events.Loop.{Entry, on_open, on_entry, on_entries}
use ehttpd.Events.Accepting.{SameSlot, same_index}
use ehttpd.Events.Table.{IsTable, Reads, SameSlot-InUse}
use ehttpd.Events.Turns.{Keeps}

module _ (k : Kernel) (i : ℕ) (p : ℕ) (w : Cycle) (own : (w.connections i).event ≡ i) where
  other-SameSlot : (j : ℕ) → (j == i) ≡ false → SameSlot w (close_with k i p w) j
  unfolding close_with set_connection set_event ask epoll_del
  other-SameSlot j e = record {
    connection = rw e refl;
    pointer = rw (own, e) refl;
    events = rw (own, e) refl;
    closed = rw (own, e) refl;
    active = rw (own, e) refl;
  }

  with-IsTable : IsTable w → IsTable (close_with k i p w)
  unfolding close_with set_connection set_event ask epoll_del
  with-IsTable t j b = elim (Bool-cases (j == i)) [
    | inl e ↦ inl (rw e refl)
    | inr e ↦ elim (t j b) [
      | inl n ↦ inl (rw e n)
      | inr u ↦ inr (SameSlot-InUse w _ j (other-SameSlot j e) u)
    ]
  ]

  with-Reads : Reads w i → Reads (close_with k i p w) i
  unfolding close_with set_connection set_event ask epoll_del
  with-Reads (r, e) = (rw (same_index i) r, rw (same_index i) e)

module _ (k : Kernel) where
  unless-Keeps :
      (i : ℕ) (w : Cycle) (pool : Option ℕ)
      → IsTable w
      → Reads w i
      → IsTable (close_unless_null k i w pool) × Reads (close_unless_null k i w pool) i
  unfolding close_unless_null
  unless-Keeps i w none t r = (t, r)
  unless-Keeps i w (some p) t r = (with-IsTable k i p w r.1 t, with-Reads k i p w r.1 r)

-- Called for a connection whose event is its own, `ehd_close_connection` leaves the tables in order
-- if they were, and the connection's read handler callable if it was: it is itself a handler that
-- the loop can call.
pub close_connection-Keeps : (k : Kernel) → Keeps (λ h i w. close_connection k i w)
unfolding close_connection
close_connection-Keeps k h i w t r = unless-Keeps k i w (w.connections i).pool t r

closes :
    (k : Kernel) (i p : ℕ) (w : Cycle)
    → (w.connections i).pool ≡ some p
    → close_connection k i w ≡ close_with k i p w
unfolding close_connection close_unless_null
closes k i p w e = ap (close_unless_null k i w) e

closed_fd : (k : Kernel) (i p : ℕ) (w : Cycle) → ((close_with k i p w).connections i).fd ≡ none
unfolding close_with set_connection set_event ask epoll_del
closed_fd k i p w = rw (same_index i) refl

kept_pool :
    (k : Kernel) (i p : ℕ) (w : Cycle)
    → ((close_with k i p w).connections i).pool ≡ (w.connections i).pool
unfolding close_with set_connection set_event ask epoll_del
kept_pool k i p w = rw (same_index i) refl

with-log :
    (k : Kernel) (i p : ℕ) (w : Cycle)
    → (close_with k i p w).log ≡ close (w.connections i).fd ∷ destroy_pool p ∷ w.log
unfolding close_with set_connection set_event ask epoll_del
with-log k i p w = refl

module _ (k : Kernel) (fuel : ℕ) (run : ℕ → ℕ → Cycle → Cycle) (th : Bool) (i p : ℕ) (w : Cycle)
    (e : (w.connections i).pool ≡ some p) where
  skips :
      (r : Entry)
      → r.connection ≡ i
      → on_entry k fuel run th r (close_connection k i w) ≡ some (close_connection k i w)
  unfolding on_entry on_open
  skips r c =
      let v = close_connection k i w in
      let fd : (v.connections r.connection).fd ≡ none =
        ap (λ j. (v.connections j).fd) c
        ∙ (ap (λ u. (u.connections i).fd) (closes k i p w e) ∙ closed_fd k i p w) in
      ap (on_open k fuel run th r v) fd

  -- Directly behind a call of `ehd_close_connection` for a connection with a pool, the loop over a
  -- batch passes over the entries for that connection and goes on at the first entry that is for
  -- another one.
  pub close_connection-skipped :
      (rs others : List Entry)
      → All (λ r. r.connection ≡ i) rs
      → on_entries k fuel run th (rs ++ others) (close_connection k i w)
        ≡ on_entries k fuel run th others (close_connection k i w)
  unfolding on_entries
  close_connection-skipped [] others c = refl
  close_connection-skipped (r ∷ rs) others (c, cs) =
      ap (λ o. o >>= (λ v. on_entries k fuel run th (rs ++ others) v)) (skips r c)
      ∙ close_connection-skipped rs others cs

-- A second call of `ehd_close_connection` destroys the connection's pool again, which is not set to
-- NULL, and closes no descriptor.
pub close_connection-twice :
    (k : Kernel) (i p s : ℕ) (w : Cycle)
    → (w.connections i).pool ≡ some p
    → (w.connections i).fd ≡ some s
    → (close_connection k i (close_connection k i w)).log
      ≡ close none ∷ destroy_pool p ∷ close (some s) ∷ destroy_pool p ∷ w.log
close_connection-twice k i p s w e f =
    let u = close_with k i p w in
    let again = closes k i p u (kept_pool k i p w ∙ e) in
    ap (λ v. (close_connection k i v).log) (closes k i p w e)
    ∙ (ap (λ v. v.log) again
        ∙ (with-log k i p u
            ∙ (ap (λ fd. close fd ∷ destroy_pool p ∷ u.log) (closed_fd k i p w)
                ∙ ap (λ l. close none ∷ destroy_pool p ∷ l)
                    (with-log k i p w ∙ ap (λ fd. close fd ∷ destroy_pool p ∷ w.log) f))))
