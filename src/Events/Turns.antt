-- ===== src/Events/Turns.antt =====
-- The loop calls no function that is NULL, and keeps the tables in order.
use ehttpd.Prelude.{
  ℕ, suc, ◌<◌, ◌≡◌, refl, sym, ◌∙◌, ap, ◌⊎◌, inl, inr, Bool, true, false, Option, none, some, List,
  [], ◌∷◌,
}
use mathlib.Core.Option
use mathlib.Core.Bool.{true≢false}
use mathlib.Core.Path.{subst}
use ehttpd.Kernel.{Kernel}
use ehttpd.Listening.{Handler, null_handler, accept_handler, other_handler}
use ehttpd.Events.{Cycle, set_event}
use ehttpd.Events.Loop.{
  Entry, Wait, interrupted, entries, call, call_now, on_writable, on_readable, on_open, on_entry,
  on_entries, turn, turns,
}
use ehttpd.Events.Accepting.{SameSlot, Gives, set_event-flags, accept_connections-Accepts}
use ehttpd.Events.Table.{
  Runs, InUse, IsTable, Reads, SameSlot-InUse, Accepts-IsTable, Accepts-Reads,
}

-- A handler that is called with the tables in order leaves them so, and leaves a read handler.
abbrev pub Keeps : (ℕ → (i : ℕ) → Cycle → Cycle) → Type 0
Keeps run =
    (h i : ℕ) (w : Cycle) → IsTable w → Reads w i → IsTable (run h i w) × Reads (run h i w) i

-- An entry is for a connection of the table, and EPOLLOUT only for a connection that is closed by now or registered for it.
abbrev pub Reported : Entry → Cycle → Type 0
Reported r w =
    (r.connection < w.connection_num)
    × (((w.connections r.connection).fd ≡ none)
        ⊎ (r.writes ≡ false)
        ⊎ ((w.events r.connection).events.writes ≡ true))

module _ (k : Kernel) (n : ℕ) (gives : Gives k n) (run : ℕ → (i : ℕ) → Cycle → Cycle)
    (keeps : Keeps run) where
  -- a handler returns, and leaves the tables in order
  abbrev Fine : ℕ → Option Cycle → Type 0
  Fine i o = (w' : Cycle) × (o ≡ some w') × IsTable w' × Reads w' i

  call-Fine :
      (h : Handler) (i : ℕ) (w : Cycle)
      → Runs (w.connections i).listening h
      → IsTable w
      → Reads w i
      → Fine i (call k (suc n) run h i w)
  unfolding call
  call-Fine null_handler i w f t r = absurd f
  call-Fine accept_handler i w f t r =
      let (w', e, a) = accept_connections-Accepts k n i w gives in
      (w', e, Accepts-IsTable _ w w' f a t, Accepts-Reads _ w w' i f a r)
  call-Fine (other_handler h) i w f t r =
      let (t', r') = keeps h i w t r in (run h i w, refl, t', r')

  call_now-Fine :
      (th : Bool) (h : Handler) (i : ℕ) (w : Cycle)
      → Runs (w.connections i).listening h
      → IsTable w
      → Reads w i
      → Fine i (call_now k (suc n) run th h i w)
  unfolding call_now
  call_now-Fine true h i w f t r = (w, refl, t, r)
  call_now-Fine false h i w f t r = call-Fine h i w f t r

  same-IsTable :
      (w w' : Cycle)
      → w'.connection_num ≡ w.connection_num
      → ((j : ℕ) → SameSlot w w' j)
      → IsTable w
      → IsTable w'
  same-IsTable w w' n s t j b = elim (t j (subst (λ m. j < m) n b)) [
    | inl e ↦ inl (ap (λ c. c.fd) (s j).connection ∙ e)
    | inr u ↦ inr (SameSlot-InUse w w' j (s j) u)
  ]

  on_writable-Fine :
      (th : Bool) (e i : ℕ) (w : Cycle) (b : Bool)
      → (b ≡ false) ⊎ Runs (w.connections i).listening (w.connections i).write_handler
      → IsTable w
      → Reads w i
      → Fine i (on_writable k (suc n) run th e i w b)
  unfolding on_writable set_event
  on_writable-Fine th e i w false f t r = (w, refl, t, r)
  on_writable-Fine th e i w true (inl f) t r = absurd (true≢false f)
  on_writable-Fine th e i w true (inr f) t r =
      call_now-Fine th (w.connections i).write_handler i _ f
        (same-IsTable w _ refl (set_event-flags w e _ refl refl refl refl) t) r

  on_readable-Fine :
      (th : Bool) (e i : ℕ) (w : Cycle) (b : Bool)
      → IsTable w
      → Reads w i
      → Fine i (on_readable k (suc n) run th e i w b)
  unfolding on_readable set_event
  on_readable-Fine th e i w false t r = (w, refl, t, r)
  on_readable-Fine th e i w true t r =
      call_now-Fine th (w.connections i).read_handler i _ r.0
        (same-IsTable w _ refl (set_event-flags w e _ refl refl refl refl) t) r

  can_write :
      (r : Entry) (w : Cycle)
      → InUse w r.connection
      → (r.writes ≡ false) ⊎ ((w.events r.connection).events.writes ≡ true)
      → (r.writes ≡ false)
        ⊎ Runs (w.connections r.connection).listening (w.connections r.connection).write_handler
  can_write r w u (inl e) = inl e
  can_write r w u (inr e) = elim u.writer [
    | inl f ↦ absurd (true≢false (sym e ∙ f))
    | inr f ↦ inr f
  ]

  -- an entry of the batch
  abbrev Kept : Option Cycle → Type 0
  Kept o = (w' : Cycle) × (o ≡ some w') × IsTable w'

  both-Kept :
      (th : Bool) (r : Entry) (w : Cycle)
      → InUse w r.connection
      → (r.writes ≡ false) ⊎ ((w.events r.connection).events.writes ≡ true)
      → IsTable w
      → Kept (on_open k (suc n) run th r w (some r.connection))
  unfolding on_open
  both-Kept th r w u v t =
      let e = (w.connections r.connection).event in
      let (w1, e1, t1, r1) =
        on_writable-Fine th e r.connection w r.writes (can_write r w u v) t (u.reader, u.event) in
      let (w2, e2, t2, r2) = on_readable-Fine th e r.connection w1 r.reads t1 r1 in
      (w2, rw e1 e2, t2)

  open-Kept :
      (th : Bool) (r : Entry) (w : Cycle) (fd : Option ℕ)
      → (w.connections r.connection).fd ≡ fd
      → Reported r w
      → IsTable w
      → Kept (on_open k (suc n) run th r w fd)
  unfolding on_open
  open-Kept th r w none e (b, v) t = (w, refl, t)
  open-Kept th r w (some fd) e (b, v) t = elim (t r.connection b) [
    | inl c ↦ absurd (Option.none-ne-some _ (sym c ∙ e))
    | inr u ↦ elim v [
      | inl c ↦ absurd (Option.none-ne-some _ (sym c ∙ e))
      | inr v' ↦ both-Kept th r w u v' t
    ]
  ]

  -- Each entry is reported when its turn comes.
  abbrev pub AllReported : Bool → List Entry → Cycle → Type 0
  AllReported th [] w = Unit
  AllReported th (r ∷ rs) w =
      Reported r w × ((w' : Cycle) → on_entry k (suc n) run th r w ≡ some w' → AllReported th rs w')

  on_entries-Kept :
      (th : Bool) (rs : List Entry) (w : Cycle)
      → AllReported th rs w
      → IsTable w
      → Kept (on_entries k (suc n) run th rs w)
  unfolding on_entries on_entry
  on_entries-Kept th [] w v t = (w, refl, t)
  on_entries-Kept th (r ∷ rs) w (v, vs) t =
      let (w1, e1, t1) = open-Kept th r w _ refl v t in
      let (w2, e2, t2) = on_entries-Kept th rs w1 (vs w1 e1) t1 in (w2, rw e1 e2, t2)

  abbrev pub WaitReported : Bool → Wait → Cycle → Type 0
  WaitReported th interrupted w = Unit
  WaitReported th (entries rs) w = AllReported th rs w

  -- Each entry of each wait is reported when its turn comes.
  abbrev pub WaitsReported : Bool → List Wait → Cycle → Type 0
  WaitsReported th [] w = Unit
  WaitsReported th (x ∷ xs) w =
      WaitReported th x w
      × ((w' : Cycle) → turn k (suc n) run th x w ≡ some w' → WaitsReported th xs w')

  turn-Kept :
      (th : Bool) (x : Wait) (w : Cycle)
      → WaitReported th x w
      → IsTable w
      → Kept (turn k (suc n) run th x w)
  unfolding turn
  turn-Kept th interrupted w v t = (w, refl, t)
  turn-Kept th (entries rs) w v t = on_entries-Kept th rs w v t

  pub turns-Kept :
      (th : Bool) (xs : List Wait) (w : Cycle)
      → WaitsReported th xs w
      → IsTable w
      → Kept (turns k (suc n) run th xs w)
  unfolding turns
  turns-Kept th [] w v t = (w, refl, t)
  turns-Kept th (x ∷ xs) w (v, vs) t =
      let (w1, e1, t1) = turn-Kept th x w v t in
      let (w2, e2, t2) = turns-Kept th xs w1 (vs w1 e1) t1 in (w2, rw e1 e2, t2)
