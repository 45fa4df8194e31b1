-- ===== src/Scanner/Commute.antt =====
-- A change of the request that the switch does not look at may be made before or after the loop.
use ehttpd.Prelude.{ℕ, zero, suc, ◌+◌, ◌≡◌, refl, ◌∙◌, Bool-cases, inl, inr}
use ehttpd.Request.{Memory, Request}
use ehttpd.Scanner.{Outcome, next, refuse, Scan, stopped, refused, Machine, scan}
use ehttpd.Scanner.Resume.{Outcome-cases, scan-final, scan-next, scan-refuse}

module _ {S : Type 0} (f : Request → Request) where
  abbrev pub map_outcome : Outcome S → Outcome S
  map_outcome (next s r) = next s (f r)
  map_outcome (refuse c r) = refuse c (f r)

  abbrev pub map_scan : Scan S → Scan S
  map_scan (stopped s r p) = stopped s (f r) p
  map_scan (refused c r) = refused c (f r)

module _ (m : Machine) (mem : Memory) (f : Request → Request) where
  open m use {State, final, step}

  pub scan-commute :
      ((s : State) (r : Request) (p : ℕ)
        → step mem s (f r) p (mem p) ≡ map_outcome f (step mem s r p (mem p)))
      → (k : ℕ) (s : State) (r : Request) (p : ℕ)
      → scan m mem k s (f r) p ≡ map_scan f (scan m mem k s r p)
  scan-commute h zero s r p = unfold scan in refl
  scan-commute h (suc k) s r p = elim (Bool-cases (final s)) [
    | inl d ↦ rw (scan-final m mem (suc k) s r p d) (scan-final m mem (suc k) s (f r) p d)
    | inr d ↦ elim (Outcome-cases (step mem s r p (mem p))) [
      | inl (s', r', e) ↦
          rw (scan-next m mem k s r p d e)
            (scan-next m mem k s (f r) p d (rw e at (h s r p)) ∙ scan-commute h k s' r' (p + 1))
      | inr (c, r', e) ↦
          rw (scan-refuse m mem k s r p d e) (scan-refuse m mem k s (f r) p d (rw e at (h s r p)))
    ]
  ]
