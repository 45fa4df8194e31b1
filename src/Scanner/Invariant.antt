-- ===== src/Scanner/Invariant.antt =====
-- The rule for invariants of the loop, and where the loop ends.

use ehttpd.Prelude.{
  ℕ, zero, suc, ◌+◌, ◌≤◌, ◌≡◌, ◌⊎◌, refl, true, false, Bool-cases, inl, inr, arith,
}
use ehttpd.Request.{Memory, Code, Request}
use ehttpd.Scanner.{Outcome, next, refuse, Scan, stopped, refused, Machine, scan}
use ehttpd.Scanner.Resume.{Outcome-cases, scan-final, scan-next, scan-refuse}

module _ {S : Type 0} (P : S → Request → ℕ → Type 0) (Q : Code → Request → Type 0) where
  -- `P` after a round that goes on, with `p` the next byte's address, `Q` after a refusal
  abbrev pub Keeps : ℕ → Outcome S → Type 0
  Keeps p (next s r) = P s r p
  Keeps p (refuse c r) = Q c r

  abbrev pub Ends : Scan S → Type 0
  Ends (stopped s r p) = P s r p
  Ends (refused c r) = Q c r

module _ (m : Machine) (mem : Memory) where
  open m use {State, final, step}

  pub scan_inv :
      (P : State → Request → ℕ → Type 0) (Q : Code → Request → Type 0)
      → ((s : State) (r : Request) (p : ℕ)
          → final s ≡ false
          → P s r p
          → Keeps P Q (p + 1) (step mem s r p (mem p)))
      → (k : ℕ) (s : State) (r : Request) (p : ℕ) → P s r p
      → Ends P Q (scan m mem k s r p)
  scan_inv P Q keep zero s r p h = unfold scan in h
  scan_inv P Q keep (suc k) s r p h = elim (Bool-cases (final s)) [
    | inl f ↦ rw (scan-final m mem (suc k) s r p f) h
    | inr f ↦ elim (Outcome-cases (step mem s r p (mem p))) [
      | inl (s', r', e) ↦
          rw (scan-next m mem k s r p f e)
            (scan_inv P Q keep k s' r' (p + 1) (rw e at (keep s r p f h)))
      | inr (c, r', e) ↦ rw (scan-refuse m mem k s r p f e) (rw e at (keep s r p f h))
    ]
  ]

  -- The loop stops in a final state or at the end of its bytes, and never reads past them.
  abbrev pub StopsWithin : ℕ → ℕ → Scan State → Type 0
  StopsWithin k p (stopped s r p') =
      (p ≤ p') × (p' ≤ p + k) × ((final s ≡ true) ⊎ ((final s ≡ false) × (p' ≡ p + k)))
  StopsWithin k p (refused c r) = Unit

  StopsWithin-suc : (k p : ℕ) (o : Scan State) → StopsWithin k (p + 1) o → StopsWithin (suc k) p o
  StopsWithin-suc k p (stopped s r p') h = ground arith
  StopsWithin-suc k p (refused c r) h = tt

  pub scan-StopsWithin :
      (k : ℕ) (s : State) (r : Request) (p : ℕ) → StopsWithin k p (scan m mem k s r p)
  scan-StopsWithin zero s r p = elim (Bool-cases (final s)) [
    | inl f ↦ unfold scan in (omega arith, omega arith, inl f)
    | inr f ↦ unfold scan in (omega arith, omega arith, inr (f, omega arith))
  ]
  scan-StopsWithin (suc k) s r p = elim (Bool-cases (final s)) [
    | inl f ↦ rw (scan-final m mem (suc k) s r p f) (omega arith, omega arith, inl f)
    | inr f ↦ elim (Outcome-cases (step mem s r p (mem p))) [
      | inl (s', r', e) ↦
          rw (scan-next m mem k s r p f e)
            (StopsWithin-suc k p _ (scan-StopsWithin k s' r' (p + 1)))
      | inr (c, r', e) ↦ rw (scan-refuse m mem k s r p f e) tt
    ]
  ]

-- a round that can not refuse goes on
pub Keeps-next :
    {S : Type 0} (P : S → Request → ℕ → Type 0) (p : ℕ) (o : Outcome S)
    → Keeps P (λ _ _. ⊥) p o
    → (s : S) × (r : Request) × (o ≡ next s r) × P s r p
Keeps-next P p (next s r) h = (s, r, refl, h)
Keeps-next P p (refuse c r) h = absurd h
