-- ===== src/Scanner/Resume.antt =====
-- The loop round by round, and that it may be broken off where the bytes run out and taken up
-- again.
use native.Mathlib.Nat.{zero-add, suc-add}
use ehttpd.Prelude.{ℕ, zero, suc, ◌+◌, ◌≡◌, ◌⊎◌, refl, ◌∙◌, true, false, Bool-cases, inl, inr}
use ehttpd.Request.{Memory, Code, Request}
use ehttpd.Scanner.{Outcome, next, refuse, Scan, stopped, refused, Machine, scan}

abbrev pub IsNext : {S : Type 0} → Outcome S → Type 0
IsNext {S} o = (s : S) × (r : Request) × (o ≡ next s r)

abbrev pub IsRefuse : {S : Type 0} → Outcome S → Type 0
IsRefuse o = (c : Code) × (r : Request) × (o ≡ refuse c r)

pub Outcome-cases : {S : Type 0} (o : Outcome S) → IsNext o ⊎ IsRefuse o
Outcome-cases (next s r) = inl (s, r, refl)
Outcome-cases (refuse c r) = inr (c, r, refl)

module _ (m : Machine) where
  open m use {State, final, step}

  pub scan-final :
      (mem : Memory) (n : ℕ) (s : State) (r : Request) (p : ℕ)
      → final s ≡ true
      → scan m mem n s r p ≡ stopped s r p
  unfolding scan
  scan-final mem zero s r p f = refl
  scan-final mem (suc n) s r p f = rw (f, scan)

  pub scan-next :
      (mem : Memory) (k : ℕ) (s : State) (r : Request) (p : ℕ) {s' : State} {r' : Request}
      → final s ≡ false
      → step mem s r p (mem p) ≡ next s' r'
      → scan m mem (suc k) s r p ≡ scan m mem k s' r' (p + 1)
  unfolding scan
  scan-next mem k s r p f e = rw (f, scan) (rw (e, scan))

  pub scan-refuse :
      (mem : Memory) (k : ℕ) (s : State) (r : Request) (p : ℕ) {c : Code} {r' : Request}
      → final s ≡ false
      → step mem s r p (mem p) ≡ refuse c r'
      → scan m mem (suc k) s r p ≡ refused c r'
  unfolding scan
  scan-refuse mem k s r p f e = rw (f, scan) (rw (e, scan))

  abbrev pub continue : Memory → ℕ → Scan State → Scan State
  continue mem n (stopped s r p) = scan m mem n s r p
  continue mem n (refused c r) = refused c r

  -- Scanning `k + n` bytes is scanning `k` of them and then, unless refused, the other `n`.
  pub scan-add :
      (mem : Memory) (k n : ℕ) (s : State) (r : Request) (p : ℕ)
      → scan m mem (k + n) s r p ≡ continue mem n (scan m mem k s r p)
  scan-add mem zero n s r p = rw zero-add (unfold scan in refl)
  scan-add mem (suc k) n s r p = rw suc-add (elim (Bool-cases (final s)) [
    | inl f ↦ rw (
      scan-final mem (suc k) s r p f,
      scan-final mem n s r p f,
      scan-final mem (suc (k + n)) s r p f,
    )
    | inr f ↦ elim (Outcome-cases (step mem s r p (mem p))) [
      | inl (s', r', e) ↦
          rw (scan-next mem k s r p f e)
            (scan-next mem (k + n) s r p f e ∙ scan-add mem k n s' r' (p + 1))
      | inr (c, r', e) ↦ rw (scan-refuse mem k s r p f e) (scan-refuse mem (k + n) s r p f e)
    ]
  ])

  -- a round on a byte that is known
  pub scan-byte :
      (mem : Memory) (k : ℕ) (s : State) (r : Request) (p c : ℕ) {s' : State} {r' : Request}
      → mem p ≡ c
      → final s ≡ false
      → step mem s r p c ≡ next s' r'
      → scan m mem (suc k) s r p ≡ scan m mem k s' r' (p + 1)
  scan-byte mem k s r p c h f e = scan-next mem k s r p f (rw h e)
