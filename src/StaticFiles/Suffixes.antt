-- ===== src/StaticFiles/Suffixes.antt =====
-- The type of a file by the last bytes of its path.
use ehttpd.Prelude.{
  ℕ, zero, suc, ◌+◌, ◌-◌, ◌≤◌, ◌<◌, ◌≡◌, refl, sym, ◌∙◌, ◌⊎◌, inl, inr, Bool, true, false, Option,
  none, some, List, [], ◌∷◌, length, get_or, All, ◌==◌, arith, Bool-cases, if◌then◌else◌,
}
use mathlib.Core.Bool.{false≢true}
use mathlib.Core.Path.{subst}
use ehttpd.Request.{Memory, Holds}
use ehttpd.ResponseHead.{Field}
use ehttpd.StaticFiles.{ends_in, find_type}

when : (a b : Bool) → (if a then b else false) ≡ true → (a ≡ true) × (b ≡ true)
when true b e = (refl, e)
when false b e = absurd (false≢true e)

module _ (mem : Memory) where
  -- the `j` first bytes of a suffix, one by one
  abbrev Same : ℕ → List ℕ → ℕ → Type 0
  Same p s j = (i : ℕ) → i < j → mem (p + i) ≡ get_or s i 0

  Same-Holds : (p : ℕ) (s : List ℕ) → Same p s (length s) → Holds mem p s
  Same-Holds p [] h = tt
  Same-Holds p (c ∷ s) h = (
    subst (λ q. mem q ≡ c) (omega arith) (h 0 (omega arith)),
    Same-Holds (p + 1) s
        (λ i l. subst (λ q. mem q ≡ get_or s i 0) (omega arith) (h (suc i) (omega arith))),
  )

  Holds-Same : (p : ℕ) (s : List ℕ) → Holds mem p s → Same p s (length s)
  Holds-Same p [] h i l = absurd (omega (arith, l))
  Holds-Same p (c ∷ s) (h, hs) zero l = subst (λ q. mem q ≡ c) (omega arith) h
  Holds-Same p (c ∷ s) (h, hs) (suc i) l =
      subst (λ q. mem q ≡ get_or s i 0) (omega arith) (Holds-Same (p + 1) s hs i (omega arith))

  module _ (stop : ℕ) (s : List ℕ) (room : length s ≤ stop) where
    address : (j : ℕ) → stop + j - length s ≡ stop - length s + j
    address j = omega arith

    ends_in-Same : (j : ℕ) → ends_in mem stop s j ≡ true → Same (stop - length s) s j
    unfolding ends_in
    ends_in-Same zero e i l = absurd (omega (arith, l))
    ends_in-Same (suc j) e i l =
        let (t, r) = when _ _ e in
        let q : get_or s j 0 ≡ mem (stop + j - length s) = ground arith in
        elim (Bool-cases (i == j)) [
          | inl h ↦
              subst (λ n. mem (stop - length s + n) ≡ get_or s n 0) (ground arith)
                (subst (λ a. mem a ≡ get_or s j 0) (address j) (sym q))
          | inr h ↦ ends_in-Same j r i (ground arith)
        ]

    Same-ends_in : (j : ℕ) → Same (stop - length s) s j → ends_in mem stop s j ≡ true
    unfolding ends_in
    Same-ends_in zero h = refl
    Same-ends_in (suc j) h =
        let q : mem (stop + j - length s) ≡ get_or s j 0 =
          subst (λ a. mem a ≡ get_or s j 0) (sym (address j)) (h j (omega arith)) in
        let last : (get_or s j 0 == mem (stop + j - length s)) ≡ true = ground arith in
        rw last (Same-ends_in j (λ i l. h i (omega arith)))

  -- `o` is the type of the first entry whose suffix ends before `stop`, `none` if there is none
  abbrev pub First : ℕ → List Field → Option (List ℕ) → Type 0
  First stop [] o = o ≡ none
  First stop (m ∷ ms) o =
      (Holds mem (stop - length m.key) m.key × (o ≡ some m.value))
      ⊎ ((Holds mem (stop - length m.key) m.key → ⊥) × First stop ms o)

-- For a table of suffixes that memory has room for in front of the path's end, the loop over the
-- table finds the type of its first entry whose suffix the path, or what stands in front of it,
-- ends in, and none if there is no such entry.
pub find_type-First :
    (mem : Memory) (stop : ℕ) (ms : List Field)
    → All (λ m. length m.key ≤ stop) ms
    → First mem stop ms (find_type mem stop ms)
unfolding find_type
find_type-First mem stop [] w = refl
find_type-First mem stop (m ∷ ms) (r, w) =
    elim (Bool-cases (ends_in mem stop m.key (length m.key))) [
      | inl e ↦ inl (
        Same-Holds mem (stop - length m.key) m.key (ends_in-Same mem stop m.key r (length m.key) e),
        rw e refl,
      )
      | inr e ↦ inr (
        λ h. absurd (
            false≢true
              (sym e ∙ Same-ends_in mem stop m.key r (length m.key) (Holds-Same mem _ m.key h))),
        rw e (find_type-First mem stop ms w),
      )
    ]
