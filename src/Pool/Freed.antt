-- ===== src/Pool/Freed.antt =====
-- `ehd_destroy_pool` frees what `malloc` gave, once each.
use ehttpd.Prelude.{
  ℕ, ◌+◌, ◌≡◌, ◌≢◌, inl, inr, refl, sym, ap, ◌∙◌, true, false, some, List, [], ◌∷◌, ◌++◌, map,
  arith, All, leb, ◌==◌, if◌then◌else◌, Bool-cases, Option-cases,
}
use mathlib.Core.Option
use ehttpd.Request.{null}
use ehttpd.Pool.Gives.{reuse-none}
use ehttpd.Pool.{
  Block, Large, Pool, Allocated, malloc, new_block, cut, last_size, with_blocks, add_block, on_cut,
  small, take_large, on_entry, free_large, destroy_pool, size_sub,
}

-- how often an address stands in a list
abbrev pub times : ℕ → List ℕ → ℕ
times a [] = 0
times a (x ∷ xs) = (if x == a then 1 else 0) + times a xs

times-append : (a : ℕ) (xs ys : List ℕ) → times a (xs ++ ys) ≡ times a xs + times a ys
times-append a [] ys = omega arith
times-append a (x ∷ xs) ys = omega (arith, times-append a xs ys)

abbrev bases : List Block → List ℕ
bases bs = map (λ b. b.base) bs

bases-append : (bs cs : List Block) → bases (bs ++ cs) ≡ bases bs ++ bases cs
bases-append [] cs = refl
bases-append (b ∷ bs) cs = ap (λ l. b.base ∷ l) (bases-append bs cs)

cut-bases :
    (size : ℕ) (bs : List Block) (m : ℕ) (bs' : List Block)
    → cut size bs ≡ some (m, bs')
    → bases bs' ≡ bases bs
unfolding cut
cut-bases size [] m bs' e = absurd (Option.none-ne-some _ e)
cut-bases size (b ∷ bs) m bs' e = elim (Bool-cases (leb size (size_sub b.end b.last))) [
  | inl l ↦ ground arith
  | inr l ↦ elim (Option-cases (cut size bs)) [
    | inl z ↦ ground arith
    | inr ((m', cs), z) ↦ ground (arith, cut-bases size bs m' cs z)
  ]
]

free_large-append : (ls ks : List Large) → free_large (ls ++ ks) ≡ free_large ls ++ free_large ks
unfolding free_large
free_large-append [] ks = refl
free_large-append (l ∷ ls) ks = rw (free_large-append ls ks) (ground arith)

module _ (a : ℕ) (k : a ≢ null) where
  -- the addresses that are freed and those that `malloc` has still to give
  abbrev pub held : Pool → List ℕ → ℕ
  held p xs = times a (destroy_pool p) + times a xs

  held-parts :
      (p : Pool) (xs : List ℕ)
      → held p xs ≡ times a (free_large p.large) + times a (bases (p.first ∷ p.next)) + times a xs
  unfolding destroy_pool
  held-parts p xs =
      ap (λ t. t + times a xs) (times-append a (free_large p.large) (bases (p.first ∷ p.next)))

  null-held : (p : Pool) (m : ℕ) (xs : List ℕ) → (m == null) ≡ true → held p xs ≡ held p (m ∷ xs)
  null-held p m xs e = let other : (m == a) ≡ false = ground arith in rw other (omega arith)

  add_block-held :
      (p : Pool) (size m : ℕ) (xs : List ℕ)
      → held (add_block p size (m, xs)).pool (add_block p size (m, xs)).rest ≡ held p (m ∷ xs)
  unfolding add_block new_block
  add_block-held p size m xs = elim (Bool-cases (m == null)) [
    | inl e ↦ rw e (null-held p m xs e)
    | inr e ↦
        let b : Block = record {
          base = m;
          last = m + 32 + size;
          end = m + last_size p.first p.next;
        } in
        let p' : Pool = record p { next = p.next ++ (b ∷ []) } in
        rw e (
          held-parts p' xs
          ∙ omega (
            arith,
            ap (times a) (bases-append p.next (b ∷ [])),
            times-append a (bases p.next) (m ∷ []),
          )
          ∙ sym (held-parts p (m ∷ xs)))
  ]

  take_large-held :
      (p : Pool) (size m : ℕ) (xs : List ℕ)
      → All (λ l. l.block ≢ null) p.large
      → held (take_large p size (m, xs)).pool (take_large p size (m, xs)).rest ≡ held p (m ∷ xs)
  unfolding take_large
  take_large-held p size m xs u = elim (Bool-cases (m == null)) [
    | inl e ↦ rw e (null-held p m xs e)
    | inr e ↦
        let l : Large = record { block = m; size = size } in
        let p' : Pool = record p { large = p.large ++ (l ∷ []) } in
        let own : free_large (l ∷ []) ≡ m ∷ [] = unfold free_large in rw e refl in
        rw (e, reuse-none l p.large u)
          (held-parts p' xs
            ∙ omega (
              arith,
              ap (times a)
                  (free_large-append p.large (l ∷ []) ∙ ap (λ t. free_large p.large ++ t) own),
              times-append a (free_large p.large) (m ∷ []),
            )
            ∙ sym (held-parts p (m ∷ xs)))
  ]

  -- with no answer left `malloc` fails, and nothing is held in addition
  add_block-answer :
      (p : Pool) (size : ℕ) (xs : List ℕ)
      → held (add_block p size (malloc xs)).pool (add_block p size (malloc xs)).rest ≡ held p xs
  unfolding malloc
  add_block-answer p size [] = add_block-held p size null [] ∙ sym (null-held p null [] refl)
  add_block-answer p size (x ∷ xs) = add_block-held p size x xs

  take_large-answer :
      (p : Pool) (size : ℕ) (xs : List ℕ)
      → All (λ l. l.block ≢ null) p.large
      → held (take_large p size (malloc xs)).pool (take_large p size (malloc xs)).rest ≡ held p xs
  unfolding malloc
  take_large-answer p size [] u = take_large-held p size null [] u ∙ sym (null-held p null [] refl)
  take_large-answer p size (x ∷ xs) u = take_large-held p size x xs u

  with_blocks-held :
      (p : Pool) (bs : List Block) (xs : List ℕ)
      → bases bs ≡ bases (p.first ∷ p.next)
      → held (with_blocks p bs) xs ≡ held p xs
  unfolding with_blocks
  with_blocks-held p [] xs e = refl
  with_blocks-held p (b ∷ bs) xs e =
      held-parts (record p { first = b; next = bs }) xs
      ∙ ap (λ t. times a (free_large p.large) + times a t + times a xs) e
      ∙ sym (held-parts p xs)

  pub small-held :
      (p : Pool) (size : ℕ) (xs : List ℕ)
      → held (small p size xs).pool (small p size xs).rest ≡ held p xs
  unfolding small on_cut
  small-held p size xs = elim (Option-cases (cut size (p.first ∷ p.next))) [
    | inl z ↦ rw z (add_block-answer p size xs)
    | inr ((m, bs), z) ↦ rw z (with_blocks-held p bs xs (cut-bases size (p.first ∷ p.next) m bs z))
  ]

  pub on_entry-held :
      (p : Pool) (size : ℕ) (xs : List ℕ) (r : Allocated)
      → All (λ l. l.block ≢ null) r.pool.large
      → held r.pool r.rest ≡ held p xs
      → held (on_entry size r).pool (on_entry size r).rest ≡ held p xs
  unfolding on_entry
  on_entry-held p size xs r u e = elim (Bool-cases (r.address == null)) [
    | inl z ↦ rw z e
    | inr z ↦ rw z (take_large-answer r.pool size r.rest u ∙ e)
  ]
