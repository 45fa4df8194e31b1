-- ===== src/Pool/History.antt =====
-- A pool from its creation over any allocations to its end.
use ehttpd.Prelude.{
  ℕ, ◌+◌, ◌≤◌, ◌≡◌, ◌≢◌, inl, inr, refl, ap, ◌∙◌, false, Option, none, some, List, [], ◌∷◌, arith,
  Bool-cases, ◌==◌, if◌then◌else◌,
}
use mathlib.Core.Option
use ehttpd.Request.{null}
use ehttpd.Pool.{
  Pool, Allocated, pool_header, large_size, small, fits, on_entry, palloc, create_pool,
  destroy_pool, malloc, free_large,
}
use ehttpd.Pool.Regions.{IsPool}
use ehttpd.Pool.Gives.{small-Gives, on_entry-Gives}
use ehttpd.Pool.Palloc.{
  fits-le, fits-entry, palloc-fits, palloc-large, create_pool-IsPool, fresh_pool,
}
use ehttpd.Pool.Freed.{times, held, small-held, on_entry-held}

-- allocations in a row
abbrev pub requests : Pool → List ℕ → List ℕ → Option (Pool × List ℕ)
requests p [] xs = some (p, xs)
requests p (size ∷ sizes) xs = elim (palloc 2 p size xs) [
  | none ↦ none
  | some r ↦ requests r.pool sizes r.rest
]

-- a pool is created, used and destroyed: the addresses that `free` is called with, and the answers
-- of `malloc` that were not used
abbrev pub used_and_destroyed : Option Pool × List ℕ → List ℕ → Option (List ℕ × List ℕ)
used_and_destroyed (none, xs) sizes = some ([], xs)
used_and_destroyed (some p, xs) sizes =
    Option.map (λ r. (destroy_pool r.0, r.1)) (requests p sizes xs)

module _ (a : ℕ) (k : a ≢ null) (n : ℕ) where
  palloc-held :
      (p : Pool) (size : ℕ) (xs : List ℕ)
      → IsPool n p
      → (r : Allocated) × (palloc 2 p size xs ≡ some r)
        × IsPool n r.pool
        × (held a k r.pool r.rest ≡ held a k p xs)
  palloc-held p size xs w = elim (Bool-cases (fits p size)) [
    | inl f ↦ (
      small p size xs,
      palloc-fits n p w 1 size xs f,
      (small-Gives n p size xs w (fits-le n p w size f)).pool,
      small-held a k p size xs,
    )
    | inr f ↦
        let r = small p large_size xs in
        let g = small-Gives n p large_size xs w (fits-le n p w large_size (fits-entry n p w)) in
        (
          on_entry size r,
          palloc-large n p w 0 size xs f,
          (on_entry-Gives n p size r g).pool,
          on_entry-held a k p size xs r g.pool.in_use (small-held a k p large_size xs),
        )
  ]

  requests-held :
      (p : Pool) (sizes xs : List ℕ)
      → IsPool n p
      → (q : Pool) × (ys : List ℕ) × (requests p sizes xs ≡ some (q, ys))
        × (held a k q ys ≡ held a k p xs)
  requests-held p [] xs w = (p, xs, refl, refl)
  requests-held p (size ∷ sizes) xs w =
      let (r, e, w', h) = palloc-held p size xs w in
      let (q, ys, e', h') = requests-held r.pool sizes r.rest w' in
      (q, ys, rw (e, requests) e', h' ∙ h)

destroy-fresh_pool :
    (a m n : ℕ) → times a (destroy_pool (fresh_pool m n)) ≡ (if m == a then 1 else 0)
unfolding destroy_pool free_large
destroy-fresh_pool a m n = omega arith

-- A pool of a size with room for two headers is created, any number of allocations of any size is
-- made, and it is destroyed: `free` is called with every address that `malloc` gave, as often as
-- it gave it, and with no other. (`a` is any address but NULL.)
pub destroy-frees :
    (a n : ℕ) (sizes xs : List ℕ)
    → a ≢ null
    → pool_header + large_size ≤ n
    → (freed : List ℕ) × (ys : List ℕ) × (used_and_destroyed (create_pool n xs) sizes
        ≡ some (freed, ys))
      × (times a freed + times a ys ≡ times a xs)
unfolding create_pool malloc
destroy-frees a n sizes [] k l = ([], [], refl, refl)
destroy-frees a n sizes (m ∷ xs) k l = elim (Bool-cases (m == null)) [
  | inl z ↦
      let other : (m == a) ≡ false = ground arith in ([], xs, rw z refl, rw other (omega arith))
  | inr z ↦
      let (e, w) = create_pool-IsPool n m xs (λ q. ground arith) l in
      let (q, ys, e', h) = requests-held a k n (fresh_pool m n) sizes xs w in
      (
        destroy_pool q,
        ys,
        rw e (rw e' refl),
        h ∙ ap (λ t. t + times a xs) (destroy-fresh_pool a m n),
      )
]
