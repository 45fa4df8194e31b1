-- ===== src/Pool/Palloc.antt =====
-- `ehd_palloc` as a whole, and what `ehd_destroy_pool` frees.
use ehttpd.Prelude.{
  ℕ, zero, suc, ◌+◌, ◌-◌, ◌≤◌, ◌<◌, ◌≡◌, ◌≢◌, inl, inr, refl, sym, eqb-ne, ◌∙◌, true, false, none,
  some, List, [], ◌∷◌, arith, Bool-cases,
}
use mathlib.Core.Option
use mathlib.Core.Path.{subst}
use ehttpd.Request.{null}
use ehttpd.Pool.{
  Pool, Allocated, pool_header, large_size, size_sub, small, fits, has_free, on_entry, palloc,
  create_pool, malloc, new_block,
}
use ehttpd.Pool.Blocks.{Region, Apart, Separate}
use ehttpd.Pool.Regions.{Covered, extents, IsPool}
use ehttpd.Pool.Gives.{Gives, small-Gives, on_entry-Gives, has_free-false}

module _ (n : ℕ) (p : Pool) (w : IsPool n p) where
  pub fits-le : (size : ℕ) → fits p size ≡ true → size + pool_header ≤ n
  unfolding fits size_sub
  fits-le size h = let first = w.one_size.0 in let room = w.room in ground arith

  pub fits-entry : fits p large_size ≡ true
  unfolding fits size_sub
  fits-entry = let first = w.one_size.0 in let room = w.room in ground arith

  -- a call whose allocation fits in a block does not call itself
  pub palloc-fits :
      (k size : ℕ) (xs : List ℕ)
      → fits p size ≡ true
      → palloc (suc k) p size xs ≡ some (small p size xs)
  unfolding palloc
  palloc-fits k size xs h = rw h refl

  pub palloc-large :
      (k size : ℕ) (xs : List ℕ)
      → fits p size ≡ false
      → palloc (suc (suc k)) p size xs ≡ some (on_entry size (small p large_size xs))
  unfolding palloc
  palloc-large k size xs h = rw (h, has_free-false p.large w.in_use, fits-entry) refl

  pub palloc-Gives :
      (k size : ℕ) (xs : List ℕ)
      → (r : Allocated) × (palloc (suc (suc k)) p size xs ≡ some r) × Gives n p size r
  palloc-Gives k size xs = elim (Bool-cases (fits p size)) [
    | inl f ↦
        (small p size xs, palloc-fits (suc k) size xs f, small-Gives n p size xs w (fits-le size f))
    | inr f ↦ (
      on_entry size (small p large_size xs),
      palloc-large k size xs f,
      on_entry-Gives n p size (small p large_size xs)
          (small-Gives n p large_size xs w (fits-le large_size fits-entry)),
    )
  ]

  -- On a pool whose blocks are in order `ehd_palloc` returns, with at most one call of itself, and
  -- the pool is in order again, whatever `malloc` answers.
  pub palloc-IsPool :
      (k size : ℕ) (xs : List ℕ)
      → (r : Allocated) × (palloc (suc (suc k)) p size xs ≡ some r) × IsPool n r.pool
  palloc-IsPool k size xs = let (r, e, g) = palloc-Gives k size xs in (r, e, g.pool)

  -- If `ehd_palloc` gives memory, and what `malloc` gave for the pool does not overlap: the new
  -- memory lies in a block of the pool behind what was cut from it, or is a block of its own, and
  -- it does not overlap with any earlier allocation, which is still one of the pool.
  pub palloc-Apart :
      (k size : ℕ) (xs : List ℕ) (r : Allocated) (s : Region)
      → palloc (suc (suc k)) p size xs ≡ some r
      → r.address ≢ null
      → Separate (extents r.pool)
      → Covered s p
      → Covered (record { from = r.address; size = size }) r.pool
        × Covered s r.pool
        × Apart s (record { from = r.address; size = size })
  palloc-Apart k size xs r s e a h c =
      let (r', e', g') = palloc-Gives k size xs in
      let g : Gives n p size r =
        subst (Gives n p size) (Option.some-injective r' r (sym e' ∙ e)) g' in
      (g.covers a, g.keeps s c, g.apart s a h c)

abbrev pub fresh_pool : (m size : ℕ) → Pool
fresh_pool m size = record {
  first = record { base = m; last = m + pool_header; end = m + size };
  next = [];
  large = [];
}

-- what `ehd_create_pool` gives for a size that has room for two headers
pub create_pool-IsPool :
    (size m : ℕ) (xs : List ℕ)
    → m ≢ null
    → pool_header + large_size ≤ size
    → (create_pool size (m ∷ xs) ≡ (some (fresh_pool m size), xs)) × IsPool size (fresh_pool m size)
unfolding create_pool malloc new_block
create_pool-IsPool size m xs k l = (
  rw (eqb-ne m null k) refl,
  record {
    formed = (record { header = omega arith; within = omega arith }, tt);
    room = l;
    one_size = (omega arith, tt);
    in_use = tt;
  },
)

-- A pool whose blocks have room for their header and not for an entry of the list of large blocks
-- behind it, without large blocks: `ehd_palloc` of more than a block has calls itself for ever.
pub palloc-endless :
    (k size : ℕ) (p : Pool) (xs : List ℕ)
    → p.first.base + pool_header ≤ p.first.end
    → p.first.end - p.first.base < pool_header + large_size
    → p.first.end - p.first.base < size + pool_header
    → p.large ≡ []
    → palloc k p size xs ≡ none
unfolding palloc
palloc-endless zero size p xs a l m e = refl
palloc-endless (suc k) size p xs a l m e =
    let no_room : fits p size ≡ false = unfold fits size_sub in ground arith in
    let no_free : has_free p.large ≡ false = rw e (unfold has_free in refl) in
    rw (no_room, no_free, palloc-endless k large_size p xs a l (omega arith) e) refl
