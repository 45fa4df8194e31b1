-- ===== src/Pool/Tests.antt =====
-- A concrete pool, and the theorems at it.
use ehttpd.Prelude.{ℕ, ◌+◌, ◌≡◌, refl, inl, some, List, [], ◌∷◌, arith}
use ehttpd.Pool.{
  Pool, Allocated, malloc, new_block, size_sub, cut, last_size, with_blocks, add_block, on_cut,
  small, fits, reuse, has_free, take_large, on_entry, palloc, free_large, destroy_pool, create_pool,
}
use ehttpd.Pool.Blocks.{Region, Apart}
use ehttpd.Pool.Regions.{Covered, IsPool}
use ehttpd.Pool.Palloc.{palloc-Apart}
use ehttpd.Pool.Freed.{times}
use ehttpd.Pool.History.{used_and_destroyed, destroy-frees}

-- 100 bytes at address 1000, of which 40 are given
abbrev pool : Pool
pool = record { first = record { base = 1000; last = 1072; end = 1100 }; next = []; large = [] }

pool-IsPool : IsPool 100 pool
pool-IsPool = record {
  formed = (record { header = omega arith; within = omega arith }, tt);
  room = omega arith;
  one_size = (refl, tt);
  in_use = tt;
}

-- 30 bytes are too many for the block and are cut from a new one
abbrev given : Allocated
given = record {
  address = 2032;
  pool = record pool { next = record { base = 2000; last = 2062; end = 2100 } ∷ [] };
  rest = [];
}

run_given : palloc 2 pool 30 (2000 ∷ []) ≡ some given
unfolding palloc small on_cut cut add_block malloc new_block size_sub last_size fits has_free
run_given = refl

-- 90 bytes do not fit in any block: an entry of 16 bytes and a block of their own
run_large :
    (free : List ℕ) × (used_and_destroyed (create_pool 100 (1000 ∷ 3000 ∷ [])) (90 ∷ [])
      ≡ some (free, []))
    × (free ≡ 3000 ∷ 1000 ∷ [])
unfolding create_pool palloc small on_cut cut add_block malloc new_block size_sub last_size fits
    has_free take_large reuse on_entry with_blocks destroy_pool free_large
run_large = (_, refl, refl)

abbrev earlier : Region
earlier = record { from = 1032; size = 40 }

palloc-Apart_example :
    Covered (record { from = 2032; size = 30 }) given.pool
    × Covered earlier given.pool
    × Apart earlier (record { from = 2032; size = 30 })
palloc-Apart_example =
    palloc-Apart 100 pool pool-IsPool 0 30 (2000 ∷ []) given earlier run_given (omega arith)
      ((inl (omega arith), tt), (tt, tt)) (inl (inl (omega arith, omega arith)))

destroy-frees_example :
    (freed : List ℕ) × (ys : List ℕ) × (used_and_destroyed
        (create_pool 100 (1000 ∷ 3000 ∷ 4000 ∷ []))
        (8 ∷ 90 ∷ [])
      ≡ some (freed, ys))
    × (times 3000 freed + times 3000 ys ≡ times 3000 (1000 ∷ 3000 ∷ 4000 ∷ []))
destroy-frees_example =
    destroy-frees 3000 100 (8 ∷ 90 ∷ []) (1000 ∷ 3000 ∷ 4000 ∷ []) (omega arith) (omega arith)
