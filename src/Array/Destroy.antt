-- ===== src/Array/Destroy.antt =====
-- What `ehd_array_destroy` gives back to the pool.
use native.Mathlib.Nat.{mul-le-mul_left}
use ehttpd.Prelude.{
  ℕ, zero, suc, ◌+◌, ◌*◌, ◌≤◌, ◌<◌, ◌≡◌, inl, inr, refl, sym, arith, Bool-cases, ◌==◌, List, [],
  ◌∷◌,
}
use ehttpd.Array.Push.{slot-at}
use ehttpd.Pool.{Block, Large, Pool, pool_header}
use ehttpd.Pool.Blocks.{Region, Apart, Separate, InBlocks}
use ehttpd.Pool.Regions.{Covered, InLarges, IsPool, extents}
use ehttpd.Array.{Array, array_size, slot, give_back, destroy}
use ehttpd.Array.Grown.{region, room, IsArray, Covered-first}

-- The pool stays in order, and so does every allocation apart from the region that is given back.
pub record GivesBack (n : ℕ) (mine : Region → Type 0) (p p' : Pool) : Type 0 where
  pub pool : IsPool n p'
  pub extents : Separate (extents p) → Separate (extents p')
  pub keeps : (s : Region) → 0 < s.size → mine s → Covered s p → Covered s p'

module _ (n : ℕ) (p : Pool) (w : IsPool n p) (h : Separate (extents p)) where
  same : (mine : Region → Type 0) → GivesBack n mine p p
  same mine = record { pool = w; extents = λ e. e; keeps = λ s y m c. c }

  -- an allocation in what is left of the first block, or elsewhere
  keep :
      (at size : ℕ) (s : Region)
      → at + size ≡ p.first.last
      → 0 < s.size
      → Apart s (region at size)
      → Covered s p
      → Covered s (record p { first = record p.first { last = at } })
  keep at size s e y m (inl (inl i)) = inl (inl (i.0, ground arith))
  keep at size s e y m (inl (inr i)) = inl (inr i)
  keep at size s e y m (inr i) = inr i

  -- back to an address in the part of the first block that has been cut
  shortened :
      (at size : ℕ)
      → p.first.base + pool_header ≤ at
      → at + size ≡ p.first.last
      → GivesBack n
          (λ s. Apart s (region at size))
          p
          (record p { first = record p.first { last = at } })
  shortened at size b e =
      let first = w.formed.0 in
      let within = first.within in
      record {
        pool = record {
          formed = (record { header = b; within = omega arith }, w.formed.1);
          room = w.room;
          one_size = w.one_size;
          in_use = w.in_use;
        };
        extents = λ k. k;
        keeps = λ s y m c. keep at size s e y m c;
      }

  from_header :
      (at size : ℕ)
      → at + size ≡ p.first.last
      → (0 < size → Covered (region at size) p)
      → p.first.base + pool_header ≤ at
  from_header at zero e c = let header = w.formed.0.header in omega arith
  from_header at (suc k) e c =
      (Covered-first (region at (suc k)) p w.formed h (omega arith) e (c (omega arith))).0

  give_back-GivesBack :
      (at size end : ℕ)
      → at + size ≡ end
      → (0 < size → Covered (region at size) p)
      → GivesBack n (λ s. Apart s (region at size)) p (give_back end at p)
  unfolding give_back
  give_back-GivesBack at size end e c = elim (Bool-cases (end == p.first.last)) [
    | inl f ↦
        let last : at + size ≡ p.first.last = ground arith in
        rw f (shortened at size (from_header at size last c) last)
    | inr f ↦ rw f (same (λ s. Apart s (region at size)))
  ]

-- the part of an allocation that comes first
module _ (at size size' : ℕ) (l : size ≤ size') where
  InBlocks-prefix : (bs : List Block) → InBlocks (region at size') bs → InBlocks (region at size) bs
  InBlocks-prefix [] i = i
  InBlocks-prefix (b ∷ bs) (inl i) = inl (i.0, omega arith)
  InBlocks-prefix (b ∷ bs) (inr i) = inr (InBlocks-prefix bs i)

  InLarges-prefix : (ls : List Large) → InLarges (region at size') ls → InLarges (region at size) ls
  InLarges-prefix [] i = i
  InLarges-prefix (b ∷ bs) (inl i) = inl (i.0, omega arith)
  InLarges-prefix (b ∷ bs) (inr i) = inr (InLarges-prefix bs i)

  Covered-prefix : (p : Pool) → Covered (region at size') p → Covered (region at size) p
  Covered-prefix p (inl i) = inl (InBlocks-prefix (p.first ∷ p.next) i)
  Covered-prefix p (inr i) = inr (InLarges-prefix p.large i)

-- An array in order, whose room and header are two allocations of the pool that do not overlap,
-- is destroyed: the pool is in order again, its blocks still do not overlap, and it has every
-- allocation that overlaps with neither of the two.
pub destroy-GivesBack :
    (n address : ℕ) (a : Array) (p : Pool)
    → IsPool n p
    → Separate (extents p)
    → IsArray a p
    → Covered (region address array_size) p
    → Apart (region address array_size) (room a)
    → GivesBack n
        (λ s. Apart s (room a) × Apart s (region address array_size))
        p
        (destroy address a p)
unfolding destroy
destroy-GivesBack n address a p w h v c k =
    let used = a.size * a.ndata in
    let less : used ≤ a.size * a.nblock = mul-le-mul_left a.size v.within in
    let p' = give_back (slot a) a.start p in
    let g =
      give_back-GivesBack n p w h a.start used (slot a) (sym (slot-at n a p w v a refl refl))
        (λ l. Covered-prefix a.start used (a.size * a.nblock) less p v.covered) in
    let header = region address array_size in
    let c' = g.keeps header (omega arith) (ground arith) c in
    let g' =
      give_back-GivesBack n p' g.pool (g.extents h) address array_size (address + array_size) refl
        (λ l. c') in
    record {
      pool = g'.pool;
      extents = λ e. g'.extents (g.extents e);
      keeps = λ s y m e. g'.keeps s y m.1 (g.keeps s y (ground arith) e);
    }
