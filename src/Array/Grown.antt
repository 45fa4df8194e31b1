-- ===== src/Array/Grown.antt =====
-- An array in order in its pool, and what is left of both when it grows.
use native.Mathlib.Nat.{mod-eq_of_lt}
use ehttpd.Prelude.{
  ℕ, ◌+◌, ◌-◌, ◌*◌, ◌^◌, ◌≤◌, ◌<◌, ◌≡◌, ◌⊎◌, inl, inr, refl, List, [], ◌∷◌, map, All, All-left,
  All-right, arith, leb, true,
}
use mathlib.Core.Path.{subst}
use ehttpd.Request.{Memory}
use ehttpd.Pool.{Block, Large, Pool, size_sub, small, on_cut, cut, with_blocks}
use ehttpd.Pool.Blocks.{Region, Apart, Separate, extent, IsBlock, InBlock, InBlocks}
use ehttpd.Pool.Regions.{Covered, InLarges, IsPool, large_extent, extents, blocks}
use ehttpd.Pool.Gives.{Gives, small-Gives}
use ehttpd.Array.{Array, bytes_of, to_uint, memcpy, can_extend, extend}

abbrev pub region : ℕ → ℕ → Region
region from size = record { from = from; size = size }

-- the array's room, and the part of it that holds elements
abbrev pub room : Array → Region
room a = region a.start (a.size * a.nblock)

-- The numbers of the array are such that none of its products wraps around, twice its room
-- included, and its room is one of the pool's allocations.
pub record IsArray (a : Array) (p : Pool) : Type 0 where
  pub sized : 0 < a.size
  pub begun : 0 < a.nblock
  pub within : a.ndata ≤ a.nblock
  pub small_size : 2 * a.size * a.nblock < 2 ^ 64
  pub small_count : a.nblock * 2 < 2 ^ 32
  pub covered : Covered (room a) p

pub bytes_of-small : (size n : ℕ) → size * n < 2 ^ 64 → bytes_of size n ≡ size * n
unfolding bytes_of
bytes_of-small size n l = mod-eq_of_lt l

pub to_uint-small : (n : ℕ) → n < 2 ^ 32 → to_uint n ≡ n
unfolding to_uint
to_uint-small n l = mod-eq_of_lt l

-- regions of two blocks that overlap at a byte
InBlocks-first :
    (r : Region) (b : Block) (bs : List Block)
    → All IsBlock (b ∷ bs)
    → All (Apart (extent b)) (map extent bs)
    → 0 < r.size
    → r.from + r.size ≡ b.last
    → InBlocks r bs
    → ⊥
InBlocks-first r b [] w h z e i = i
InBlocks-first r b (c ∷ bs) (w, (v, ws)) (h, hs) z e (inl i) =
    let below = w.header in
    let above = w.within in let below' = v.header in let above' = v.within in ground arith
InBlocks-first r b (c ∷ bs) (w, (v, ws)) (h, hs) z e (inr i) =
    InBlocks-first r b bs (w, ws) hs z e i

InLarges-first :
    (r : Region) (b : Block) (ls : List Large)
    → IsBlock b
    → All (Apart (extent b)) (map large_extent ls)
    → 0 < r.size
    → r.from + r.size ≡ b.last
    → InLarges r ls
    → ⊥
InLarges-first r b [] w h z e i = i
InLarges-first r b (l ∷ ls) w (h, hs) z e (inl i) =
    let below = w.header in let above = w.within in ground arith
InLarges-first r b (l ∷ ls) w (h, hs) z e (inr i) = InLarges-first r b ls w hs z e i

-- an allocation that ends where the pool's first block is cut next is one of that block
pub Covered-first :
    (r : Region) (p : Pool)
    → All IsBlock (blocks p)
    → Separate (extents p)
    → 0 < r.size
    → r.from + r.size ≡ p.first.last
    → Covered r p
    → InBlock r p.first
Covered-first r p w h z e (inl (inl i)) = i
Covered-first r p w h z e (inl (inr i)) =
    let next = map extent p.next in
    let larges = map large_extent p.large in
    absurd
      (InBlocks-first r p.first p.next w (All-left (Apart (extent p.first)) next larges h.0) z e i)
Covered-first r p w h z e (inr i) =
    let next = map extent p.next in
    let larges = map large_extent p.large in
    absurd (
      InLarges-first r p.first p.large w.0 (All-right (Apart (extent p.first)) next larges h.0) z e
        i)

-- What extending the array does to the pool is what an allocation of one more element does.
extend-small :
    (p : Pool) (size : ℕ) (xs : List ℕ)
    → size ≤ p.first.end - p.first.last
    → IsBlock p.first
    → small p size xs ≡ record { address = p.first.last; pool = extend p size; rest = xs }
unfolding small on_cut cut with_blocks size_sub extend
extend-small p size xs l w =
    let within = w.within in
    let enough : leb size (p.first.end - p.first.last) ≡ true = ground arith in
    let ends : leb p.first.last p.first.end ≡ true = ground arith in rw ends (rw enough refl)

pub extend-Gives :
    (n : ℕ) (p : Pool) (size : ℕ) (xs : List ℕ)
    → IsPool n p
    → size ≤ p.first.end - p.first.last
    → Gives n p size (record { address = p.first.last; pool = extend p size; rest = xs })
extend-Gives n p size xs w l =
    let first = w.one_size.0 in
    let formed = w.formed.0 in
    let header = formed.header in
    let within = formed.within in
    subst (Gives n p size) (extend-small p size xs l formed)
      (small-Gives n p size xs w (omega arith))

-- what the test of the room behind the array says, for all that it reads only 32 bits
pub fits-unsigned :
    (a : Array) (p : Pool)
    → p.first.last ≤ p.first.end
    → can_extend a p ≡ true
    → a.size ≤ p.first.end - p.first.last
unfolding can_extend to_uint size_sub
fits-unsigned a p l e = ground arith

-- what `malloc` gave is the same
pub Separate-extend :
    (p : Pool) (size : ℕ) → Separate (extents p) → Separate (extents (extend p size))
unfolding extend
Separate-extend p size h = h

-- the array's room with one element more, in the pool that was extended
pub Covered-extend :
    (a : Array) (p : Pool)
    → All IsBlock (blocks p)
    → Separate (extents p)
    → 0 < a.size * a.nblock
    → a.start + a.size * a.nblock ≡ p.first.last
    → Covered (room a) p
    → Covered (region a.start (a.size * (a.nblock + 1))) (extend p a.size)
unfolding extend
Covered-extend a p w h z e c =
    let i = Covered-first (room a) p w h z e c in
    let more : a.size * (a.nblock + 1) ≡ a.size * a.nblock + a.size = omega arith in
    inl (inl (i.0, omega arith))

-- what copying does: the bytes stand at the new place, and no other byte changes
pub memcpy-at :
    (to from size i : ℕ) (mem : Memory)
    → i < size
    → memcpy to from size mem (to + i) ≡ mem (from + i)
unfolding memcpy
memcpy-at to from size i mem l = let back : to + i - to ≡ i = omega arith in rw back (ground arith)

pub memcpy-other :
    (to from size k : ℕ) (mem : Memory)
    → (k < to) ⊎ (to + size ≤ k)
    → memcpy to from size mem k ≡ mem k
unfolding memcpy
memcpy-other to from size k mem h = ground arith
