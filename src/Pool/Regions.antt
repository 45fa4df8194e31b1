-- ===== src/Pool/Regions.antt =====
-- The memory of a pool: what has been handed out lies in its blocks or is a large block.
use ehttpd.Prelude.{
  ℕ, ◌+◌, ◌≤◌, ◌≡◌, ◌≢◌, ◌⊎◌, inl, inr, List, [], ◌∷◌, ◌++◌, map, All, All-append, All-left,
  All-right, arith,
}
use ehttpd.Request.{null}
use ehttpd.Pool.{Block, Large, Pool, pool_header, large_size}
use ehttpd.Pool.Blocks.{
  Region, Apart, Apart-sym, Separate, extent, IsBlock, InBlock, InBlocks, InBlocks-Apart,
}

abbrev pub large_extent : Large → Region
large_extent l = record { from = l.block; size = l.size }

abbrev pub InLarge : Region → Large → Type 0
InLarge r l = (l.block ≤ r.from) × (r.from + r.size ≤ l.block + l.size)

abbrev pub InLarges : Region → List Large → Type 0
InLarges r [] = ⊥
InLarges r (l ∷ ls) = InLarge r l ⊎ InLarges r ls

abbrev pub blocks : Pool → List Block
blocks p = p.first ∷ p.next

-- a region that the pool has handed out, or a part of one
abbrev pub Covered : Region → Pool → Type 0
Covered r p = InBlocks r (blocks p) ⊎ InLarges r p.large

-- all that `malloc` gave for the pool
abbrev pub extents : Pool → List Region
extents p = map extent (blocks p) ++ map large_extent p.large

-- The blocks are of size `n`, with room for an entry of the list of large blocks.
pub record IsPool (n : ℕ) (p : Pool) : Type 0 where
  pub formed : All IsBlock (blocks p)
  pub room : pool_header + large_size ≤ n
  pub one_size : All (λ e. e.size ≡ n) (map extent (blocks p))
  pub in_use : All (λ l. l.block ≢ null) p.large

pub Separate-left : (xs ys : List Region) → Separate (xs ++ ys) → Separate xs
Separate-left [] ys h = tt
Separate-left (x ∷ xs) ys (h, hs) = (All-left (Apart x) xs ys h, Separate-left xs ys hs)

-- one of separate regions is apart from those before it and from those behind it
pub Separate-middle :
    (xs : List Region) (e : Region) (ys : List Region)
    → Separate (xs ++ (e ∷ ys))
    → All (Apart e) xs × All (Apart e) ys
Separate-middle [] e ys (h, hs) = (tt, h)
Separate-middle (x ∷ xs) e ys (h, hs) =
    let (before, behind) = Separate-middle xs e ys hs in
    ((Apart-sym x e (All-right (Apart x) xs (e ∷ ys) h).0, before), behind)

Separate-drop :
    (xs : List Region) (e : Region) (ys : List Region)
    → Separate (xs ++ (e ∷ ys))
    → Separate (xs ++ ys)
Separate-drop [] e ys (h, hs) = hs
Separate-drop (x ∷ xs) e ys (h, hs) = (
  All-append (Apart x) xs ys (All-left (Apart x) xs (e ∷ ys) h)
      (All-right (Apart x) xs (e ∷ ys) h).1,
  Separate-drop xs e ys hs,
)

-- a region in a large block is apart from one in the blocks
pub InLarges-InBlocks :
    (r s : Region) (bs : List Block) (ls : List Large)
    → All IsBlock bs
    → Separate (map extent bs ++ map large_extent ls)
    → InLarges r ls
    → InBlocks s bs
    → Apart r s
InLarges-InBlocks r s bs [] w h i j = absurd i
InLarges-InBlocks r s bs (l ∷ ls) w h (inl (a, b)) j =
    InBlocks-Apart r s (large_extent l) bs w a b
      (Separate-middle (map extent bs) (large_extent l) (map large_extent ls) h).0 j
InLarges-InBlocks r s bs (l ∷ ls) w h (inr i) j =
    InLarges-InBlocks r s bs ls w
      (Separate-drop (map extent bs) (large_extent l) (map large_extent ls) h) i j

-- a region in a large block is apart from what is apart from all of them
pub InLarges-Apart :
    (r s e : Region) (ls : List Large)
    → e.from ≤ r.from
    → r.from + r.size ≤ e.from + e.size
    → All (Apart e) (map large_extent ls)
    → InLarges s ls
    → Apart r s
InLarges-Apart r s e [] a b h i = absurd i
InLarges-Apart r s e (l ∷ ls) a b (h, hs) (inl i) = ground arith
InLarges-Apart r s e (l ∷ ls) a b (h, hs) (inr i) = InLarges-Apart r s e ls a b hs i

-- in a new region that is apart from all the rest
pub Covered-Apart :
    (r s e : Region) (bs : List Block) (ls : List Large)
    → All IsBlock bs
    → e.from ≤ r.from
    → r.from + r.size ≤ e.from + e.size
    → All (Apart e) (map extent bs)
    → All (Apart e) (map large_extent ls)
    → InBlocks s bs ⊎ InLarges s ls
    → Apart s r
Covered-Apart r s e bs ls w a b h k (inl i) = Apart-sym r s (InBlocks-Apart r s e bs w a b h i)
Covered-Apart r s e bs ls w a b h k (inr i) = Apart-sym r s (InLarges-Apart r s e ls a b k i)

pub InBlocks-append : (r : Region) (bs cs : List Block) → InBlocks r bs → InBlocks r (bs ++ cs)
InBlocks-append r [] cs i = absurd i
InBlocks-append r (b ∷ bs) cs (inl i) = inl i
InBlocks-append r (b ∷ bs) cs (inr i) = inr (InBlocks-append r bs cs i)

pub InBlocks-last :
    (r : Region) (bs : List Block) (c : Block) → InBlock r c → InBlocks r (bs ++ (c ∷ []))
InBlocks-last r [] c i = inl i
InBlocks-last r (b ∷ bs) c i = inr (InBlocks-last r bs c i)

pub InLarges-append : (r : Region) (bs cs : List Large) → InLarges r bs → InLarges r (bs ++ cs)
InLarges-append r [] cs i = absurd i
InLarges-append r (b ∷ bs) cs (inl i) = inl i
InLarges-append r (b ∷ bs) cs (inr i) = inr (InLarges-append r bs cs i)

pub InLarges-last :
    (r : Region) (bs : List Large) (c : Large) → InLarge r c → InLarges r (bs ++ (c ∷ []))
InLarges-last r [] c i = inl i
InLarges-last r (b ∷ bs) c i = inr (InLarges-last r bs c i)
