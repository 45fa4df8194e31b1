-- ===== src/Pool/Blocks.antt =====
-- Cutting an allocation from a chain of blocks.
use ehttpd.Prelude.{
  ℕ, ◌+◌, ◌-◌, ◌≤◌, ◌<◌, ◌≡◌, ◌⊎◌, inl, inr, refl, ap, none, some, List, [], ◌∷◌, map, All, leb,
  arith, Bool-cases,
}
use ehttpd.Pool.{Block, cut, pool_header, size_sub}

-- a region of memory, by its address and length
pub record Region : Type 0 where
  pub from : ℕ
  pub size : ℕ

abbrev pub Apart : Region → Region → Type 0
Apart r s = (r.from + r.size ≤ s.from) ⊎ (s.from + s.size ≤ r.from)

abbrev pub Separate : List Region → Type 0
Separate [] = Unit {0}
Separate (r ∷ rs) = All (Apart r) rs × Separate rs

-- all that `malloc` gave for a block
abbrev pub extent : Block → Region
extent b = record { from = b.base; size = b.end - b.base }

-- the header lies in the block, and what is cut from it
pub record IsBlock (b : Block) : Type 0 where
  pub header : b.base + pool_header ≤ b.last
  pub within : b.last ≤ b.end

-- a region behind the header, in the part that has been cut
abbrev pub InBlock : Region → Block → Type 0
InBlock r b = (b.base + pool_header ≤ r.from) × (r.from + r.size ≤ b.last)

abbrev pub InBlocks : Region → List Block → Type 0
InBlocks r [] = ⊥
InBlocks r (b ∷ bs) = InBlock r b ⊎ InBlocks r bs

-- regions in a block and in something apart from it are apart
pub InBlocks-Apart :
    (r s : Region) (e : Region) (bs : List Block)
    → All IsBlock bs
    → e.from ≤ r.from
    → r.from + r.size ≤ e.from + e.size
    → All (Apart e) (map extent bs)
    → InBlocks s bs
    → Apart r s
InBlocks-Apart r s e [] w a b h i = absurd i
InBlocks-Apart r s e (c ∷ bs) (w, ws) a b (h, hs) (inl i) =
    let below = w.header in let above = w.within in ground arith
InBlocks-Apart r s e (c ∷ bs) (w, ws) a b (h, hs) (inr i) = InBlocks-Apart r s e bs ws a b hs i

pub Apart-sym : (r s : Region) → Apart r s → Apart s r
Apart-sym r s (inl h) = inr h
Apart-sym r s (inr h) = inl h

-- what `cut` has done
pub record Cut (size : ℕ) (bs : List Block) (m : ℕ) (bs' : List Block) : Type 0 where
  pub same_extents : map extent bs' ≡ map extent bs
  pub blocks : All IsBlock bs'
  pub inside : InBlocks (record { from = m; size = size }) bs'
  pub keeps : (r : Region) → InBlocks r bs → InBlocks r bs'
  pub apart :
      (r : Region)
      → Separate (map extent bs)
      → InBlocks r bs
      → Apart r (record { from = m; size = size })
  pub nonempty : 0 < m

Cut-head :
    (size : ℕ) (b : Block) (bs : List Block)
    → All IsBlock (b ∷ bs)
    → size ≤ b.end - b.last
    → Cut size (b ∷ bs) b.last (record b { last = b.last + size } ∷ bs)
Cut-head size b bs (w, ws) l =
    let below = w.header in
    let above = w.within in
    record {
      same_extents = refl;
      blocks = (record { header = omega arith; within = omega arith }, ws);
      inside = inl (omega arith, omega arith);
      keeps = keep;
      apart = separate;
      nonempty = omega arith;
    }
  where
    keep : (r : Region) → InBlocks r (b ∷ bs) → InBlocks r (record b { last = b.last + size } ∷ bs)
    keep r (inl i) = inl (omega arith, omega arith)
    keep r (inr i) = inr i

    separate :
        (r : Region)
        → Separate (map extent (b ∷ bs))
        → InBlocks r (b ∷ bs)
        → Apart r (record { from = b.last; size = size })
    separate r s (inl i) = inl (omega arith)
    separate r (s, ss) (inr i) =
        Apart-sym (record { from = b.last; size = size }) r
          (InBlocks-Apart (record { from = b.last; size = size }) r (extent b) bs ws
            (omega (arith, w.header)) (omega (arith, w.header, w.within)) s i)

Cut-tail :
    (size : ℕ) (b : Block) (bs : List Block) (m : ℕ) (bs' : List Block)
    → IsBlock b
    → Cut size bs m bs'
    → Cut size (b ∷ bs) m (b ∷ bs')
Cut-tail size b bs m bs' w c = record {
  same_extents = ap (λ es. extent b ∷ es) c.same_extents;
  blocks = (w, c.blocks);
  inside = inr c.inside;
  keeps = keep;
  apart = separate;
  nonempty = c.nonempty;
}
  where
    keep : (r : Region) → InBlocks r (b ∷ bs) → InBlocks r (b ∷ bs')
    keep r (inl i) = inl i
    keep r (inr i) = inr (c.keeps r i)

    separate :
        (r : Region)
        → Separate (map extent (b ∷ bs))
        → InBlocks r (b ∷ bs)
        → Apart r (record { from = m; size = size })
    separate r (s, ss) (inl i) =
        InBlocks-Apart r (record { from = m; size = size }) (extent b) bs' c.blocks (omega arith)
          (omega (arith, w.header, w.within)) (rw c.same_extents s) c.inside
    separate r (s, ss) (inr i) = c.apart r ss i

pub cut-Cut :
    (size : ℕ) (bs : List Block)
    → All IsBlock bs
    → (cut size bs ≡ none)
      ⊎ ((m : ℕ) × (bs' : List Block) × (cut size bs ≡ some (m, bs')) × Cut size bs m bs')
unfolding cut size_sub
cut-Cut size [] w = inl refl
cut-Cut size (b ∷ bs) (w, ws) = elim (Bool-cases (leb size (size_sub b.end b.last))) [
  | inl l ↦ inr (
    b.last,
    record b { last = b.last + size } ∷ bs,
    rw l refl,
    Cut-head size b bs (w, ws) (let below = w.within in ground arith),
  )
  | inr l ↦ elim (cut-Cut size bs ws) [
    | inl e ↦ inl (rw (l, e) refl)
    | inr (m, bs', e, c) ↦ inr (m, b ∷ bs', rw (l, e) refl, Cut-tail size b bs m bs' w c)
  ]
]
