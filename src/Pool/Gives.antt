-- ===== src/Pool/Gives.antt =====
-- What `ehd_palloc` gives: memory that no earlier allocation has.
use ehttpd.Prelude.{
  ℕ, ◌+◌, ◌≤◌, ◌≡◌, ◌≢◌, inl, inr, refl, sym, ap, ◌∙◌, false, none, List, [], ◌∷◌, ◌++◌, map, All,
  All-last, All-left, All-right, eqb-ne, arith, ◌==◌, Bool-cases, ==_iff,
}
use mathlib.Core.Path.{subst}
use mathlib.Core.List.{append_assoc, map-append}
use ehttpd.Request.{null}
use ehttpd.Pool.{
  Block, Large, Pool, Allocated, pool_header, large_size, malloc, new_block, last_size, with_blocks,
  add_block, on_cut, small, reuse, has_free, take_large, on_entry,
}
use ehttpd.Pool.Blocks.{Region, Apart, Separate, extent, IsBlock, Cut, cut-Cut}
use ehttpd.Pool.Regions.{
  large_extent, blocks, Covered, extents, IsPool, Separate-left, Separate-middle, InLarges-InBlocks,
  Covered-Apart, InBlocks-append, InBlocks-last, InLarges-append, InLarges-last,
}

abbrev region : ℕ → ℕ → Region
region m size = record { from = m; size = size }

-- what a call has done, whether it failed or not
pub record Gives (n : ℕ) (p : Pool) (size : ℕ) (r : Allocated) : Type 0 where
  pub pool : IsPool n r.pool
  pub keeps : (s : Region) → Covered s p → Covered s r.pool
  pub covers : r.address ≢ null → Covered (region r.address size) r.pool
  pub apart :
      (s : Region)
      → r.address ≢ null
      → Separate (extents r.pool)
      → Covered s p
      → Apart s (region r.address size)

-- a call that fails
Gives-failed :
    (n : ℕ) (p : Pool) (size : ℕ) (xs : List ℕ)
    → IsPool n p
    → Gives n p size (record { address = null; pool = p; rest = xs })
Gives-failed n p size xs w = record {
  pool = w;
  keeps = λ s c. c;
  covers = λ k. absurd (k refl);
  apart = λ s k h c. absurd (k refl);
}

last_size-eq :
    (n : ℕ) (b : Block) (bs : List Block)
    → All (λ e. e.size ≡ n) (map extent (b ∷ bs))
    → last_size b bs ≡ n
unfolding last_size
last_size-eq n b [] (h, hs) = h
last_size-eq n b (c ∷ bs) (h, hs) = last_size-eq n c bs hs

-- a block with an allocation in it
used_block : (m n size : ℕ) → Block
unfolding new_block
used_block m n size = record (new_block m n) { last = m + pool_header + size }

grown-Gives :
    (n : ℕ) (p : Pool) (size m : ℕ) (xs : List ℕ)
    → IsPool n p
    → size + pool_header ≤ n
    → Gives n p size (record {
      address = m + pool_header;
      pool = record p { next = p.next ++ (used_block m n size ∷ []) };
      rest = xs;
    })
unfolding used_block new_block
grown-Gives n p size m xs w f =
    let b = used_block m n size in
    let formed : IsBlock b = record { header = omega arith; within = omega arith } in
    let old = blocks p in
    let at_end : map extent (old ++ (b ∷ [])) ≡ map extent old ++ (extent b ∷ []) =
      map-append extent old (b ∷ []) in
    let middle : (map extent old ++ (extent b ∷ [])) ++ map large_extent p.large
        ≡ map extent old ++ (extent b ∷ map large_extent p.large) =
      append_assoc (map extent old) (extent b ∷ []) (map large_extent p.large) in
    record {
      pool = record {
        formed = All-last IsBlock old b w.formed formed;
        room = w.room;
        one_size =
            subst (All (λ e. e.size ≡ n)) (sym at_end)
              (All-last (λ e. e.size ≡ n) (map extent old) (extent b) w.one_size (omega arith));
        in_use = w.in_use;
      };
      keeps = keep;
      covers =
          λ k. inl (InBlocks-last (region (m + pool_header) size) old b (omega arith, omega arith));
      apart = λ s k h c.
          let (before, behind) =
            Separate-middle (map extent old) (extent b) (map large_extent p.large)
              (subst Separate (ap (λ l. l ++ map large_extent p.large) at_end ∙ middle) h) in
          Covered-Apart (region (m + pool_header) size) s (extent b) old p.large w.formed
            (omega arith) (omega arith) before behind c;
    }
  where
    keep :
        (s : Region)
        → Covered s p
        → Covered s (record p { next = p.next ++ (used_block m n size ∷ []) })
    keep s (inl i) = inl (InBlocks-append s (blocks p) (used_block m n size ∷ []) i)
    keep s (inr i) = inr i

add_block-Gives :
    (n : ℕ) (p : Pool) (size m : ℕ) (xs : List ℕ)
    → IsPool n p
    → size + pool_header ≤ n
    → Gives n p size (add_block p size (m, xs))
unfolding add_block new_block used_block
add_block-Gives n p size m xs w f = elim (Bool-cases (m == null)) [
  | inl e ↦ rw e (Gives-failed n p size xs w)
  | inr e ↦ rw (e, last_size-eq n p.first p.next w.one_size) (grown-Gives n p size m xs w f)
]

with_blocks-Gives :
    (n : ℕ) (p : Pool) (size m : ℕ) (bs : List Block) (xs : List ℕ)
    → IsPool n p
    → Cut size (blocks p) m bs
    → Gives n p size (record { address = m; pool = with_blocks p bs; rest = xs })
unfolding with_blocks
with_blocks-Gives n p size m [] xs w c = absurd c.inside
with_blocks-Gives n p size m (b ∷ bs) xs w c = record {
  pool = record {
    formed = c.blocks;
    room = w.room;
    one_size = subst (All (λ e. e.size ≡ n)) (sym c.same_extents) w.one_size;
    in_use = w.in_use;
  };
  keeps = keep;
  covers = λ k. inl c.inside;
  apart = λ s k h i. separate s h i;
}
  where
    keep : (s : Region) → Covered s p → Covered s (record p { first = b; next = bs })
    keep s (inl i) = inl (c.keeps s i)
    keep s (inr i) = inr i

    separate :
        (s : Region)
        → Separate (map extent (b ∷ bs) ++ map large_extent p.large)
        → Covered s p
        → Apart s (region m size)
    separate s h (inl i) =
        c.apart s
          (subst Separate c.same_extents
            (Separate-left (map extent (b ∷ bs)) (map large_extent p.large) h))
          i
    separate s h (inr i) =
        InLarges-InBlocks s (region m size) (b ∷ bs) p.large c.blocks h i c.inside

-- no entry of the list is without a block
pub reuse-none : (l : Large) (ls : List Large) → All (λ k. k.block ≢ null) ls → reuse l ls ≡ none
unfolding reuse
reuse-none l [] h = refl
reuse-none l (k ∷ ks) (h, hs) =
    rw (reuse-none l ks hs) (let used = eqb-ne k.block null h in rw used refl)

pub has_free-false : (ls : List Large) → All (λ k. k.block ≢ null) ls → has_free ls ≡ false
unfolding has_free
has_free-false [] h = refl
has_free-false (k ∷ ks) (h, hs) =
    rw (has_free-false ks hs) (let used = eqb-ne k.block null h in rw used refl)

own-Gives :
    (n : ℕ) (p : Pool) (size m : ℕ) (xs : List ℕ)
    → IsPool n p
    → m ≢ null
    → Gives n p size (record {
      address = m;
      pool = record p { large = p.large ++ (record { block = m; size = size } ∷ []) };
      rest = xs;
    })
own-Gives n p size m xs w k =
    let l : Large = record { block = m; size = size } in
    let at_end : map large_extent (p.large ++ (l ∷ []))
        ≡ map large_extent p.large ++ (region m size ∷ []) =
      map-append large_extent p.large (l ∷ []) in
    let middle : (map extent (blocks p) ++ map large_extent p.large) ++ (region m size ∷ [])
        ≡ map extent (blocks p) ++ (map large_extent p.large ++ (region m size ∷ [])) =
      append_assoc (map extent (blocks p)) (map large_extent p.large) (region m size ∷ []) in
    record {
      pool = record {
        formed = w.formed;
        room = w.room;
        one_size = w.one_size;
        in_use = All-last (λ k. k.block ≢ null) p.large l w.in_use k;
      };
      keeps = keep;
      covers = λ q. inr (InLarges-last (region m size) p.large l (omega arith, omega arith));
      apart = λ s q h c.
          let (before, behind) =
            Separate-middle (map extent (blocks p) ++ map large_extent p.large) (region m size) []
              (subst Separate (ap (λ k. map extent (blocks p) ++ k) at_end ∙ sym middle) h) in
          Covered-Apart (region m size) s (region m size) (blocks p) p.large w.formed (omega arith)
            (omega arith)
            (All-left (Apart (region m size)) (map extent (blocks p)) (map large_extent p.large)
              before)
            (All-right (Apart (region m size)) (map extent (blocks p)) (map large_extent p.large)
              before)
            c;
    }
  where
    keep :
        (s : Region)
        → Covered s p
        → Covered s (record p { large = p.large ++ (record { block = m; size = size } ∷ []) })
    keep s (inl i) = inl i
    keep s (inr i) = inr (InLarges-append s p.large (record { block = m; size = size } ∷ []) i)

-- a block of its own
take_large-Gives :
    (n : ℕ) (p : Pool) (size m : ℕ) (xs : List ℕ)
    → IsPool n p
    → Gives n p size (take_large p size (m, xs))
unfolding take_large
take_large-Gives n p size m xs w = elim (Bool-cases (m == null)) [
  | inl e ↦ rw e (Gives-failed n p size xs w)
  | inr e ↦
      rw (e, reuse-none (record { block = m; size = size }) p.large w.in_use)
        (own-Gives n p size m xs w (λ z. ground arith))
]

pub small-Gives :
    (n : ℕ) (p : Pool) (size : ℕ) (xs : List ℕ)
    → IsPool n p
    → size + pool_header ≤ n
    → Gives n p size (small p size xs)
unfolding small on_cut malloc
small-Gives n p size xs w f = elim (cut-Cut size (blocks p) w.formed) [
  | inl e ↦ rw e (by_answer xs)
  | inr (m, bs, e, c) ↦ rw e (with_blocks-Gives n p size m bs xs w c)
]
  where
    by_answer : (xs : List ℕ) → Gives n p size (add_block p size (malloc xs))
    by_answer [] = add_block-Gives n p size null [] w f
    by_answer (x ∷ xs) = add_block-Gives n p size x xs w f

-- two calls in a row, the first one for the entry
Gives-trans :
    (n : ℕ) (p : Pool) (size size' : ℕ) (r r' : Allocated)
    → Gives n p size r
    → Gives n r.pool size' r'
    → Gives n p size' r'
Gives-trans n p size size' r r' g g' = record {
  pool = g'.pool;
  keeps = λ s c. g'.keeps s (g.keeps s c);
  covers = g'.covers;
  apart = λ s k h c. g'.apart s k h (g.keeps s c);
}

pub on_entry-Gives :
    (n : ℕ) (p : Pool) (size : ℕ) (r : Allocated)
    → Gives n p large_size r
    → Gives n p size (on_entry size r)
unfolding on_entry malloc
on_entry-Gives n p size r g = elim (Bool-cases (r.address == null)) [
  | inl e ↦
      let nothing : r.address ≡ null = (==_iff r.address null).0 e in
      rw e (record {
        pool = g.pool;
        keeps = g.keeps;
        covers = λ k. absurd (k nothing);
        apart = λ s k h c. absurd (k nothing);
      })
  | inr e ↦ rw e (
      Gives-trans n p large_size size r (take_large r.pool size (malloc r.rest)) g
        (by_answer r.rest))
]
  where
    by_answer : (xs : List ℕ) → Gives n r.pool size (take_large r.pool size (malloc xs))
    by_answer [] = take_large-Gives n r.pool size null [] g.pool
    by_answer (x ∷ xs) = take_large-Gives n r.pool size x xs g.pool
