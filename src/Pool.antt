-- ===== src/Pool.antt =====
-- core/ehd_palloc.c: a pool is a chain of blocks, from which small allocations are cut, and a list
-- of large allocations. The answers of `malloc` are an argument, an address or NULL for each call.
pub mod Blocks
pub mod Regions
pub mod Gives
pub mod Palloc
pub mod Freed
pub mod History
mod Tests
use mathlib.Core.Option
use ehttpd.Prelude.{
  ℕ, zero, suc, ◌+◌, ◌-◌, ◌*◌, ◌^◌, Bool, true, false, Option, none, some, List, [], ◌∷◌, ◌++◌, map,
  ltb, leb, ◌==◌, ◌&&◌, if◌then◌else◌,
}
use ehttpd.Request.{Memory, null}

-- `sizeof(ehd_pool_t)` and `sizeof(ehd_pool_large_t)`, with pointers of 8 bytes
abbrev pub pool_header : ℕ
pool_header = 32

abbrev pub large_size : ℕ
large_size = 16

abbrev pub max_alloc_from_pool : ℕ
max_alloc_from_pool = 1048576

abbrev pub default_pool_size : ℕ
default_pool_size = 16384

-- `ehd_pool_t` at address `base`, but for its two links
pub record Block : Type 0 where
  pub base : ℕ
  pub last : ℕ
  pub end : ℕ

-- `ehd_pool_large_t`; `size` is what `malloc` was asked for, kept for the record
pub record Large : Type 0 where
  pub block : ℕ
  pub size : ℕ

-- the chain from `pool` along `next`, and the list from `pool->large` on
pub record Pool : Type 0 where
  pub first : Block
  pub next : List Block
  pub large : List Large

-- what a call returns, the pool as it is left and the answers that were not used
pub record Allocated : Type 0 where
  pub address : ℕ
  pub pool : Pool
  pub rest : List ℕ

-- `malloc`; with no answer left it fails
unfoldable pub malloc : List ℕ → ℕ × List ℕ
malloc [] = (null, [])
malloc (m ∷ xs) = (m, xs)

unfoldable pub new_block : (base size : ℕ) → Block
new_block base size = record { base = base; last = base + pool_header; end = base + size }

unfoldable pub create_pool : (size : ℕ) → List ℕ → Option Pool × List ℕ
create_pool size xs =
    let (m, ys) = malloc xs in
    if m == null
    then (none, ys)
    else (some (record { first = new_block m size; next = []; large = [] }), ys)

-- `a - b` of `size_t`
unfoldable pub size_sub : ℕ → ℕ → ℕ
size_sub a b = if leb b a then a - b else (a + 2 ^ 64) - b

-- cut `size` bytes from the first block that has them
unfoldable pub cut : (size : ℕ) → List Block → Option (ℕ × List Block)
cut size [] = none
cut size (b ∷ bs) =
    let later = Option.map (λ r. (r.0, b ∷ r.1)) (cut size bs) in
    if leb size (size_sub b.end b.last)
    then some (b.last, record b { last = b.last + size } ∷ bs)
    else later

-- the size of the last block, which a new block gets too
unfoldable pub last_size : Block → List Block → ℕ
last_size b [] = b.end - b.base
last_size b (c ∷ bs) = last_size c bs

unfoldable pub with_blocks : Pool → List Block → Pool
with_blocks p [] = p
with_blocks p (b ∷ bs) = record p { first = b; next = bs }

unfoldable pub add_block : Pool → (size : ℕ) → ℕ × List ℕ → Allocated
add_block p size (m, xs) =
    if m == null
    then record { address = null; pool = p; rest = xs }
    else (let b = new_block m (last_size p.first p.next) in
        record {
          address = b.last;
          pool = record p { next = p.next ++ (record b { last = b.last + size } ∷ []) };
          rest = xs;
        })

unfoldable pub on_cut : Pool → (size : ℕ) → List ℕ → Option (ℕ × List Block) → Allocated
on_cut p size xs none = add_block p size (malloc xs)
on_cut p size xs (some (m, bs)) = record { address = m; pool = with_blocks p bs; rest = xs }

unfoldable pub small : Pool → (size : ℕ) → List ℕ → Allocated
small p size xs = on_cut p size xs (cut size (p.first ∷ p.next))

unfoldable pub fits : Pool → (size : ℕ) → Bool
fits p size =
    leb size max_alloc_from_pool && leb size (size_sub (p.first.end - p.first.base) pool_header)

-- the first entry of the list that holds no block gets this one; `none` if there is no such entry
unfoldable pub reuse : Large → List Large → Option (List Large)
reuse l [] = none
reuse l (k ∷ ks) =
    let later = Option.map (λ ls. k ∷ ls) (reuse l ks) in
    if k.block == null then some (l ∷ ks) else later

unfoldable pub has_free : List Large → Bool
has_free [] = false
has_free (k ∷ ks) = let rest = has_free ks in if k.block == null then true else rest

-- behind the entry for a large block, which is in use or was allocated in the pool
unfoldable pub take_large : Pool → (size : ℕ) → ℕ × List ℕ → Allocated
take_large p size (m, xs) =
    if m == null
    then record { address = null; pool = p; rest = xs }
    else (let l : Large = record { block = m; size = size } in
        record {
          address = m;
          pool = elim (reuse l p.large) [
            | none ↦ record p { large = p.large ++ (l ∷ []) }
            | some ls ↦ record p { large = ls }
          ];
          rest = xs;
        })

unfoldable pub on_entry : (size : ℕ) → Allocated → Allocated
on_entry size r = if r.address == null then r else take_large r.pool size (malloc r.rest)

-- `ehd_palloc`, which calls itself for the entry of a large block; on fuel
unfoldable pub palloc : ℕ → Pool → (size : ℕ) → List ℕ → Option Allocated
palloc zero p size xs = none
palloc (suc n) p size xs =
    let entry = Option.map (on_entry size) (palloc n p large_size xs) in
    if fits p size
    then some (small p size xs)
    else (if has_free p.large then some (take_large p size (malloc xs)) else entry)

-- `ehd_pcalloc`, behind its call of `ehd_palloc`
unfoldable pub zeroed : Memory → (from size : ℕ) → Memory
zeroed mem from size k = if leb from k && ltb k (from + size) then 0 else mem k

-- the addresses that `ehd_destroy_pool` hands to `free`, in its order
unfoldable pub free_large : List Large → List ℕ
free_large [] = []
free_large (l ∷ ls) = let rest = free_large ls in if l.block == null then rest else l.block ∷ rest

unfoldable pub destroy_pool : Pool → List ℕ
destroy_pool p = free_large p.large ++ map (λ b. b.base) (p.first ∷ p.next)
