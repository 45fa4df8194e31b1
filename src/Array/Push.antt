-- ===== src/Array/Push.antt =====
-- What `ehd_array_push` does to an array in order, by its three branches.
use native.Mathlib.Nat.{mul-le-mul_left, mul-pos}
use mathlib.Core.Option
use mathlib.Core.Path.{subst}
use ehttpd.Prelude.{
  ℕ, suc, ◌+◌, ◌-◌, ◌*◌, ◌^◌, ◌≤◌, ◌<◌, ◌≡◌, ◌≢◌, ◌⊎◌, inl, inr, refl, sym, ap, ◌∙◌, some, List,
  arith, true, Bool-cases, ◌==◌,
}
use ehttpd.Request.{Memory, null}
use ehttpd.Pool.{Pool, Allocated, palloc}
use ehttpd.Pool.Blocks.{Region, Apart, Separate}
use ehttpd.Pool.Regions.{Covered, IsPool, extents}
use ehttpd.Pool.Gives.{Gives}
use ehttpd.Pool.Palloc.{palloc-Gives}
use ehttpd.Array.{
  Array, bytes_of, to_uint, slot, can_extend, extend, next_element, on_grown, push, Pushed,
}
use ehttpd.Array.Grown.{
  region, room, IsArray, bytes_of-small, to_uint-small, fits-unsigned, extend-Gives, Covered-extend,
  Separate-extend, memcpy-at, memcpy-other,
}

-- the element is in the array's room, which is the pool's, behind those that were there
pub record Placed (a : Array) (p : Pool) (mem : Memory) (r : Pushed) : Type 0 where
  pub element : r.element ≡ r.array.start + r.array.size * a.ndata
  pub size : r.array.size ≡ a.size
  pub counted : r.array.ndata ≡ a.ndata + 1
  pub within : r.array.ndata ≤ r.array.nblock
  pub covered : Covered (room r.array) r.pool
  pub same : (i : ℕ) → i < a.size * a.ndata → r.mem (r.array.start + i) ≡ mem (a.start + i)
  pub apart : (s : Region) → 0 < s.size → Covered s p → Apart s (room a) → Apart s (room r.array)
  pub other :
      (s : Region) (k : ℕ) → Covered s p → s.from ≤ k → k < s.from + s.size → r.mem k ≡ mem k

abbrev pub Failed : Array → Memory → Pushed → Type 0
Failed a mem r = (r.element ≡ null) × (r.array ≡ a) × (r.mem ≡ mem)

pub record Pushes (n : ℕ) (a : Array) (p : Pool) (mem : Memory) (r : Pushed) : Type 0 where
  pub pool : IsPool n r.pool
  pub keeps : (s : Region) → Covered s p → Covered s r.pool
  pub outcome : Failed a mem r ⊎ Placed a p mem r

module _ (n : ℕ) (a : Array) (p : Pool) (w : IsPool n p) (v : IsArray a p) where
  held : a.size * a.ndata < 2 ^ 64
  held =
      let most = v.small_size in
      let within : a.size * a.ndata ≤ a.size * a.nblock = mul-le-mul_left a.size v.within in
      omega arith

  -- the address behind the elements
  pub slot-at :
      (b : Array) → b.size ≡ a.size → b.ndata ≡ a.ndata → slot b ≡ b.start + b.size * a.ndata
  unfolding slot
  slot-at b e f =
      let same : b.size * b.ndata ≡ a.size * a.ndata = λ i. e i * f i in
      let few = held in
      ap (λ k. b.start + k) (bytes_of-small b.size b.ndata (omega arith) ∙ ap (λ k. b.size * k) f)

  next_count : to_uint (a.ndata + 1) ≡ a.ndata + 1
  next_count =
      let most = v.small_count in
      let begun = v.begun in let within = v.within in to_uint-small (a.ndata + 1) (omega arith)

  -- there is room
  roomy-Pushes :
      (mem : Memory) (xs : List ℕ) → a.ndata ≢ a.nblock → Pushes n a p mem (next_element a p mem xs)
  unfolding next_element
  roomy-Pushes mem xs z =
      let within = v.within in
      let count = next_count in
      record {
        pool = w;
        keeps = λ s c. c;
        outcome = inr (record {
          element = slot-at a refl refl;
          size = refl;
          counted = count;
          within = omega arith;
          covered = v.covered;
          same = λ i l. refl;
          apart = λ s y c h. h;
          other = λ s k c l m. refl;
        });
      }

  -- the room behind the array is taken
  extended-Pushes :
      (mem : Memory) (xs : List ℕ)
      → a.ndata ≡ a.nblock
      → Separate (extents p)
      → can_extend a p ≡ true
      → Pushes n a p mem
          (next_element (record a { nblock = to_uint (a.nblock + 1) }) (extend p a.size) mem xs)
  unfolding next_element can_extend
  extended-Pushes mem xs z h e =
      let at_end : slot a ≡ p.first.last = ground arith in
      let first = w.formed.0 in
      let header = first.header in
      let within = first.within in
      let enough : a.size ≤ p.first.end - p.first.last = fits-unsigned a p within e in
      let g = extend-Gives n p a.size xs w enough in
      let behind : a.start + a.size * a.nblock ≡ p.first.last =
        ap (λ k. a.start + a.size * k) (sym z) ∙ sym (slot-at a refl refl) ∙ at_end in
      let count = next_count in
      let most = v.small_count in
      let begun = v.begun in
      let bigger : to_uint (a.nblock + 1) ≡ a.nblock + 1 =
        to_uint-small (a.nblock + 1) (omega arith) in
      let wider : a.size * (a.nblock + 1) ≡ a.size * a.nblock + a.size = omega arith in
      let new : a.size * to_uint (a.nblock + 1) ≡ a.size * a.nblock + a.size =
        ap (λ k. a.size * k) bigger ∙ wider in
      record {
        pool = g.pool;
        keeps = g.keeps;
        outcome = inr (record {
          element = slot-at (record a { nblock = to_uint (a.nblock + 1) }) refl refl;
          size = refl;
          counted = count;
          within = omega arith;
          covered =
              subst (λ k. Covered (region a.start (a.size * k)) (extend p a.size)) (sym bigger)
                (Covered-extend a p w.formed h (mul-pos v.sized v.begun) behind v.covered);
          same = λ i l. refl;
          apart = λ s y c k.
              let beside = g.apart s (λ q. omega arith) (Separate-extend p a.size h) c in
              ground arith;
          other = λ s k c l m. refl;
        });
      }

  -- the array is copied
  copied-Pushes :
      (mem : Memory) (r : Allocated)
      → a.ndata ≡ a.nblock
      → Gives n p (bytes_of (2 * a.size) a.nblock) r
      → Separate (extents r.pool)
      → Pushes n a p mem (on_grown a mem r)
  unfolding on_grown next_element
  copied-Pushes mem r z g h = elim (Bool-cases (r.address == null)) [
    | inl e ↦ rw e (record { pool = g.pool; keeps = g.keeps; outcome = inl (refl, refl, refl) })
    | inr e ↦
        let there : r.address ≢ null = λ q. ground arith in
        let most = v.small_size in
        let some_count = v.small_count in
        let begun = v.begun in
        let count = next_count in
        let old : bytes_of a.size a.nblock ≡ a.size * a.nblock =
          bytes_of-small a.size a.nblock (omega arith) in
        let twice : to_uint (a.nblock * 2) ≡ a.nblock * 2 =
          to_uint-small (a.nblock * 2) v.small_count in
        let new : bytes_of (2 * a.size) a.nblock ≡ a.size * to_uint (a.nblock * 2) =
          bytes_of-small (2 * a.size) a.nblock v.small_size
          ∙ (let flat : 2 * a.size * a.nblock ≡ a.size * (a.nblock * 2) = omega arith in flat)
          ∙ ap (λ k. a.size * k) (sym twice) in
        let full : a.size * a.ndata ≡ a.size * a.nblock = ap (λ k. a.size * k) z in
        rw e (record {
          pool = g.pool;
          keeps = g.keeps;
          outcome = inr (record {
            element =
                slot-at (record a { start = r.address; nblock = to_uint (a.nblock * 2) }) refl refl;
            size = refl;
            counted = count;
            within = omega arith;
            covered = subst (λ k. Covered (region r.address k) r.pool) new (g.covers there);
            same =
                λ i l. memcpy-at r.address a.start (bytes_of a.size a.nblock) i mem (omega arith);
            apart = λ s y c k. subst (λ m. Apart s (region r.address m)) new (g.apart s there h c);
            other = λ s k c l m.
                let beside = g.apart s there h c in
                let flat = bytes_of-small (2 * a.size) a.nblock v.small_size in
                memcpy-other r.address a.start (bytes_of a.size a.nblock) k mem (ground arith);
          });
        })
  ]

  -- `ehd_array_push` of an array in order, whose room is one of the pool's allocations, returns.
  -- Where what `malloc` gave for the pool does not overlap, neither before the call nor behind it,
  -- the pool keeps its allocations, and either the call fails, with NULL and with the array and the
  -- memory as they were, or the new element has the place behind the others within the array's
  -- room, which is an allocation of the pool; the old elements stand in it byte for byte, it
  -- overlaps with no other allocation, if it did not before, and no earlier allocation has changed.
  pub push-Pushes :
      (k : ℕ) (mem : Memory) (xs : List ℕ)
      → Separate (extents p)
      → ((r : Allocated)
          → palloc (suc (suc k)) p (bytes_of (2 * a.size) a.nblock) xs ≡ some r
          → Separate (extents r.pool))
      → (r : Pushed) × (push (suc (suc k)) a p mem xs ≡ some r) × Pushes n a p mem r
  unfolding push
  push-Pushes k mem xs h later = elim (Bool-cases (a.ndata == a.nblock)) [
    | inr e ↦ (next_element a p mem xs, rw e refl, roomy-Pushes mem xs (λ z. ground arith))
    | inl e ↦
        let z : a.ndata ≡ a.nblock = ground arith in
        elim (Bool-cases (can_extend a p)) [
          | inl f ↦ (_, rw (e, f) refl, extended-Pushes mem xs z h f)
          | inr f ↦
              let (r, called, g) = palloc-Gives n p w k (bytes_of (2 * a.size) a.nblock) xs in
              (
                on_grown a mem r,
                rw (e, f) (ap (Option.map (on_grown a mem)) called),
                copied-Pushes mem r z g (later r called),
              )
        ]
  ]
