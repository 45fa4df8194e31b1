-- ===== src/Array/Tests.antt =====
-- Arrays in a concrete pool, and the theorems at them.
use mathlib.Core.Option
use mathlib.Core.Path.{subst}
use ehttpd.Prelude.{ℕ, ◌*◌, ◌≡◌, refl, sym, ◌∙◌, inl, some, [], arith}
use ehttpd.Request.{Memory}
use ehttpd.Pool.{
  Pool, Allocated, malloc, new_block, size_sub, cut, last_size, with_blocks, add_block, on_cut,
  small, fits, has_free, palloc,
}
use ehttpd.Pool.Blocks.{Separate, Apart}
use ehttpd.Pool.Regions.{IsPool, extents}
use ehttpd.Array.{
  Array, Pushed, array_size, bytes_of, to_uint, slot, memcpy, can_extend, extend, next_element,
  on_grown, push, give_back, destroy, create, on_data,
}
use ehttpd.Array.Grown.{IsArray, room, region}
use ehttpd.Array.Push.{Pushes, push-Pushes}
use ehttpd.Array.Destroy.{GivesBack, destroy-GivesBack}

-- 100 bytes at address 1000, of which 40 are given
abbrev pool : Pool
pool = record { first = record { base = 1000; last = 1072; end = 1100 }; next = []; large = [] }

pool-IsPool : IsPool 100 pool
pool-IsPool = record {
  formed = (record { header = omega arith; within = omega arith }, tt);
  room = omega arith;
  one_size = (refl, tt);
  in_use = tt;
}

-- one element of 10 bytes, with another allocation behind it
abbrev full : Array
full = record { start = 1032; size = 10; nblock = 1; ndata = 1 }

full-IsArray : IsArray full pool
full-IsArray = record {
  sized = omega arith;
  begun = omega arith;
  within = omega arith;
  small_size = omega arith;
  small_count = omega arith;
  covered = inl (inl (omega arith, omega arith));
}

abbrev given : Allocated
given = record {
  address = 1072;
  pool = record pool { first = record { base = 1000; last = 1092; end = 1100 } };
  rest = [];
}

run_given : palloc 2 pool (bytes_of (2 * 10) 1) [] ≡ some given
unfolding palloc small on_cut cut add_block malloc new_block size_sub last_size fits has_free
    with_blocks bytes_of
run_given = refl

given-Separate :
    (r : Allocated) → palloc 2 pool (bytes_of (2 * 10) 1) [] ≡ some r → Separate (extents r.pool)
given-Separate r e =
    subst (λ q. Separate (extents q.pool)) (Option.some-injective given r (sym run_given ∙ e))
      (tt, tt)

abbrev bytes : Memory
bytes k = k

push-Pushes_example :
    (r : Pushed) × (push 2 full pool bytes [] ≡ some r) × Pushes 100 full pool bytes r
push-Pushes_example =
    push-Pushes 100 full pool pool-IsPool full-IsArray 0 bytes [] (tt, tt) given-Separate

-- two elements of 4 bytes behind the array's header, at the end of what is given
abbrev at_end : Array
at_end = record { start = 1064; size = 4; nblock = 2; ndata = 2 }

at_end-IsArray : IsArray at_end pool
at_end-IsArray = record {
  sized = omega arith;
  begun = omega arith;
  within = omega arith;
  small_size = omega arith;
  small_count = omega arith;
  covered = inl (inl (omega arith, omega arith));
}

destroy-GivesBack_example :
    GivesBack 100
      (λ s. Apart s (room at_end) × Apart s (region 1032 array_size))
      pool
      (destroy 1032 at_end pool)
destroy-GivesBack_example =
    destroy-GivesBack 100 1032 at_end pool pool-IsPool (tt, tt) at_end-IsArray
      (inl (inl (omega arith, omega arith))) (inl (omega arith))

-- the full array is copied to address 1072 and gets its second element at 1082
run_copied :
    Option.map {B = ℕ × ℕ × ℕ}
      (λ r. (r.element, r.mem 1075, r.array.nblock))
      (push 2 full pool bytes [])
    ≡ some (1082, 1035, 2)
unfolding push can_extend slot bytes_of to_uint size_sub on_grown next_element memcpy palloc small
    on_cut cut with_blocks fits has_free
run_copied = refl

-- the other one grows in place
run_extended :
    Option.map {B = ℕ × ℕ × ℕ}
      (λ r. (r.element, r.array.start, r.pool.first.last))
      (push 2 at_end pool bytes [])
    ≡ some (1072, 1064, 1076)
unfolding push can_extend slot bytes_of to_uint size_sub next_element extend palloc small on_cut cut
    with_blocks fits has_free
run_extended = refl

-- and gives all of its memory back, the header included
run_destroyed : (destroy 1032 at_end pool).first.last ≡ 1032
unfolding destroy give_back slot bytes_of
run_destroyed = refl

-- with an element less it gives nothing back
run_not_full : (destroy 1032 (record at_end { ndata = 1 }) pool).first.last ≡ 1072
unfolding destroy give_back slot bytes_of
run_not_full = refl

-- without memory `ehd_array_create` writes the fields through NULL
run_no_memory :
    Option.map {B = ℕ × ℕ} (λ c. (c.address, c.array.start)) (create 2 pool 3 4 []) ≡ some (0, 1072)
unfolding create on_data palloc small on_cut cut add_block malloc new_block size_sub last_size fits
    has_free with_blocks bytes_of Option.bind
run_no_memory = refl
