-- ===== src/Array.antt =====
-- core/ehd_array.c and core/ehd_array.h: an array of elements of one size in a pool, which grows in
-- place where it is the last thing that was cut from the pool's first block, and by a copy
-- otherwise. The fuel is that of `palloc`.
pub mod Destroy
pub mod Grown
pub mod Push
mod Tests
use mathlib.Core.Option
use ehttpd.Prelude.{
  ℕ, ◌+◌, ◌-◌, ◌*◌, ◌^◌, ◌%◌, Bool, true, false, Option, none, some, List, ◌==◌, ◌&&◌, leb, ltb,
  if◌then◌else◌,
}
use ehttpd.Request.{Memory, null}
use ehttpd.Pool.{Pool, Allocated, palloc, size_sub}

-- `sizeof(ehd_array_t)`
abbrev pub array_size : ℕ
array_size = 32

-- `ehd_array_t`, but for its link to the pool
pub record Array : Type 0 where
  pub start : ℕ
  pub size : ℕ
  pub nblock : ℕ
  pub ndata : ℕ

-- the product of a `size_t` and another number
unfoldable pub bytes_of : (size n : ℕ) → ℕ
bytes_of size n = size * n % 2 ^ 64

-- a `uint`
unfoldable pub to_uint : ℕ → ℕ
to_uint n = n % 2 ^ 32

-- `array->data + array->size * array->ndata`
unfoldable pub slot : Array → ℕ
slot a = a.start + bytes_of a.size a.ndata

-- the element's address or NULL, and what is left of the array, the pool, the memory and the
-- answers of `malloc`
pub record Pushed : Type 0 where
  pub element : ℕ
  pub array : Array
  pub pool : Pool
  pub mem : Memory
  pub rest : List ℕ

-- the C library's `memcpy`
unfoldable pub memcpy : (to from size : ℕ) → Memory → Memory
memcpy to from size mem k = if leb to k && ltb k (to + size) then mem (from + (k - to)) else mem k

-- `(unsigned) (p->end - p->last) >= array->size`, behind the array's end at `p->last`
unfoldable pub can_extend : Array → Pool → Bool
can_extend a p =
    (slot a == p.first.last) && leb a.size (to_uint (size_sub p.first.end p.first.last))

-- `p->last += array->size`
unfoldable pub extend : Pool → ℕ → Pool
extend p size = record p { first = record p.first { last = p.first.last + size } }

-- `array->ndata++`
unfoldable pub next_element : Array → Pool → Memory → List ℕ → Pushed
next_element a p mem xs = record {
  element = slot a;
  array = record a { ndata = to_uint (a.ndata + 1) };
  pool = p;
  mem = mem;
  rest = xs;
}

-- behind the allocation of twice the room
unfoldable pub on_grown : Array → Memory → Allocated → Pushed
on_grown a mem r =
    if r.address == null
    then record { element = null; array = a; pool = r.pool; mem = mem; rest = r.rest }
    else next_element (record a { start = r.address; nblock = to_uint (a.nblock * 2) }) r.pool
        (memcpy r.address a.start (bytes_of a.size a.nblock) mem) r.rest

unfoldable pub push : ℕ → Array → Pool → Memory → List ℕ → Option Pushed
push k a p mem xs =
    if a.ndata == a.nblock
    then (if can_extend a p
        then some
            (next_element (record a { nblock = to_uint (a.nblock + 1) }) (extend p a.size) mem xs)
        else Option.map (on_grown a mem) (palloc k p (bytes_of (2 * a.size) a.nblock) xs))
    else some (next_element a p mem xs)

-- What `ehd_array_create` returns, with the fields written there; an address NULL is written
-- through, too.
pub record Created : Type 0 where
  pub address : ℕ
  pub array : Array
  pub pool : Pool
  pub rest : List ℕ

unfoldable pub on_data : (n size : ℕ) → (address : ℕ) → Allocated → Created
on_data n size address r = record {
  address = address;
  array = record { start = r.address; size = size; nblock = n; ndata = 0 };
  pool = r.pool;
  rest = r.rest;
}

unfoldable pub create : ℕ → Pool → (n size : ℕ) → List ℕ → Option Created
create k p n size xs =
    Option.bind (palloc k p array_size xs)
      (λ h. Option.map (on_data n size h.address) (palloc k h.pool (bytes_of size n) h.rest))

-- `ehd_array_init` of `a`: whether the call returns EHD_ERROR, without a value otherwise
pub record ArrayInit : Type 0 where
  pub failed : Bool
  pub array : Array
  pub pool : Pool
  pub rest : List ℕ

unfoldable pub on_room : Array → (n size : ℕ) → Allocated → ArrayInit
on_room a n size r =
    if r.address == null
    then record { failed = true; array = record a { start = null }; pool = r.pool; rest = r.rest }
    else record {
      failed = false;
      array = record { start = r.address; size = size; nblock = n; ndata = 0 };
      pool = r.pool;
      rest = r.rest;
    }

unfoldable pub init : ℕ → Array → Pool → (n size : ℕ) → List ℕ → Option ArrayInit
init k a p n size xs = Option.map (on_room a n size) (palloc k p (bytes_of size n) xs)

-- `p->last = at` where `end` is `p->last`
unfoldable pub give_back : (end at : ℕ) → Pool → Pool
give_back end at p =
    if end == p.first.last then record p { first = record p.first { last = at } } else p

-- `ehd_array_destroy` of the array at `address`
unfoldable pub destroy : (address : ℕ) → Array → Pool → Pool
destroy address a p = give_back (address + array_size) address (give_back (slot a) a.start p)
