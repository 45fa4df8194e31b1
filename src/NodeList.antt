-- ===== src/NodeList.antt =====
-- core/ehd_list.c: a list of nodes with room for the same number of elements each. The answers of
-- `ehd_palloc` are an argument, an address or NULL for each call.
pub mod Slots
mod Tests
use ehttpd.Prelude.{
  ℕ, zero, suc, ◌+◌, ◌*◌, ◌%◌, ◌^◌, Bool, true, false, List, [], ◌∷◌, ◌++◌, ◌==◌, if◌then◌else◌,
}
use ehttpd.Request.{null}

-- `ehd_list_node_t`; `room` is what `ehd_palloc` was asked for, kept for the record
pub record Node : Type 0 where
  pub block : ℕ
  pub room : ℕ
  pub ndata : ℕ

-- `ehd_list_t`: the nodes from `head` on but the last one, and the last one
pub record NodeList : Type 0 where
  pub before : List Node
  pub last : Node
  pub size : ℕ
  pub ndata : ℕ

-- the element's address or NULL, the list as it is left, and the answers that were not used
pub record Pushed : Type 0 where
  pub element : ℕ
  pub list : NodeList
  pub rest : List ℕ

-- a product of `size_t`, and a `uint`
unfoldable pub size_mul : ℕ → ℕ → ℕ
size_mul a b = a * b % 2 ^ 64

unfoldable pub uint : ℕ → ℕ
uint n = n % 2 ^ 32

-- the address of the next element in the last node, and `last->ndata++`
unfoldable pub take_slot : NodeList → List ℕ → Pushed
take_slot l xs = record {
  element = l.last.block + size_mul l.size l.last.ndata;
  list = record l { last = record l.last { ndata = uint (l.last.ndata + 1) } };
  rest = xs;
}

-- a node behind the last one; the node itself is allocated first, then its block
unfoldable pub add_node : NodeList → List ℕ → Pushed
add_node l [] = record { element = null; list = l; rest = [] }
add_node l (node ∷ []) = record { element = null; list = l; rest = [] }
add_node l (node ∷ block ∷ xs) =
    if node == null
    then record { element = null; list = l; rest = block ∷ xs }
    else (if block == null
        then record { element = null; list = l; rest = xs }
        else take_slot
            (record l {
              before = l.before ++ (l.last ∷ []);
              last = record { block = block; room = size_mul l.ndata l.size; ndata = 0 };
            })
            xs)

unfoldable pub push : NodeList → List ℕ → Pushed
push l xs = if l.last.ndata == l.ndata then add_node l xs else take_slot l xs

-- `ehd_list_init`, behind a block that was allocated
unfoldable pub init : (block n size : ℕ) → NodeList
init block n size = record {
  before = [];
  last = record { block = block; room = size_mul n size; ndata = 0 };
  size = size;
  ndata = n;
}
