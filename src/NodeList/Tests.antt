-- ===== src/NodeList/Tests.antt =====
-- A list of concrete nodes, and its theorem at it.
use ehttpd.Prelude.{◌≡◌, ◌⊎◌, refl, [], ◌∷◌, arith}
use ehttpd.Request.{null}
use ehttpd.NodeList.{NodeList, size_mul, uint, take_slot, add_node, push, init}
use ehttpd.NodeList.Slots.{elements, WellFormed, Stored, push-Stored}

-- a full node of two elements of 32 bytes
abbrev full_list : NodeList
full_list = record {
  before = [];
  last = record { block = 1000; room = 64; ndata = 2 };
  size = 32;
  ndata = 2;
}

full_list-WellFormed : WellFormed full_list
full_list-WellFormed = record {
  some_room = omega arith;
  counts = omega arith;
  bounded = omega arith;
  rooms = tt;
  last_room = refl;
  full = tt;
  fits = omega arith;
}

run_push : elements (push full_list (2000 ∷ 3000 ∷ [])).list ≡ 1000 ∷ 1032 ∷ 3000 ∷ []
unfolding push add_node take_slot size_mul uint
run_push = refl

run_init : elements (push (init 1000 20 32) []).list ≡ 1000 ∷ []
unfolding init push add_node take_slot size_mul uint
run_init = refl

-- without memory for the block
run_fails : (push full_list (2000 ∷ 0 ∷ [])).element ≡ null
unfolding push add_node
run_fails = refl

push-Stored_example :
    (Stored full_list (push full_list (2000 ∷ 3000 ∷ [])))
    ⊎ (((push full_list (2000 ∷ 3000 ∷ [])).element ≡ null)
        × ((push full_list (2000 ∷ 3000 ∷ [])).list ≡ full_list))
push-Stored_example = push-Stored full_list (2000 ∷ 3000 ∷ []) full_list-WellFormed
