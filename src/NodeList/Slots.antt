-- ===== src/NodeList/Slots.antt =====
-- The elements of a list in the order of a walk over its nodes.
use ehttpd.Prelude.{
  ℕ, zero, suc, ◌+◌, ◌*◌, ◌^◌, ◌≤◌, ◌<◌, ◌≡◌, ◌⊎◌, inl, inr, refl, sym, ap, ◌∙◌, List, [], ◌∷◌,
  ◌++◌, All, All-last, ◌==◌, Bool-cases, arith,
}
use native.Mathlib.Nat.{mul-add, mul-le-mul_left, mod-eq_of_lt}
use mathlib.Core.List.{append_assoc, append-nil}
use ehttpd.Request.{null}
use ehttpd.NodeList.{Node, NodeList, Pushed, size_mul, uint, take_slot, add_node, push}

abbrev pub slots_from : (size block i n : ℕ) → List ℕ
slots_from size block i zero = []
slots_from size block i (suc n) = (block + size * i) ∷ slots_from size block (i + 1) n

-- `for (node = &list->head; node != NULL; node = node->next) for (i = 0; i < node->ndata; i++)`
abbrev pub walk : ℕ → List Node → List ℕ
walk size [] = []
walk size (n ∷ ns) = slots_from size n.block 0 n.ndata ++ walk size ns

abbrev pub elements : NodeList → List ℕ
elements l = walk l.size l.before ++ slots_from l.size l.last.block 0 l.last.ndata

abbrev pub IsFull : ℕ → Node → Type 0
IsFull cap n = n.ndata ≡ cap

-- Every node but the last one is full, every block was asked for with the size of all its elements,
-- and that size is a `size_t`.
pub record WellFormed (l : NodeList) : Type 0 where
  pub some_room : 0 < l.ndata
  pub counts : l.ndata < 2 ^ 32
  pub bounded : l.size * l.ndata < 2 ^ 64
  pub rooms : All (λ n. n.room ≡ l.size * l.ndata) l.before
  pub last_room : l.last.room ≡ l.size * l.ndata
  pub full : All (IsFull l.ndata) l.before
  pub fits : l.last.ndata ≤ l.ndata

-- what a push that gave an element has done
pub record Stored (l : NodeList) (p : Pushed) : Type 0 where
  pub appended : elements p.list ≡ elements l ++ (p.element ∷ [])
  pub formed : WellFormed p.list
  pub inside : p.list.last.block ≤ p.element
  pub within : p.element + p.list.size ≤ p.list.last.block + p.list.last.room
  pub same : (p.list.size ≡ l.size) × (p.list.ndata ≡ l.ndata)

slots_from-suc :
    (size block i n : ℕ)
    → slots_from size block i (n + 1) ≡ slots_from size block i n ++ ((block + size * (i + n)) ∷ [])
slots_from-suc size block i zero = let e : i + 0 ≡ i = omega arith in rw e refl
slots_from-suc size block i (suc n) =
    let e : suc n + 1 ≡ suc (n + 1) = omega arith in
    let e' : i + suc n ≡ i + 1 + n = omega arith in
    rw (e, e') (ap (λ k. (block + size * i) ∷ k) (slots_from-suc size block (i + 1) n))

slots_from-first :
    (size block n : ℕ)
    → slots_from size block 0 (n + 1) ≡ slots_from size block 0 n ++ ((block + size * n) ∷ [])
slots_from-first size block n =
    let e : 0 + n ≡ n = omega arith in rw e at (slots_from-suc size block 0 n)

walk-append : (size : ℕ) (ns ms : List Node) → walk size (ns ++ ms) ≡ walk size ns ++ walk size ms
walk-append size [] ms = refl
walk-append size (n ∷ ns) ms =
    ap (λ k. slots_from size n.block 0 n.ndata ++ k) (walk-append size ns ms)
    ∙ sym (append_assoc (slots_from size n.block 0 n.ndata) (walk size ns) (walk size ms))

size_mul-small : (a b : ℕ) → a * b < 2 ^ 64 → size_mul a b ≡ a * b
unfolding size_mul
size_mul-small a b l = mod-eq_of_lt l

uint-small : (n : ℕ) → n < 2 ^ 32 → uint n ≡ n
unfolding uint
uint-small n l = mod-eq_of_lt l

take_slot-Stored :
    (l : NodeList) (xs : List ℕ) → WellFormed l → l.last.ndata < l.ndata → Stored l (take_slot l xs)
unfolding take_slot
take_slot-Stored l xs w m =
    let front = walk l.size l.before in
    let used = slots_from l.size l.last.block 0 l.last.ndata in
    let counts = w.counts in
    let bounded = w.bounded in
    let last_room = w.last_room in
    let bound : l.size * (l.last.ndata + 1) ≤ l.size * l.ndata =
      mul-le-mul_left l.size (omega arith) in
    let next : l.size * (l.last.ndata + 1) ≡ l.size * l.last.ndata + l.size =
      mul-add l.size l.last.ndata 1 ∙ ap (λ k. l.size * l.last.ndata + k) (omega arith) in
    let at = size_mul-small l.size l.last.ndata (omega arith) in
    let count = uint-small (l.last.ndata + 1) (omega arith) in
    let element = l.last.block + l.size * l.last.ndata in
    rw (at, count)
      (record {
        appended =
            ap (λ k. front ++ k) (slots_from-first l.size l.last.block l.last.ndata)
            ∙ sym (append_assoc front used (element ∷ []));
        formed = record {
          some_room = w.some_room;
          counts = counts;
          bounded = bounded;
          rooms = w.rooms;
          last_room = last_room;
          full = w.full;
          fits = omega arith;
        };
        inside = omega arith;
        within = omega arith;
        same = (refl, refl);
      })

-- the list with a new node at its end, which is full before
abbrev grown : NodeList → ℕ → NodeList
grown l block = record l {
  before = l.before ++ (l.last ∷ []);
  last = record { block = block; room = size_mul l.ndata l.size; ndata = 0 };
}

grown-elements : (l : NodeList) (block : ℕ) → elements (grown l block) ≡ elements l
grown-elements l block =
    append-nil (walk l.size (l.before ++ (l.last ∷ [])))
    ∙ walk-append l.size l.before (l.last ∷ [])
    ∙ ap (λ k. walk l.size l.before ++ k)
        (append-nil (slots_from l.size l.last.block 0 l.last.ndata))

grown-Stored :
    (l : NodeList) (block : ℕ) (xs : List ℕ)
    → WellFormed l
    → l.last.ndata ≡ l.ndata
    → Stored l (take_slot (grown l block) xs)
unfolding take_slot
grown-Stored l block xs w e =
    let bounded = w.bounded in
    let asked : size_mul l.ndata l.size ≡ l.size * l.ndata =
      size_mul-small l.ndata l.size (omega arith) ∙ omega arith in
    let s =
      take_slot-Stored (grown l block) xs
        (record {
          some_room = w.some_room;
          counts = w.counts;
          bounded = bounded;
          rooms = All-last (λ n. n.room ≡ l.size * l.ndata) l.before l.last w.rooms w.last_room;
          last_room = asked;
          full = All-last (IsFull l.ndata) l.before l.last w.full e;
          fits = omega arith;
        })
        w.some_room in
    record {
      appended =
          s.appended
          ∙ ap (λ k. k ++ ((take_slot (grown l block) xs).element ∷ [])) (grown-elements l block);
      formed = s.formed;
      inside = s.inside;
      within = s.within;
      same = s.same;
    }

add_node-Stored :
    (l : NodeList) (xs : List ℕ)
    → WellFormed l
    → l.last.ndata ≡ l.ndata
    → (Stored l (add_node l xs)) ⊎ (((add_node l xs).element ≡ null) × ((add_node l xs).list ≡ l))
unfolding add_node
add_node-Stored l [] w e = inr (refl, refl)
add_node-Stored l (node ∷ []) w e = inr (refl, refl)
add_node-Stored l (node ∷ block ∷ xs) w e = elim (Bool-cases (node == null)) [
  | inl z ↦ rw z (inr (refl, refl))
  | inr z ↦ elim (Bool-cases (block == null)) [
    | inl z' ↦ rw (z, z') (inr (refl, refl))
    | inr z' ↦ rw (z, z') (inl (grown-Stored l block xs w e))
  ]
]

-- Pushing on a list whose nodes but the last are full, and whose blocks were each asked for with
-- the size of all their elements, a `size_t`, either fails, with NULL and the list as it was, or
-- gives an address that lies with its whole element in what the last node's block was asked for. A walk over the list
-- then finds the elements that it found before, in their order, and the new one behind them;
-- all of this holds of the list again, a new block included.
pub push-Stored :
    (l : NodeList) (xs : List ℕ)
    → WellFormed l
    → (Stored l (push l xs)) ⊎ (((push l xs).element ≡ null) × ((push l xs).list ≡ l))
unfolding push
push-Stored l xs w = elim (Bool-cases (l.last.ndata == l.ndata)) [
  | inl e ↦ rw e (add_node-Stored l xs w (ground arith))
  | inr e ↦ let below = w.fits in rw e (inl (take_slot-Stored l xs w (ground arith)))
]
