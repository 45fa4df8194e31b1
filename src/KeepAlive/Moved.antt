-- ===== src/KeepAlive/Moved.antt =====
-- The bytes behind a request are kept, in their order, for the next one.
use ehttpd.Prelude.{
  ℕ, zero, suc, ◌+◌, ◌-◌, ◌≤◌, ◌<◌, ◌≡◌, refl, ap, ◌∙◌, Bool, true, false, ◌∷◌, ltb, ◌==◌,
  if◌then◌else◌, inl, inr, Bool-cases, arith,
}
use ehttpd.Request.{Memory, bytes}
use ehttpd.KeepAlive.{init_request, empty_handler, Connection, move, shifted, keep_alive}

-- what the rounds that are left do not write
move-outside :
    (n start pos i : ℕ) (mem : Memory) (k : ℕ) → k < start + i → move n start pos i mem k ≡ mem k
unfolding move
move-outside zero start pos i mem k l = refl
move-outside (suc n) start pos i mem k l =
    move-outside n start pos (i + 1) _ k (omega arith) ∙ ground arith

-- a byte moved is the byte that was there, though source and target overlap
move-inside :
    (n start pos i : ℕ) (mem : Memory) (j : ℕ)
    → start ≤ pos
    → i ≤ j
    → j < i + n
    → move n start pos i mem (start + j) ≡ mem (pos + j)
unfolding move
move-inside zero start pos i mem j s l m = absurd (omega arith)
move-inside (suc n) start pos i mem j s l m = elim (Bool-cases (i == j)) [
  | inl e ↦
      let same : i ≡ j = ground arith in
      move-outside n start pos (i + 1) _ (start + j) (omega arith) ∙ ground arith
  | inr e ↦ move-inside n start pos (i + 1) _ j s (ground arith) (omega arith) ∙ ground arith
]

bytes-moved :
    (n start pos : ℕ) (mem mem' : Memory) (i : ℕ)
    → ((j : ℕ) → i ≤ j → j < i + n → mem' (start + j) ≡ mem (pos + j))
    → bytes mem' (start + i) n ≡ bytes mem (pos + i) n
bytes-moved zero start pos mem mem' i h = refl
bytes-moved (suc n) start pos mem mem' i h =
    let e : start + i + 1 ≡ start + (i + 1) = omega arith in
    let e' : pos + i + 1 ≡ pos + (i + 1) = omega arith in
    rw (h i (omega arith) (omega arith)) (
      ap (λ l. mem (pos + i) ∷ l)
        (rw (e, e')
          (bytes-moved n start pos mem mem' (i + 1) (λ j a b. h j (omega arith) (omega arith)))))

-- what the connection is left with
pub record Waits (added : Bool) (c c' : Connection) : Type 0 where
  pub same_bytes :
      bytes c'.mem c'.buf.pos (c'.buf.last - c'.buf.pos)
      ≡ bytes c.mem c.buf.pos (c.buf.last - c.buf.pos)
  pub at_start : c'.buf.pos ≡ c.buf.start
  pub in_order : (c'.buf.pos ≤ c'.buf.last) × (c'.buf.last ≤ c'.buf.end) × (c'.buf.end ≡ c.buf.end)
  pub no_request : (c'.has_request ≡ false) × (c'.pool_destroyed ≡ true)
  pub handlers : (c'.read_handler ≡ init_request) × (c'.write_handler ≡ empty_handler)
  pub still_open : c'.closed ≡ (if added then c.closed else true)

abbrev Shifted : Connection → Connection → Type 0
Shifted c c' =
    (bytes c'.mem c'.buf.pos (c'.buf.last - c'.buf.pos)
      ≡ bytes c.mem c.buf.pos (c.buf.last - c.buf.pos))
    × (c'.buf.pos ≡ c.buf.start)
    × ((c'.buf.pos ≤ c'.buf.last) × (c'.buf.last ≤ c'.buf.end) × (c'.buf.end ≡ c.buf.end))
    × (c'.has_request ≡ c.has_request)
    × (c'.read_handler ≡ c.read_handler)
    × (c'.closed ≡ c.closed)

shifted-Shifted :
    (c : Connection)
    → c.buf.start ≤ c.buf.pos
    → c.buf.pos ≤ c.buf.last
    → c.buf.last ≤ c.buf.end
    → Shifted c (shifted c)
unfolding shifted
shifted-Shifted c s l m =
    let b = c.buf in
    let n = b.last - b.pos in
    elim (Bool-cases (ltb b.pos b.last)) [
      | inl e ↦
          let count : b.start + n - b.start ≡ n = omega arith in
          let z : b.start + 0 ≡ b.start = omega arith in
          let z' : b.pos + 0 ≡ b.pos = omega arith in
          let moved : bytes (move n b.start b.pos 0 c.mem) b.start n ≡ bytes c.mem b.pos n =
            rw (z, z') at
              (bytes-moved n b.start b.pos c.mem (move n b.start b.pos 0 c.mem) 0
                (λ j a k. move-inside n b.start b.pos 0 c.mem j s a k)) in
          rw e (rw count moved, refl, (omega arith, omega arith, refl), refl, refl, refl)
      | inr e ↦
          let none_left : b.last - b.pos ≡ 0 = ground arith in
          let none_there : b.start - b.start ≡ 0 = omega arith in
          rw e (
            rw (none_left, none_there) refl,
            refl,
            (omega arith, omega arith, refl),
            refl,
            refl,
            refl,
          )
    ]

-- A connection whose pointers are in order keeps, in their order, the bytes that were read behind
-- the request: they stand at the start of the buffer, whatever the overlap. The request is gone
-- with its pool, the next read event starts a new one, and the connection is closed only if
-- the event can not be added.
pub keep_alive-Waits :
    (added : Bool) (c : Connection)
    → c.buf.start ≤ c.buf.pos
    → c.buf.pos ≤ c.buf.last
    → c.buf.last ≤ c.buf.end
    → Waits added c (keep_alive added c)
unfolding keep_alive
keep_alive-Waits true c s l m =
    let (b, p, o, q, h, cl) =
      shifted-Shifted (record c { has_request = false; read_handler = init_request }) s l m in
    record {
      same_bytes = b;
      at_start = p;
      in_order = o;
      no_request = (q, refl);
      handlers = (h, refl);
      still_open = cl;
    }
keep_alive-Waits false c s l m =
    let (b, p, o, q, h, cl) =
      shifted-Shifted (record c { has_request = false; read_handler = init_request }) s l m in
    record {
      same_bytes = b;
      at_start = p;
      in_order = o;
      no_request = (q, refl);
      handlers = (h, refl);
      still_open = refl;
    }
