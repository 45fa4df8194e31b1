-- ===== src/Headers/Agree.antt =====
-- What is known of a header line that is half read does not depend on the memory behind it.
use ehttpd.Prelude.{
  ℕ, ◌+◌, ◌-◌, ◌≤◌, ◌<◌, ◌≡◌, ◌≢◌, inl, inr, refl, sym, ap, ◌∙◌, Bool, List, [], ◌∷◌, ◌==◌,
  if◌then◌else◌, arith,
}
use ehttpd.Request.{Memory, Buf, Request, Every}
use ehttpd.HeaderLine.Cases.{is_name}
use ehttpd.HeaderLine.Found.{in_line, HasName, HasValue, InValue, Inv, Ready}
use ehttpd.HeaderLine.States.{
  State, sw_start, sw_name, sw_space_before_value, sw_value, sw_space_after_value, sw_almost_done,
  sw_header_almost_done, sw_ignore_line, sw_done, sw_header_done,
}
use ehttpd.Headers.{store}

pub store-below : (xs : List ℕ) (mem : Memory) (a k : ℕ) → k < a → store mem a xs k ≡ mem k
unfolding store
store-below [] mem a k l = refl
store-below (x ∷ xs) mem a k l =
    store-below xs (λ j. if j == a then x else mem j) (a + 1) k (omega arith) ∙ ground arith

module _ (mem mem' : Memory) where
  abbrev Agree : ℕ → Type 0
  Agree p = (k : ℕ) → k < p → mem' k ≡ mem k

  Agree-le : (p q : ℕ) → q ≤ p → Agree p → Agree q
  Agree-le p q l h k m = h k (omega arith)

  Every-Agree :
      (test : ℕ → Bool) (from to : ℕ) → Agree to → Every test mem from to → Every test mem' from to
  Every-Agree test from to h e k a b = ap test (h k b) ∙ e k a b

  HasName-Agree : (r : Request) (p : ℕ) → Agree p → HasName mem r p → HasName mem' r p
  HasName-Agree r p h (a, b, c, d) = (
    a,
    b,
    h r.header_name_end b ∙ c,
    Every-Agree is_name r.header_name_start r.header_name_end
        (Agree-le p r.header_name_end (omega arith) h) d,
  )

  not_space : (p k : ℕ) → Agree p → k < p → mem k ≢ b' ' → mem' k ≢ b' '
  not_space p k h l n e = n (sym (h k l) ∙ e)

  InValue-Agree : (r : Request) (p : ℕ) → Agree p → InValue mem r p → InValue mem' r p
  InValue-Agree r p h (n, a, b, e, s) = (
    HasName-Agree r p h n,
    a,
    b,
    Every-Agree in_line r.header_start p h e,
    not_space p r.header_start h b s,
  )

  HasValue-Agree : (r : Request) (p : ℕ) → Agree p → HasValue mem r p → HasValue mem' r p
  HasValue-Agree r p h (a, b, c, e, s, t) = (
    a,
    b,
    c,
    Every-Agree in_line r.header_start r.header_end (Agree-le p r.header_end (omega arith) h) e,
    not_space p r.header_start h (omega arith) s,
    elim t [
      | inl same ↦ inl same
      | inr last ↦ inr (not_space p (r.header_end - 1) h (omega arith) last)
    ],
  )

  Inv-Agree : (s : State) (r : Request) (p : ℕ) → Agree p → Inv mem s r p → Inv mem' s r p
  Inv-Agree sw_start r p h i = tt
  Inv-Agree sw_name r p h (a, e) = (a, Every-Agree is_name r.header_name_start p h e)
  Inv-Agree sw_space_before_value r p h i = HasName-Agree r p h i
  Inv-Agree sw_value r p h (i, n) =
      (InValue-Agree r p h i, not_space p (p - 1) h (omega (arith, i.2)) n)
  Inv-Agree sw_space_after_value r p h (i, v) = (InValue-Agree r p h i, HasValue-Agree r p h v)
  Inv-Agree sw_almost_done r p h (n, v) = (HasName-Agree r p h n, HasValue-Agree r p h v)
  Inv-Agree sw_done r p h (n, v) = (HasName-Agree r p h n, HasValue-Agree r p h v)
  Inv-Agree sw_ignore_line r p h i = tt
  Inv-Agree sw_header_almost_done r p h i = i
  Inv-Agree sw_header_done r p h i = i

  pub Ready-Agree :
      (r : Request) (b b' : Buf)
      → Agree b.pos
      → b'.pos ≡ b.pos
      → b.last ≤ b'.last
      → Ready mem r b
      → Ready mem' r b'
  Ready-Agree r b b' h same l ready = record {
    state = ready.state;
    known = ready.known;
    unfinished = ready.unfinished;
    inv = rw same (Inv-Agree ready.state r b.pos h ready.inv);
    bounded = let le = ready.bounded in omega arith;
  }
