-- ===== src/ComplexUri/Text.antt =====
-- The text that the walk has written: no `//`, `/./` or `/../` in it, and a `/` in front.
use ehttpd.Prelude.{
  ℕ, suc, ◌≤◌, ◌≡◌, ◌≢◌, inl, inr, refl, Bool, false, ◌&&◌, ◌||◌, Option, none, some, List, [], ◌∷◌,
  length, arith, ◌==◌, Bool-cases, ==_iff, eqb-ne, and-false_left, and-false_right, eqb-ne,
  and-false_left, and-false_right,
}
use ehttpd.ComplexUri.{State, sw_usual, sw_slash, sw_dot, sw_dot_dot, rewind}

-- a text, last byte first, that ends in `/`, `/.` or `/..`
abbrev pub ends_segment : List ℕ → Bool
ends_segment [] = false
ends_segment (a ∷ []) = a == b'/'
ends_segment (a ∷ b ∷ []) = a == b'/' || ((a == b'.') && (b == b'/'))
ends_segment (a ∷ b ∷ c ∷ s) =
    a == b'/' || ((a == b'.') && (b == b'/')) || ((a == b'.') && (b == b'.') && (c == b'/'))

-- a text, last byte first, with no `//`, `/./` or `/../` in it
abbrev pub Clean : List ℕ → Type 0
Clean [] = Unit {0}
Clean (a ∷ s) = ((a == b'/' && ends_segment s) ≡ false) × Clean s

-- the first byte is a slash
abbrev pub Rooted : List ℕ → Type 0
Rooted [] = ⊥
Rooted (a ∷ []) = a ≡ b'/'
Rooted (a ∷ b ∷ s) = Rooted (b ∷ s)

-- Shut, so that the tactics take it as one fact; the lemmas below open it.
pub Absolute : List ℕ → Type 0
Absolute s = Clean s × Rooted s

-- what stands at the end of the text in each state, and that an extension is open in `sw_usual` only
abbrev pub TextInv : State → List ℕ → Option ℕ → Type 0
TextInv sw_usual s none = Absolute s × (ends_segment s ≡ false)
TextInv sw_usual s (some e) = Absolute s × (ends_segment s ≡ false) × (e ≤ length s)
TextInv sw_slash (a ∷ s) none = Absolute (a ∷ s) × (a ≡ b'/')
TextInv sw_dot (a ∷ b ∷ s) none = Absolute (b ∷ s) × (a ≡ b'.') × (b ≡ b'/')
TextInv sw_dot_dot (a ∷ b ∷ c ∷ s) none = Absolute (c ∷ s) × (a ≡ b'.') × (b ≡ b'.') × (c ≡ b'/')
TextInv _ s e = ⊥

pub ends_segment-usual :
    (a : ℕ) (s : List ℕ) → ends_segment s ≡ false → a ≢ b'/' → ends_segment (a ∷ s) ≡ false
ends_segment-usual a [] h n = ground arith
ends_segment-usual a (b ∷ []) h n = ground arith
ends_segment-usual a (b ∷ c ∷ []) h n = ground arith
ends_segment-usual a (b ∷ c ∷ d ∷ s) h n = ground arith

pub ends_segment-plain : (a : ℕ) (s : List ℕ) → a ≢ b'/' → a ≢ b'.' → ends_segment (a ∷ s) ≡ false
ends_segment-plain a [] h n = ground arith
ends_segment-plain a (b ∷ []) h n = ground arith
ends_segment-plain a (b ∷ c ∷ s) h n = ground arith

Rooted-cons : (a : ℕ) (s : List ℕ) → Rooted s → Rooted (a ∷ s)
Rooted-cons a [] h = absurd h
Rooted-cons a (b ∷ s) h = h

-- writing a byte, by what the text ends in
pub put-usual :
    (a : ℕ) (s : List ℕ)
    → Absolute s
    → ends_segment s ≡ false
    → a ≢ b'/'
    → Absolute (a ∷ s) × (ends_segment (a ∷ s) ≡ false)
unfolding Absolute
put-usual a s h n ne = (
  ((and-false_left (a == b'/') (ends_segment s) (eqb-ne a b'/' ne), h.0), Rooted-cons a s h.1),
  ends_segment-usual a s n ne,
)

pub put-slash : (a : ℕ) (s : List ℕ) → Absolute s → ends_segment s ≡ false → Absolute (a ∷ s)
unfolding Absolute
put-slash a s h n = ((and-false_right (a == b'/') (ends_segment s) n, h.0), Rooted-cons a s h.1)

pub put-plain : (a : ℕ) (s : List ℕ) → Absolute s → a ≢ b'/' → Absolute (a ∷ s)
unfolding Absolute
put-plain a s h ne =
    ((and-false_left (a == b'/') (ends_segment s) (eqb-ne a b'/' ne), h.0), Rooted-cons a s h.1)

Absolute-tail : (a b : ℕ) (s : List ℕ) → Absolute (a ∷ b ∷ s) → Absolute (b ∷ s)
unfolding Absolute
Absolute-tail a b s h = (h.0.1, h.1)

-- Behind a slash and one more byte there is a text left: the first slash of all is not taken.
pub Absolute-drop : (a b : ℕ) (s : List ℕ) → Absolute (a ∷ b ∷ s) → a ≡ b'/' → Absolute s
unfolding Absolute
Absolute-drop a b [] h e = ground arith
Absolute-drop a b (c ∷ s) h e = (h.0.1.1, h.1)

-- what the search for the slash before the parent finds
pub record Rewound (s : List ℕ) : Type 0 where
  pub slash : ℕ
  pub before : List ℕ
  pub found : rewind s ≡ some (slash ∷ before)
  pub is_slash : slash ≡ b'/'
  pub absolute : Absolute (slash ∷ before)
  pub shorter : suc (length before) ≤ length s

Rewound-cons : (a b : ℕ) (s : List ℕ) → (a == b'/') ≡ false → Rewound (b ∷ s) → Rewound (a ∷ b ∷ s)
unfolding rewind
Rewound-cons a b s e w = record {
  slash = w.slash;
  before = w.before;
  found = rw (e, rewind) w.found;
  is_slash = w.is_slash;
  absolute = w.absolute;
  shorter = omega (arith, w.shorter);
}

pub rewind-Rewound : (s : List ℕ) → Absolute s → Rewound s
rewind-Rewound [] h = unfold Absolute in absurd h.1
rewind-Rewound (a ∷ []) h =
    unfold Absolute rewind in
    record {
      slash = a;
      before = [];
      found = ground arith;
      is_slash = h.1;
      absolute = h;
      shorter = omega arith;
    }
rewind-Rewound (a ∷ b ∷ s) h = elim (Bool-cases (a == b'/')) [
  | inl e ↦ record {
    slash = a;
    before = b ∷ s;
    found = unfold rewind in rw (e, rewind);
    is_slash = (==_iff a b'/').0 e;
    absolute = h;
    shorter = omega arith;
  }
  | inr e ↦ Rewound-cons a b s e (rewind-Rewound (b ∷ s) (Absolute-tail a b s h))
]

-- what is written for `%25`
pub TextInv-percent :
    (q : State) (out : List ℕ) (ext : Option ℕ)
    → TextInv q out ext
    → TextInv sw_usual (b'%' ∷ out) ext
TextInv-percent sw_usual out none h = put-usual b'%' out h.0 h.1 (omega arith)
TextInv-percent sw_usual out (some e) h =
    let (a, n) = put-usual b'%' out h.0 h.1 (omega arith) in (a, n, omega (arith, h.2))
TextInv-percent sw_slash (a ∷ out) none h = (
  put-plain b'%' (a ∷ out) h.0 (omega arith),
  ends_segment-plain b'%' (a ∷ out) (omega arith) (omega arith),
)
TextInv-percent sw_dot (a ∷ b ∷ out) none h = (
  put-plain b'%' (a ∷ b ∷ out) (put-plain a (b ∷ out) h.0 (omega arith)) (omega arith),
  ends_segment-plain b'%' (a ∷ b ∷ out) (omega arith) (omega arith),
)
TextInv-percent sw_dot_dot (a ∷ b ∷ c ∷ out) none h = (
  put-plain b'%' (a ∷ b ∷ c ∷ out)
      (put-plain a (b ∷ c ∷ out) (put-plain b (c ∷ out) h.0 (omega arith)) (omega arith))
      (omega arith),
  refl,
)
TextInv-percent _ out ext h = absurd h

-- what every state knows of the text
abbrev pub ExtWithin : Option ℕ → List ℕ → Type 0
ExtWithin none s = Unit {0}
ExtWithin (some e) s = e ≤ length s

pub TextInv-Absolute :
    (q : State) (out : List ℕ) (ext : Option ℕ)
    → TextInv q out ext
    → Absolute out × ExtWithin ext out
TextInv-Absolute sw_usual out none h = (h.0, tt)
TextInv-Absolute sw_usual out (some e) h = (h.0, h.2)
TextInv-Absolute sw_slash (a ∷ out) none h = (h.0, tt)
TextInv-Absolute sw_dot (a ∷ b ∷ out) none h = (put-plain a (b ∷ out) h.0 (omega arith), tt)
TextInv-Absolute sw_dot_dot (a ∷ b ∷ c ∷ out) none h =
    (put-plain a (b ∷ c ∷ out) (put-plain b (c ∷ out) h.0 (omega arith)) (omega arith), tt)
TextInv-Absolute _ out ext h = absurd h

-- the first byte that is written
pub Absolute-first : Absolute (b'/' ∷ [])
unfolding Absolute
Absolute-first = ((refl, tt), refl)

pub Absolute-parts : (s : List ℕ) → Absolute s → Clean s × Rooted s
unfolding Absolute
Absolute-parts s h = h
