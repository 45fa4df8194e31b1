-- ===== src/Headers/Entries.antt =====
-- The entries of the header list for lines that stand in memory, and the names and values as strings.
use native.Mathlib.Nat.{add-zero}
use ehttpd.Prelude.{
  ℕ, suc, ◌+◌, ◌-◌, ◌≤◌, ◌<◌, ◌≡◌, ◌≢◌, sym, ◌∙◌, List, [], ◌∷◌, ◌++◌, length, arith,
}
use ehttpd.Request.{Memory, Request, Holds}
use ehttpd.Headers.{Header, store, header_of, terminated}
use ehttpd.ResponseHead.{Field}
use ehttpd.ResponseHead.Whole.{field_line}

-- the entry for a header line at `p`
abbrev pub header_at : ℕ → Field → Header
header_at p f = record {
  key_data = p;
  key_len = length f.key;
  value_data = p + length f.key + 2;
  value_len = length f.value;
}

-- the entries for header lines from `p` on
abbrev pub headers_at : ℕ → List Field → List Header
headers_at p [] = []
headers_at p (f ∷ fs) = header_at p f ∷ headers_at (p + length (field_line f)) fs

-- `xs` as a string of C
abbrev pub IsString : Memory → ℕ → List ℕ → Type 0
IsString mem p xs = Holds mem p (xs ++ (0 ∷ []))

-- names and values stand where the entries say
abbrev pub Stored : Memory → ℕ → List Field → Type 0
Stored mem p [] = Unit {0}
Stored mem p (f ∷ fs) =
    IsString mem p f.key
    × IsString mem (p + length f.key + 2) f.value
    × Stored mem (p + length (field_line f)) fs

pub Holds-frame :
    (mem mem' : Memory) (p : ℕ) (xs : List ℕ)
    → ((k : ℕ) → p ≤ k → k < p + length xs → mem' k ≡ mem k)
    → Holds mem p xs
    → Holds mem' p xs
Holds-frame mem mem' p [] e h = tt
Holds-frame mem mem' p (x ∷ xs) e h = (
  e p (omega arith) (omega arith) ∙ h.0,
  Holds-frame mem mem' (p + 1) xs (λ k a b. e k (omega arith) (omega arith)) h.1,
)

Holds-join :
    (mem : Memory) (p : ℕ) (xs ys : List ℕ)
    → Holds mem p xs
    → Holds mem (p + length xs) ys
    → Holds mem p (xs ++ ys)
Holds-join mem p [] ys h h' = rw (sym (add-zero p)) h'
Holds-join mem p (x ∷ xs) ys h h' =
    let e : p + 1 + length xs ≡ p + suc (length xs) = omega arith in
    (h.0, Holds-join mem (p + 1) xs ys h.1 (rw e h'))

pub IsString-join :
    (mem mem' : Memory) (p : ℕ) (xs : List ℕ)
    → ((k : ℕ) → p ≤ k → k < p + length xs → mem' k ≡ mem k)
    → mem' (p + length xs) ≡ 0
    → Holds mem p xs
    → IsString mem' p xs
IsString-join mem mem' p xs e z h =
    Holds-join mem' p xs (0 ∷ []) (Holds-frame mem mem' p xs e h) (z, tt)

Stored-frame :
    (mem mem' : Memory) (p q : ℕ) (fs : List Field)
    → ((k : ℕ) → p ≤ k → mem' k ≡ mem k)
    → p ≤ q
    → Stored mem q fs
    → Stored mem' q fs
Stored-frame mem mem' p q [] e l h = tt
Stored-frame mem mem' p q (f ∷ fs) e l (hk, hv, h) = (
  Holds-frame mem mem' q (f.key ++ (0 ∷ [])) (λ k a b. e k (omega arith)) hk,
  Holds-frame mem mem' (q + length f.key + 2) (f.value ++ (0 ∷ [])) (λ k a b. e k (omega arith)) hv,
  Stored-frame mem mem' p (q + length (field_line f)) fs e (omega arith) h,
)

-- what the two zero bytes change
pub terminated-other :
    (h : Header) (mem : Memory) (k : ℕ)
    → k ≢ h.key_data + h.key_len
    → k ≢ h.value_data + h.value_len
    → terminated h mem k ≡ mem k
unfolding terminated store
terminated-other h mem k a b = ground arith

pub terminated-key : (h : Header) (mem : Memory) → terminated h mem (h.key_data + h.key_len) ≡ 0
unfolding terminated store
terminated-key h mem = ground arith

pub terminated-value :
    (h : Header) (mem : Memory) → terminated h mem (h.value_data + h.value_len) ≡ 0
unfolding terminated store
terminated-value h mem = ground arith

pub header_of-at :
    (r : Request) (p : ℕ) (f : Field)
    → r.header_name_start ≡ p
    → r.header_name_end ≡ p + length f.key
    → r.header_start ≡ p + length f.key + 2
    → r.header_end ≡ p + length f.key + 2 + length f.value
    → header_of r ≡ header_at p f
unfolding header_of
header_of-at r p f a b c d =
    let key : r.header_name_end - r.header_name_start ≡ length f.key = omega arith in
    let value : r.header_end - r.header_start ≡ length f.value = omega arith in
    λ i. record { key_data = a i; key_len = key i; value_data = c i; value_len = value i }
