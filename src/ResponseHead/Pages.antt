-- ===== src/ResponseHead/Pages.antt =====
-- The pages of errors.
use ehttpd.Prelude.{
  ℕ, zero, suc, ◌+◌, ◌-◌, ◌≤◌, ◌<◌, ◌/◌, ◌%◌, ◌≡◌, ◌≢◌, List, [], ◌∷◌, ◌++◌, codes, refl, ap, ◌⊎◌,
  inl, inr, Bool, true, false, ◌&&◌, ◌||◌, ◌==◌, Option, none, some, leb, arith, if◌then◌else◌,
}
use mathlib.Core.Bool.{false≢true}
use mathlib.Core.Path.{subst}
use ehttpd.ResponseHead.{page_index, error_page, sent_status, page_text, error_tail}

-- the codes with a page of their own
abbrev pub has_page : ℕ → Bool
has_page c =
    c == 301
    || c == 302
    || c == 400
    || c == 403
    || c == 404
    || c == 405
    || c == 408
    || c == 413
    || c == 414
    || c == 416
    || c == 497
    || (leb 500 c && leb c 504)

-- the code whose page a response of a code has: its own, but that of 404 for an invalid host name;
-- the other codes have none
abbrev pub page_for : ℕ → Option ℕ
page_for c = if c == 498 then some 404 else if has_page c then some c else none

-- A code of the table: 301 to 303, 400 to 416, 497 to 504.
abbrev pub IsErrorCode : ℕ → Type 0
IsErrorCode c = ((301 ≤ c) × (c ≤ 303)) ⊎ ((400 ≤ c) × (c ≤ 416)) ⊎ ((497 ≤ c) × (c ≤ 504))

abbrev same : Option (Option ℕ) → Option (Option ℕ) → Bool
same none none = true
same (some none) (some none) = true
same (some (some a)) (some (some b)) = a == b
same _ _ = false

same-eq : (x y : Option (Option ℕ)) → same x y ≡ true → x ≡ y
same-eq none none e = refl
same-eq none (some y) e = absurd (false≢true e)
same-eq (some none) none e = absurd (false≢true e)
same-eq (some (some a)) none e = absurd (false≢true e)
same-eq (some none) (some none) e = refl
same-eq (some none) (some (some b)) e = absurd (false≢true e)
same-eq (some (some a)) (some none) e = absurd (false≢true e)
same-eq (some (some a)) (some (some b)) e =
    let h : a ≡ b = ground arith in ap (λ n. some (some n)) h

right : ℕ → Bool
right c = same (error_page c) (some (page_for c))

-- a test for the `n` codes from `c` on
abbrev all_from : (ℕ → Bool) → ℕ → ℕ → Bool
all_from f c zero = true
all_from f c (suc n) = f c && all_from f (suc c) n

both : (a b : Bool) → (a && b) ≡ true → (a ≡ true) × (b ≡ true)
both true b e = (refl, e)
both false b e = absurd (false≢true e)

module _ (f : ℕ → Bool) where
  all_from-at : (c n i : ℕ) → i < n → all_from f c n ≡ true → f (c + i) ≡ true
  all_from-at c zero i h e = absurd (omega (arith, h))
  all_from-at c (suc n) zero h e =
      subst (λ d. f d ≡ true) (omega arith) (both (f c) (all_from f (suc c) n) e).0
  all_from-at c (suc n) (suc i) h e =
      subst (λ d. f d ≡ true) (omega arith)
        (all_from-at (suc c) n i (omega arith) (both (f c) (all_from f (suc c) n) e).1)

  -- a code among the `n` from `base` on
  among : (base n c : ℕ) → base ≤ c → c < base + n → all_from f base n ≡ true → f c ≡ true
  among base n c l h e =
      subst (λ d. f d ≡ true) (omega arith) (all_from-at base n (c - base) (omega arith) e)

  -- what was tried on each code of the table holds of every one
  of_table :
      (c : ℕ)
      → all_from f 301 3 ≡ true
      → all_from f 400 17 ≡ true
      → all_from f 497 8 ≡ true
      → IsErrorCode c
      → f c ≡ true
  of_table c u v w (inl (l, h)) = among 301 3 c l (omega arith) u
  of_table c u v w (inr (inl (l, h))) = among 400 17 c l (omega arith) v
  of_table c u v w (inr (inr (l, h))) = among 497 8 c l (omega arith) w

-- For each code of the table `ehd_http_special_response_handler` takes the page of that code, or
-- none where the code has no page, and reads nothing outside the table.
pub error_page-page_for : (c : ℕ) → IsErrorCode c → error_page c ≡ some (page_for c)
unfolding right error_page page_index
error_page-page_for c h = same-eq _ _ (of_table right c refl refl refl h)

-- the list begins with the first one
abbrev pub starts : List ℕ → List ℕ → Bool
starts [] ys = true
starts (x ∷ xs) [] = false
starts (x ∷ xs) (y ∷ ys) = x == y && starts xs ys

-- a number of three digits
abbrev pub digits : ℕ → List ℕ
digits n = (b'0' + n / 100) ∷ (b'0' + n / 10 % 10) ∷ (b'0' + n % 10) ∷ []

-- the beginning of a page whose title begins with a number
abbrev pub titled_with : ℕ → List ℕ
titled_with n = codes "<html>\r\n<head><title>" ++ digits n

-- the status of a response: the code, but 400 for 497 and 404 for 498
abbrev pub StatusOf : ℕ → ℕ → Type 0
StatusOf c n = ((c ≡ 497) × (n ≡ 400)) ⊎ ((c ≡ 498) × (n ≡ 404)) ⊎ ((c ≢ 497) × (c ≢ 498) × (n ≡ c))

pub sent_status-StatusOf : (c : ℕ) → StatusOf c (sent_status c)
unfolding sent_status
sent_status-StatusOf c = ground arith

title_right : ℕ → Option ℕ → Bool
title_right c none = true
title_right c (some p) = starts (titled_with (sent_status c)) (page_text (some p) ++ error_tail)

title_of_code : ℕ → Bool
title_of_code c = title_right c (page_for c)

title_of_code-true : (c : ℕ) → IsErrorCode c → title_of_code c ≡ true
unfolding title_of_code title_right sent_status
title_of_code-true c h = of_table title_of_code c refl refl refl h

by_page :
    (c : ℕ) (o : Option ℕ)
    → title_right c o ≡ true
    → (o ≡ none) ⊎ (starts (titled_with (sent_status c)) (page_text o ++ error_tail) ≡ true)
unfolding title_right
by_page c none e = inl refl
by_page c (some p) e = inr e

-- the title of the page that is sent begins with the status that is sent
pub page_for-titled :
    (c : ℕ)
    → IsErrorCode c
    → (page_for c ≡ none)
      ⊎ (starts (titled_with (sent_status c)) (page_text (page_for c) ++ error_tail) ≡ true)
unfolding title_of_code
page_for-titled c h = by_page c (page_for c) (title_of_code-true c h)
