-- ===== src/StaticFiles/Replies.antt =====
-- Every request is answered.
use ehttpd.Prelude.{
  ℕ, ◌+◌, ◌-◌, ◌≡◌, refl, ap, ◌⊎◌, inl, inr, Option, none, some, List, ◌++◌, ◌==◌, arith,
  Bool-cases,
}
use mathlib.Core.Option
use ehttpd.RequestLine.Method.{http_get}
use ehttpd.Request.{Memory}
use ehttpd.Strings.Decimal.{until_nul}
use ehttpd.ResponseHead.{HeadersOut, Generated, Special, special_response, answer_with}
use ehttpd.ResponseHead.Pages.{IsErrorCode, error_page-page_for}
use ehttpd.StaticFiles.{
  Kind, directory, regular, other, Choice, refuse, move_to, give, on_index, on_stat, choose, answer,
  handler,
}

special-some :
    (decimal : ℕ → List ℕ) (c : ℕ) (h : HeadersOut)
    → IsErrorCode c
    → (s : Special) × (special_response decimal c h ≡ some s)
unfolding special_response
special-some decimal c h i =
    (_, ap (λ o. Option.map (answer_with decimal c h) o) (error_page-page_for c i))

module _ (stat : List ℕ → Option Kind) (root index : List ℕ) (mem : Memory) (uri len : ℕ) where
  -- an error of the table, or a file that `stat` has found
  abbrev Chosen : Choice → Type 0
  Chosen (refuse c) = IsErrorCode c
  Chosen (move_to l) = Unit
  Chosen (give name) = (k : Kind) × (stat (until_nul name) ≡ some k)

  on_index-Chosen :
      (name : List ℕ) (o : Option Kind) → stat (until_nul name) ≡ o → Chosen (on_index name o)
  unfolding on_index
  on_index-Chosen name none e = inr (inl (omega arith, omega arith))
  on_index-Chosen name (some k) e = (k, e)

  on_stat-Chosen :
      (name : List ℕ) (o : Option Kind)
      → stat (until_nul name) ≡ o
      → Chosen (on_stat stat root index mem uri len name o)
  unfolding on_stat
  on_stat-Chosen name none e = inr (inl (omega arith, omega arith))
  on_stat-Chosen name (some directory) e = elim (Bool-cases (mem (uri + len - 1) == b'/')) [
    | inl t ↦ rw t (on_index-Chosen (name ++ index) _ refl)
    | inr t ↦ rw t tt
  ]
  on_stat-Chosen name (some regular) e = (regular, e)
  on_stat-Chosen name (some other) e = inr (inl (omega arith, omega arith))

  module _ (decimal : ℕ → List ℕ) (size : List ℕ → ℕ) where
    -- a file is given to GET only, and only if `stat` has found it
    abbrev pub Sound : ℕ → (Special ⊎ (Generated × List ℕ)) → Type 0
    Sound method (inl s) = Unit
    Sound method (inr (g, name)) =
        (method ≡ http_get) × ((k : Kind) × (stat (until_nul name) ≡ some k))

    abbrev Replies : ℕ → Option (Special ⊎ (Generated × List ℕ)) → Type 0
    Replies method o = (r : Special ⊎ (Generated × List ℕ)) × (o ≡ some r) × Sound method r

    refused :
        (method c : ℕ) (h : HeadersOut)
        → IsErrorCode c
        → Replies method (Option.map inl (special_response decimal c h))
    refused method c h i =
        let (s, e) = special-some decimal c h i in (inl s, ap (λ o. Option.map inl o) e, tt)

    answer-Replies :
        (method : ℕ) (h : HeadersOut) (c : Choice)
        → method ≡ http_get
        → Chosen c
        → Replies method (answer stat root index mem uri len decimal size h c)
    unfolding answer
    answer-Replies method h (refuse c) g w = refused method c h w
    answer-Replies method h (move_to l) g w = refused method 302 _ (inl (omega arith, omega arith))
    answer-Replies method h (give name) g w = (_, refl, (g, w))

-- `ehd_http_handler` answers every request, whatever `stat` finds: with an error, for which the
-- table of pages is read within its bounds, or with the head and the name of a file, and this only
-- for GET and where `stat` has found what the name stands for.
pub handler-Sound :
    (stat : List ℕ → Option Kind) (root index : List ℕ) (mem : Memory) (uri len : ℕ)
    (decimal : ℕ → List ℕ) (size : List ℕ → ℕ) (method : ℕ) (h : HeadersOut)
    → (r : Special ⊎ (Generated × List ℕ)) × (handler stat root index mem uri len decimal size
          method h
        ≡ some r)
      × Sound stat root index mem uri len decimal size method r
unfolding handler choose
handler-Sound stat root index mem uri len decimal size method h =
    elim (Bool-cases (method == http_get)) [
      | inl e ↦ rw e (
          answer-Replies stat root index mem uri len decimal size method h _ (ground arith)
            (on_stat-Chosen stat root index mem uri len _ _ refl))
      | inr e ↦ rw e (
          refused stat root index mem uri len decimal size method 501 h
            (inr (inr (omega arith, omega arith))))
    ]
