-- ===== src/RequestLine/Word.antt =====
-- The method's word: which bytes it consists of, and which number `r->method` gets for it.
use native.Mathlib.Decide.{dec_lt}
use ehttpd.Prelude.{ℕ, zero, suc, ◌+◌, ◌-◌, ◌≤◌, ◌<◌, ◌≡◌, ◌↔◌, false, arith, codes}
use ehttpd.Request.{Memory, Buf, Request, bytes}
use ehttpd.RequestLine.{is_done, step, finish, parse_request_line}
use ehttpd.RequestLine.Method.{not_upper, http_get, http_head, http_post, recognise}
use ehttpd.RequestLine.States.{State, sw_start, sw_method}
use ehttpd.RequestLine.Finished.{IsFinished, parse_request_line-Finished}
use ehttpd.Scanner.Invariant.{Keeps}

-- The number that a word of `k` bytes gets, told by the word alone.
pub record Numbered (mem : Memory) (m k method : ℕ) : Type 0 where
  pub get : (method ≡ http_get) ↔ (bytes mem m k ≡ codes "GET")
  pub head : (method ≡ http_head) ↔ (bytes mem m k ≡ codes "HEAD")
  pub post : (method ≡ http_post) ↔ (bytes mem m k ≡ codes "POTT")
  pub bounded : method ≤ 3

recognise-Numbered : (mem : Memory) (m k : ℕ) → Numbered mem m k (recognise mem m (m + k) 0)
unfolding recognise
recognise-Numbered mem m zero = ground arith
recognise-Numbered mem m (suc zero) = ground arith
recognise-Numbered mem m (suc (suc zero)) = ground arith
recognise-Numbered mem m (suc (suc (suc zero))) = ground arith
recognise-Numbered mem m (suc (suc (suc (suc zero)))) = ground arith
recognise-Numbered mem m (suc (suc (suc (suc (suc k))))) = ground arith

module _ (mem : Memory) where
  abbrev pub AllUpper : ℕ → ℕ → Type 0
  AllUpper from to = (k : ℕ) → from ≤ k → k < to → not_upper (mem k) ≡ false

  -- the word between two addresses is of capital letters, and has been looked up
  abbrev HasWord : Request → Type 0
  HasWord r =
      (r.request_start < r.method_end)
      × AllUpper r.request_start r.method_end
      × (r.method ≡ recognise mem r.request_start r.method_end 0)

  abbrev WordInv : State → Request → ℕ → Type 0
  WordInv sw_start r p = r.method ≡ 0
  WordInv sw_method r p = (r.method ≡ 0) × (r.request_start < p) × AllUpper r.request_start p
  WordInv _ r p = HasWord r

  AllUpper-one : (p : ℕ) → not_upper (mem p) ≡ false → AllUpper p (p + 1)
  AllUpper-one p u k from to = let e : k ≡ p = omega arith in rw e u

  AllUpper-suc : (a p : ℕ) → AllUpper a p → not_upper (mem p) ≡ false → AllUpper a (p + 1)
  AllUpper-suc a p h u k from to = elim (dec_lt k p) [
    | yes l ↦ h k from l
    | no l ↦ let e : k ≡ p = omega arith in rw e u
  ]

  step-WordInv :
      (s : State) (r : Request) (p : ℕ)
      → is_done s ≡ false
      → WordInv s r p
      → Keeps WordInv (λ _ _. Unit {0}) (p + 1) (step mem s r p (mem p))
  unfolding step
  step-WordInv sw_start r p f h = grind (arith, AllUpper-one)
  step-WordInv sw_method r p f h = grind (arith, AllUpper-suc)
  step-WordInv _ r p f h = grind arith

  -- the word of a request line that has been read
  pub record WordFound (r : Request) : Type 0 where
    pub some_letter : r.request_start < r.method_end
    pub upper : AllUpper r.request_start r.method_end
    pub numbered : Numbered mem r.request_start (r.method_end - r.request_start) r.method

  HasWord-found : (r : Request) → HasWord r → WordFound r
  HasWord-found r (lt, upper, e) =
      let k = r.method_end - r.request_start in
      let at : r.request_start + k ≡ r.method_end = omega arith in
      record {
        some_letter = lt;
        upper = upper;
        numbered = rw e (rw at at (recognise-Numbered mem r.request_start k));
      }

  -- When a call on a fresh request has read the line to its end, the method's word is of capital
  -- letters, at least one, and `r->method` is EHD_HTTP_GET exactly for "GET", EHD_HTTP_HEAD
  -- exactly for "HEAD", EHD_HTTP_POST exactly for "POTT" (and so never for "POST"), and 0 else.
  pub parse_request_line-WordFound :
      (r : Request) (b : Buf)
      → r.state ≡ 0
      → r.method ≡ 0
      → IsFinished (parse_request_line mem r b).code
      → WordFound (parse_request_line mem r b).request
  parse_request_line-WordFound r b z m f =
      let done = parse_request_line-Finished mem WordInv step-WordInv r b z m f in
      rw done.request (unfold finish in HasWord-found (finish done.left done.end) done.holds)
