-- ===== src/RequestLine/Runs.antt =====
-- Runs of the request line machine over the pieces of a well-formed line.
use native.Mathlib.Nat.{zero-add, add-zero}
use ehttpd.Prelude.{
  ℕ, suc, ◌+◌, ◌-◌, ◌≡◌, refl, ◌∙◌, ◌⊎◌, false, List, [], ◌∷◌, ◌++◌, length, All, arith, codes,
  ◌==◌, ◌||◌,
}
use ehttpd.Request.{Memory, Request, Holds, cr, lf}
use ehttpd.RequestLine.{is_done, step, machine}
use ehttpd.RequestLine.Method.{recognise, not_upper, on_start, on_method}
use ehttpd.RequestLine.States.{
  State, sw_start, sw_method, sw_spaces_before_uri, sw_after_slash_in_uri, sw_check_uri, sw_uri,
  sw_http_09, sw_http_h, sw_http_ht, sw_http_htt, sw_http_http, sw_first_major_digit,
  sw_major_digit, sw_first_minor_digit, sw_minor_digit, sw_almost_done, sw_done,
}
use ehttpd.RequestLine.Target.{on_spaces_before_uri, on_after_slash_in_uri, on_check_uri, on_uri}
use ehttpd.RequestLine.Version.{not_digit}
use ehttpd.Scanner.{next, stopped, scan}
use ehttpd.Scanner.Invariant.{Keeps, Keeps-next}
use ehttpd.Scanner.Resume.{scan-byte, scan-final}

abbrev pub IsUpper : ℕ → Type 0
IsUpper c = not_upper c ≡ false

-- a byte that may stand in the target: not CR, LF or a space
abbrev pub IsTarget : ℕ → Type 0
IsTarget c = (c == cr || c == lf || c == b' ') ≡ false

abbrev pub version_text : ℕ → List ℕ
version_text minor = codes " HTTP/1." ++ (minor ∷ cr ∷ lf ∷ [])

-- `METHOD /path HTTP/1.x CR LF`
abbrev pub request_line : List ℕ → List ℕ → ℕ → List ℕ
request_line word path minor = word ++ (b' ' ∷ b'/' ∷ (path ++ version_text minor))

module _ (mem : Memory) where
  on_method-upper :
      (r : Request) (p c : ℕ) → IsUpper c → step mem sw_method r p c ≡ next sw_method r
  unfolding step on_method
  on_method-upper r p c u = ground arith

  pub scan-word :
      (w : List ℕ) (k : ℕ) (r : Request) (p : ℕ)
      → All IsUpper w
      → Holds mem p w
      → scan machine mem (length w + k) sw_method r p
        ≡ scan machine mem k sw_method r (p + length w)
  scan-word [] k r p u h = rw (zero-add, add-zero)
  scan-word (c ∷ w) k r p u h =
      let e : p + suc (length w) ≡ p + 1 + length w = omega arith in
      let f : suc (length w) + k ≡ suc (length w + k) = omega arith in
      rw (e, f)
        (scan-byte machine mem (length w + k) sw_method r p c h.0 refl (on_method-upper r p c u.0)
          ∙ scan-word w k r (p + 1) u.1 h.1)

  abbrev pub InPath : State → Type 0
  InPath s = (s ≡ sw_after_slash_in_uri) ⊎ (s ≡ sw_check_uri) ⊎ (s ≡ sw_uri)

  -- what the path's bytes leave alone
  abbrev pub SameLine : Request → Request → Type 0
  SameLine r r' =
      (r'.method ≡ r.method)
      × (r'.request_start ≡ r.request_start)
      × (r'.method_end ≡ r.method_end)
      × (r'.uri_start ≡ r.uri_start)
      × (r'.request_end ≡ r.request_end)
      × (r'.http_major ≡ r.http_major)

  abbrev pub AfterPath : Request → State → Request → ℕ → Type 0
  AfterPath r s' r' _ = InPath s' × SameLine r r'

  InPath-unfinished : (s : State) → InPath s → is_done s ≡ false
  InPath-unfinished sw_done i = ground arith
  InPath-unfinished _ i = refl

  path-Keeps :
      (s : State) (r : Request) (p c : ℕ)
      → InPath s
      → IsTarget c
      → Keeps (AfterPath r) (λ _ _. ⊥) (p + 1) (step mem s r p c)
  unfolding step
  path-Keeps sw_after_slash_in_uri r p c s t = ground arith
  path-Keeps sw_check_uri r p c s t = ground arith
  path-Keeps sw_uri r p c s t = ground arith
  path-Keeps _ r p c s t = ground arith

  pub scan-path :
      (path : List ℕ) (k : ℕ) (s : State) (r : Request) (p : ℕ)
      → InPath s
      → All IsTarget path
      → Holds mem p path
      → (s' : State) × (r' : Request) × (scan machine mem (length path + k) s r p
          ≡ scan machine mem k s' r' (p + length path))
        × InPath s'
        × SameLine r r'
  scan-path [] k s r p i t h = (s, r, rw (zero-add, add-zero), i, ground arith)
  scan-path (c ∷ path) k s r p i t h =
      let (s', r', e, (i', same)) = Keeps-next (AfterPath r) (p + 1) _ (path-Keeps s r p c i t.0) in
      let (s'', r'', e', i'', same') = scan-path path k s' r' (p + 1) i' t.1 h.1 in
      let at : p + suc (length path) ≡ p + 1 + length path = omega arith in
      let left : suc (length path) + k ≡ suc (length path + k) = omega arith in
      (
        s'',
        r'',
        rw (at, left)
            (scan-byte machine mem (length path + k) s r p c h.0 (InPath-unfinished s i) e ∙ e'),
        i'',
        ground arith,
      )

  on_space-InPath :
      (s : State) (r : Request) (p : ℕ)
      → InPath s
      → step mem s r p b' ' ≡ next sw_http_09 (record r { uri_end = p })
  unfolding step on_after_slash_in_uri on_check_uri on_uri
  on_space-InPath sw_after_slash_in_uri r p i = refl
  on_space-InPath sw_check_uri r p i = refl
  on_space-InPath sw_uri r p i = refl
  on_space-InPath _ r p i = ground arith

  on_cr-InPath :
      (s : State) (r : Request) (p : ℕ)
      → InPath s
      → step mem s r p cr ≡ next sw_almost_done (record r { uri_end = p; http_minor = 9 })
  unfolding step on_after_slash_in_uri on_check_uri on_uri
  on_cr-InPath sw_after_slash_in_uri r p i = refl
  on_cr-InPath sw_check_uri r p i = refl
  on_cr-InPath sw_uri r p i = refl
  on_cr-InPath _ r p i = ground arith

  -- the end of the line directly behind the path
  pub scan-no_version :
      (s : State) (r : Request) (p : ℕ)
      → InPath s
      → Holds mem p (cr ∷ lf ∷ [])
      → scan machine mem 2 s r p
        ≡ stopped sw_done (record r { uri_end = p; http_minor = 9; request_end = p }) (p + 2)
  unfolding step
  scan-no_version s r p i h =
      let ended = record r { uri_end = p; http_minor = 9 } in
      scan-byte machine mem 1 s r p cr h.0 (InPath-unfinished s i) (on_cr-InPath s r p i)
      ∙ scan-byte machine mem 0 sw_almost_done ended (p + 1) lf h.1.0 refl refl
      ∙ scan-final machine mem 0 sw_done _ _ refl
      ∙ ground arith

  scan-http :
      (r : Request) (p minor : ℕ)
      → not_digit minor ≡ false
      → Holds mem p (codes "HTTP/1." ++ (minor ∷ cr ∷ lf ∷ []))
      → scan machine mem 10 sw_http_09 r p
        ≡ stopped sw_done
            (record r { http_major = 1; http_minor = minor - b'0'; request_end = p + 8 })
            (p + 10)
  unfolding step
  scan-http r p minor d (h₁, (h₂, (h₃, (h₄, (h₅, (h₆, (h₇, (h₈, (h₉, (h₁₀, _)))))))))) =
      let one = record r { http_major = 1 } in
      let both = record one { http_minor = minor - b'0' } in
      scan-byte machine mem 9 sw_http_09 r p b'H' h₁ refl refl
      ∙ scan-byte machine mem 8 sw_http_h r (p + 1) b'T' h₂ refl refl
      ∙ scan-byte machine mem 7 sw_http_ht r _ b'T' h₃ refl refl
      ∙ scan-byte machine mem 6 sw_http_htt r _ b'P' h₄ refl refl
      ∙ scan-byte machine mem 5 sw_http_http r _ b'/' h₅ refl refl
      ∙ scan-byte machine mem 4 sw_first_major_digit r _ b'1' h₆ refl refl
      ∙ scan-byte machine mem 3 sw_major_digit one _ b'.' h₇ refl refl
      ∙ scan-byte machine mem 2 sw_first_minor_digit one _ minor h₈ refl (ground arith)
      ∙ scan-byte machine mem 1 sw_minor_digit both _ cr h₉ refl refl
      ∙ scan-byte machine mem 0 sw_almost_done both _ lf h₁₀ refl refl
      ∙ scan-final machine mem 0 sw_done _ _ refl
      ∙ ground arith

  -- `r` is the request when the path ends: what the version text behind it makes of it
  pub scan-version :
      (s : State) (r : Request) (p minor : ℕ)
      → InPath s
      → not_digit minor ≡ false
      → Holds mem p (version_text minor)
      → scan machine mem 11 s r p
        ≡ stopped sw_done
            (record r {
              uri_end = p;
              http_major = 1;
              http_minor = minor - b'0';
              request_end = p + 9;
            })
            (p + 11)
  scan-version s r p minor i d h =
      scan-byte machine mem 10 s r p b' ' h.0 (InPath-unfinished s i) (on_space-InPath s r p i)
      ∙ scan-http (record r { uri_end = p }) (p + 1) minor d h.1
      ∙ ground arith

  -- the request in front of the path
  abbrev pub before_path : Request → ℕ → ℕ → Request
  before_path r p n = record r {
    request_start = p;
    method_end = p + n;
    method = recognise mem p (p + n) r.method;
    uri_start = p + n + 1;
  }

  -- the method's word, the space and the slash
  pub scan-head :
      (c : ℕ) (w : List ℕ) (k : ℕ) (r : Request) (p : ℕ)
      → All IsUpper (c ∷ w)
      → Holds mem p (c ∷ w)
      → mem (p + suc (length w)) ≡ b' '
      → mem (p + suc (length w) + 1) ≡ b'/'
      → scan machine mem (suc (length w + suc (suc k))) sw_start r p
        ≡ scan machine mem k sw_after_slash_in_uri
            (before_path r p (suc (length w)))
            (p + suc (length w) + 1 + 1)
  unfolding step on_start on_method on_spaces_before_uri
  scan-head c w k r p u h space slash =
      let n = suc (length w) in
      let begun = record r { request_start = p } in
      let named = record begun { method_end = p + n; method = recognise mem p (p + n) r.method } in
      let at : p + 1 + length w ≡ p + n = omega arith in
      scan-byte machine mem (length w + suc (suc k)) sw_start r p c h.0 refl (ground arith)
      ∙ scan-word w (suc (suc k)) begun (p + 1) u.1 h.1
      ∙ rw at (
          scan-byte machine mem (suc k) sw_method begun (p + n) b' ' space refl refl
          ∙ scan-byte machine mem k sw_spaces_before_uri named (p + n + 1) b'/' slash refl refl)
