-- ===== src/RequestLine/NoVersion.antt =====
-- A request line without a version, a simple request of HTTP/0.9, is accepted with any method.
use ehttpd.Prelude.{
  some, ℕ, suc, ◌+◌, ◌-◌, ◌≡◌, ◌≢◌, refl, ap, ◌∙◌, inl, List, [], ◌∷◌, ◌++◌, length, length-append,
  All, arith,
}
use ehttpd.Request.{Memory, Buf, Request, Parsed, ok, Holds, Holds-append, cr, lf}
use ehttpd.RequestLine.{machine, finish, answer, after_scan, parse_from, parse_request_line}
use ehttpd.RequestLine.Method.{recognise}
use ehttpd.RequestLine.Runs.{
  IsUpper, IsTarget, SameLine, before_path, scan-path, scan-no_version, scan-head,
}
use ehttpd.RequestLine.States.{sw_start, sw_after_slash_in_uri, sw_done, to_uint, of_uint}
use ehttpd.Scanner.{stopped, scan}
use ehttpd.Scanner.Resume.{scan-final, scan-add}

-- `METHOD /path CR LF`
abbrev pub simple_line : List ℕ → List ℕ → List ℕ
simple_line word path = word ++ (b' ' ∷ b'/' ∷ (path ++ (cr ∷ lf ∷ [])))

length-simple_line :
    (word path : List ℕ) → length (simple_line word path) ≡ length word + 2 + length path + 2
length-simple_line word path = omega (
  arith,
  length-append word (b' ' ∷ b'/' ∷ (path ++ (cr ∷ lf ∷ []))),
  length-append path (cr ∷ lf ∷ []),
)

module _ (mem : Memory) where
  -- what is found
  pub record SimpleFound (r : Request) (p : ℕ) (word path : List ℕ) (d : Parsed) : Type 0 where
    pub accepted : d.code ≡ ok
    pub read : d.buf.pos ≡ p + length (simple_line word path)
    pub reset : d.request.state ≡ 0
    pub method : d.request.method ≡ recognise mem p (p + length word) r.method
    pub http_version : d.request.http_version ≡ 0
    pub uri_start : d.request.uri_start ≡ p + length word + 1
    pub uri_end : d.request.uri_end ≡ p + length word + 2 + length path
    pub request_end : d.request.request_end ≡ d.request.uri_end

  SimpleFound-after_scan :
      (r : Request) (p : ℕ) (word path : List ℕ) (r' : Request) (b : Buf)
      → r.http_major ≡ 0
      → SameLine mem (before_path mem r p (length word)) r'
      → SimpleFound r p word path (
          after_scan b (
            stopped sw_done
              (record r' {
                uri_end = p + length word + 2 + length path;
                http_minor = 9;
                request_end = p + length word + 2 + length path;
              })
              (p + length (simple_line word path))))
  unfolding after_scan finish answer to_uint
  SimpleFound-after_scan r p word path r' b z same = ground arith

  scan-simple_line :
      (c : ℕ) (w path : List ℕ) (r : Request) (p : ℕ)
      → All IsUpper (c ∷ w)
      → All IsTarget path
      → Holds mem p (simple_line (c ∷ w) path)
      → (r' : Request) × SameLine mem (before_path mem r p (suc (length w))) r'
        × (scan machine mem (length (simple_line (c ∷ w) path)) sw_start r p
            ≡ stopped sw_done
                (record r' {
                  uri_end = p + suc (length w) + 2 + length path;
                  http_minor = 9;
                  request_end = p + suc (length w) + 2 + length path;
                })
                (p + length (simple_line (c ∷ w) path)))
  scan-simple_line c w path r p u t h =
      let n = suc (length w) in
      let ends = cr ∷ lf ∷ [] in
      let (hw, hr) = Holds-append mem p (c ∷ w) (b' ' ∷ b'/' ∷ (path ++ ends)) h in
      let (hp, he) = Holds-append mem (p + n + 1 + 1) path ends hr.1.1 in
      let (s', r', run, i, same) =
        scan-path mem path 2 sw_after_slash_in_uri (before_path mem r p n) (p + n + 1 + 1)
          (inl refl) t hp in
      let fuel : length (simple_line (c ∷ w) path) ≡ suc (length w + suc (suc (length path + 2))) =
        omega (arith, length-simple_line (c ∷ w) path) in
      (
        r',
        same,
        rw fuel (
            scan-head mem c w (length path + 2) r p u hw hr.0 hr.1.0
            ∙ run
            ∙ scan-no_version mem s' r' (p + n + 1 + 1 + length path) i he
            ∙ ground arith),
      )

  -- A request line `WORD /path` with CR LF and no version, whose word is capital letters, at least
  -- one, and whose path has no space, CR or LF, is accepted by a request that starts afresh, whatever
  -- the word is: it is read to its end with version 0, the target is found where it stands, and the
  -- method is what the word is recognised as.
  pub parse_request_line-simple_line :
      (word path : List ℕ) (n : ℕ) (r : Request) (b : Buf)
      → word ≢ []
      → All IsUpper word
      → All IsTarget path
      → Holds mem b.pos (simple_line word path)
      → b.last ≡ b.pos + length (simple_line word path) + n
      → r.state ≡ 0
      → r.http_major ≡ 0
      → SimpleFound r b.pos word path (parse_request_line mem r b)
  unfolding parse_request_line parse_from of_uint
  parse_request_line-simple_line [] path n r b ne u t h l z m = absurd (ne refl)
  parse_request_line-simple_line (c ∷ w) path n r b ne u t h l z m =
      let size = length (simple_line (c ∷ w) path) in
      let (r', same, run) = scan-simple_line c w path r b.pos u t h in
      let fuel : b.last - b.pos ≡ size + n = omega arith in
      let start : of_uint r.state ≡ some sw_start = ap of_uint z in
      rw (start, parse_from)
        (rw fuel (
          rw (scan-add machine mem size n sw_start r b.pos, run)
            (rw (scan-final machine mem n sw_done _ (b.pos + size) refl)
              (SimpleFound-after_scan r b.pos (c ∷ w) path r' b m same))))
