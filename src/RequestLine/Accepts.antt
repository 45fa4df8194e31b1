-- ===== src/RequestLine/Accepts.antt =====
-- A well-formed HTTP/1.x request line in origin form is accepted, and its parts are found.
use ehttpd.Prelude.{
  some, ℕ, suc, ◌+◌, ◌-◌, ◌≡◌, ◌≢◌, refl, ap, ◌∙◌, inl, false, List, [], ◌∷◌, ◌++◌, length,
  length-append, All, arith,
}
use ehttpd.Request.{Memory, Buf, Request, Parsed, ok, Holds, Holds-append}
use ehttpd.RequestLine.{machine, finish, answer, after_scan, parse_from, parse_request_line}
use ehttpd.RequestLine.Method.{recognise}
use ehttpd.RequestLine.States.{sw_start, sw_after_slash_in_uri, sw_done, to_uint, of_uint}
use ehttpd.RequestLine.Version.{not_digit}
use ehttpd.Scanner.{stopped, scan}
use ehttpd.Scanner.Resume.{scan-final, scan-add}
use ehttpd.RequestLine.Runs.{
  IsUpper, IsTarget, version_text, request_line, SameLine, before_path, scan-path, scan-version,
  scan-head,
}

module _ (mem : Memory) where
  -- what is found
  pub record Found (r : Request) (p : ℕ) (word path : List ℕ) (minor : ℕ) (d : Parsed)
      : Type 0 where
    pub accepted : d.code ≡ ok
    pub read : d.buf.pos ≡ p + length (request_line word path minor)
    pub reset : d.request.state ≡ 0
    pub request_start : d.request.request_start ≡ p
    pub method_end : d.request.method_end ≡ p + length word
    pub method : d.request.method ≡ recognise mem p (p + length word) r.method
    pub uri_start : d.request.uri_start ≡ p + length word + 1
    pub uri_end : d.request.uri_end ≡ p + length word + 2 + length path
    pub request_end : d.request.request_end ≡ d.request.uri_end + 9
    pub http_major : d.request.http_major ≡ 1
    pub http_minor : d.request.http_minor ≡ minor - b'0'
    pub http_version : d.request.http_version ≡ 1001

  length-request_line :
      (word path : List ℕ) (minor : ℕ)
      → length (request_line word path minor) ≡ length word + 2 + length path + 11
  length-request_line word path minor = omega (
    arith,
    length-append word (b' ' ∷ b'/' ∷ (path ++ version_text minor)),
    length-append path (version_text minor),
  )

  Found-after_scan :
      (r : Request) (p : ℕ) (word path : List ℕ) (minor : ℕ) (r' : Request) (b : Buf)
      → SameLine mem (before_path mem r p (length word)) r'
      → Found r p word path minor (
          after_scan b (
            stopped sw_done
              (record r' {
                uri_end = p + length word + 2 + length path;
                http_major = 1;
                http_minor = minor - b'0';
                request_end = p + length word + 2 + length path + 9;
              })
              (p + length (request_line word path minor))))
  unfolding after_scan finish answer to_uint
  Found-after_scan r p word path minor r' b same = ground arith

  scan-request_line :
      (c : ℕ) (w path : List ℕ) (minor : ℕ) (r : Request) (p : ℕ)
      → All IsUpper (c ∷ w)
      → All IsTarget path
      → not_digit minor ≡ false
      → Holds mem p (request_line (c ∷ w) path minor)
      → (r' : Request) × SameLine mem (before_path mem r p (suc (length w))) r'
        × (scan machine mem (length (request_line (c ∷ w) path minor)) sw_start r p
            ≡ stopped sw_done
                (record r' {
                  uri_end = p + suc (length w) + 2 + length path;
                  http_major = 1;
                  http_minor = minor - b'0';
                  request_end = p + suc (length w) + 2 + length path + 9;
                })
                (p + length (request_line (c ∷ w) path minor)))
  scan-request_line c w path minor r p u t d h =
      let n = suc (length w) in
      let (hw, hr) = Holds-append mem p (c ∷ w) (b' ' ∷ b'/' ∷ (path ++ version_text minor)) h in
      let (hp, hv) = Holds-append mem (p + n + 1 + 1) path (version_text minor) hr.1.1 in
      let (s', r', run, i, same) =
        scan-path mem path 11 sw_after_slash_in_uri (before_path mem r p n) (p + n + 1 + 1)
          (inl refl) t hp in
      let fuel : length (request_line (c ∷ w) path minor)
          ≡ suc (length w + suc (suc (length path + 11))) =
        omega (arith, length-request_line (c ∷ w) path minor) in
      (
        r',
        same,
        rw fuel (
            scan-head mem c w (length path + 11) r p u hw hr.0 hr.1.0
            ∙ run
            ∙ scan-version mem s' r' (p + n + 1 + 1 + length path) minor i d hv
            ∙ ground arith),
      )

  -- A request line `WORD /path HTTP/1.x` with CR LF, whose word is capital letters, at least one,
  -- and whose path has no space, CR or LF, is accepted by a request that starts afresh, whatever
  -- bytes follow it in the buffer. It is read to its end, and every part is found where it stands.
  pub parse_request_line-request_line :
      (word path : List ℕ) (minor n : ℕ) (r : Request) (b : Buf)
      → word ≢ []
      → All IsUpper word
      → All IsTarget path
      → not_digit minor ≡ false
      → Holds mem b.pos (request_line word path minor)
      → b.last ≡ b.pos + length (request_line word path minor) + n
      → r.state ≡ 0
      → Found r b.pos word path minor (parse_request_line mem r b)
  unfolding parse_request_line parse_from of_uint
  parse_request_line-request_line [] path minor n r b ne u t d h l z = absurd (ne refl)
  parse_request_line-request_line (c ∷ w) path minor n r b ne u t d h l z =
      let size = length (request_line (c ∷ w) path minor) in
      let (r', same, run) = scan-request_line c w path minor r b.pos u t d h in
      let fuel : b.last - b.pos ≡ size + n = omega arith in
      let start : of_uint r.state ≡ some sw_start = ap of_uint z in
      rw (start, parse_from)
        (rw fuel (
          rw (scan-add machine mem size n sw_start r b.pos, run)
            (rw (scan-final machine mem n sw_done _ (b.pos + size) refl)
              (Found-after_scan r b.pos (c ∷ w) path minor r' b same))))
