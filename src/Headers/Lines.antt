-- ===== src/Headers/Lines.antt =====
-- What is left by one header line, and by all of them and the empty line.
use mathlib.Core.Path.{subst}
use mathlib.Core.List.{append_assoc}
use ehttpd.Prelude.{
  ℕ, ◌+◌, ◌≤◌, ◌<◌, ◌≡◌, ◌≢◌, ap, ◌∙◌, List, [], ◌∷◌, ◌++◌, length, length-append, codes, arith,
}
use ehttpd.Request.{Memory, Holds, Holds-append}
use ehttpd.HeaderLine.RoundTrip.{length-field_line}
use ehttpd.Headers.{Session, block_read, terminated}
use ehttpd.Headers.Entries.{
  header_at, headers_at, Stored, IsString-join, terminated-other, terminated-key, terminated-value,
}
use ehttpd.ResponseHead.{Field, crlf}
use ehttpd.ResponseHead.Whole.{field_line, field_lines}

-- what is left behind the header line
pub record AfterLine (f : Field) (s s' : Session) : Type 0 where
  pub mem : s'.mem ≡ terminated (header_at s.buf.pos f) s.mem
  pub headers : s'.headers ≡ s.headers ++ (header_at s.buf.pos f ∷ [])
  pub pos : s'.buf.pos ≡ s.buf.pos + length (field_line f)
  pub last : s'.buf.last ≡ s.buf.last
  pub reset : s'.request.state ≡ 0
  pub closes : s'.closes ≡ s.closes

-- what is left of the session by all header lines and the empty line
pub record AllRead (fs : List Field) (s s' : Session) : Type 0 where
  pub headers : s'.headers ≡ s.headers ++ headers_at s.buf.pos fs
  pub stored : Stored s'.mem s.buf.pos fs
  pub below : (k : ℕ) → k < s.buf.pos → s'.mem k ≡ s.mem k
  pub pos : s'.buf.pos ≡ s.buf.pos + length (field_lines fs ++ crlf)
  pub reset : s'.request.state ≡ 0
  pub blocked : s'.read_handler ≡ block_read
  pub closes : s'.closes ≡ s.closes

-- the parts of the line in memory
Holds-parts :
    (mem : Memory) (p : ℕ) (f : Field)
    → Holds mem p (field_line f)
    → Holds mem p f.key × Holds mem (p + length f.key + 2) f.value
Holds-parts mem p f h =
    let (key, rest) = Holds-append mem p f.key (codes ": " ++ (f.value ++ crlf)) h in
    let at = p + length f.key + 1 + 1 in
    let two : p + length f.key + 2 ≡ at = omega arith in
    (key, rw two (Holds-append mem at f.value crlf rest.1.1).0)

-- a header line in front of those that have been read
module _ (f : Field) (fs : List Field) (s s' s'' : Session)
    (h : Holds s.mem s.buf.pos (field_line f)) (a : AfterLine f s s') (b : AllRead fs s' s'') where
  unchanged :
      (k : ℕ)
      → k < s.buf.pos + length (field_line f)
      → k ≢ s.buf.pos + length f.key
      → k ≢ s.buf.pos + length f.key + 2 + length f.value
      → s''.mem k ≡ s.mem k
  unchanged k l m n =
      let e = a.pos in
      b.below k (omega arith)
      ∙ ap (λ mem. mem k) a.mem
      ∙ terminated-other (header_at s.buf.pos f) s.mem k m n

  zero_at :
      (k : ℕ)
      → k < s.buf.pos + length (field_line f)
      → terminated (header_at s.buf.pos f) s.mem k ≡ 0
      → s''.mem k ≡ 0
  zero_at k l z = let e = a.pos in b.below k (omega arith) ∙ ap (λ mem. mem k) a.mem ∙ z

  stored-line : Stored s''.mem s.buf.pos (f ∷ fs)
  stored-line =
      let p = s.buf.pos in
      let entry = header_at p f in
      let long = length-field_line f in
      let (key, value) = Holds-parts s.mem p f h in
      (
        IsString-join s.mem s''.mem p f.key
            (λ k l m. unchanged k (omega arith) (λ e. omega arith) (λ e. omega arith))
            (zero_at _ (omega arith) (terminated-key entry s.mem)) key,
        IsString-join s.mem s''.mem (p + length f.key + 2) f.value
            (λ k l m. unchanged k (omega arith) (λ e. omega arith) (λ e. omega arith))
            (zero_at _ (omega arith) (terminated-value entry s.mem)) value,
        subst (λ q. Stored s''.mem q fs) a.pos b.stored,
      )

  headers-line : s''.headers ≡ s.headers ++ headers_at s.buf.pos (f ∷ fs)
  headers-line =
      let p = s.buf.pos in
      b.headers
      ∙ ap (λ q. s'.headers ++ headers_at q fs) a.pos
      ∙ ap (λ hs. hs ++ headers_at (p + length (field_line f)) fs) a.headers
      ∙ append_assoc s.headers (header_at p f ∷ []) (headers_at (p + length (field_line f)) fs)

  pub AllRead-line : AllRead (f ∷ fs) s s''
  AllRead-line =
      let long = length-field_line f in
      let e = a.pos in
      let e' = b.pos in
      record {
        headers = headers-line;
        stored = stored-line;
        below = λ k l. unchanged k (omega arith) (λ e. omega arith) (λ e. omega arith);
        pos = omega (
          arith,
          length-append (field_line f) (field_lines fs),
          length-append (field_lines (f ∷ fs)) crlf,
          length-append (field_lines fs) crlf,
        );
        reset = b.reset;
        blocked = b.blocked;
        closes = b.closes ∙ a.closes;
      }

pub length-field_lines : (fs : List Field) → length fs ≤ length (field_lines fs)
length-field_lines [] = omega arith
length-field_lines (f ∷ fs) =
    let more = length-field_lines fs in
    omega (arith, length-append (field_line f) (field_lines fs), length-field_line f)
