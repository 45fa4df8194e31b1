-- ===== src/HeaderLine/RoundTrip.antt =====
-- A header line as it is printed is read back: the parser finds the name and the value.
use native.Mathlib.Nat.{suc-add}
use ehttpd.Prelude.{
  ℕ, suc, ◌+◌, ◌-◌, ◌≡◌, ◌≢◌, refl, sym, ap, ◌∙◌, some, List, [], ◌∷◌, ◌++◌, length, length-append,
  All, codes, arith,
}
use ehttpd.Request.{Memory, Buf, Request, Parsed, ok, header_done, Holds, Holds-append, cr, lf}
use ehttpd.HeaderLine.{step, machine, after_scan, parse_from, parse_header_line}
use ehttpd.HeaderLine.Runs.{
  IsName, IsInLine, IsTrimmed, final_byte, scan-key, scan-value, scan-end, first-byte,
  value_state-text,
}
use ehttpd.HeaderLine.States.{
  sw_start, sw_space_before_value, sw_almost_done, sw_header_almost_done, sw_header_done, sw_done,
  to_uint, of_uint,
}
use ehttpd.ResponseHead.{Field, crlf}
use ehttpd.ResponseHead.Whole.{field_line}
use ehttpd.Scanner.{stopped, scan}
use ehttpd.Scanner.Resume.{scan-byte, scan-final, scan-add}

-- a header that can be sent: a name of the bytes that the parser takes for one, and a value in one
-- line with no space at either end
pub record IsField (f : Field) : Type 0 where
  pub named : f.key ≢ []
  pub name : All IsName f.key
  pub value : All IsInLine f.value
  pub trimmed : IsTrimmed f.value

-- where the line is read to, and where its parts are found
pub record ReadsLine (b : Buf) (f : Field) (d : Parsed) : Type 0 where
  pub accepted : d.code ≡ ok
  pub pos : d.buf.pos ≡ b.pos + length (field_line f)
  pub last : d.buf.last ≡ b.last
  pub reset : d.request.state ≡ 0
  pub name_start : d.request.header_name_start ≡ b.pos
  pub name_end : d.request.header_name_end ≡ b.pos + length f.key
  pub value_start : d.request.header_start ≡ b.pos + length f.key + 2
  pub value_end : d.request.header_end ≡ b.pos + length f.key + 2 + length f.value

pub length-field_line : (f : Field) → length (field_line f) ≡ length f.key + 2 + length f.value + 2
length-field_line f =
    omega (arith, length-append f.key (codes ": " ++ (f.value ++ crlf)), length-append f.value crlf)

-- what the machine leaves behind the line
record RunsTo (p : ℕ) (f : Field) (r' : Request) : Type 0 where
  name_start : r'.header_name_start ≡ p
  name_end : r'.header_name_end ≡ p + length f.key
  value_start : r'.header_start ≡ p + length f.key + 2
  value_end : r'.header_end ≡ p + length f.key + 2 + length f.value

module _ (mem : Memory) where
  -- the value, which may be empty, and the end of the line
  scan-rest :
      (v : List ℕ) (r : Request) (q : ℕ)
      → All IsInLine v
      → IsTrimmed v
      → Holds mem q (v ++ crlf)
      → (r' : Request) × (scan machine mem (length v + 2) sw_space_before_value r q
          ≡ stopped sw_done r' (q + length v + 2))
        × (r'.header_name_start ≡ r.header_name_start)
        × (r'.header_name_end ≡ r.header_name_end)
        × (r'.header_start ≡ q)
        × (r'.header_end ≡ q + length v)
  unfolding step
  scan-rest [] r q u t h =
      let at = record r { header_start = q; header_end = q } in
      (
        at,
        scan-byte machine mem 1 sw_space_before_value r q cr h.0 refl refl
            ∙ scan-byte machine mem 0 sw_almost_done at _ lf h.1.0 refl refl
            ∙ scan-final machine mem 0 sw_done at _ refl
            ∙ ground arith,
        refl,
        refl,
        refl,
        omega arith,
      )
  scan-rest (c ∷ v) r q u t h =
      let (hv, hend) = Holds-append mem q (c ∷ v) crlf h in
      let begun = record r { header_start = q } in
      let (r', e, same) = scan-value mem c v 2 begun (q + 1) u.1 hv.1 in
      let begins = value_state-text c t.0 in
      let ends = value_state-text (final_byte c v) t.1 in
      let at : q + 1 + length v ≡ q + suc (length v) = omega arith in
      (
        record r' { header_end = q + suc (length v) },
        rw suc-add (
            scan-byte machine mem (length v + 2) sw_space_before_value r q c hv.0 refl
              (first-byte mem r q c t.0 u.0)
            ∙ ap (λ a. scan machine mem (length v + 2) a begun (q + 1)) (sym begins)
            ∙ e
            ∙ rw (ends, at) (scan-end mem r' (q + suc (length v)) hend)),
        same.0,
        same.1,
        same.2,
        refl,
      )

  ReadsLine-after_scan :
      (f : Field) (r' : Request) (b : Buf)
      → RunsTo b.pos f r'
      → ReadsLine b f (after_scan b (stopped sw_done r' (b.pos + length (field_line f))))
  unfolding after_scan to_uint
  ReadsLine-after_scan f r' b h = record {
    accepted = refl;
    pos = refl;
    last = refl;
    reset = refl;
    name_start = h.name_start;
    name_end = h.name_end;
    value_start = h.value_start;
    value_end = h.value_end;
  }

  scan-field_line :
      (c : ℕ) (w v : List ℕ) (r : Request) (p : ℕ)
      → let f : Field = record { key = c ∷ w; value = v } in
        IsField f
        → Holds mem p (field_line f)
        → (r' : Request) × (scan machine mem (length (field_line f)) sw_start r p
            ≡ stopped sw_done r' (p + length (field_line f)))
          × RunsTo p f r'
  scan-field_line c w v r p g h =
      let f : Field = record { key = c ∷ w; value = v } in
      let n = suc (length w) in
      let (hk, hr) = Holds-append mem p (c ∷ w) (codes ": " ++ (v ++ crlf)) h in
      let named = record r { header_name_start = p; header_name_end = p + n } in
      let (r', run, name_start, name_end, value_start, value_end) =
        scan-rest v named (p + n + 1 + 1) g.value g.trimmed hr.1.1 in
      let fuel : length (field_line f) ≡ suc (length w + suc (suc (length v + 2))) =
        omega (arith, length-field_line f) in
      let at : p + n + 1 + 1 + length v + 2 ≡ p + length (field_line f) =
        omega (arith, length-field_line f) in
      (
        r',
        rw fuel (scan-key mem c w (length v + 2) r p g.name hk hr.0 hr.1.0 ∙ run)
            ∙ ap (λ q. stopped sw_done r' q) at,
        record {
          name_start = name_start;
          name_end = name_end;
          value_start = omega arith;
          value_end = omega arith;
        },
      )

  by_key :
      (key v : List ℕ) (n : ℕ) (r : Request) (b : Buf)
      → let f : Field = record { key = key; value = v } in
        IsField f
        → Holds mem b.pos (field_line f)
        → b.last ≡ b.pos + length (field_line f) + n
        → r.state ≡ 0
        → ReadsLine b f (parse_header_line mem r b)
  unfolding parse_header_line parse_from of_uint
  by_key [] v n r b g h l z = absurd (g.named refl)
  by_key (c ∷ w) v n r b g h l z =
      let f : Field = record { key = c ∷ w; value = v } in
      let size = length (field_line f) in
      let (r', run, to) = scan-field_line c w v r b.pos g h in
      let fuel : b.last - b.pos ≡ size + n = omega arith in
      let start : of_uint r.state ≡ some sw_start = ap of_uint z in
      rw (start, parse_from)
        (rw fuel (
          rw (scan-add machine mem size n sw_start r b.pos, run)
            (rw (scan-final machine mem n sw_done r' (b.pos + size) refl)
              (ReadsLine-after_scan f r' b to))))

  -- A header line `name: value` with CR LF, whose name is bytes that the parser takes for one, at
  -- least one, and whose value has no CR, no LF and no space at either end, is accepted by a
  -- request that starts afresh, whatever bytes follow it. It is read to its end, and name and
  -- value are found where they stand.
  pub parse_header_line-field_line :
      (f : Field) (n : ℕ) (r : Request) (b : Buf)
      → IsField f
      → Holds mem b.pos (field_line f)
      → b.last ≡ b.pos + length (field_line f) + n
      → r.state ≡ 0
      → ReadsLine b f (parse_header_line mem r b)
  parse_header_line-field_line f n r b g h l z = by_key f.key f.value n r b g h l z

  -- the empty line behind the header lines
  pub parse_header_line-crlf :
      (n : ℕ) (r : Request) (b : Buf)
      → Holds mem b.pos crlf
      → b.last ≡ b.pos + 2 + n
      → r.state ≡ 0
      → let d = parse_header_line mem r b in
        (d.code ≡ header_done) × (d.buf.pos ≡ b.pos + 2) × (d.request.state ≡ 0)
  unfolding parse_header_line parse_from of_uint step after_scan to_uint
  parse_header_line-crlf n r b h l z =
      let at = record r { header_end = b.pos } in
      let fuel : b.last - b.pos ≡ suc (suc n) = omega arith in
      let start : of_uint r.state ≡ some sw_start = ap of_uint z in
      let run =
        scan-byte machine mem (suc n) sw_start r b.pos cr h.0 refl refl
        ∙ scan-byte machine mem n sw_header_almost_done at (b.pos + 1) lf h.1.0 refl refl
        ∙ scan-final machine mem n sw_header_done at (b.pos + 1 + 1) refl in
      rw (start, parse_from) (rw fuel (rw run (refl, omega arith, refl)))
