-- ===== src/ResponseHead/Bounds.antt =====
-- The head of a response stays within its buffer.
use ehttpd.Prelude.{
  ℕ, ◌+◌, ◌≤◌, ◌≡◌, inl, inr, true, List, [], ◌∷◌, ◌++◌, length, length-append, codes, arith,
  Bool-cases, ltb, ◌-◌,
}
use ehttpd.ResponseHead.{
  Field, HeadersOut, buf_size, crlf, has_room, put_value, put_field, put_fields, status_text,
  complete, gen_header,
}

abbrev Fits : List ℕ → Type 0
Fits text = length text ≤ buf_size

has_room-le :
    (text : List ℕ) (n : ℕ) → Fits text → has_room text n ≡ true → length text + n + 1 ≤ buf_size
unfolding has_room
has_room-le text n f e = ground arith

put_value-Fits : (text value : List ℕ) → Fits text → Fits (put_value text value)
unfolding put_value
put_value-Fits text value f = elim (Bool-cases (has_room text (length value + 2))) [
  | inl e ↦
      let room = has_room-le text (length value + 2) f e in
      rw e (omega (arith, length-append text (value ++ crlf), length-append value crlf))
  | inr e ↦ rw e f
]

put_field-Fits : (text : List ℕ) (f : Field) → Fits text → Fits (put_field text f)
unfolding put_field
put_field-Fits text f w = elim (Bool-cases (has_room text (length f.key + 2))) [
  | inl e ↦
      let room = has_room-le text (length f.key + 2) w e in
      rw e (
        put_value-Fits _ f.value (
          omega
            (arith, length-append text (f.key ++ codes ": "), length-append f.key (codes ": "))))
  | inr e ↦ rw e w
]

put_fields-Fits : (text : List ℕ) (fs : List Field) → Fits text → Fits (put_fields text fs)
unfolding put_fields
put_fields-Fits text [] w = w
put_fields-Fits text (f ∷ fs) w = put_fields-Fits (put_field text f) fs (put_field-Fits text f w)

-- Where the status line fits, whatever the headers are, `ehd_http_response_gen_header` writes no
-- byte behind the buffer's end.
pub gen_header-length :
    (decimal : ℕ → List ℕ) (h : HeadersOut)
    → length (status_text decimal h.status h.status_line) ≤ buf_size
    → length (gen_header decimal h).text ≤ buf_size
unfolding gen_header
gen_header-length decimal h w =
    let text =
      put_fields (status_text decimal h.status h.status_line) (complete decimal h).headers in
    let f : length text ≤ buf_size = put_fields-Fits _ (complete decimal h).headers w in
    elim (Bool-cases (ltb 1 (buf_size - length text))) [
      | inl e ↦
          let room : 2 ≤ buf_size - length text = ground arith in
          rw e (omega (arith, length-append text crlf))
      | inr e ↦ rw e f
    ]
