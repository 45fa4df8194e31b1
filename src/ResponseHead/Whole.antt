-- ===== src/ResponseHead/Whole.antt =====
-- The head of a response that fits into its buffer.
use ehttpd.Prelude.{
  ℕ, ◌+◌, ◌≤◌, ◌≡◌, refl, sym, ap, ◌∙◌, true, List, [], ◌∷◌, ◌++◌, length, length-append, codes,
  arith, ltb, ◌-◌,
}
use mathlib.Core.List.{append_assoc, append-nil}
use ehttpd.ResponseHead.{
  Field, HeadersOut, buf_size, crlf, has_room, put_value, put_field, put_fields, status_text,
  complete, gen_header,
}

-- a header line as RFC 7230 writes it
abbrev pub field_line : Field → List ℕ
field_line f = f.key ++ (codes ": " ++ (f.value ++ crlf))

abbrev pub field_lines : List Field → List ℕ
field_lines [] = []
field_lines (f ∷ fs) = field_line f ++ field_lines fs

room_for : (text : List ℕ) (n : ℕ) → length text + n + 1 ≤ buf_size → has_room text n ≡ true
unfolding has_room
room_for text n h = ground arith

put_field-line :
    (text : List ℕ) (f : Field)
    → length text + length (field_line f) + 2 ≤ buf_size
    → put_field text f ≡ text ++ field_line f
unfolding put_field put_value
put_field-line text f h =
    let head = f.key ++ codes ": " in
    let tail = f.value ++ crlf in
    let long : length (field_line f) ≡ length f.key + 2 + (length f.value + 2) =
      omega (arith, length-append f.key (codes ": " ++ tail), length-append f.value crlf) in
    let first = room_for text (length f.key + 2) (omega arith) in
    let second =
      room_for (text ++ head) (length f.value + 2)
        (omega (arith, length-append text head, length-append f.key (codes ": "))) in
    rw (first, second)
      (append_assoc text head tail ∙ ap (λ l. text ++ l) (append_assoc f.key (codes ": ") tail))

put_fields-lines :
    (text : List ℕ) (fs : List Field)
    → length text + length (field_lines fs) + 2 ≤ buf_size
    → put_fields text fs ≡ text ++ field_lines fs
unfolding put_fields
put_fields-lines text [] h = sym (append-nil text)
put_fields-lines text (f ∷ fs) h =
    let long = length-append (field_line f) (field_lines fs) in
    let one = put_field-line text f (omega (arith, long)) in
    let more =
      put_fields-lines (text ++ field_line f) fs
        (omega (arith, long, length-append text (field_line f))) in
    ap (λ t. put_fields t fs) one ∙ (more ∙ append_assoc text (field_line f) (field_lines fs))

-- the status line and the header lines, in the order in which the headers were pushed
abbrev pub head_lines : (ℕ → List ℕ) → HeadersOut → List ℕ
head_lines decimal h =
    status_text decimal h.status h.status_line ++ field_lines (complete decimal h).headers

-- Where the status line, a line for each header and the empty line fit into the buffer together,
-- `ehd_http_response_gen_header` writes just these and returns EHD_OK.
pub gen_header-lines :
    (decimal : ℕ → List ℕ) (h : HeadersOut)
    → length (head_lines decimal h) + 2 ≤ buf_size
    → ((gen_header decimal h).text ≡ head_lines decimal h ++ crlf)
      × ((gen_header decimal h).ok ≡ true)
unfolding gen_header
gen_header-lines decimal h w =
    let status = status_text decimal h.status h.status_line in
    let lines = field_lines (complete decimal h).headers in
    let long = length-append status lines in
    let e = put_fields-lines status (complete decimal h).headers (omega (arith, long)) in
    let room : ltb 1 (buf_size - length (status ++ lines)) ≡ true = ground arith in
    (rw (e, room) refl, rw (e, room) refl)
