-- ===== src/ResponseHead/Answer.antt =====
-- The response of an error.
use ehttpd.Prelude.{
  ℕ, zero, suc, ◌≤◌, ◌≡◌, ◌⊎◌, refl, sym, ap, none, true, ◌∙◌, false, inl, inr, Bool-cases, Option,
  some, List, [], ◌∷◌, ◌++◌, length, length-append, codes, arith, ltb, ◌-◌,
}
use mathlib.Core.List.{append_assoc}
use mathlib.Core.Option
use mathlib.Core.Path.{subst}
use ehttpd.ResponseHead.{
  Field, HeadersOut, Special, buf_size, put_fields, status_text, push_unless, push_field,
  add_server, add_length, complete, gen_header, page_text, error_tail, sent_status, answer_with,
  special_response,
}
use ehttpd.ResponseHead.Pages.{
  IsErrorCode, page_for, error_page-page_for, starts, titled_with, StatusOf, sent_status-StatusOf,
  page_for-titled,
}

-- the headers of an error's response
abbrev pub error_fields : (ℕ → List ℕ) → ℕ → List Field
error_fields decimal n =
    record { key = codes "Content-Type"; value = codes "text/html" }
    ∷ record { key = codes "Server"; value = codes "ehttpd/0.0.1" }
    ∷ record { key = codes "Content-Length"; value = decimal n }
    ∷ []

-- a response with the headers `h` and these, and that body
pub record Replies (decimal : ℕ → List ℕ) (h : HeadersOut) (text : List ℕ) (code : ℕ) (s : Special)
    : Type 0 where
  pub body : s.body ≡ text
  pub status : s.head.headers_out.status ≡ code
  pub fields : s.head.headers_out.headers ≡ h.headers ++ error_fields decimal (length text)

-- the response to an error: the page of the code, or none, and the tail; the status; a page whose
-- title begins with that status
pub record Answers (decimal : ℕ → List ℕ) (h : HeadersOut) (error : ℕ) (s : Special) : Type 0 where
  pub body : s.body ≡ page_text (page_for error) ++ error_tail
  pub status : StatusOf error s.head.headers_out.status
  pub titled :
      (page_for error ≡ none) ⊎ (starts (titled_with s.head.headers_out.status) s.body ≡ true)
  pub fields : s.head.headers_out.headers ≡ h.headers ++ error_fields decimal (length s.body)

module _ (decimal : ℕ → List ℕ) where
  gen_header-complete : (h : HeadersOut) → (gen_header decimal h).headers_out ≡ complete decimal h
  unfolding gen_header
  gen_header-complete h =
      let text =
        put_fields (status_text decimal h.status h.status_line) (complete decimal h).headers in
      elim (Bool-cases (ltb 1 (buf_size - length text))) [ inl e ↦ rw e refl | inr e ↦ rw e refl ]

  -- what is pushed when neither header is there
  abbrev with_both : ℕ → HeadersOut → HeadersOut
  with_both n h =
      push_field (codes "Content-Length") (decimal n)
        (push_field (codes "Server") (codes "ehttpd/0.0.1") h)

  complete-both :
      (h : HeadersOut) (n : ℕ)
      → 1 ≤ n
      → h.has_server ≡ false
      → h.has_content_length ≡ false
      → h.content_length_n ≡ some n
      → complete decimal h ≡ with_both n h
  unfolding complete add_server add_length push_unless push_field
  complete-both h zero g e f l = absurd (omega (arith, g))
  complete-both h (suc n) g e f l =
      let server = push_field (codes "Server") (codes "ehttpd/0.0.1") h in
      ap
        (λ b.
          let v = push_unless b (codes "Server") (codes "ehttpd/0.0.1") h in
          add_length decimal v.content_length_n v)
        e
      ∙ (ap (λ m. add_length decimal m server) l
          ∙ ap (λ b. push_unless b (codes "Content-Length") (decimal (suc n)) server) f)

  both-headers :
      (n : ℕ) (h : HeadersOut) (ct : Field)
      → (with_both n (record h { headers = h.headers ++ (ct ∷ []) })).headers
        ≡ h.headers
          ++ (ct
              ∷ record { key = codes "Server"; value = codes "ehttpd/0.0.1" }
              ∷ record { key = codes "Content-Length"; value = decimal n }
              ∷ [])
  unfolding push_field
  both-headers n h ct =
      append_assoc (h.headers ++ (ct ∷ []))
        (record { key = codes "Server"; value = codes "ehttpd/0.0.1" } ∷ [])
        (record { key = codes "Content-Length"; value = decimal n } ∷ [])
      ∙ append_assoc h.headers (ct ∷ []) _

  answer_with-Replies :
      (error : ℕ) (h : HeadersOut) (p : Option ℕ)
      → h.has_server ≡ false
      → h.has_content_length ≡ false
      → Replies decimal h
          (page_text p ++ error_tail)
          (sent_status error)
          (answer_with decimal error h p)
  unfolding answer_with push_field
  answer_with-Replies error h p e f =
      let text = page_text p ++ error_tail in
      let some_text : 1 ≤ length text = omega (arith, length-append (page_text p) error_tail) in
      let typed = record (push_field (codes "Content-Type") (codes "text/html") h) {
        content_length_n = some (length text);
        status = sent_status error;
      } in
      let done = gen_header-complete typed ∙ complete-both typed (length text) some_text e f refl in
      record {
        body = refl;
        status = ap (λ o. o.status) done;
        fields =
            ap (λ o. o.headers) done
            ∙ both-headers (length text) h
                (record { key = codes "Content-Type"; value = codes "text/html" });
      }

-- For each code of the table `ehd_http_special_response_handler` reads its table within bounds and
-- answers with the page of that code, or none, and the tail for a body. The status is the code, but
-- 400 for 497 and 404 for 498, and the title of the page, if there is one, begins with that status.
-- Where neither a server nor a content length was set before, the type, the server and the length
-- of that body are the headers behind those there are.
pub special_response-Answers :
    (decimal : ℕ → List ℕ) (error : ℕ) (h : HeadersOut)
    → IsErrorCode error
    → h.has_server ≡ false
    → h.has_content_length ≡ false
    → (s : Special) × (special_response decimal error h ≡ some s) × Answers decimal h error s
unfolding special_response
special_response-Answers decimal error h c e f =
    let s = answer_with decimal error h (page_for error) in
    let r = answer_with-Replies decimal error h (page_for error) e f in
    (
      s,
      ap (λ o. Option.map (answer_with decimal error h) o) (error_page-page_for error c),
      record {
        body = r.body;
        status = subst (StatusOf error) (sym r.status) (sent_status-StatusOf error);
        titled = elim (page_for-titled error c) [
          | inl n ↦ inl n
          | inr t ↦ inr (
              ap (λ n. starts (titled_with n) s.body) r.status
              ∙ ap (starts (titled_with (sent_status error))) r.body
              ∙ t)
        ];
        fields = r.fields ∙ ap (λ b. h.headers ++ error_fields decimal (length b)) (sym r.body);
      },
    )
