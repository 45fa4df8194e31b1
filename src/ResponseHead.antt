-- ===== src/ResponseHead.antt =====
-- `ehd_http_response_gen_header` and `ehd_http_special_response_handler` of http/ehd_http_core.c:
-- the head of a response, and the pages of errors.
pub mod Bounds
pub mod Whole
pub mod Pages
pub mod Answer
mod Tests
use ehttpd.Prelude.{
  ℕ, zero, suc, ◌+◌, ◌-◌, Bool, true, false, not, Option, none, some, List, [], ◌∷◌, ◌++◌, ◌&&◌,
  ◌||◌, ltb, length, codes, get_elem?, ◌==◌, if◌then◌else◌,
}
use mathlib.Core.Option
use ehttpd.Request.{cr, lf}

-- `ehd_table_data_t` of a header
pub record Field : Type 0 where
  pub key : List ℕ
  pub value : List ℕ

-- `ehd_http_headers_out_t`: whether `server` and `content_length` are set, `content_length_n` with
-- `none` for -1, the place of `content_type` in the list, and the list
pub record HeadersOut : Type 0 where
  pub status : ℕ
  pub status_line : Option (List ℕ)
  pub has_server : Bool
  pub has_content_length : Bool
  pub content_length_n : Option ℕ
  pub content_type : Option ℕ
  pub headers : List Field

abbrev pub buf_size : ℕ
buf_size = 8192

-- what is between `buf->start` and `buf->last`, what is returned (`ok` is `false` where the function
-- ends without a value), and `r->headers_out`
pub record Generated : Type 0 where
  pub text : List ℕ
  pub ok : Bool
  pub headers_out : HeadersOut

-- `buf->end - buf->last > n`, which a `last` behind the end makes true: the difference is unsigned
unfoldable pub has_room : List ℕ → ℕ → Bool
has_room text n = ltb buf_size (length text) || ltb n (buf_size - length text)

abbrev pub crlf : List ℕ
crlf = cr ∷ lf ∷ []

-- `ehd_list_push` and what is stored; `h->content_type` is made to point there
unfoldable pub push_field : List ℕ → List ℕ → HeadersOut → HeadersOut
push_field key value h = record h {
  headers = h.headers ++ (record { key = key; value = value } ∷ []);
  content_type = some (length h.headers);
}

-- the same if the header is not there yet
unfoldable pub push_unless : Bool → List ℕ → List ℕ → HeadersOut → HeadersOut
push_unless true key value h = h
push_unless false key value h = push_field key value h

unfoldable pub add_server : HeadersOut → HeadersOut
add_server h = push_unless h.has_server (codes "Server") (codes "ehttpd/0.0.1") h

-- the second `memcpy` and CRLF, if the value has room
unfoldable pub put_value : List ℕ → List ℕ → List ℕ
put_value text value = if has_room text (length value + 2) then text ++ (value ++ crlf) else text

-- the body of the loop over the headers
unfoldable pub put_field : List ℕ → Field → List ℕ
put_field text f =
    if has_room text (length f.key + 2)
    then put_value (text ++ (f.key ++ codes ": ")) f.value
    else text

unfoldable pub put_fields : List ℕ → List Field → List ℕ
put_fields text [] = text
put_fields text (f ∷ fs) = put_fields (put_field text f) fs

-- `decimal` is what `%d` and `%ld` of the C library write.
module _ (decimal : ℕ → List ℕ) where
  -- the first `snprintf`; a line longer than the buffer is told as if it were written
  unfoldable pub status_text : ℕ → Option (List ℕ) → List ℕ
  status_text n none = codes "HTTP/1.1 " ++ (decimal n ++ crlf)
  status_text n (some line) = codes "HTTP/1.1 " ++ (decimal n ++ (codes " " ++ (line ++ crlf)))

  unfoldable pub add_length : Option ℕ → HeadersOut → HeadersOut
  add_length none h = h
  add_length (some zero) h = h
  add_length (some (suc n)) h =
      push_unless h.has_content_length (codes "Content-Length") (decimal (suc n)) h

  -- the list of headers as the loop finds it
  unfoldable pub complete : HeadersOut → HeadersOut
  complete h = let h' = add_server h in add_length h'.content_length_n h'

  unfoldable pub gen_header : HeadersOut → Generated
  gen_header h =
      let h' = complete h in
      let text = put_fields (status_text h.status h.status_line) h'.headers in
      if ltb 1 (buf_size - length text)
      then record { text = text ++ crlf; ok = true; headers_out = h' }
      else record { text = text; ok = false; headers_out = h' }

-- `error_pages`: the code that each page is for, with `none` for `ehd_null_string`
abbrev pub error_pages : List (Option ℕ)
error_pages =
    some 301
    ∷ some 302
    ∷ none
    ∷ some 400
    ∷ none
    ∷ none
    ∷ some 403
    ∷ some 404
    ∷ some 405
    ∷ none
    ∷ none
    ∷ some 408
    ∷ none
    ∷ none
    ∷ none
    ∷ none
    ∷ some 413
    ∷ some 414
    ∷ none
    ∷ some 416
    ∷ some 497
    ∷ some 404
    ∷ none
    ∷ some 500
    ∷ some 501
    ∷ some 502
    ∷ some 503
    ∷ some 504
    ∷ []

-- `err`; `none` when it is negative
unfoldable pub page_index : ℕ → Option ℕ
page_index error =
    if ltb error 301
    then none
    else if ltb error 400
    then some (error - 301)
    else if ltb error 497
    then some (error - 400 + 3)
    else some (error - 497 + 3 + 17)

-- the status that is sent, behind the `switch`
unfoldable pub sent_status : ℕ → ℕ
sent_status error = if error == 497 then 400 else if error == 498 then 404 else error

-- the page, `none` when `error_pages` is read outside
unfoldable pub error_page : ℕ → Option (Option ℕ)
error_page error = elim (page_index error) [ none ↦ none | some i ↦ get_elem? error_pages i ]

-- a page: its title, and what stands in its body
abbrev pub page : List ℕ → List ℕ → List ℕ
page title body =
    codes "<html>"
    ++ (crlf
        ++ (codes "<head><title>"
            ++ (title
                ++ (codes "</title></head>"
                    ++ (crlf ++ (codes "<body bgcolor=\"white\">" ++ (crlf ++ (body ++ crlf))))))))

abbrev pub centred : List ℕ → List ℕ
centred text = codes "<center><h1>" ++ (text ++ codes "</h1></center>")

abbrev pub titled : List ℕ → List ℕ
titled text = page text (centred text)

-- the pages by their codes
abbrev pub page_texts : List (ℕ × List ℕ)
page_texts =
    (301, titled (codes "301 Moved Permanently"))
    ∷ (302, titled (codes "302 Found"))
    ∷ (400, titled (codes "400 Bad Request"))
    ∷ (403, titled (codes "403 Forbidden"))
    ∷ (404, titled (codes "404 Not Found"))
    ∷ (405, titled (codes "405 Not Allowed"))
    ∷ (408, titled (codes "408 Request Time-out"))
    ∷ (413, titled (codes "413 Request Entity Too Large"))
    ∷ (414, titled (codes "414 Request-URI Too Large"))
    ∷ (416, titled (codes "416 Requested Range Not Satisfiable"))
    ∷ (
      497,
      page (codes "400 The plain HTTP request was sent to HTTPS port") (
          centred (codes "400 Bad Request")
          ++ (crlf ++ codes "<center>The plain HTTP request was sent to HTTPS port</center>")),
    )
    ∷ (500, titled (codes "500 Internal Server Error"))
    ∷ (
      501,
      page (codes "501 Method Not Implemented") (centred (codes "500 Method Not Implemented")),
    )
    ∷ (502, titled (codes "502 Bad Gateway"))
    ∷ (503, titled (codes "503 Service Temporarily Unavailable"))
    ∷ (504, titled (codes "504 Gateway Time-out"))
    ∷ []

abbrev pub text_in : List (ℕ × List ℕ) → ℕ → List ℕ
text_in [] c = []
text_in ((d, text) ∷ ps) c = if c == d then text else text_in ps c

abbrev pub page_text : Option ℕ → List ℕ
page_text none = []
page_text (some c) = text_in page_texts c

abbrev pub error_tail : List ℕ
error_tail =
    codes "<hr><center>ehttpd/0.0.1</center>"
    ++ (crlf ++ (codes "</body>" ++ (crlf ++ (codes "</html>" ++ crlf))))

-- the body and the head of an error's response
pub record Special : Type 0 where
  pub body : List ℕ
  pub head : Generated

unfoldable pub answer_with : (ℕ → List ℕ) → (error : ℕ) → HeadersOut → (page : Option ℕ) → Special
answer_with decimal error h p =
    let body = page_text p ++ error_tail in
    let typed = push_field (codes "Content-Type") (codes "text/html") h in
    record {
      body = body;
      head =
          gen_header decimal
            (record typed { content_length_n = some (length body); status = sent_status error });
    }

-- `ehd_http_special_response_handler`, up to the call of the writer; `none` when `error_pages` is
-- read outside
unfoldable pub special_response : (ℕ → List ℕ) → (error : ℕ) → HeadersOut → Option Special
special_response decimal error h = Option.map (answer_with decimal error h) (error_page error)
