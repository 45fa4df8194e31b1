-- ===== src/StaticFiles.antt =====
-- `ehd_http_handler` and `ehd_http_file_writer_handler` of http/ehd_http_core.c: what a request is
-- answered with. What `stat` finds, and the size of the file that is opened, are arguments.
pub mod Suffixes
pub mod Replies
mod Tests
use ehttpd.Prelude.{
  ℕ, zero, suc, ◌+◌, ◌-◌, ◌⊎◌, inl, inr, Bool, true, false, Option, none, some, List, [], ◌∷◌, ◌++◌,
  length, get_or, codes, ◌==◌, if◌then◌else◌,
}
use mathlib.Core.Option
use ehttpd.RequestLine.Method.{http_get}
use ehttpd.Request.{Memory, bytes}
use ehttpd.Strings.Decimal.{until_nul}
use ehttpd.ResponseHead.{
  Field, HeadersOut, Generated, Special, push_field, gen_header, special_response,
}

-- what `stat` finds: `S_ISDIR`, `S_ISREG`, or another kind
pub data Kind : Type 0 where
  directory regular other : Kind

abbrev pub mime : List Field
mime =
    record { key = codes "html"; value = codes "text/html" }
    ∷ record { key = codes "png"; value = codes "image/png" }
    ∷ record { key = codes "jpg"; value = codes "image/jpeg" }
    ∷ record { key = codes "js"; value = codes "application/javascript" }
    ∷ record { key = codes "ttf"; value = codes "font/ttf" }
    ∷ record { key = codes "otf"; value = codes "font/otf" }
    ∷ record { key = codes "svg"; value = codes "image/svg+xml" }
    ∷ record { key = codes "woff"; value = codes "font/woff" }
    ∷ record { key = codes "woff2"; value = codes "font/woff2" }
    ∷ record { key = codes "css"; value = codes "text/css" }
    ∷ []

-- the loop `for (j = len; j; j--)` for the first `j` bytes of a suffix, against those that end
-- before `stop`
unfoldable pub ends_in : Memory → (stop : ℕ) → List ℕ → ℕ → Bool
ends_in mem stop suffix zero = true
ends_in mem stop suffix (suc j) =
    let rest = ends_in mem stop suffix j in
    if get_or suffix j 0 == mem (stop + j - length suffix) then rest else false

-- the loop over `mime`
unfoldable pub find_type : Memory → (stop : ℕ) → List Field → Option (List ℕ)
find_type mem stop [] = none
find_type mem stop (m ∷ ms) =
    let rest = find_type mem stop ms in
    if ends_in mem stop m.key (length m.key) then some m.value else rest

-- an error, or a file by its name
pub data Choice : Type 0 where
  refuse : (code : ℕ) → Choice
  move_to : (location : List ℕ) → Choice
  give : (name : List ℕ) → Choice

-- the second `stat`, of the index of a directory
unfoldable pub on_index : (name : List ℕ) → Option Kind → Choice
on_index name none = refuse 403
on_index name (some k) = give name

-- `content_type` is pushed if it was found
unfoldable pub push_type : Option (List ℕ) → HeadersOut → HeadersOut
push_type none h = h
push_type (some t) h = push_field (codes "Content-Type") t h

-- `root` and `index` of the configuration, and `r->uri` at `uri` with `len` bytes
module _ (stat : List ℕ → Option Kind) (root index : List ℕ) (mem : Memory) (uri len : ℕ) where
  unfoldable pub on_stat : (name : List ℕ) → Option Kind → Choice
  on_stat name none = refuse 404
  on_stat name (some directory) =
      if mem (uri + len - 1) == b'/'
      then on_index (name ++ index) (stat (until_nul (name ++ index)))
      else move_to (bytes mem uri len ++ codes "/")
  on_stat name (some regular) = give name
  on_stat name (some other) = refuse 404

  unfoldable pub choose : Choice
  choose = let name = root ++ bytes mem uri len in on_stat name (stat (until_nul name))

  module _ (decimal : ℕ → List ℕ) (size : List ℕ → ℕ) where
    -- The answer: `inl` an error's, and `inr` a file's head and its name; `none` when the table of
    -- error pages is read outside.
    unfoldable pub answer : HeadersOut → Choice → Option (Special ⊎ (Generated × List ℕ))
    answer h (refuse code) = Option.map inl (special_response decimal code h)
    answer h (move_to location) =
        Option.map inl (special_response decimal 302 (push_field (codes "Location") location h))
    answer h (give name) =
        let typed = push_type (find_type mem (uri + len) mime) h in
        some (
          inr (
            gen_header decimal
                (record typed { status = 200; content_length_n = some (size (until_nul name)) }),
            name,
          ))

    unfoldable pub handler : (method : ℕ) → HeadersOut → Option (Special ⊎ (Generated × List ℕ))
    handler method h =
        if method == http_get
        then answer h choose
        else Option.map inl (special_response decimal 501 h)
