-- ===== src/SetUp/Begins.antt =====
-- From the set-up to the end of a request's head, on a new connection and behind a request.
use ehttpd.Prelude.{
  ℕ, ◌+◌, ◌-◌, ◌≤◌, ◌≡◌, ◌≢◌, ◌⊎◌, refl, ap, sym, inl, inr, Bool, true, false, ◌&&◌, ◌||◌, Option,
  none, some, List, ◌==◌, Bool-cases, arith,
}
use mathlib.Core.Option
use mathlib.Core.Bool.{true≢false}
use mathlib.Core.Path.{subst}
use ehttpd.Request.{null, Buf, bytes}
use ehttpd.RequestLine.States.{sw_start, of_uint}
use ehttpd.Socket.{Answer, Event}
use ehttpd.KeepAlive.{Connection, keep_alive}
use ehttpd.KeepAlive.Moved.{keep_alive-Waits}
use ehttpd.LineHandler.{Allocation}
use ehttpd.LineHandler.Ends.{Waits}
use ehttpd.LineHandler.Whole.{Ends, read_head-Ends}
use ehttpd.SetUp.{
  Client, Resource, for_http, for_request, for_buf, for_pool, for_list, default_buf_size,
  create_temp_buf, Begun, closes_connection, closes_both, begins, new_line, connection_buf, on_buf,
  init_request, Served, not_begun, begun, on_begun, serve_request,
}

new_line-Waits : (c : Client) (b : Buf) → b.pos ≤ b.last → Waits b.pos (new_line c b).session
unfolding new_line of_uint
new_line-Waits c b le = record {
  ready = record {
    state = sw_start;
    stored = refl;
    unfinished = refl;
    inv = omega arith;
    bounded = le;
  };
  begins = refl;
}

-- a buffer in order, if there is one
abbrev pub InOrder : Option Buf → Type 0
InOrder none = Unit
InOrder (some b) = b.pos ≤ b.last

both-false : (a b : Bool) → (a || b) ≡ false → (a ≡ false) × (b ≡ false)
both-false true b e = absurd (true≢false e)
both-false false b e = (refl, e)

module _ (ok : Resource → Bool) (block : ℕ) where
  -- the buffer that was there, or a new one, of 4096 bytes with none in it
  abbrev pub BufOf : Option Buf → Buf → Type 0
  BufOf o b =
      (o ≡ some b)
      ⊎ ((o ≡ none)
          × (ok for_buf ≡ true)
          × (block ≢ null)
          × (b ≡ record { pos = block; last = block; start = block; end = block + 4096 }))

  -- what is missing in front of the request's list of headers
  abbrev pub Lacks : Client → Type 0
  Lacks c =
      ((c.has_http ≡ false) × (ok for_http ≡ false))
      ⊎ (((c.has_http && c.has_request) ≡ false) × (ok for_request ≡ false))
      ⊎ ((c.buf ≡ none) × ((ok for_buf ≡ false) ⊎ (block ≡ null)))
      ⊎ (ok for_pool ≡ false)

  -- nothing is
  abbrev pub HasAll : Client → Type 0
  HasAll c =
      ((c.has_http || ok for_http) ≡ true)
      × (((c.has_http && c.has_request) || ok for_request) ≡ true)
      × (ok for_pool ≡ true)
      × (ok for_list ≡ true)

  connection_buf-BufOf :
      (o : Option Buf)
      → InOrder o
      → ((b : Buf) × (connection_buf ok block o ≡ some b) × BufOf o b × (b.pos ≤ b.last))
        ⊎ ((connection_buf ok block o ≡ none)
            × (o ≡ none)
            × ((ok for_buf ≡ false) ⊎ (block ≡ null)))
  unfolding connection_buf create_temp_buf
  connection_buf-BufOf (some b) h = inl (b, refl, inl refl, h)
  connection_buf-BufOf none h = elim (Bool-cases (ok for_buf)) [
    | inr e ↦ inr (rw e refl, refl, inl e)
    | inl e ↦ elim (Bool-cases (block == null)) [
      | inl z ↦ inr (rw (e, z) refl, refl, inr (ground arith))
      | inr z ↦ inl (
        record { pos = block; last = block; start = block; end = block + default_buf_size },
        rw (e, z) refl,
        inr (refl, e, (λ q. ground arith), refl),
        omega arith,
      )
    ]
  ]

  -- what the set-up leaves
  abbrev Sets : Client → Begun → Type 0
  Sets c (begins l) = HasAll c × ((b : Buf) × BufOf c.buf b × (l ≡ new_line c b) × (b.pos ≤ b.last))
  Sets c closes_connection = Lacks c
  Sets c closes_both = (ok for_pool ≡ true) × (ok for_list ≡ false)

  on_buf-Sets :
      (c : Client)
      → InOrder c.buf
      → (c.has_http || ok for_http) ≡ true
      → ((c.has_http && c.has_request) || ok for_request) ≡ true
      → Sets c (on_buf ok block c (connection_buf ok block c.buf))
  unfolding on_buf
  on_buf-Sets c h e f = elim (connection_buf-BufOf c.buf h) [
    | inr (q, r, t) ↦ rw q (inr (inr (inl (r, t))))
    | inl (b, q, of, le) ↦ rw q (elim (Bool-cases (ok for_pool)) [
      | inr p ↦ rw p (inr (inr (inr p)))
      | inl p ↦ elim (Bool-cases (ok for_list)) [
        | inr l ↦ rw (p, l) (p, l)
        | inl l ↦ rw (p, l) ((e, f, p, l), (b, of, refl, le))
      ]
    ])
  ]

  init_request-Sets : (c : Client) → InOrder c.buf → Sets c (init_request ok block c)
  unfolding init_request
  init_request-Sets c h = elim (Bool-cases (c.has_http || ok for_http)) [
    | inr e ↦ rw e (inl (both-false (c.has_http) (ok for_http) e))
    | inl e ↦ elim (Bool-cases ((c.has_http && c.has_request) || ok for_request)) [
      | inr f ↦ rw (e, f) (inr (inl (both-false (c.has_http && c.has_request) (ok for_request) f)))
      | inl f ↦ rw (e, f) (on_buf-Sets c h e f)
    ]
  ]

-- the connection as `ehd_http_keep_alive` leaves it, at the next event
abbrev pub next_client : Connection → Event → List Answer → List ℕ → Client
next_client c ev answers incoming = record {
  mem = c.mem;
  buf = some c.buf;
  event = ev;
  answers = answers;
  incoming = incoming;
  has_http = true;
  has_request = c.has_request;
}

module _ (ok : Resource → Bool) (block : ℕ) (pool_ok : Allocation → Bool)
    (strcasecmp : List ℕ → List ℕ → Bool) (list_push array_push : ℕ → Bool) where
  -- The connection was closed since something is missing in front of the list of headers, or the
  -- request's pool was destroyed, too, since only that list is; or nothing is missing and the head
  -- ends in one of the ways of the two handlers, for the connection's buffer or a new one.
  abbrev pub Serves : Client → Served → Type 0
  Serves c (not_begun false) = Lacks ok block c
  Serves c (not_begun true) = (ok for_pool ≡ true) × (ok for_list ≡ false)
  Serves c (begun o) =
      HasAll ok block c
      × ((b : Buf) × BufOf ok block c.buf b
          × Ends pool_ok strcasecmp list_push array_push b.pos 0 o)

  on_begun-Serves :
      (c : Client) (g : Begun)
      → Sets ok block c g
      → (s : Served) × (on_begun ok block pool_ok strcasecmp list_push array_push g ≡ some s)
        × Serves c s
  unfolding on_begun new_line
  on_begun-Serves c closes_connection r = (not_begun false, refl, r)
  on_begun-Serves c closes_both r = (not_begun true, refl, r)
  on_begun-Serves c (begins l) (all, (b, e, f, le)) =
      let w : Waits b.pos l.session =
        subst (λ m. Waits b.pos m.session) (sym f) (new_line-Waits c b le) in
      let (o, q, k) = read_head-Ends pool_ok strcasecmp list_push array_push b.pos l w in
      (
        begun o,
        ap (λ r. Option.map begun r) q,
        (
          all,
          (
            b,
            e,
            subst (λ m. Ends pool_ok strcasecmp list_push array_push b.pos m o)
                (ap (λ m. m.session.closes) f) k,
          ),
        ),
      )

  -- For a connection with no buffer yet, or with one whose pointers are in order, a call of
  -- `ehd_http_init_request` returns, whatever `recv` answers. Where the `ehd_http_connection_t`, the
  -- request or the buffer is needed and not allocated, or there is no pool for the request, the
  -- connection is closed; where only the list of headers fails the pool is destroyed, too. Otherwise
  -- all of them are there, and the head of a request is read, into the connection's buffer or a new
  -- one of 4096 bytes, to one of the ends of the two handlers.
  pub serve_request-Serves :
      (c : Client)
      → InOrder c.buf
      → (s : Served) × (serve_request ok block pool_ok strcasecmp list_push array_push c ≡ some s)
        × Serves c s
  unfolding serve_request
  serve_request-Serves c h = on_begun-Serves c _ (init_request-Sets ok block c h)

  -- Behind `ehd_http_keep_alive`, on a connection whose pointers are in order, the bytes that came
  -- behind the last request stand at the start of the buffer, and the next call of
  -- `ehd_http_init_request` reads the next head from there, to an end as for the first request.
  pub keep_alive-Serves :
      (added : Bool) (c : Connection) (ev : Event) (answers : List Answer) (incoming : List ℕ)
      → c.buf.start ≤ c.buf.pos
      → c.buf.pos ≤ c.buf.last
      → c.buf.last ≤ c.buf.end
      → let n = next_client (keep_alive added c) ev answers incoming in
        (s : Served) × (serve_request ok block pool_ok strcasecmp list_push array_push n ≡ some s)
        × Serves n s
        × ((b : Buf) × (n.buf ≡ some b)
            × (b.pos ≡ c.buf.start)
            × (bytes n.mem b.pos (b.last - b.pos) ≡ bytes c.mem c.buf.pos (c.buf.last - c.buf.pos)))
  keep_alive-Serves added c ev answers incoming h l m =
      let w = keep_alive-Waits added c h l m in
      let n = next_client (keep_alive added c) ev answers incoming in
      let (s, e, k) = serve_request-Serves n (w.in_order.0) in
      (s, e, k, ((keep_alive added c).buf, refl, w.at_start, w.same_bytes))
