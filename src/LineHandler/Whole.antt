-- ===== src/LineHandler/Whole.antt =====
-- Both handlers of a request's head, one calling the other.
use ehttpd.Prelude.{ℕ, ◌≡◌, refl, Bool, Option, none, some, List}
use mathlib.Core.Option
use mathlib.Core.Path.{subst}
use ehttpd.Headers
use ehttpd.Headers.Ends.{process-Left}
use ehttpd.Headers.Rounds
use ehttpd.LineHandler.{
  Allocation, Line, Target, Left, Ending, waiting, closed, parsed, unanswered, stuck, process,
}
use ehttpd.LineHandler.Ends.{Waits, LeftBy, process-LeftBy}

-- the line handler has returned, or the handler of headers that it called
pub data Outcome : Type 0 where
  in_line : Left → Outcome
  in_headers : Target → Headers.Result → Outcome

module _ (pool_ok : Allocation → Bool) (strcasecmp : List ℕ → List ℕ → Bool)
    (list_push array_push : ℕ → Bool) where
  unfoldable pub then_headers : Ending → Line → Option Outcome
  then_headers parsed l =
      Option.map (in_headers l.target) (Headers.process strcasecmp list_push array_push l.session)
  then_headers e l = some (in_line (record { ending = e; line = l }))

  unfoldable pub on_left : Option Left → Option Outcome
  on_left none = none
  on_left (some e) = then_headers e.ending e.line

  unfoldable pub read_head : Line → Option Outcome
  read_head l = on_left (process pool_ok l)

  abbrev pub Ends : ℕ → ℕ → Outcome → Type 0
  Ends base closes (in_line e) = LeftBy base closes e.ending e.line
  Ends base closes (in_headers t r) =
      Headers.Rounds.Left closes r.ending r.session
      × ((l : Line) × LeftBy base closes parsed l
          × (l.target ≡ t)
          × (Headers.process strcasecmp list_push array_push l.session ≡ some r))

  then_headers-Ends :
      (base closes : ℕ) (e : Ending) (l : Line)
      → LeftBy base closes e l
      → (o : Outcome) × (then_headers e l ≡ some o) × Ends base closes o
  unfolding then_headers
  then_headers-Ends base closes parsed l (f, c, h, target) =
      let (r, e, k) = process-Left strcasecmp list_push array_push l.session f in
      (
        in_headers l.target r,
        rw e refl,
        (
          subst (λ n. Headers.Rounds.Left n r.ending r.session) c k,
          (l, (f, c, h, target), refl, e),
        ),
      )
  then_headers-Ends base closes waiting l h = (_, refl, h)
  then_headers-Ends base closes closed l h = (_, refl, h)
  then_headers-Ends base closes unanswered l h = (_, refl, h)
  then_headers-Ends base closes stuck l h = absurd h

  -- The head of a request is read to an end of one of the two handlers, for a connection that waits
  -- for a request line and whatever `recv` answers: the line handler waits or has closed the
  -- connection once, or the header handler, which was called with what it needs, leaves the
  -- connection as it does when it is called by the event loop: it waits, the request is handled,
  -- or the connection was closed, once or (on the end of input or an error) twice. The path that
  -- goes with the headers was copied as the line handler's theorem says.
  pub read_head-Ends :
      (base : ℕ) (l : Line)
      → Waits base l.session
      → (o : Outcome) × (read_head l ≡ some o) × Ends base l.session.closes o
  unfolding read_head on_left
  read_head-Ends base l w =
      let (e, q, h) = process-LeftBy pool_ok base l w in
      let (o, q', k) = then_headers-Ends base l.session.closes e.ending e.line h in
      (o, rw (q, on_left) q', k)
