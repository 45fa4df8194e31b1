-- ===== src/Listening/Passes.antt =====
-- One pass over the listening sockets.
use ehttpd.Prelude.{
  ℕ, ◌≡◌, refl, ap, ◌⊎◌, inl, inr, Bool, true, false, not, ◌&&◌, ◌||◌, Option, none, some, List, [],
  ◌∷◌, arith,
}
use ehttpd.Kernel.{Log, Kernel}
use ehttpd.Listening.{
  Listening, Tried, Pass, opened, not_bound, refused, attempt, behind, on_tried, on_fd, pass,
}

abbrev pub is_open : Option ℕ → Bool
is_open none = false
is_open (some fd) = true

abbrev pub all_open : List Listening → Bool
all_open [] = true
all_open (l ∷ ls) = is_open l.fd && all_open ls

-- A pass that returned has left a socket unopened, and one that came to its end has set `failed` if
-- and only if it has.
abbrev pub Passed : Bool → Pass → Type 0
Passed f p =
    ((p.stopped ≡ true) × (all_open p.listenings ≡ false))
    ⊎ ((p.stopped ≡ false) × (p.failed ≡ (f || not (all_open p.listenings))))

behind-Passed :
    (f : Bool) (l : Listening) (p : Pass) → is_open l.fd ≡ true → Passed f p → Passed f (behind l p)
unfolding behind
behind-Passed f l p o w = ground arith

left-Passed :
    (f : Bool) (l : Listening) (p : Pass)
    → is_open l.fd ≡ false
    → Passed true p
    → Passed f (behind l p)
unfolding behind
left-Passed f l p o w = ground arith

module _ (k : Kernel) (l : Listening) (ls : List Listening) (rest : Bool → Log → Pass) where
  on_tried-Passed :
      (f : Bool) (log : Log) (t : Tried)
      → is_open l.fd ≡ false
      → ((g : Bool) (m : Log) → Passed g (rest g m))
      → Passed f (on_tried l ls f log rest t)
  unfolding on_tried
  on_tried-Passed f log (opened s) e w =
      behind-Passed f (record l { fd = some s }) (rest f log) refl (w f log)
  on_tried-Passed f log not_bound e w = left-Passed f l (rest true log) e (w true log)
  on_tried-Passed f log refused e w = inl (refl, rw e refl)

  on_fd-Passed :
      (f : Bool) (log : Log) (fd : Option ℕ)
      → l.fd ≡ fd
      → ((g : Bool) (m : Log) → Passed g (rest g m))
      → Passed f (on_fd k l ls f log rest fd)
  unfolding on_fd
  on_fd-Passed f log (some fd) e w = behind-Passed f l (rest f log) (ap is_open e) (w f log)
  on_fd-Passed f log none e w =
      let a = attempt k l log in on_tried-Passed f a.log a.tried (ap is_open e) w

pub pass-Passed :
    (k : Kernel) (ls : List Listening) (f : Bool) (log : Log) → Passed f (pass k ls f log)
unfolding pass
pass-Passed k [] f log = inr (refl, ground arith)
pass-Passed k (l ∷ ls) f log =
    on_fd-Passed k l ls (λ g m. pass k ls g m) f log l.fd refl (λ g m. pass-Passed k ls g m)
