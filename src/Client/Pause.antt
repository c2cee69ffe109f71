-- ===== src/Client/Pause.antt =====
-- internal/client/pause.go. A channel is its number; `closed` says which have been closed, and `next`
-- is the number of the next one that is made. `WaitIfPaused` is in two parts, around the select.
pub mod Invariant
use gatelet.Prelude.{
  ℕ, ◌+◌, ◌-◌, ◌≡◌, Bool, true, false, not, Option, none, some, List, [], ◌∷◌, ◌++◌, if◌then◌else◌,
  ◌==◌, nat_eq, bytes_eq,
}

pub record PauseController : Type 0 where
  pub paused : Bool
  pub resume : ℕ
  pub queued : ℕ
  pub closed : ℕ → Bool
  pub next : ℕ

unfoldable pub new_pause_controller : PauseController
new_pause_controller = record {
  paused = false;
  resume = 0;
  queued = 0;
  closed = λ ch. false;
  next = 1;
}

abbrev pub close : (ℕ → Bool) → ℕ → ℕ → Bool
close closed ch x = if x == ch then true else closed x

abbrev same_bool : Bool → Bool → Bool
same_bool true b = b
same_bool false b = not b

unfoldable pub set_paused : PauseController → Bool → PauseController
set_paused p paused =
    if same_bool p.paused paused
    then p
    else if paused
    then record p { paused = true; resume = p.next; next = p.next + 1 }
    else record p { paused = false; closed = close p.closed p.resume }

-- The two sections of `Toggle`: the value that the first reads, and the call with it.
unfoldable pub toggle : PauseController → PauseController × Bool
unfolding set_paused
toggle p = let next = not p.paused in (set_paused p next, next)

unfoldable pub is_paused : PauseController → Bool
is_paused p = p.paused

unfoldable pub queue_depth : PauseController → ℕ
queue_depth p = p.queued

-- Up to the select: the channel that the goroutine waits on, if it waits.
unfoldable pub enter : PauseController → PauseController × Option ℕ
enter p = if not p.paused then (p, none) else (record p { queued = p.queued + 1 }, some p.resume)

-- The deferred part.
unfoldable pub leave : PauseController → PauseController
leave p = record p { queued = p.queued - 1 }

-- The controller and the channels that goroutines wait on in `WaitIfPaused`.
pub record Waiting : Type 0 where
  pub controller : PauseController
  pub waiters : List ℕ

abbrev pub no_waiters : PauseController → Waiting
no_waiters p = record { controller = p; waiters = [] }

pub data Step : Waiting → Waiting → Type 0 where
  sets :
      (w : Waiting) (paused : Bool)
      → Step w (record w { controller = set_paused w.controller paused })
  passes :
      (w : Waiting)
      → (enter w.controller).1 ≡ none
      → Step w (record w { controller = (enter w.controller).0 })
  waits :
      (w : Waiting) (ch : ℕ)
      → (enter w.controller).1 ≡ some ch
      → Step w (record { controller = (enter w.controller).0; waiters = ch ∷ w.waiters })
  -- Its channel is closed, or its context is done.
  leaves :
      (w : Waiting) (before after : List ℕ) (ch : ℕ)
      → w.waiters ≡ before ++ (ch ∷ after)
      → Step w (record { controller = leave w.controller; waiters = before ++ after })

pub data Reach (v : Waiting) : Waiting → Type 0 where
  here : Reach v v
  then_step : {w u : Waiting} → Reach v w → Step w u → Reach v u
