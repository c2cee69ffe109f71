-- ===== src/Client/Reconnect.antt =====
-- client.go: `reconnectDelay`, `isReconnectableControlError` and the loop of `Run`. Durations are
-- nanoseconds, and ℤ where a caller may give one that is not positive.
pub mod Delay
pub mod Loop
use gatelet.Prelude.{
  ℕ, zero, suc, ◌+◌, ◌-◌, ◌*◌, ◌/◌, Bool, false, not, Option, none, some, List, [], ◌∷◌, ltb, leb,
  if◌then◌else◌, Bytes, codes, has_substring, ℤ, pos, pos_part, lebℤ,
}

abbrev pub default_reconnect_initial_delay : ℕ
default_reconnect_initial_delay = 1000000000

abbrev pub default_reconnect_max_delay : ℕ
default_reconnect_max_delay = 30000000000

abbrev pub positive_or : ℤ → ℕ → ℕ
positive_or d fallback = if lebℤ d (pos 0) then fallback else pos_part d

-- The loop for `rounds` more rounds, and the last test.
delay_loop : ℕ → ℕ → ℕ → ℕ
delay_loop zero delay limit = if ltb limit delay then limit else delay
delay_loop (suc rounds) delay limit =
    if leb (limit / 2) delay then limit else delay_loop rounds (delay * 2) limit

unfoldable pub reconnect_delay : ℕ → ℤ → ℤ → ℕ
unfolding delay_loop
reconnect_delay attempt initial max_delay =
    delay_loop (attempt - 1) (positive_or initial default_reconnect_initial_delay)
      (positive_or max_delay default_reconnect_max_delay)

-- An error of `runSession`: whether a `terminalControlError` is in its chain, and its text.
pub record ControlError : Type 0 where
  pub terminal : Bool
  pub text : Bytes

unfoldable pub is_reconnectable : ControlError → Bool
is_reconnectable e =
    if e.terminal then false else not (has_substring (codes "--control-plaintext") e.text)

-- One round of the loop: what `runSession` returned, and whether the context is done behind it and
-- in the wait.
pub record Session : Type 0 where
  pub connected : Bool
  pub error : Option ControlError
  pub cancelled : Bool
  pub wait_cancelled : Bool

pub data Ending : Type 0 where
  -- `Run` returns nil, returns this error, or still runs when the sessions are used up.
  stopped running : Ending
  failed : ControlError → Ending

abbrev pub next_attempt : Bool → ℕ → ℕ
next_attempt connected attempt = (if connected then 0 else attempt) + 1

module _ (initial max_delay : ℤ) where
  -- The delays that are announced, and the end.
  run_loop : ℕ → List Session → List ℕ × Ending
  run_loop attempt [] = ([], running)
  run_loop attempt (r ∷ rs) =
      let attempt' = next_attempt r.connected attempt in
      let rest = run_loop attempt' rs in
      let delay = reconnect_delay attempt' initial max_delay in
      elim r.error [
        | none ↦ ([], stopped)
        | some e ↦
            if r.cancelled
            then ([], stopped)
            else if not (is_reconnectable e)
            then ([], failed e)
            else if r.wait_cancelled
            then (delay ∷ [], stopped)
            else (delay ∷ rest.0, rest.1)
      ]

  unfoldable pub run : List Session → List ℕ × Ending
  unfolding run_loop
  run sessions = run_loop 0 sessions
