-- ===== src/Client/Reconnect/Loop.antt =====
-- The delays that the loop announces, and where it ends.
use gatelet.Prelude.{
  ℕ, ◌≡◌, refl, ◌⊎◌, Bool, true, false, not, ◌&&◌, none, some, List, [], ◌∷◌, arith, ℤ,
}
use gatelet.Client.Reconnect.{
  reconnect_delay, ControlError, is_reconnectable, Session, running, failed, next_attempt, run_loop,
  run,
}

-- The failures in a row behind each session, from the sessions alone: one that had connected counts
-- as the first.
abbrev pub failures : ℕ → List Session → List ℕ
failures n [] = []
failures n (r ∷ rs) = next_attempt r.connected n ∷ failures (next_attempt r.connected n) rs

-- A session after which `Run` tries again: it failed, not for good, and nobody stopped it.
abbrev pub retries : Session → Bool
retries r = elim r.error [
  | none ↦ false
  | some e ↦ not r.cancelled && is_reconnectable e && not r.wait_cancelled
]

-- Every ending with an error is a session's error that is not to be retried, behind sessions that
-- were all retried.
abbrev pub FailsBy : List Session → ControlError → Type 0
FailsBy [] e = ⊥
FailsBy (r ∷ rs) e =
    ((r.error ≡ some e) × (is_reconnectable e ≡ false)) ⊎ ((retries r ≡ true) × FailsBy rs e)

run_loop-FailsBy :
    (initial max_delay : ℤ) (n : ℕ) (rs : List Session) (e : ControlError)
    → (run_loop initial max_delay n rs).1 ≡ failed e
    → FailsBy rs e
unfolding run_loop
run_loop-FailsBy initial max_delay n [] e h = cc
run_loop-FailsBy initial max_delay n (r ∷ rs) e h =
    ground (arith, run_loop-FailsBy initial max_delay (next_attempt r.connected n) rs e)

abbrev pub all_retry : List Session → Bool
all_retry [] = true
all_retry (r ∷ rs) = retries r && all_retry rs

abbrev pub delays : ℤ → ℤ → List ℕ → List ℕ
delays initial max_delay [] = []
delays initial max_delay (k ∷ ks) =
    reconnect_delay k initial max_delay ∷ delays initial max_delay ks

run_loop-delays :
    (initial max_delay : ℤ) (n : ℕ) (rs : List Session)
    → all_retry rs ≡ true
    → run_loop initial max_delay n rs ≡ (delays initial max_delay (failures n rs), running)
unfolding run_loop
run_loop-delays initial max_delay n [] h = refl
run_loop-delays initial max_delay n (r ∷ rs) h =
    ground (arith, run_loop-delays initial max_delay (next_attempt r.connected n) rs)

-- While every session fails in a way that is to be retried, `Run` goes on, and the delay behind a
-- session is that of the number of failures in a row since the last connection.
pub run_retries :
    (initial max_delay : ℤ) (rs : List Session)
    → all_retry rs ≡ true
    → run initial max_delay rs ≡ (delays initial max_delay (failures 0 rs), running)
unfolding run
run_retries initial max_delay rs h = run_loop-delays initial max_delay 0 rs h

-- `Run` returns an error only if a session ended in that error, it is not to be retried, and every
-- session before was retried.
pub run_failed :
    (initial max_delay : ℤ) (rs : List Session) (e : ControlError)
    → (run initial max_delay rs).1 ≡ failed e
    → FailsBy rs e
unfolding run
run_failed initial max_delay rs e h = run_loop-FailsBy initial max_delay 0 rs e h
