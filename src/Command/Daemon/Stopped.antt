-- ===== src/Command/Daemon/Stopped.antt =====
-- How the relay ends.
use gatelet.Prelude.{
  Bytes, subst, ◌⊎◌, inl, inr, ℕ, suc, ◌+◌, ◌≤◌, ◌≡◌, refl, Bool, true, false, Option, none, some,
  arith, if◌then◌else◌,
}
use gatelet.Server.Control.{ControlEnd, accepting, returned_nil, returned_error, end_of_accept}
use gatelet.Command.Daemon.{
  HttpState, listening, shut, broken, Daemon, Step, signalled, closes_control, accepts,
  accept_fails, shuts_down, http_fails, returns, dies, after_control, just_started, Reach, next,
}
use gatelet.Command.Daemon.Status.{ExitsWith, Exited, HasEndedWhen, IsOrderly, Reach-IsOrderly}

abbrev control_work : ControlEnd → ℕ
control_work accepting = 1
control_work returned_nil = 0
control_work (returned_error text) = 0

abbrev http_work : HttpState → ℕ
http_work listening = 2
http_work shut = 1
http_work broken = 1

abbrev exit_work : Option ℕ → HttpState → ℕ
exit_work none http = http_work http
exit_work (some status) http = 0

-- The steps that are left when the context is done, but for connections that are still accepted.
abbrev pub work : Daemon → ℕ
work d =
    (if d.control_closed then 0 else 1) + control_work d.control + exit_work d.exit_status d.http

abbrev pub is_accept : {d e : Daemon} → Step d e → Bool
is_accept (signalled d x c) = false
is_accept (closes_control d x c o) = false
is_accept (accepts d conn x c o) = true
is_accept (accept_fails d text x c) = false
is_accept (shuts_down d x c h) = false
is_accept (http_fails d x h) = false
is_accept (returns d x h) = false
is_accept (dies d x h) = false

-- Steps in a row, with the number of those that accept no connection.
pub data Run (d : Daemon) : Daemon → ℕ → Type 0 where
  at_once : Run d d 0
  then_accepts :
      {e f : Daemon} {n : ℕ} → Run d e n → (s : Step e f) → is_accept s ≡ true → Run d f n
  then_moves :
      {e f : Daemon} {n : ℕ} → Run d e n → (s : Step e f) → is_accept s ≡ false → Run d f (suc n)

-- What a step does to the work when the context is done.
Step-work :
    {d e : Daemon} (s : Step d e)
    → d.ctx_done ≡ true
    → (e.ctx_done ≡ true) × (work e + (if is_accept s then 0 else 1) ≤ work d)
Step-work (signalled d x c) done = absurd (cc)
Step-work (closes_control d x c o) done = (done, ground (arith, o))
Step-work (accepts d conn x c o) done = (done, ground arith)
Step-work (accept_fails d text x c) done = ground (arith, done, c)
Step-work (shuts_down d x c h) done = (done, ground (arith, x, h))
Step-work (http_fails d x h) done = (done, ground (arith, x, h))
Step-work (returns d x h) done = (done, ground (arith, x, h))
Step-work (dies d x h) done = (done, ground (arith, x, h))

Run-work :
    {d e : Daemon} {n : ℕ}
    → Run d e n
    → d.ctx_done ≡ true
    → (e.ctx_done ≡ true) × (n + work e ≤ work d)
Run-work at_once done = (done, omega arith)
Run-work (then_accepts r s a) done =
    let (so_far, left) = Run-work r done in
    let (still, less) = Step-work s so_far in (still, ground (arith, less, left, a))
Run-work (then_moves r s a) done =
    let (so_far, left) = Run-work r done in
    let (still, less) = Step-work s so_far in (still, ground (arith, less, left, a))

work_bound : (d : Daemon) → work d ≤ 4
work_bound d = ground arith

-- The steps that the relay's own goroutines make: no error of a listener, no signal and no connection.
abbrev pub is_own : {d e : Daemon} → Step d e → Bool
is_own (signalled d x c) = false
is_own (closes_control d x c o) = true
is_own (accepts d conn x c o) = false
is_own (accept_fails d text x c) = false
is_own (shuts_down d x c h) = true
is_own (http_fails d x h) = false
is_own (returns d x h) = true
is_own (dies d x h) = true

-- What is left to do for the HTTP server and the main goroutine.
abbrev pub NextHttp : HttpState → Daemon → Type 0
NextHttp listening e = e.http ≡ shut
NextHttp shut e = e.exit_status ≡ some 0
NextHttp broken e = e.exit_status ≡ some 1

-- A relay that is on its way out: until it has exited, its own next step is there, whatever its HTTP server
-- does; the control listener can be closed and, behind that, an Accept that fails ends the loop with nil.
pub record IsStopping (d : Daemon) : Type 0 where
  pub done : d.ctx_done ≡ true
  pub moves :
      d.exit_status ≡ none → (e : Daemon) × (s : Step d e) × (is_own s ≡ true) × NextHttp d.http e
  pub closes :
      d.exit_status ≡ none
      → d.control_closed ≡ false
      → (e : Daemon) × (s : Step d e) × (is_own s ≡ true) × (e.control_closed ≡ true)
  pub ends :
      d.exit_status ≡ none
      → d.control_closed ≡ true
      → d.control ≡ accepting
      → (text : Bytes) → (e : Daemon) × Step d e × (e.control ≡ returned_nil)
  pub exits : (status : ℕ) → d.exit_status ≡ some status → ExitsWith d.http status

moves_on :
    (d : Daemon) (h : HttpState)
    → d.ctx_done ≡ true
    → d.http ≡ h
    → d.exit_status ≡ none
    → (e : Daemon) × (s : Step d e) × (is_own s ≡ true) × NextHttp h e
moves_on d listening done e running =
    (record d { http = shut }, shuts_down d running done e, refl, refl)
moves_on d shut done e running =
    (record d { exit_status = some 0 }, returns d running e, refl, refl)
moves_on d broken done e running = (record d { exit_status = some 1 }, dies d running e, refl, refl)

ended_by_close :
    (done closed : Bool) (text : Bytes)
    → done ≡ true
    → closed ≡ true
    → end_of_accept done closed text ≡ returned_nil
ended_by_close done closed text d c = ground (arith, d, c)

Exited-status :
    (o : Option ℕ) (h : HttpState) (status : ℕ) → Exited o h → o ≡ some status → ExitsWith h status
Exited-status none h status x e = absurd (cc)
Exited-status (some n) h status x e = subst (λ o. Exited o h) e x

ctx_done-IsStopping : (d : Daemon) → IsOrderly d → d.ctx_done ≡ true → IsStopping d
ctx_done-IsStopping d i done = record {
  done = done;
  moves = moves_on d d.http done refl;
  closes = λ running unclosed.
      (record d { control_closed = true }, closes_control d running done unclosed, refl, refl);
  ends = λ running closed loops text. (
    after_control d (end_of_accept d.ctx_done d.control_closed text),
    accept_fails d text running loops,
    ended_by_close d.ctx_done d.control_closed text done closed,
  );
  exits = λ status e. Exited-status d.exit_status d.http status i.exited e;
}

-- A signal, or an error with which `ServeControl` has returned.
abbrev pub IsToStop : Daemon → Type 0
IsToStop d = (d.ctx_done ≡ true) ⊎ ((text : Bytes) × (d.control ≡ returned_error text))

to_stop-done : (d : Daemon) → IsOrderly d → IsToStop d → d.ctx_done ≡ true
to_stop-done d i (inl done) = done
to_stop-done d i (inr (text, e)) = subst (λ c. HasEndedWhen c d.ctx_done) e i.ended

Run-Reach : {d e : Daemon} {n : ℕ} → Reach just_started d → Run d e n → Reach just_started e
Run-Reach r at_once = r
Run-Reach r (then_accepts t s a) = next (Run-Reach r t) s
Run-Reach r (then_moves t s a) = next (Run-Reach r t) s

-- From a reachable state in which the context is done or `ServeControl` has returned an error, the relay makes
-- at most four steps besides accepting connections, whatever order they come in. Until it has exited, its own
-- goroutines have the next step: the HTTP server is shut down, and then main returns 0, or dies with 1 where
-- the server broke. The control listener is closed by a step of its own, behind which Accept ends the loop
-- with nil. A status that it has exited with is 0 where the server was shut and 1 where it broke.
pub Run-stops :
    (d e : Daemon) (n : ℕ) → Reach just_started d → IsToStop d → Run d e n → (n ≤ 4) × IsStopping e
Run-stops d e n reached to_stop r =
    let (still, left) = Run-work r (to_stop-done d (Reach-IsOrderly reached) to_stop) in
    (
      omega (arith, left, work_bound d),
      ctx_done-IsStopping e (Reach-IsOrderly (Run-Reach reached r)) still,
    )
