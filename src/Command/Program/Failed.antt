-- ===== src/Command/Program/Failed.antt =====
-- Why the client's program fails.
use gatelet.Prelude.{
  ℕ, suc, subst, pos, ◌≡◌, ◌≢◌, refl, inl, inr, true, false, some, List, arith, Bool-cases,
  Option-cases, ok, err, Result-cases, Bytes,
}
use gatelet.Protocol.Name.{NameError, validate_name}
use gatelet.Client.Reconnect.{
  default_reconnect_initial_delay, default_reconnect_max_delay, ControlError, Ending, stopped,
  running, failed, run,
}
use gatelet.Client.Reconnect.Loop.{FailsBy, run_failed}
use gatelet.Client.Run.{ended, fill_defaults, run_client}
use gatelet.Command.Flags.{help}
use gatelet.Command.ClientConfig.{ClientConfig, ConfigError, flag_error, parse_config}
use gatelet.Command.Program.{
  Machine, Output, of_run, of_error, run_config, run_with, write_startup, run_program,
}

-- What makes `client.Run` return an error.
pub data RunFails (m : Machine) (c : ClientConfig) : Type 0 where
  name_refused : (e : NameError) → validate_name c.name ≡ err e → RunFails m c
  session_ends :
      (e : ControlError) → FailsBy (m.sessions c (fill_defaults (run_config c))) e → RunFails m c

pub data Fails (m : Machine) (args : List Bytes) : Type 0 where
  refuses :
      (e : ConfigError)
      → parse_config m.env m.parse_int args ≡ err e
      → e ≢ flag_error help
      → Fails m args
  interface_fails :
      (c : ClientConfig) (error : Bytes)
      → parse_config m.env m.parse_int args ≡ ok c
      → c.tui ≡ true
      → m.tui_error c ≡ some error
      → Fails m args
  client_fails :
      (c : ClientConfig)
      → parse_config m.env m.parse_int args ≡ ok c
      → c.tui ≡ false
      → RunFails m c
      → Fails m args

ending-RunFails :
    (m : Machine) (c : ClientConfig) (out : List Output) (k : ℕ) (end : Ending)
    → (run
        (pos default_reconnect_initial_delay)
        (pos default_reconnect_max_delay)
        (m.sessions c (fill_defaults (run_config c)))).1
      ≡ end
    → (of_run m out (ended end)).0 ≡ some (suc k)
    → RunFails m c
ending-RunFails m c out k stopped same e = absurd (ground (arith, e))
ending-RunFails m c out k running same e = absurd (cc)
ending-RunFails m c out k (failed error) same e = session_ends error (run_failed _ _ _ error same)

of_run-RunFails :
    (m : Machine) (c : ClientConfig) (out : List Output) (k : ℕ)
    → (of_run m out (run_client (m.sessions c) (run_config c)).1).0 ≡ some (suc k)
    → RunFails m c
unfolding run_client fill_defaults
of_run-RunFails m c out k h = elim (Result-cases (validate_name c.name)) [
  | inr (e, refused) ↦ name_refused e refused
  | inl (done, good) ↦ ending-RunFails m c out k _ refl (rw (good, run_client) at h)
]

of_error-refuses :
    (m : Machine) (args : List Bytes) (k : ℕ) (e : ConfigError)
    → parse_config m.env m.parse_int args ≡ err e
    → (of_error m e).0 ≡ some (suc k)
    → Fails m args
of_error-refuses m args k e refused h =
    refuses e refused
      (λ same. absurd (ground (arith, subst (λ x. (of_error m x).0 ≡ some (suc k)) same h)))

run_with-Fails :
    (m : Machine) (args : List Bytes) (k : ℕ) (c : ClientConfig)
    → parse_config m.env m.parse_int args ≡ ok c
    → (run_with m c).0 ≡ some (suc k)
    → Fails m args
run_with-Fails m args k c parsed h = elim (Bool-cases c.tui) [
  | inl tui ↦ elim (Option-cases (m.tui_error c)) [
    | inl fine ↦ absurd (ground (arith, tui, fine))
    | inr (error, e) ↦ interface_fails c error parsed tui e
  ]
  | inr plain ↦
      client_fails c parsed plain (of_run-RunFails m c (write_startup m c) k (simp (plain) at h))
]

-- The program exits with a status that is not 0 only if parseConfig refuses its arguments, and not for a
-- request for help, or the terminal interface returns an error, or the name is refused, or a session of the
-- client ended in an error that is not to be retried, behind sessions that were all retried.
pub run_program-Fails :
    (m : Machine) (args : List Bytes) (k : ℕ) → (run_program m args).0 ≡ some (suc k) → Fails m args
unfolding run_program
run_program-Fails m args k h = elim (Result-cases (parse_config m.env m.parse_int args)) [
  | inr (e, refused) ↦ of_error-refuses m args k e refused (rw (refused, run_program) at h)
  | inl (c, parsed) ↦ run_with-Fails m args k c parsed (rw (parsed, run_program) at h)
]
