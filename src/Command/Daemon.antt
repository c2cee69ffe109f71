-- ===== src/Command/Daemon.antt =====
-- cmd/gateletd/main.go: the start of the relay, and its life as a state machine. The main goroutine runs
-- the HTTP server; one goroutine closes the control listener when the context is done, one shuts the HTTP
-- server down then, and one runs `ServeControl` and ends the context if that fails. What the system does
-- (signals, connections, errors of the listeners) are steps.
pub mod Stopped
pub mod Status
use gatelet.Prelude.{
  ℕ, ◌≡◌, Bool, true, false, not, ◌&&◌, Option, none, some, List, [], ◌∷◌, Result, ok, ◌>>=◌, ◌>>◌,
  fail_if, map_err, Bytes,
}
use gatelet.Server.Names.{Config}
use gatelet.Server.Control.{ControlEnd, accepting, returned_nil, returned_error, end_of_accept}
use gatelet.Command.DaemonConfig.{DaemonFlags, Fatal, daemon_config, control_tls}

-- What the calls on the way answer: `net.Listen` and `tls.LoadX509KeyPair`.
pub record Host : Type 0 where
  pub env : Bytes → Bytes
  pub listens : Bool
  pub loads_key_pair : Bool

pub data StartError : Type 0 where
  bad_config bad_key_pair : Fatal → StartError
  no_control_listener no_certificate : StartError

-- What main has when it starts its goroutines.
pub record Started : Type 0 where
  pub config : Config
  pub tls : Bool

unfoldable pub start_daemon : Host → DaemonFlags → Result StartError Started
unfolding daemon_config control_tls
start_daemon h f = do
  config ← map_err bad_config (daemon_config h.env f)
  fail_if (not h.listens) no_control_listener
  tls ← map_err bad_key_pair (control_tls f)
  fail_if (tls && not h.loads_key_pair) no_certificate
  ok (record { config = config; tls = tls })

pub data HttpState : Type 0 where
  listening shut : HttpState
  -- `ListenAndServe` returned another error.
  broken : HttpState

pub record Daemon : Type 0 where
  pub ctx_done : Bool
  pub control_closed : Bool
  pub control : ControlEnd
  pub http : HttpState
  -- The connections whose handler was started, newest first.
  pub conns : List ℕ
  pub exit_status : Option ℕ

abbrev pub just_started : Daemon
just_started = record {
  ctx_done = false;
  control_closed = false;
  control = accepting;
  http = listening;
  conns = [];
  exit_status = none;
}

-- `log.Printf` and `stop()` where `ServeControl` returned an error.
abbrev pub ends_context : ControlEnd → Bool → Bool
ends_context (returned_error text) done = true
ends_context returned_nil done = done
ends_context accepting done = done

abbrev pub after_control : Daemon → ControlEnd → Daemon
after_control d end = record d { control = end; ctx_done = ends_context end d.ctx_done }

pub data Step : Daemon → Daemon → Type 0 where
  signalled :
      (d : Daemon)
      → d.exit_status ≡ none
      → d.ctx_done ≡ false
      → Step d (record d { ctx_done = true })
  closes_control :
      (d : Daemon)
      → d.exit_status ≡ none
      → d.ctx_done ≡ true
      → d.control_closed ≡ false
      → Step d (record d { control_closed = true })
  accepts :
      (d : Daemon) (conn : ℕ)
      → d.exit_status ≡ none
      → d.control ≡ accepting
      → d.control_closed ≡ false
      → Step d (record d { conns = conn ∷ d.conns })
  -- Accept fails: of the closed listener with `net.ErrClosed`, of an open one with any other error.
  accept_fails :
      (d : Daemon) (text : Bytes)
      → d.exit_status ≡ none
      → d.control ≡ accepting
      → Step d (after_control d (end_of_accept d.ctx_done d.control_closed text))
  shuts_down :
      (d : Daemon)
      → d.exit_status ≡ none
      → d.ctx_done ≡ true
      → d.http ≡ listening
      → Step d (record d { http = shut })
  http_fails :
      (d : Daemon) → d.exit_status ≡ none → d.http ≡ listening → Step d (record d { http = broken })
  returns :
      (d : Daemon)
      → d.exit_status ≡ none
      → d.http ≡ shut
      → Step d (record d { exit_status = some 0 })
  -- `log.Fatalf`.
  dies :
      (d : Daemon)
      → d.exit_status ≡ none
      → d.http ≡ broken
      → Step d (record d { exit_status = some 1 })

pub data Reach (d : Daemon) : Daemon → Type 0 where
  here : Reach d d
  next : {e f : Daemon} → Reach d e → Step e f → Reach d f
