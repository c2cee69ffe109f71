-- ===== src/Client/Run.antt =====
-- internal/client/client.go: `Run`, which checks the name, fills in the defaults and starts the loop.
use gatelet.Prelude.{ℕ, List, [], if◌then◌else◌, ◌==◌, nat_eq, ok, err, ℤ, pos}
use gatelet.Protocol.Name.{NameError, validate_name}
use gatelet.Client.Preview.{default_preview_limit}
use gatelet.Client.Session.{Config, with_defaults}
use gatelet.Client.Reconnect.{
  default_reconnect_initial_delay, default_reconnect_max_delay, Session, Ending, run,
}

abbrev pub default_pause_timeout : ℕ
default_pause_timeout = 60000000000

pub record RunConfig : Type 0 where
  pub session : Config
  pub pause_timeout : ℤ
  pub preview_limit : ℤ
  pub reconnect_initial_delay : ℤ
  pub reconnect_max_delay : ℤ

-- A zero is the value that is not given.
abbrev pub or_default : ℤ → ℕ → ℤ
or_default (pos n) default = if n == 0 then pos default else pos n
or_default given default = given

unfoldable pub fill_defaults : RunConfig → RunConfig
unfolding with_defaults
fill_defaults c = record {
  session = with_defaults c.session;
  pause_timeout = or_default c.pause_timeout default_pause_timeout;
  preview_limit = or_default c.preview_limit default_preview_limit;
  reconnect_initial_delay = or_default c.reconnect_initial_delay default_reconnect_initial_delay;
  reconnect_max_delay = or_default c.reconnect_max_delay default_reconnect_max_delay;
}

-- How `Run` ends: also by a name that is refused.
pub data RunEnd : Type 0 where
  bad_name : NameError → RunEnd
  ended : Ending → RunEnd

-- The delays that are announced, and the end. `sessions` are what `runSession` returns with the filled
-- configuration, round by round.
unfoldable pub run_client : (RunConfig → List Session) → RunConfig → List ℕ × RunEnd
unfolding run fill_defaults validate_name
run_client sessions c = elim (validate_name c.session.name) [
  | err e ↦ ([], bad_name e)
  | ok done ↦
      let filled = fill_defaults c in
      let (delays, end) =
        run filled.reconnect_initial_delay filled.reconnect_max_delay (sessions filled) in
      (delays, ended end)
]
