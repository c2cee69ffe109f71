-- ===== src/Command/Program.antt =====
-- cmd/gatelet/main.go: `run`, from the arguments to the exit status, and `writeStartup`.
pub mod Failed
use gatelet.Prelude.{
  ℕ, Option, none, some, List, [], ◌∷◌, ◌++◌, if◌then◌else◌, ok, err, Bytes, codes, ℤ, pos,
}
use gatelet.Protocol.Name.{NameError}
use gatelet.Client.Events.{LogFormat, text, public_url}
use gatelet.Client.Reconnect.{Session, stopped, running, failed}
use gatelet.Client.Run.{RunConfig, RunEnd, bad_name, ended, run_client}
use gatelet.Command.Flags.{help}
use gatelet.Command.ClientConfig.{ClientConfig, ConfigError, flag_error, parse_config}

pub data Output : Type 0 where
  -- `writeUsage`.
  usage : Output
  -- Text on the standard output, and an error on the other.
  printed : Bytes → Output
  complained : Bytes → Output

-- What the program uses: the environment, `strconv.ParseInt`, the Host of `url.Parse`, the JSON of the
-- startup record, the texts of errors, how the terminal interface ends, and the sessions of the client.
pub record Machine : Type 0 where
  pub env : Bytes → Bytes
  pub parse_int : Bytes → Option ℤ
  pub parse_host : Bytes → Bytes
  pub marshal_startup : Bytes → Bytes → LogFormat → Option Bytes
  pub config_error_text : ConfigError → Bytes
  pub name_error_text : NameError → Bytes
  pub tui_error : ClientConfig → Option Bytes
  pub sessions : ClientConfig → RunConfig → List Session

unfoldable pub write_startup : Machine → ClientConfig → List Output
unfolding public_url
write_startup m c =
    let url = public_url m.parse_host c.name c.domain c.server_addr in
    elim c.log_format [
      | text ↦
          printed (codes "url " ++ (url ++ (codes "\ntarget " ++ (c.target ++ codes "\n")))) ∷ []
      | _ ↦ elim (m.marshal_startup url c.target c.log_format) [
        | none ↦ []
        | some line ↦ printed (line ++ codes "\n") ∷ []
      ]
    ]

-- The configuration for `client.Run`; what parseConfig does not set is zero.
abbrev pub run_config : ClientConfig → RunConfig
run_config c = record {
  session = record {
    name = c.name;
    token = c.token;
    token_id = c.token_id;
    http_basic_auth_user = c.http_basic_auth_user;
    http_basic_auth_password = c.http_basic_auth_password;
    client_version = [];
  };
  pause_timeout = pos 0;
  preview_limit = c.preview_limit;
  reconnect_initial_delay = pos 0;
  reconnect_max_delay = pos 0;
}

-- The status, once there is one, and what was written.
abbrev pub Exit : Type 0
Exit = Option ℕ × List Output

abbrev of_run : Machine → List Output → RunEnd → Exit
of_run m out (bad_name e) = (some 1, out ++ complained (m.name_error_text e) ∷ [])
of_run m out (ended stopped) = (some 0, out)
of_run m out (ended running) = (none, out)
of_run m out (ended (failed e)) = (some 1, out ++ complained e.text ∷ [])

abbrev of_tui : Option Bytes → Exit
of_tui none = (some 0, [])
of_tui (some error) = (some 1, complained error ∷ [])

abbrev run_with : Machine → ClientConfig → Exit
run_with m c =
    if c.tui
    then of_tui (m.tui_error c)
    else of_run m (write_startup m c) (run_client (m.sessions c) (run_config c)).1

abbrev of_error : Machine → ConfigError → Exit
of_error m (flag_error help) = (some 0, usage ∷ [])
of_error m e = (some 1, complained (m.config_error_text e) ∷ [])

unfoldable pub run_program : Machine → List Bytes → Exit
unfolding parse_config write_startup run_client
run_program m args = elim (parse_config m.env m.parse_int args) [
  | err e ↦ of_error m e
  | ok c ↦ run_with m c
]
