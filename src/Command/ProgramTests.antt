-- ===== src/Command/ProgramTests.antt =====
-- The client's program with a name that the relay would refuse, and with a run that is stopped.
use gatelet.Prelude.{◌≡◌, refl, true, false, none, some, List, [], ◌∷◌, Bytes, codes, trim}
use gatelet.Client.Events.{host_without_port}
use gatelet.Command.Program.{Machine, printed, usage, run_program}
use gatelet.Command.Program.Failed.{Fails, run_program-Fails}

abbrev machine : Machine
machine = record {
  env = λ key. [];
  parse_int = λ text. none;
  parse_host = λ addr. [];
  marshal_startup = λ url target format. none;
  config_error_text = λ e. codes "bad";
  name_error_text = λ e. codes "bad name";
  tui_error = λ c. none;
  sessions = λ c r.
      record { connected = true; error = none; cancelled = false; wait_cancelled = false } ∷ [];
}

abbrev args_for : Bytes → List Bytes
args_for name =
    name ∷ codes "l:1" ∷ codes "--server" ∷ codes "t.io:1" ∷ codes "--token" ∷ codes "s" ∷ []

run_program-Fails_example : Fails machine (args_for (codes "Zoe"))
unfolding run_program
run_program-Fails_example = run_program-Fails machine (args_for (codes "Zoe")) 0 refl

program_stopped :
    run_program machine (args_for (codes "zoe"))
    ≡ (some 0, printed (codes "url https://zoe.t.io\ntarget l:1\n") ∷ [])
unfolding run_program trim host_without_port
program_stopped = refl

program_helps : run_program machine (codes "-h" ∷ []) ≡ (some 0, usage ∷ [])
unfolding run_program
program_helps = refl
