-- ===== src/Command/Flags.antt =====
-- cmd/gatelet/main.go: the flags of the client, read as package flag reads them. `parse_int` is
-- strconv.ParseInt with base 0, and its error is `none`.
use gatelet.Prelude.{
  Bool, true, false, not, ◌||◌, Option, none, some, List, [], ◌∷◌, if◌then◌else◌, ◌==◌, nat_eq,
  contains, lookup, Result, ok, err, Bytes, codes, bytes_eq, is_empty, cut, ℤ, pos,
}

pub data TextFlag : Type 0 where
  name_flag server_flag to_flag token_flag token_id_flag domain_flag log_format_flag : TextFlag
  basic_auth_flag control_ca_flag control_server_name_flag : TextFlag

pub data BoolFlag : Type 0 where
  control_plaintext_flag control_insecure_flag tui_flag : BoolFlag

pub data Flag : Type 0 where
  text_flag : TextFlag → Flag
  bool_flag : BoolFlag → Flag
  preview_size_flag : Flag

pub record Flags : Type 0 where
  pub name : Bytes
  pub server : Bytes
  pub target : Bytes
  pub token : Bytes
  pub token_id : Bytes
  pub domain : Bytes
  pub log_format : Bytes
  pub preview_size : ℤ
  pub basic_auth : Bytes
  pub control_plaintext : Bool
  pub control_ca : Bytes
  pub control_server_name : Bytes
  pub control_insecure : Bool
  pub tui : Bool

-- The values that the flags are defined with.
abbrev pub default_flags : Bytes → Flags
default_flags name = record {
  name = name;
  server = [];
  target = [];
  token = [];
  token_id = [];
  domain = [];
  log_format = codes "text";
  preview_size = pos 0;
  basic_auth = [];
  control_plaintext = false;
  control_ca = [];
  control_server_name = [];
  control_insecure = false;
  tui = false;
}

abbrev pub flag_table : List (Bytes × Flag)
flag_table =
    (codes "name", text_flag name_flag)
    ∷ (codes "server", text_flag server_flag)
    ∷ (codes "to", text_flag to_flag)
    ∷ (codes "token", text_flag token_flag)
    ∷ (codes "token-id", text_flag token_id_flag)
    ∷ (codes "domain", text_flag domain_flag)
    ∷ (codes "log-format", text_flag log_format_flag)
    ∷ (codes "preview-size", preview_size_flag)
    ∷ (codes "basic-auth", text_flag basic_auth_flag)
    ∷ (codes "control-plaintext", bool_flag control_plaintext_flag)
    ∷ (codes "control-ca", text_flag control_ca_flag)
    ∷ (codes "control-server-name", text_flag control_server_name_flag)
    ∷ (codes "control-insecure-skip-verify", bool_flag control_insecure_flag)
    ∷ (codes "tui", bool_flag tui_flag)
    ∷ []

abbrev set_text : Flags → TextFlag → Bytes → Flags
set_text f name_flag v = record f { name = v }
set_text f server_flag v = record f { server = v }
set_text f to_flag v = record f { target = v }
set_text f token_flag v = record f { token = v }
set_text f token_id_flag v = record f { token_id = v }
set_text f domain_flag v = record f { domain = v }
set_text f log_format_flag v = record f { log_format = v }
set_text f basic_auth_flag v = record f { basic_auth = v }
set_text f control_ca_flag v = record f { control_ca = v }
set_text f control_server_name_flag v = record f { control_server_name = v }

abbrev set_bool : Flags → BoolFlag → Bool → Flags
set_bool f control_plaintext_flag b = record f { control_plaintext = b }
set_bool f control_insecure_flag b = record f { control_insecure = b }
set_bool f tui_flag b = record f { tui = b }

pub data FlagError : Type 0 where
  help bad_syntax not_defined no_argument invalid_value : FlagError

-- `strconv.ParseBool`.
abbrev parse_bool : Bytes → Option Bool
parse_bool v =
    if contains v
      (codes "1" ∷ codes "t" ∷ codes "T" ∷ codes "true" ∷ codes "TRUE" ∷ codes "True" ∷ [])
    then some true
    else if contains v
        (codes "0" ∷ codes "f" ∷ codes "F" ∷ codes "false" ∷ codes "FALSE" ∷ codes "False" ∷ [])
    then some false
    else none

-- An argument: it ends the flags, it is the dashes alone, it is malformed, or it is a flag's name with
-- the value behind an equals sign.
pub data Argument : Type 0 where
  positional terminator malformed : Argument
  flagged : Bytes → Option Bytes → Argument

abbrev cut_value : Bytes → Argument
cut_value body = elim (cut b'=' body) [
  | none ↦ flagged body none
  | some (name, value) ↦ flagged name (some value)
]

abbrev name_and_value : Bytes → Argument
name_and_value [] = malformed
name_and_value (c ∷ cs) = if c == b'-' || c == b'=' then malformed else cut_value (c ∷ cs)

unfoldable pub argument : Bytes → Argument
unfolding cut
argument [] = positional
argument (c ∷ []) = positional
argument (c ∷ d ∷ cs) =
    if not (c == b'-')
    then positional
    else if d == b'-'
    then (if is_empty cs then terminator else name_and_value cs)
    else name_and_value (d ∷ cs)

-- What an argument asks for: the flags are at an end, the value is known, or it is the next argument.
pub data Request : Type 0 where
  stops skips : Request
  refused : FlagError → Request
  sets : Result FlagError Flags → Request
  wants : Flag → Request

module _ (parse_int : Bytes → Option ℤ) where
  abbrev set_preview : Flags → Bytes → Result FlagError Flags
  set_preview f value = elim (parse_int value) [
    | none ↦ err invalid_value
    | some n ↦ ok (record f { preview_size = n })
  ]

  abbrev set_parsed_bool : Flags → BoolFlag → Bytes → Result FlagError Flags
  set_parsed_bool f flag value = elim (parse_bool value) [
    | none ↦ err invalid_value
    | some b ↦ ok (set_bool f flag b)
  ]

  abbrev set_value : Flags → Flag → Bytes → Result FlagError Flags
  set_value f (text_flag flag) value = ok (set_text f flag value)
  set_value f (bool_flag flag) value = set_parsed_bool f flag value
  set_value f preview_size_flag value = set_preview f value

  abbrev unknown_flag : Bytes → FlagError
  unknown_flag name = if name == codes "help" || name == codes "h" then help else not_defined

  -- A flag without a value in its own argument.
  abbrev bare : Flags → Flag → Request
  bare f (text_flag flag) = wants (text_flag flag)
  bare f (bool_flag flag) = sets (ok (set_bool f flag true))
  bare f preview_size_flag = wants preview_size_flag

  abbrev request_for : Flags → Flag → Option Bytes → Request
  request_for f flag none = bare f flag
  request_for f flag (some value) = sets (set_value f flag value)

  abbrev request_of : Flags → Argument → Request
  request_of f positional = stops
  request_of f terminator = skips
  request_of f malformed = refused bad_syntax
  request_of f (flagged name value) = elim (lookup name flag_table) [
    | none ↦ refused (unknown_flag name)
    | some flag ↦ request_for f flag value
  ]

  -- `Parse`: the flags, and the arguments that are left.
  unfoldable pub parse_flags : Flags → List Bytes → Result FlagError (Flags × List Bytes)
  unfolding argument lookup cut
  parse_flags f [] = ok (f, [])
  parse_flags f (a ∷ []) = elim (request_of f (argument a)) [
    | stops ↦ ok (f, a ∷ [])
    | skips ↦ ok (f, [])
    | refused e ↦ err e
    | sets (err e) ↦ err e
    | sets (ok g) ↦ ok (g, [])
    | wants flag ↦ err no_argument
  ]
  parse_flags f (a ∷ b ∷ rest) = elim (request_of f (argument a)) [
    | stops ↦ ok (f, a ∷ b ∷ rest)
    | skips ↦ ok (f, b ∷ rest)
    | refused e ↦ err e
    | sets (err e) ↦ err e
    | sets (ok g) ↦ parse_flags g (b ∷ rest)
    | wants flag ↦ elim (set_value f flag b) [ err e ↦ err e | ok g ↦ parse_flags g rest ]
  ]
