-- ===== src/Cli/Parser.antt =====
-- cli.py: `build_parser`, and how the handlers read what the parser gives them.
pub mod Typed
pub mod Says
use Prim.Native.Char.{Char, code}
use phonect.Prelude.{
  ℕ, String, Bool, true, false, Option, none, some, List, [], ◌∷◌, ◌==◌, if◌then◌else◌,
}
use phonect.Python.Paths.{text_append}
use phonect.Python.{
  ℤ, pos, Value, null, bool, int, float, str, Dict, get, attribute_error, type_error, Result, ok,
  raise, ◌>>=◌,
}

-- What a text of the command line becomes.
pub data Kind : Type 0 where
  text integer number truth : Kind
  choice : List String → Kind

-- `add_argument`: an option with its flag and default, or a positional argument
pub data Argument : Type 0 where
  option : (flag : String) (kind : Kind) (default : Value) → Argument
  positional : (name : String) (kind : Kind) → Argument

-- `set_defaults(func=…)`
pub data Func : Type 0 where
  func_gen_keys func_server func_client func_daemon func_init_config func_pair : Func

pub record Subparser : Type 0 where
  pub name : String
  pub arguments : List Argument
  pub func : Func

pub record ArgumentParser : Type 0 where
  pub options : List Argument
  pub subparsers : List Subparser

abbrev pub gen_keys_parser : Subparser
gen_keys_parser = record {
  name = "gen-keys";
  arguments =
      option "--private-key" text (str "phonect_private.pem")
      ∷ option "--public-key" text (str "phonect_public.pem")
      ∷ [];
  func = func_gen_keys;
}

abbrev pub server_parser : Subparser
server_parser = record {
  name = "server";
  arguments =
      positional "public_key" text
      ∷ option "--port" integer (int (pos 0))
      ∷ option "--timeout" number (float "30.0")
      ∷ [];
  func = func_server;
}

abbrev pub client_parser : Subparser
client_parser = record {
  name = "client";
  arguments =
      positional "private_key" text
      ∷ positional "pc_ip" text
      ∷ positional "pc_port" integer
      ∷ option "--device-name" text (str "android-emulator")
      ∷ option "--timeout" number (float "10.0")
      ∷ [];
  func = func_client;
}

abbrev pub daemon_parser : Subparser
daemon_parser = record {
  name = "daemon";
  arguments = option "--config" text null ∷ option "--foreground" truth (bool false) ∷ [];
  func = func_daemon;
}

abbrev pub init_config_parser : Subparser
init_config_parser = record {
  name = "init-config";
  arguments = option "--path" text null ∷ [];
  func = func_init_config;
}

abbrev pub pair_parser : Subparser
pair_parser = record {
  name = "pair";
  arguments = option "--config" text null ∷ [];
  func = func_pair;
}

-- `build_parser`
abbrev pub build_parser : ArgumentParser
build_parser = record {
  options =
      option "--log-level" (choice ("DEBUG" ∷ "INFO" ∷ "WARNING" ∷ "ERROR" ∷ [])) (str "INFO") ∷ [];
  subparsers =
      gen_keys_parser ∷ server_parser ∷ client_parser ∷ daemon_parser ∷ init_config_parser
      ∷ pair_parser ∷ [];
}

-- the name of the attribute for a flag: without the dashes in front, and with underscores for the others
abbrev underscored : String → String
underscored String.[] = String.[]
underscored (String.◌∷◌ c s) =
    let rest = underscored s in if code c == 45 then text_append "_" rest else String.◌∷◌ c rest

abbrev without_dashes : String → String
without_dashes String.[] = String.[]
without_dashes (String.◌∷◌ c s) =
    let rest = without_dashes s in if code c == 45 then rest else String.◌∷◌ c s

abbrev pub dest : Argument → String
dest (option flag kind default) = underscored (without_dashes flag)
dest (positional name kind) = name

-- What `parse_args` returns: the handler, and the other attributes.
pub record Namespace : Type 0 where
  pub func : Func
  pub values : Dict

-- A handler with the attributes that it reads.
pub data Command : Type 0 where
  gen_keys : (private_key public_key : String) → Command
  server : (log_level public_key : String) (port : ℤ) (timeout : String) → Command
  client : (log_level private_key device_name timeout pc_ip : String) (pc_port : ℤ) → Command
  daemon : (config : Option String) (foreground : Bool) → Command
  init_config : (path : Option String) → Command
  pair : Command

-- `args.name`
abbrev pub attribute : String → Namespace → Result Value
attribute name args = elim (get name args.values) [ none ↦ raise attribute_error | some v ↦ ok v ]

-- an attribute where a text, an integer, a float, a truth value, or a text or `None` is needed
unfoldable pub as_text : Value → Result String
as_text (str s) = ok s
as_text _ = raise type_error

unfoldable pub as_integer : Value → Result ℤ
as_integer (int n) = ok n
as_integer _ = raise type_error

unfoldable pub as_number : Value → Result String
as_number (float t) = ok t
as_number _ = raise type_error

unfoldable pub as_truth : Value → Result Bool
as_truth (bool b) = ok b
as_truth _ = raise type_error

unfoldable pub as_optional_text : Value → Result (Option String)
as_optional_text null = ok none
as_optional_text (str s) = ok (some s)
as_optional_text _ = raise type_error

abbrev pub text_of : String → Namespace → Result String
text_of name args = attribute name args >>= as_text

abbrev pub optional_text_of : String → Namespace → Result (Option String)
optional_text_of name args = attribute name args >>= as_optional_text

abbrev pub integer_of : String → Namespace → Result ℤ
integer_of name args = attribute name args >>= as_integer

abbrev pub number_of : String → Namespace → Result String
number_of name args = attribute name args >>= as_number

-- what each handler reads of the namespace, in its order
abbrev pub gen_keys_arguments : Namespace → Result Command
gen_keys_arguments args = do
  private_key ← text_of "private_key" args
  public_key ← text_of "public_key" args
  ok (gen_keys private_key public_key)

abbrev pub server_arguments : Namespace → Result Command
server_arguments args = do
  log_level ← text_of "log_level" args
  public_key ← text_of "public_key" args
  port ← integer_of "port" args
  timeout ← number_of "timeout" args
  ok (server log_level public_key port timeout)

abbrev pub client_arguments : Namespace → Result Command
client_arguments args = do
  log_level ← text_of "log_level" args
  private_key ← text_of "private_key" args
  device_name ← text_of "device_name" args
  timeout ← number_of "timeout" args
  pc_ip ← text_of "pc_ip" args
  pc_port ← integer_of "pc_port" args
  ok (client log_level private_key device_name timeout pc_ip pc_port)

abbrev pub daemon_arguments : Namespace → Result Command
daemon_arguments args = do
  config ← optional_text_of "config" args
  foreground ← attribute "foreground" args >>= as_truth
  ok (daemon config foreground)

abbrev pub init_config_arguments : Namespace → Result Command
init_config_arguments args = do path ← optional_text_of "path" args; ok (init_config path)

-- the handler that `args.func` is
unfoldable pub command_for : Func → Namespace → Result Command
command_for func_gen_keys args = gen_keys_arguments args
command_for func_server args = server_arguments args
command_for func_client args = client_arguments args
command_for func_daemon args = daemon_arguments args
command_for func_init_config args = init_config_arguments args
command_for func_pair args = ok pair

abbrev pub command_of : Namespace → Result Command
command_of args = command_for args.func args
