-- ===== src/Cli/Run.antt =====
-- cli.py: `cmd_daemon` up to the loop of the daemon, and `main` behind the parsing of the arguments.
use phonect.Prelude.{ℕ, String, List, Option}
use phonect.Python.{ProtocolFault, Result}
use phonect.Python.Io.{Io, pure, lift, ◌>>=◌, ◌>>◌}
use phonect.Python.Disk.{Disk}
use phonect.Protocol.Frame.{Json}
use phonect.Crypto.{Cryptography}
use phonect.Config.Load.{Toml, Environment}
use phonect.Daemon.Boot.{Booted, run_daemon}
use phonect.Cli.Parser.{
  ArgumentParser, build_parser, Namespace, Command, gen_keys, server, client, daemon, init_config,
  pair, command_of,
}
use phonect.Cli.{path_argument, Network, cmd_gen_keys, cmd_server, cmd_client, cmd_init_config}

-- What `parse_args` does: it stops the process with a status, for a wrong command line or one that asks
-- for help, or returns.
pub data Parsed : Type 0 where
  stopped : ℕ → Parsed
  parsed : Namespace → Parsed

-- What the process finds: `argparse`, TOML, the environment, the network, and the key that is drawn.
pub record System (crypto : Cryptography) : Type 0 where
  pub parse_args : ArgumentParser → List String → Parsed
  pub toml : Toml
  pub env : Environment
  pub network : Network
  -- how `add_signal_handler` and `start_server` of the daemon end
  pub adding : String → Result (Unit {0})
  pub serving : Result (Unit {0})
  pub drawn_key : crypto.PrivateKey
  pub basic_config : String → Result (Unit {0})

-- The process exits with a status, or goes on as a daemon.
pub data Outcome (crypto : Cryptography) : Type 0 where
  exits : ℕ → Outcome crypto
  serves : Booted crypto → Outcome crypto

module _ (crypto : Cryptography) (json : Json) (str_fault : ProtocolFault → String) where
  -- `cmd_daemon`
  unfoldable pub cmd_daemon : System crypto → Option String → Io Disk (Booted crypto)
  cmd_daemon sys config =
      run_daemon crypto sys.toml sys.env sys.basic_config sys.adding sys.serving
        (path_argument config)

  -- the handler of a command; one that returns lets the process exit with 0
  unfoldable pub run_command : System crypto → Command → Io Disk (Outcome crypto)
  run_command sys (gen_keys private_key public_key) =
      cmd_gen_keys crypto sys.drawn_key private_key public_key >> pure (exits 0)
  run_command sys (server log_level public_key port timeout) =
      cmd_server crypto json str_fault sys.network public_key port timeout >>= λ status.
      pure (exits status)
  run_command sys (client log_level private_key device_name timeout pc_ip pc_port) =
      cmd_client crypto json str_fault sys.network private_key pc_ip pc_port device_name timeout
      >>= λ status. pure (exits status)
  run_command sys (daemon config foreground) =
      cmd_daemon sys config >>= λ booted. pure (serves booted)
  run_command sys (init_config path) = cmd_init_config sys.env path >>= λ _. pure (exits 0)
  run_command sys pair = pure (exits 0)

  -- `args.func(args)`
  abbrev pub call_func : System crypto → Namespace → Io Disk (Outcome crypto)
  call_func sys args = do command ← lift (command_of args); run_command sys command

  -- `main` behind `parse_args`
  unfoldable pub main_parsed : System crypto → Parsed → Io Disk (Outcome crypto)
  main_parsed sys (stopped status) = pure (exits status)
  main_parsed sys (parsed args) = call_func sys args

  -- `main`
  abbrev pub main : System crypto → List String → Io Disk (Outcome crypto)
  main sys argv = main_parsed sys (sys.parse_args build_parser argv)
