-- ===== src/Daemon/Boot.antt =====
-- daemon.py: `run_daemon`, from the configuration file to a daemon whose `run` waits for a wakeup.
pub mod Laws
pub mod Restart
use phonect.Prelude.{Bool, true, Option, none, some, if◌then◌else◌, String}
use phonect.Python.{
  Value, str, Exception, attribute_error, not_implemented_error, is_value_error, Result, ok, raise,
}
use phonect.Python.Io.{Io, pure, throw, lift, continue, ◌>>=◌, ◌>>◌}
use phonect.Python.Paths.{PurePath}
use phonect.Python.Disk.{Disk, is_file}
use phonect.Bytes.{Bytes}
use phonect.Crypto.{Cryptography}
use phonect.Config.Load.{Toml, Environment, DaemonConfig, unlock_config, truthy, load_config}
use phonect.Config.Keys.{trusted_key_pem, pc_private_key_pem, has_trusted_key}
use phonect.Daemon.Start.{initial_pc_key, initial_trusted_key}
use phonect.Daemon.Window.{Daemon, started}

-- a file that a test of its path finds is read
abbrev pub read_if : Bool → Io Disk Bytes → Disk → Option (Result Bytes)
read_if found reading disk = if found then some (reading disk).0 else none

-- `_configure_logging`, where `basic_config` sets the level that the name in capitals stands for
unfoldable pub configure_logging : (String → Result (Unit {0})) → Value → Result (Unit {0})
configure_logging basic_config (str level) = basic_config level
configure_logging basic_config _ = raise attribute_error

-- The platform has no such signal, or no handlers for it: these are passed over.
unfoldable pub is_unsupported : Exception → Bool
is_unsupported attribute_error = true
is_unsupported not_implemented_error = true
is_unsupported e = is_value_error e

-- `add_signal_handler` for the signal of this name, where `adding` is how it ends
unfoldable pub add_handler : (String → Result (Unit {0})) → String → Result (Unit {0})
add_handler adding signal = elim (adding signal) [
  | ok _ ↦ ok tt
  | raise e ↦ if is_unsupported e then ok tt else raise e
]

module _ (crypto : Cryptography) where
  open crypto use {PublicKey, PrivateKey}

  -- the two keys that `PhonectDaemon.__init__` loads
  unfoldable pub load_pc_key : DaemonConfig → Disk → Option PrivateKey
  load_pc_key c disk =
      initial_pc_key crypto (read_if (is_file disk c.private_key_path) (pc_private_key_pem c) disk)

  unfoldable pub load_trusted_key : DaemonConfig → Disk → Option PublicKey
  load_trusted_key c disk =
      initial_trusted_key crypto (read_if (has_trusted_key disk c) (trusted_key_pem c) disk)

  -- A daemon at the first test of the loop in `run`, with the PC's key and the configuration.
  pub record Booted : Type 0 where
    pub config : DaemonConfig
    pub pc_private_key : Option PrivateKey
    pub daemon : Daemon PublicKey

  -- `PhonectDaemon(config)` and the first lines of `run`; the daemon has written no key yet
  abbrev pub new_daemon : DaemonConfig → Disk → Booted
  new_daemon c disk = record {
    config = c;
    pc_private_key = load_pc_key c disk;
    daemon = started (unlock_config c) (truthy c.unlock_on_start) (load_trusted_key c disk) none;
  }

  -- `run_daemon`, where `adding` is how `add_signal_handler` ends for each signal, and `listening` how
  -- `start_server` does; D-Bus may be there or not
  unfoldable pub run_daemon :
      Toml
      → Environment
      → (String → Result (Unit {0}))
      → (String → Result (Unit {0}))
      → Result (Unit {0})
      → Option PurePath
      → Io Disk Booted
  run_daemon toml env basic_config adding listening config_path = do
    config ← load_config toml env config_path
    lift (configure_logging basic_config config.log_level)
    booted ← λ disk. (ok (new_daemon config disk), disk)
    lift (add_handler adding "SIGTERM")
    lift (add_handler adding "SIGINT")
    lift (add_handler adding "SIGUSR1")
    lift listening
    pure booted
