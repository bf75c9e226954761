-- ===== src/Config/Load.antt =====
-- config.py: `DaemonConfig` with its defaults, and `load_config`. What the TOML file gives for a setting
-- is kept as it is, of whatever type, where the source keeps it so.
pub mod Tables
pub mod Laws
use phonect.Prelude.{
  ℕ, String, Bool, true, false, not, ◌&&◌, ◌||◌, Option, none, some, List, [], ◌∷◌, ◌==◌, str_eq,
  if◌then◌else◌,
}
use phonect.Python.{
  ℤ, pos, negsuc, Value, null, bool, int, float, str, list, dict, nil, item, Dict, empty, entry,
  get, Exception, attribute_error, type_error, Result, ok, raise, ◌>>=◌, ◌>>◌,
}
use phonect.Python.Io.{Io, lift}
use phonect.Python.Io
use phonect.Python.Paths.{PurePath, of_text, join, parent, expanduser}
use phonect.Python.Disk.{Disk, exists, read_bytes}
use phonect.Bytes.{Bytes}
use phonect.Config.{UnlockConfig, validate_unlock_config}

-- The parser of TOML and the conversions between numbers and texts: `loads_utf8 b` is
-- `tomllib.loads(b.decode("utf-8"))`, the others are `int` and `float` of a float, an integer or a text.
pub record Toml : Type 0 where
  pub loads_utf8 : Bytes → Result Dict
  pub int_of_float : String → Result ℤ
  pub int_of_text : String → Result ℤ
  pub float_of_int : ℤ → Result String
  pub float_of_text : String → Result String

-- What the process finds round it: XDG_CONFIG_HOME, `Path.home()`, and the home directories of names.
pub record Environment : Type 0 where
  pub xdg_config_home : Option String
  pub home : PurePath
  pub home_of : String → Option PurePath

-- A float is kept as its text, as in `Value`.
pub record DaemonConfig : Type 0 where
  pub pc_name : Value
  pub private_key_path : PurePath
  pub public_key_path : PurePath
  pub unlock_on_start : Value
  pub listen_host : Value
  pub listen_port : ℤ
  pub poll_interval : String
  pub poll_timeout : String
  pub unlock_backend : Value
  pub unlock_command : Value
  pub log_level : Value
  pub config_dir : PurePath

-- `DaemonConfig(config_dir=dir)`
abbrev pub defaults : PurePath → DaemonConfig
defaults dir = record {
  pc_name = str "";
  private_key_path = of_text "/nonexistent";
  public_key_path = of_text "/nonexistent";
  unlock_on_start = bool false;
  listen_host = str "0.0.0.0";
  listen_port = pos 9876;
  poll_interval = "0.3";
  poll_timeout = "15.0";
  unlock_backend = str "loginctl";
  unlock_command = list nil;
  log_level = str "INFO";
  config_dir = dir;
}

-- the two settings that `validate_unlock_config` reads
abbrev pub unlock_config : DaemonConfig → UnlockConfig
unlock_config c = record { unlock_backend = c.unlock_backend; unlock_command = c.unlock_command }

abbrev pub public_key_file : PurePath → PurePath
public_key_file dir = join dir (of_text "trusted_device.pub")

abbrev pub private_key_file : PurePath → PurePath
private_key_file dir = join dir (of_text "pc_private.pem")

-- `_default_config_dir` and `default_config_path`
abbrev pub default_config_dir : Environment → PurePath
default_config_dir env = elim env.xdg_config_home [
  | none ↦ join (join env.home (of_text ".config")) (of_text "phonect")
  | some xdg ↦
      if str_eq xdg ""
      then join (join env.home (of_text ".config")) (of_text "phonect")
      else join (of_text xdg) (of_text "phonect")
]

abbrev pub default_config_path : Environment → PurePath
default_config_path env = join (default_config_dir env) (of_text "config.toml")

-- `path or default_config_path()`
abbrev pub config_path : Environment → Option PurePath → PurePath
config_path env none = default_config_path env
config_path env (some p) = p

-- `bool(value)`
unfoldable pub truthy : Value → Bool
truthy null = false
truthy (bool b) = b
truthy (int (pos n)) = not (n == 0)
truthy (int (negsuc n)) = true
truthy (float t) = not (str_eq t "0.0" || str_eq t "-0.0")
truthy (str s) = not (str_eq s "")
truthy (list nil) = false
truthy (list (item _ _)) = true
truthy (dict empty) = false
truthy (dict (entry _ _ _)) = true

-- `data.get(key, {})`, of which `.get` is then called
abbrev pub as_table : Option Value → Result Dict
as_table none = ok empty
as_table (some (dict d)) = ok d
as_table (some _) = raise attribute_error

-- `table.get(key, default)`
abbrev pub setting : String → Value → Dict → Value
setting key default d = elim (get key d) [ none ↦ default | some v ↦ v ]

-- `Path(value).expanduser()`
abbrev pub path_value : Environment → Value → Result PurePath
path_value env (str s) = expanduser env.home_of (of_text s)
path_value env _ = raise type_error

-- a path of [keys], or the default beside the configuration file
unfoldable pub key_path : Environment → Value → PurePath → Result PurePath
key_path env v default = if truthy v then path_value env v else ok default

module _ (toml : Toml) where
  -- `int(value)` and `float(value)`
  unfoldable pub to_int : Value → Result ℤ
  to_int (bool true) = ok (pos 1)
  to_int (bool false) = ok (pos 0)
  to_int (int n) = ok n
  to_int (float t) = toml.int_of_float t
  to_int (str s) = toml.int_of_text s
  to_int _ = raise type_error

  unfoldable pub to_float : Value → Result String
  to_float (bool true) = ok "1.0"
  to_float (bool false) = ok "0.0"
  to_float (int n) = toml.float_of_int n
  to_float (float t) = ok t
  to_float (str s) = toml.float_of_text s
  to_float _ = raise type_error

  -- the settings of the four tables, from the top of the file to the bottom
  unfoldable pub apply_keys : Environment → Dict → DaemonConfig → Result DaemonConfig
  apply_keys env keys c = do
    public ← key_path env (setting "public_key" (str "") keys) (public_key_file c.config_dir)
    private ← key_path env (setting "private_key" (str "") keys) (private_key_file c.config_dir)
    ok (record c { public_key_path = public; private_key_path = private })

  unfoldable pub apply_device : Dict → DaemonConfig → DaemonConfig
  apply_device device c = record c {
    pc_name = setting "pc_name" c.pc_name device;
    unlock_on_start = setting "unlock_on_start" c.unlock_on_start device;
  }

  unfoldable pub apply_daemon : Dict → DaemonConfig → Result DaemonConfig
  apply_daemon daemon c = do
    port ← to_int (setting "listen_port" (int c.listen_port) daemon)
    interval ← to_float (setting "poll_interval" (float c.poll_interval) daemon)
    timeout ← to_float (setting "poll_timeout" (float c.poll_timeout) daemon)
    ok (record c {
      listen_host = setting "listen_host" c.listen_host daemon;
      listen_port = port;
      poll_interval = interval;
      poll_timeout = timeout;
      unlock_backend = setting "unlock_backend" c.unlock_backend daemon;
      unlock_command = setting "unlock_command" c.unlock_command daemon;
      pc_name = setting "pc_name" c.pc_name daemon;
      unlock_on_start = setting "unlock_on_start" c.unlock_on_start daemon;
    })

  -- `load_config` for a file that holds `data`
  unfoldable pub parse_config : Environment → PurePath → Dict → Result DaemonConfig
  parse_config env dir document = do
    keys ← as_table (get "keys" document)
    with_keys ← apply_keys env keys (defaults dir)
    device ← as_table (get "device" document)
    daemon ← as_table (get "daemon" document)
    with_daemon ← apply_daemon daemon (apply_device device with_keys)
    logging ← as_table (get "logging" document)
    let loaded : DaemonConfig = record with_daemon {
      log_level = setting "level" with_daemon.log_level logging;
    }
    validate_unlock_config (unlock_config loaded)
    ok loaded

  -- the paths of a configuration for which there is no file
  abbrev pub missing_config : PurePath → DaemonConfig
  missing_config dir = record (defaults dir) {
    public_key_path = public_key_file dir;
    private_key_path = private_key_file dir;
  }

  abbrev parse_file : Environment → PurePath → Bytes → Result DaemonConfig
  parse_file env cfg_path raw = do
    document ← toml.loads_utf8 raw
    parse_config env (parent cfg_path) document

  -- `load_config`
  unfoldable pub load_config : Environment → Option PurePath → Io Disk DaemonConfig
  load_config env path disk =
      if exists disk (config_path env path)
      then Io.◌>>=◌ (read_bytes (config_path env path))
          (λ raw. lift (parse_file env (config_path env path) raw)) disk
      else (ok (missing_config (parent (config_path env path))), disk)
