-- ===== src/State.antt =====
-- state.py: the device state in `state.json`.
pub mod Laws
use phonect.Prelude.{
  String, Bool, true, false, ◌||◌, Option, none, some, List, [], ◌∷◌, ◌++◌, if◌then◌else◌,
}
use phonect.Python.{
  Value, str, dict, Dict, empty, entry, get, Exception, attribute_error, is_os_error,
  is_value_error, Result, ok, raise,
}
use phonect.Python.Io.{Io, pure, throw, lift, catch, handle, continue, ◌>>=◌, ◌>>◌}
use phonect.Python.Paths.{PurePath, join, of_text, parent}
use phonect.Python.Disk.{Disk, exists, read_bytes, write_bytes, mkdir_parents}
use phonect.Bytes.{Bytes}
use phonect.Protocol.Frame.{Json}
use phonect.Config.Load.{Environment, default_config_dir}

pub record DeviceState : Type 0 where
  pub device_name : Value
  pub fingerprint : Value

-- `DeviceState()`
abbrev pub empty_state : DeviceState
empty_state = record { device_name = str ""; fingerprint = str "" }

-- `state_dir` is the directory of the configuration, and `state_path` the file in it
abbrev pub state_path : Environment → PurePath
state_path env = join (default_config_dir env) (of_text "state.json")

-- `path or state_path()`
abbrev pub path_or : Environment → Option PurePath → PurePath
path_or env none = state_path env
path_or env (some p) = p

-- `data.get(key, "")`
abbrev pub text_or_empty : Option Value → Value
text_or_empty none = str ""
text_or_empty (some v) = v

-- the state that a document describes; only a dict has the method `get`
unfoldable pub state_of : Value → Result DeviceState
state_of (dict d) = ok (record {
  device_name = text_or_empty (get "device_name" d);
  fingerprint = text_or_empty (get "fingerprint" d);
})
state_of _ = raise attribute_error

-- `asdict(state)`
abbrev pub dict_of : DeviceState → Dict
dict_of s = entry "device_name" s.device_name (entry "fingerprint" s.fingerprint empty)

-- `except (json.JSONDecodeError, OSError, ValueError)`
unfoldable pub use_defaults : Exception → Io Disk DeviceState
use_defaults e = if is_os_error e || is_value_error e then pure empty_state else throw e

module _ (json : Json) (env : Environment) where
  -- the body of the `try`
  abbrev pub read_state : PurePath → Io Disk DeviceState
  read_state p = do
    raw ← read_bytes p
    document ← lift (json.loads_utf8 raw)
    lift (state_of document)

  -- `load_state`
  unfoldable pub load_state : Option PurePath → Io Disk DeviceState
  load_state path disk =
      if exists disk (path_or env path)
      then catch (read_state (path_or env path)) use_defaults disk
      else (ok empty_state, disk)

  -- `save_state`, where `print d` is `json.dumps(d, indent=2)` in UTF-8
  unfoldable pub save_state : (Dict → Bytes) → DeviceState → Option PurePath → Io Disk PurePath
  save_state print s path = do
    mkdir_parents (parent (path_or env path))
    write_bytes (path_or env path) (print (dict_of s) ++ 10 ∷ [])
    pure (path_or env path)
