-- ===== src/Tests/Configs.antt =====
-- config.py and state.py at concrete inputs.
use phonect.Prelude.{true, false, none, some, [], ◌∷◌, ◌≡◌, ◌≢◌, refl, ap, arith}
use phonect.Python.{
  pos, Value, null, str, int, item, nil, list, dict, Dict, empty, entry, attribute_error, ok, raise,
}
use phonect.Python.Paths.{PurePath, parent, show}
use phonect.Python.Paths.Laws.{IsName}
use phonect.Python.Disk.{Disk, exists, read_bytes, write_bytes, mkdir_parents}
use phonect.Protocol.Frame.{Json}
use phonect.Config.{text_list, validate_unlock_config, backend_name, is_blank}
use phonect.Config.Load.{
  Toml, Environment, DaemonConfig, load_config, missing_config, parse_config, truthy, key_path,
  to_int, to_float, apply_keys, apply_device, apply_daemon,
}
use phonect.Config.Load.Laws.{Source, load_config-Source}
use phonect.Config.Template.{write_default_config}
use phonect.Config.Template.Meaning.{template_document, meant}
use phonect.Config.Template.Laws.{template_config, load_config-write_default_config}
use phonect.State.{DeviceState, dict_of, load_state, save_state}
use phonect.State.Laws.{load_state-save_state, load_state_not_object}

-- TOML that knows one document
abbrev pub toml_of : Dict → Toml
toml_of document = record {
  loads_utf8 = λ raw. ok document;
  int_of_float = λ text. ok (pos 0);
  int_of_text = λ text. ok (pos 0);
  float_of_int = λ n. ok "1.0";
  float_of_text = λ text. ok text;
}

abbrev pub env : Environment
env = record {
  xdg_config_home = none;
  home = record { root = 1; parts = "h" ∷ [] };
  home_of = λ name. none;
}

abbrev pub bare_disk : Disk
bare_disk = record { dirs = λ p. false; files = λ p. none; denied = λ p. none }

-- a disk on which every path is a file with the one byte "T"
abbrev pub full_disk : Disk
full_disk = record { dirs = λ p. false; files = λ p. some (84 ∷ []); denied = λ p. none }

abbrev pub config_file : PurePath
config_file = record { root = 1; parts = "phonect" ∷ "config.toml" ∷ [] }

abbrev pub document : Dict
document =
    entry "daemon"
      (dict (
        entry "listen_port" (int (pos 4000)) (
          entry "unlock_backend" (str "command") (
            entry "unlock_command" (list (item (str "loginctl") (item (str "unlock-sessions") nil)))
              empty))))
      empty

abbrev pub loaded : DaemonConfig
loaded = record (missing_config (toml_of document) (parent config_file)) {
  listen_port = pos 4000;
  unlock_backend = str "command";
  unlock_command = list (item (str "loginctl") (item (str "unlock-sessions") nil));
}

pub load_config-loaded :
    load_config (toml_of document) env (some config_file) full_disk ≡ (ok loaded, full_disk)
unfolding load_config exists read_bytes parse_config truthy key_path to_int to_float apply_keys
    apply_device apply_daemon text_list validate_unlock_config backend_name is_blank
load_config-loaded = refl

load_config-Source_example :
    Source (toml_of document) env full_disk config_file loaded
    × ((load_config (toml_of document) env (some config_file) full_disk).1 ≡ full_disk)
load_config-Source_example =
    load_config-Source (toml_of document) env (some config_file) full_disk loaded
      (ap (λ q. q.0) load_config-loaded)

phonect_name : IsName "phonect"
phonect_name = record { no_slash = ground arith; not_empty = refl; not_dot = refl }

abbrev template_toml : Toml
template_toml =
    toml_of
      (meant (template_document (show (record { root = 1; parts = "phonect" ∷ [] }))).sections)

config_dir : parent config_file ≡ record { root = 1; parts = "phonect" ∷ [] }
unfolding parent
config_dir = refl

config_written : (write_default_config env (some config_file) bare_disk).0 ≡ ok config_file
unfolding write_default_config mkdir_parents write_bytes parent
config_written = refl

load_config-write_default_config_example :
    (load_config template_toml env
      (some config_file)
      (write_default_config env (some config_file) bare_disk).1).0
    ≡ ok (template_config template_toml env "phonect" [] phonect_name tt)
load_config-write_default_config_example =
    load_config-write_default_config template_toml env "phonect" [] phonect_name tt
      (some config_file) bare_disk config_dir refl config_written

-- JSON that knows the state of one phone, printed as the byte 83
abbrev phone_state : DeviceState
phone_state = record { device_name = str "pixel"; fingerprint = str "05" }

abbrev state_json : Value → Json
state_json v = record { dumps = λ d. []; loads = λ raw. ok v; loads_utf8 = λ raw. ok v }

state_written :
    (save_state
      (state_json (dict (dict_of phone_state)))
      env
      (λ d. 83 ∷ [])
      phone_state
      (some config_file)
      bare_disk).0
    ≡ ok config_file
unfolding save_state mkdir_parents write_bytes parent
state_written = refl

load_state-save_state_example :
    load_state
      (state_json (dict (dict_of phone_state)))
      env
      (some config_file)
      (save_state
        (state_json (dict (dict_of phone_state)))
        env
        (λ d. 83 ∷ [])
        phone_state
        (some config_file)
        bare_disk).1
    ≡ (
      ok phone_state,
      (save_state
          (state_json (dict (dict_of phone_state)))
          env
          (λ d. 83 ∷ [])
          phone_state
          (some config_file)
          bare_disk).1,
    )
load_state-save_state_example =
    load_state-save_state (state_json (dict (dict_of phone_state))) env (λ d. 83 ∷ []) phone_state
      (some config_file) bare_disk refl state_written

full_disk-exists : exists full_disk config_file ≡ true
unfolding exists
full_disk-exists = refl

full_disk-read : read_bytes config_file full_disk ≡ (ok (84 ∷ []), full_disk)
unfolding read_bytes
full_disk-read = refl

null-not-dict : (d : Dict) → null ≢ dict d
null-not-dict d e = cc

load_state-null :
    load_state (state_json null) env (some config_file) full_disk
    ≡ (raise attribute_error, full_disk)
load_state-null =
    load_state_not_object (state_json null) env (some config_file) full_disk (84 ∷ []) null
      full_disk-exists full_disk-read refl null-not-dict
