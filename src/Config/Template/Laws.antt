-- ===== src/Config/Template/Laws.antt =====
-- config.py: `write_default_config` and then `load_config`.
use Prim.Native.Char.{Char}
use phonect.Prelude.{
  eq_iff, Bool-cases, inl, inr, String, false, Option, List, [], ◌∷◌, ◌++◌, All, ◌≡◌, refl, ap,
  arith, str_eq,
}
use phonect.Python.{str, list, nil, ok}
use phonect.Python.Paths.{
  PurePath, text_append, join_names, parent, show, join, of_text, expanduser,
}
use phonect.Python.Paths.Laws.{IsName, of_text_file}
use phonect.Python.Io.{pure, continue-eq-ok, ◌>>◌}
use phonect.Python.Disk.Laws.{write_bytes-eq-ok, read_bytes-set_file, exists-set_file}
use phonect.Python.Disk.{Disk, mkdir_parents, write_bytes}
use phonect.Bytes.{Bytes, utf8}
use phonect.Config.{text_list, validate_unlock_config}
use phonect.Config.Unlock.{loginctl, validate_unlock_config_iff}
use phonect.Config.Load.{
  Toml, Environment, DaemonConfig, config_path, load_config, parse_config, apply_keys, apply_device,
  apply_daemon, key_path, to_int, to_float, truthy, public_key_file, private_key_file,
  missing_config,
}
use phonect.Config.Template.{template, write_default_config}
use phonect.Config.Template.Meaning.{template_document, written, meant, template-written}

private_name : IsName "pc_private.pem"
private_name = record { no_slash = ground arith; not_empty = refl; not_dot = refl }

public_name : IsName "trusted_device.pub"
public_name = record { no_slash = ground arith; not_empty = refl; not_dot = refl }

cons-not-empty : (c : Char) (s : String) → str_eq (String.◌∷◌ c s) "" ≡ false
cons-not-empty c s = elim (Bool-cases (str_eq (String.◌∷◌ c s) "")) [
  | inl same ↦ cc ((eq_iff (String.◌∷◌ c s) "").0 same)
  | inr differs ↦ differs
]

default_settings :
    validate_unlock_config (record { unlock_backend = str "loginctl"; unlock_command = list nil })
    ≡ ok tt
unfolding text_list
default_settings = (validate_unlock_config_iff _).0.1 (loginctl refl refl)

module _ (toml : Toml) (env : Environment) (x : String) (xs : List String) (hx : IsName x)
    (hs : All IsName xs) where
  abbrev dir : PurePath
  dir = record { root = 1; parts = x ∷ xs }

  -- the default configuration, but for the name of the computer
  abbrev pub template_config : DaemonConfig
  template_config = record (missing_config toml dir) { pc_name = str "my-laptop" }

  key_path-file :
      (y : String) (default : PurePath)
      → IsName y
      → key_path env (str (text_append (show dir) (text_append "/" y))) default
        ≡ ok (record { root = 1; parts = x ∷ (xs ++ y ∷ []) })
  unfolding key_path truthy expanduser show
  key_path-file y default hy =
      rw (cons-not-empty _ (text_append (join_names (x ∷ xs)) (text_append "/" y)))
        (rw (of_text_file x xs y hx hs hy) refl)

  parse_config-template :
      parse_config toml env dir (meant (template_document (show dir)).sections) ≡ ok template_config
  unfolding parse_config apply_keys apply_device apply_daemon to_int to_float join of_text
  parse_config-template = rw (
    key_path-file "trusted_device.pub" (public_key_file dir) public_name,
    key_path-file "pc_private.pem" (private_key_file dir) private_name,
    default_settings,
  )

  -- Where `write_default_config` succeeds for a file in an absolute directory with ordinary names, and
  -- TOML reads the text of a document, the one of comments, tables, keys and values that the template is
  -- meant to be, as what these say, `load_config` then reads the template as the defaults, with the key
  -- files in that directory, but for the name "my-laptop".
  pub load_config-write_default_config :
      (path : Option PurePath) (disk : Disk)
      → parent (config_path env path) ≡ dir
      → toml.loads_utf8 (utf8 (written (template_document (show dir))))
        ≡ ok (meant (template_document (show dir)).sections)
      → (write_default_config env path disk).0 ≡ ok (config_path env path)
      → (load_config toml env path (write_default_config env path disk).1).0 ≡ ok template_config
  unfolding write_default_config load_config
  load_config-write_default_config path disk h parsed written =
      let p : PurePath = config_path env path in
      let text : Bytes = utf8 (template (show (parent p))) in
      let (_, d1, made, h1) =
        continue-eq-ok (mkdir_parents (parent p) disk) (λ _. write_bytes p text >> pure p)
          written in
      let (_, _, wrote, _) = continue-eq-ok (write_bytes p text d1) (λ _. pure p) h1 in
      let (same, free) = write_bytes-eq-ok p text d1 (ap (λ q. q.0) wrote) in
      rw
        (
          made,
          same,
          exists-set_file p text d1,
          read_bytes-set_file p text d1 free,
          h,
          template-written (show dir),
          parsed,
        )
        parse_config-template
