-- ===== src/Config/Load/Laws.antt =====
-- config.py: what a configuration that `load_config` returns is like.
use phonect.Prelude.{false, Option, some, ◌≡◌, refl, ◌∙◌, ap, sym, Bool-cases, inl, inr}
use mathlib.Core.Path.{subst}
use phonect.Python.{Dict, Result, ok, raise}
use phonect.Python.Io.{lift, continue}
use phonect.Python.Paths.{PurePath, parent}
use phonect.Python.Disk.{Disk, exists, read_bytes}
use phonect.Python.Disk.Laws.{read_bytes-disk, read_bytes-eq-ok}
use phonect.Bytes.{Bytes}
use phonect.Config.{text_list}
use phonect.Config.Unlock.{IsUnlock, loginctl}
use phonect.Config.Load.{
  Toml, Environment, DaemonConfig, unlock_config, config_path, parse_config, parse_file,
  missing_config, load_config,
}
use phonect.Python.Results.{>>=-Ensures, ok_injective}
use phonect.Config.Load.Tables.{Loaded, parse_config-Loaded}

module _ (toml : Toml) (env : Environment) where
  -- Where a configuration comes from: there is no file and it is the default one, or a file is there
  -- and its document says so.
  pub data Source (disk : Disk) (p : PurePath) (c : DaemonConfig) : Type 0 where
    defaulted : exists disk p ≡ false → c ≡ missing_config toml (parent p) → Source disk p c
    read_from :
        (raw : Bytes) (document : Dict)
        → disk.files p ≡ some raw
        → toml.loads_utf8 raw ≡ ok document
        → Loaded toml env (parent p) document c
        → Source disk p c

  -- A configuration that `load_config` returns is the default one where there is no file, and otherwise
  -- each setting is the one that the file gives, [daemon] before [device] before the default, converted
  -- where it is a number, and its unlock settings can be carried out. The disk is as it was.
  pub load_config-Source :
      (path : Option PurePath) (disk : Disk) (c : DaemonConfig)
      → (load_config toml env path disk).0 ≡ ok c
      → Source disk (config_path env path) c × ((load_config toml env path disk).1 ≡ disk)
  unfolding load_config
  load_config-Source path disk c h = elim (Bool-cases (exists disk (config_path env path))) [
    | inl there ↦
        rw there (by_reading (read_bytes (config_path env path) disk) refl (rw there at h))
    | inr missing ↦ rw missing (defaulted missing (sym (ok_injective (rw missing at h))), refl)
  ]
    where
      p : PurePath
      p = config_path env path

      by_reading :
          (q : Result Bytes × Disk)
          → q ≡ read_bytes p disk
          → (continue q (λ raw. lift (parse_file toml env p raw))).0 ≡ ok c
          → Source disk p c × ((continue q (λ raw. lift (parse_file toml env p raw))).1 ≡ disk)
      by_reading (raise e, d) same h = cc
      by_reading (ok raw, d) same h = (
        >>=-Ensures (λ c'. Source disk p c') (toml.loads_utf8 raw)
            (parse_config toml env (parent p))
            (λ document parsed c' e.
              read_from raw document (read_bytes-eq-ok p disk raw (ap (λ q. q.0) (sym same))) parsed
                (parse_config-Loaded toml env (parent p) document c' e))
            c h,
        ap (λ q. q.1) same ∙ read_bytes-disk p disk,
      )

  missing_config-IsUnlock : (dir : PurePath) → IsUnlock (unlock_config (missing_config toml dir))
  unfolding text_list
  missing_config-IsUnlock dir = loginctl refl refl

  Source-IsUnlock :
      (disk : Disk) (p : PurePath) (c : DaemonConfig) → Source disk p c → IsUnlock (unlock_config c)
  Source-IsUnlock disk p c (defaulted missing e) =
      subst (λ w. IsUnlock (unlock_config w)) (sym e) (missing_config-IsUnlock (parent p))
  Source-IsUnlock disk p c (read_from raw document there parsed loaded) = loaded.settings

  -- The unlock settings of every configuration that `load_config` returns can be carried out.
  pub load_config-IsUnlock :
      (path : Option PurePath) (disk : Disk) (c : DaemonConfig)
      → (load_config toml env path disk).0 ≡ ok c
      → IsUnlock (unlock_config c)
  load_config-IsUnlock path disk c h =
      Source-IsUnlock disk (config_path env path) c (load_config-Source path disk c h).0
