-- ===== src/Config/Template.antt =====
-- config.py: `write_default_config`.
pub mod Meaning
pub mod Laws
use phonect.Prelude.{String, false, Option, none, some, List, [], ◌∷◌}
use phonect.Python.{
  pos, Value, bool, int, float, str, list, nil, dict, Dict, empty, entry, Result, ok,
}
use phonect.Python.Io.{Io, pure, ◌>>=◌, ◌>>◌}
use phonect.Python.Paths.{PurePath, text_append, parent, show}
use phonect.Python.Disk.{Disk, mkdir_parents, write_bytes}
use phonect.Bytes.{Bytes, utf8}
use phonect.Config.Load.{Environment, config_path}

abbrev pub unlines : List String → String
unlines [] = ""
unlines (x ∷ xs) = text_append x (text_append "\n" (unlines xs))

-- a line that names a file of the directory
abbrev path_line : String → String → String → String
path_line key dir name =
    text_append key (text_append " = \"" (text_append dir (text_append name "\"")))

-- the template, for the text of the directory
unfoldable pub template : String → String
template dir = unlines (
    "# ── phonect daemon configuration ──────────────────────────────────────────"
    ∷ "# See https://github.com/zumuvik/phonect"
    ∷ "#"
    ∷ "# Wi-Fi/TCP transport: the daemon advertises over UDP and listens on TCP."
    ∷ ""
    ∷ "[daemon]"
    ∷ "listen_host = \"0.0.0.0\""
    ∷ "listen_port = 9876"
    ∷ "# Seconds between UDP discovery broadcasts during an auth window"
    ∷ "poll_interval = 0.3"
    ∷ "# Maximum seconds to advertise and accept one TCP auth after wake/manual/start"
    ∷ "poll_timeout = 15.0"
    ∷ "# Unlock active sessions with loginctl, or run one static local command argv."
    ∷ "unlock_backend = \"loginctl\""
    ∷ "unlock_command = []"
    ∷ ""
    ∷ "[keys]"
    ∷ "# Path to the PC's own private key (PEM) — generate with: phonect gen-keys"
    ∷ path_line "private_key" dir "/pc_private.pem"
    ∷ "# Path to the trusted mobile device public key (PEM) — auto-populated by"
    ∷ "# Trust-On-First-Use on the first successful connection"
    ∷ path_line "public_key" dir "/trusted_device.pub"
    ∷ ""
    ∷ "[device]"
    ∷ "# Human-friendly PC name shown during pairing"
    ∷ "pc_name = \"my-laptop\""
    ∷ "# Run one auth cycle when the daemon starts"
    ∷ "unlock_on_start = false"
    ∷ ""
    ∷ "[logging]"
    ∷ "level = \"INFO\""
    ∷ [])

-- `write_default_config`
unfoldable pub write_default_config : Environment → Option PurePath → Io Disk PurePath
write_default_config env path = do
  mkdir_parents (parent (config_path env path))
  write_bytes (config_path env path) (utf8 (template (show (parent (config_path env path)))))
  pure (config_path env path)
