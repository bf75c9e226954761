-- ===== src/Config/Template/Meaning.antt =====
-- config.py: the template of `write_default_config` as a TOML document: what it says, told apart from how it
-- is written.
use phonect.Prelude.{String, false, List, [], ◌∷◌, ◌++◌, map, ◌≡◌, refl, if◌then◌else◌}
use phonect.Python.{pos, Value, bool, int, float, str, list, nil, dict, Dict, empty, entry}
use phonect.Python.Paths.{text_append}
use phonect.Python.Paths.Laws.{text_append_assoc}
use phonect.Bytes.{hex_digit}
use phonect.Daemon.Discovery.{int_text}
use phonect.Config.Template.{unlines, template}

-- A line of a table: a comment or nothing, or a key with its value.
pub data Line : Type 0 where
  comment : String → Line
  blank : Line
  pair : String → Value → Line

-- A document: the comments in front, and the tables with their lines.
pub record Section : Type 0 where
  pub name : String
  pub lines : List Line

pub record Document : Type 0 where
  pub front : List Line
  pub sections : List Section

-- How TOML writes the values that need no escapes: the others do not occur here.
abbrev pub written_value : Value → String
written_value (str s) = text_append "\"" (text_append s "\"")
written_value (int n) = int_text n
written_value (float t) = t
written_value (bool b) = if b then "true" else "false"
written_value (list nil) = "[]"
written_value _ = ""

abbrev pub written_line : Line → String
written_line (comment s) = text_append "#" s
written_line blank = ""
written_line (pair key v) = text_append key (text_append " = " (written_value v))

abbrev pub written_sections : List Section → List String
written_sections [] = []
written_sections (s ∷ ss) =
    text_append "[" (text_append s.name "]") ∷ (map written_line s.lines ++ written_sections ss)

abbrev pub written : Document → String
written d = unlines (map written_line d.front ++ written_sections d.sections)

-- What the lines and the tables say.
abbrev pub table_of : List Line → Dict
table_of [] = empty
table_of (comment _ ∷ ls) = table_of ls
table_of (blank ∷ ls) = table_of ls
table_of (pair key v ∷ ls) = entry key v (table_of ls)

abbrev pub meant : List Section → Dict
meant [] = empty
meant (s ∷ ss) = entry s.name (dict (table_of s.lines)) (meant ss)

-- The document of the template, for the text of the directory.
abbrev pub template_document : String → Document
template_document dir = record {
  front =
      comment " ── phonect daemon configuration ──────────────────────────────────────────"
      ∷ comment " See https://github.com/zumuvik/phonect"
      ∷ comment ""
      ∷ comment " Wi-Fi/TCP transport: the daemon advertises over UDP and listens on TCP."
      ∷ blank
      ∷ [];
  sections =
      record {
        name = "daemon";
        lines =
            pair "listen_host" (str "0.0.0.0")
            ∷ pair "listen_port" (int (pos 9876))
            ∷ comment " Seconds between UDP discovery broadcasts during an auth window"
            ∷ pair "poll_interval" (float "0.3")
            ∷ comment
                " Maximum seconds to advertise and accept one TCP auth after wake/manual/start"
            ∷ pair "poll_timeout" (float "15.0")
            ∷ comment " Unlock active sessions with loginctl, or run one static local command argv."
            ∷ pair "unlock_backend" (str "loginctl")
            ∷ pair "unlock_command" (list nil)
            ∷ blank
            ∷ [];
      }
      ∷ record {
        name = "keys";
        lines =
            comment " Path to the PC's own private key (PEM) — generate with: phonect gen-keys"
            ∷ pair "private_key" (str (text_append dir "/pc_private.pem"))
            ∷ comment " Path to the trusted mobile device public key (PEM) — auto-populated by"
            ∷ comment " Trust-On-First-Use on the first successful connection"
            ∷ pair "public_key" (str (text_append dir "/trusted_device.pub"))
            ∷ blank
            ∷ [];
      }
      ∷ record {
        name = "device";
        lines =
            comment " Human-friendly PC name shown during pairing"
            ∷ pair "pc_name" (str "my-laptop")
            ∷ comment " Run one auth cycle when the daemon starts"
            ∷ pair "unlock_on_start" (bool false)
            ∷ blank
            ∷ [];
      }
      ∷ record { name = "logging"; lines = pair "level" (str "INFO") ∷ [] }
      ∷ [];
}

-- The template is that document, written line by line.
pub template-written : (dir : String) → template dir ≡ written (template_document dir)
unfolding template int_text hex_digit
template-written dir =
    rw
      (
        text_append_assoc dir "/pc_private.pem" "\"",
        text_append_assoc dir "/trusted_device.pub" "\"",
      )
      refl
