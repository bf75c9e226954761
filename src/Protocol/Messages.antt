-- ===== src/Protocol/Messages.antt =====
-- protocol.py: the message builders. `fresh` is the text that `uuid.uuid4().hex` gives.
use phonect.Prelude.{String, Option, none, some, str_eq, if◌then◌else◌}
use phonect.Python.{Value, int, str, pos, Dict, empty, entry, append}
use phonect.Bytes.{Bytes, hex}

abbrev pub protocol_version : Value
protocol_version = int (pos 1)

abbrev pub msg_challenge : String
msg_challenge = "challenge"

abbrev pub msg_response : String
msg_response = "response"

abbrev pub msg_error : String
msg_error = "error"

abbrev pub msg_pair_hello : String
msg_pair_hello = "pair_hello"

abbrev pub msg_pair_accept : String
msg_pair_accept = "pair_accept"

-- `session_id or uuid.uuid4().hex`
session_or : Option String → String → String
session_or none fresh = fresh
session_or (some s) fresh = if str_eq s "" then fresh else s

-- `if value is not None: msg[key] = …`
append_some : Dict → String → Option String → Dict
append_some d key none = d
append_some d key (some s) = append d key (str s)

abbrev hex_some : Option Bytes → Option String
hex_some none = none
hex_some (some b) = some (hex b)

unfoldable pub make_challenge : String → Bytes → Option String → Option String → Option Bytes → Dict
unfolding session_or append_some
make_challenge fresh nonce session_id pc_key_fingerprint pc_signature =
    append_some
      (append_some
        (entry "version" protocol_version (
          entry "type" (str msg_challenge) (
            entry "session_id" (str (session_or session_id fresh))
              (entry "nonce" (str (hex nonce)) empty))))
        "pc_key_fingerprint" pc_key_fingerprint)
      "pc_signature" (hex_some pc_signature)

-- `session_id` is what the received challenge holds, of whatever type.
unfoldable pub make_response : Value → Bytes → String → String → Dict
make_response session_id signature public_key_fingerprint device_name =
    entry "version" protocol_version (
      entry "type" (str msg_response) (
        entry "session_id" session_id (
          entry "signature" (str (hex signature)) (
            entry "public_key_fingerprint" (str public_key_fingerprint)
              (entry "device_name" (str device_name) empty)))))

-- `session_id` is what the received message holds, of whatever type.
unfoldable pub make_error : Value → String → Dict
make_error session_id reason = entry "version" protocol_version (
    entry "type" (str msg_error)
      (entry "session_id" session_id (entry "reason" (str reason) empty)))

unfoldable pub make_pair_hello : String → String → String → String → Option String → Dict
unfolding session_or
make_pair_hello fresh public_key_pem public_key_fingerprint device_name session_id =
    entry "version" protocol_version (
      entry "type" (str msg_pair_hello) (
        entry "session_id" (str (session_or session_id fresh)) (
          entry "public_key_pem" (str public_key_pem) (
            entry "public_key_fingerprint" (str public_key_fingerprint)
              (entry "device_name" (str device_name) empty)))))

-- `session_id` is what the received message holds, of whatever type.
unfoldable pub make_pair_accept : Value → String → String → Dict
make_pair_accept session_id public_key_pem public_key_fingerprint =
    entry "version" protocol_version (
      entry "type" (str msg_pair_accept) (
        entry "session_id" session_id (
          entry "public_key_pem" (str public_key_pem)
            (entry "public_key_fingerprint" (str public_key_fingerprint) empty))))
