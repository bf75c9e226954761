-- ===== src/Tests/Protocols.antt =====
-- protocol.py, crypto.py and config.py at concrete inputs.
use phonect.Prelude.{
  ◌<◌, String, false, none, some, [], ◌∷◌, ◌++◌, length, ◌≡◌, ◌≢◌, ◌↔◌, ◌⊎◌, inr, refl, arith,
}
use phonect.Python.{
  null, str, list, nil, item, dict, Dict, entry, empty, value_error, type_error,
  unicode_decode_error, protocol_security_error, declared_length, ok, raise,
}
use phonect.Bytes.{unpack_word, codes, fromhex, fromhex_codes, hex}
use phonect.Bytes.Hex.{spaces, fromhex-hex}
use phonect.Protocol.Frame.{Json, decode_frame, wrap_json, require_object}
use phonect.Protocol.Frame.Decoded.{Decoded, decode_frame-Decoded}
use phonect.Protocol.Frame.Laws.{
  decode_frame-encode_frame, decode_frame_waits, decode_frame_refuses, decode_frame_stable,
}
use phonect.Protocol.Messages.{make_challenge, make_pair_accept}
use phonect.Protocol.Validate.{validate_challenge, validate_response}
use phonect.Protocol.Validate.Schemas.{
  IsChallenge, IsResponse, validate_response_iff, validate_challenge_iff,
}
use phonect.Protocol.Validate.Built.{
  validate_challenge-make_challenge, validate_challenge_short_nonce, validate_challenge_type_error,
}
use phonect.Crypto.{fingerprint_from_public_key}
use phonect.Config.{UnlockConfig, validate_unlock_config}
use phonect.Config.Unlock.{IsUnlock, validate_unlock_config_iff}
use phonect.Tests.Setup.{
  repeat, repeat-IsBytes, length-repeat, toy_crypto, challenge_message, response_message, toy_json,
  challenge_frame,
}
use phonect.Tests.Handshakes.{challenge_carried}

decode_frame-encode_frame_example :
    decode_frame toy_json (challenge_frame ++ 9 ∷ []) ≡ ok (some challenge_message)
decode_frame-encode_frame_example =
    decode_frame-encode_frame toy_json challenge_message challenge_frame (9 ∷ [])
      challenge_carried.parsed challenge_carried.filled challenge_carried.encoded

decode_frame_waits_example : decode_frame toy_json (0 ∷ 0 ∷ 0 ∷ 1 ∷ []) ≡ ok none
decode_frame_waits_example =
    decode_frame_waits toy_json challenge_message challenge_frame (0 ∷ 0 ∷ 0 ∷ 1 ∷ []) (67 ∷ [])
      challenge_carried.encoded refl (omega arith)

too_long :
    decode_frame toy_json (0 ∷ 1 ∷ 0 ∷ 1 ∷ 67 ∷ [])
    ≡ raise (protocol_security_error (declared_length 65_537))
too_long = decode_frame_refuses toy_json 0 1 0 1 (67 ∷ []) (inr (omega arith))

-- a text that is no UTF-8
abbrev utf8_json : Json
utf8_json = record toy_json { loads = λ text. raise unicode_decode_error }

unicode_escapes : decode_frame utf8_json (0 ∷ 0 ∷ 0 ∷ 1 ∷ 255 ∷ []) ≡ raise unicode_decode_error
unfolding decode_frame wrap_json require_object unpack_word
unicode_escapes = refl

decode_frame-Decoded_example :
    Decoded utf8_json (0 ∷ 0 ∷ 0 ∷ 1 ∷ 255 ∷ []) (decode_frame utf8_json (0 ∷ 0 ∷ 0 ∷ 1 ∷ 255 ∷ []))
decode_frame-Decoded_example = decode_frame-Decoded utf8_json (0 ∷ 0 ∷ 0 ∷ 1 ∷ 255 ∷ [])

decodes : decode_frame toy_json challenge_frame ≡ ok (some challenge_message)
decodes =
    decode_frame-encode_frame toy_json challenge_message challenge_frame [] challenge_carried.parsed
      challenge_carried.filled challenge_carried.encoded

settled : decode_frame toy_json challenge_frame ≢ ok none
settled waits = cc (decodes)

decode_frame_stable_example :
    decode_frame toy_json (challenge_frame ++ 9 ∷ []) ≡ decode_frame toy_json challenge_frame
decode_frame_stable_example = decode_frame_stable toy_json challenge_frame (9 ∷ []) settled

validate_response_iff_example :
    (validate_response (dict response_message) ≡ ok response_message)
    ↔ ((dict response_message ≡ dict response_message) × IsResponse response_message)
validate_response_iff_example = validate_response_iff (dict response_message) response_message

validate_challenge_iff_example :
    (validate_challenge (dict challenge_message) ≡ ok challenge_message)
    ↔ ((dict challenge_message ≡ dict challenge_message) × IsChallenge challenge_message)
validate_challenge_iff_example = validate_challenge_iff (dict challenge_message) challenge_message

abbrev accept_message : Dict
accept_message = make_pair_accept (str "h1") "F" (fingerprint_from_public_key toy_crypto false)

abbrev plain_challenge : Dict
plain_challenge = make_challenge "s1" (repeat 32 5) none none none

plain_challenge-valid : validate_challenge (dict plain_challenge) ≡ ok plain_challenge
plain_challenge-valid =
    (validate_challenge-make_challenge "s1" (repeat 32 5) none none none
      (repeat-IsBytes 32 5 (omega arith)) (length-repeat 32 5)).0

-- a nonce of 31 bytes and two blanks
abbrev blank_nonce : String
blank_nonce = "  05050505050505050505050505050505050505050505050505050505050505"

abbrev blank_challenge : Dict
blank_challenge =
    entry "type" (str "challenge")
      (entry "session_id" (str "s1") (entry "nonce" (str blank_nonce) empty))

blank_nonce-read : fromhex blank_nonce ≡ some (repeat 31 5)
unfolding fromhex_codes
blank_nonce-read = refl

blank_nonce-blank : 0 < spaces (codes blank_nonce)
unfolding spaces
blank_nonce-blank = omega arith

validate_challenge_short_nonce_example :
    (validate_challenge (dict blank_challenge) ≡ ok blank_challenge) × (length (repeat 31 5) < 32)
validate_challenge_short_nonce_example =
    validate_challenge_short_nonce blank_challenge blank_nonce (repeat 31 5) refl refl refl refl
      blank_nonce-read blank_nonce-blank

abbrev null_challenge : Dict
null_challenge =
    entry "type" (str "challenge") (entry "session_id" (str "s1") (entry "nonce" null empty))

validate_challenge_type_error_example : validate_challenge (dict null_challenge) ≡ raise type_error
validate_challenge_type_error_example =
    validate_challenge_type_error null_challenge null refl refl refl refl

fromhex-hex_example : fromhex (hex (repeat 32 5)) ≡ some (repeat 32 5)
fromhex-hex_example = fromhex-hex (repeat 32 5) (repeat-IsBytes 32 5 (omega arith))

abbrev command_config : UnlockConfig
command_config = record {
  unlock_backend = str "command";
  unlock_command = list (item (str "unlock-now") (item (str "-q") nil));
}

validate_unlock_config_iff_example :
    ((validate_unlock_config command_config ≡ ok tt) ↔ IsUnlock command_config)
    × ((validate_unlock_config command_config ≡ ok tt)
        ⊎ (validate_unlock_config command_config ≡ raise value_error))
validate_unlock_config_iff_example = validate_unlock_config_iff command_config
