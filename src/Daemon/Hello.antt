-- ===== src/Daemon/Hello.antt =====
-- daemon.py: the first part of `_tcp_handshake`, from the frame of the phone to the key that its
-- response will be verified with, and `_is_known_key`.
use phonect.Prelude.{String, Bool, true, false, Option, none, some, if◌then◌else◌}
use phonect.Python.{
  Value, str, dict, Dict, is_text, protocol_error, not_a_dict, attribute_error, Result, ok, raise,
  ◌>>=◌,
}
use phonect.Bytes.{utf8}
use phonect.Protocol.Validate.{validate_pair_hello}
use phonect.Crypto.{Cryptography, fingerprint_from_public_key, load_public_key}
use phonect.Handshake.Client.{item_of}

-- `isinstance(msg, dict)`, and the schema
unfoldable pub check_hello : Value → Result Dict
check_hello (dict d) = validate_pair_hello (dict d)
check_hello v = raise (protocol_error (not_a_dict v))

-- the text of a value that has the method `encode`
unfoldable pub text_of : Value → Result String
text_of (str s) = ok s
text_of _ = raise attribute_error

-- A phone that may be answered: its key, its PEM, the key to verify with, and whether it is new.
pub record Candidate (Key : Type 0) : Type 0 where
  pub key : Key
  pub verification_key : Key
  pub is_new : Bool
  pub pem : String
  pub hello : Dict

module _ (crypto : Cryptography) where
  open crypto use {PublicKey}

  -- `_is_known_key`
  unfoldable pub is_known_key : Option PublicKey → Value → Bool
  is_known_key none phone_fp = false
  is_known_key (some trusted) phone_fp =
      is_text (some phone_fp) (fingerprint_from_public_key crypto trusted)

  -- The candidate itself on first use, the trusted key if the phone names it, and none otherwise.
  unfoldable pub choose_key :
      Option PublicKey → PublicKey → Value → String → Dict → Option (Candidate PublicKey)
  choose_key none candidate phone_fp pem hello = some (record {
    key = candidate;
    verification_key = candidate;
    is_new = true;
    pem = pem;
    hello = hello;
  })
  choose_key (some trusted) candidate phone_fp pem hello =
      if is_known_key (some trusted) phone_fp
      then some (record {
        key = candidate;
        verification_key = trusted;
        is_new = false;
        pem = pem;
        hello = hello;
      })
      else none

  -- `none` is a phone that is turned away with a warning
  unfoldable pub receive_hello : Option PublicKey → Value → Result (Option (Candidate PublicKey))
  receive_hello trusted msg = do
    hello ← check_hello msg
    phone_pem ← item_of "public_key_pem" hello
    phone_fp ← item_of "public_key_fingerprint" hello
    pem ← text_of phone_pem
    candidate ← load_public_key crypto (utf8 pem)
    ok (
        if is_text (some phone_fp) (fingerprint_from_public_key crypto candidate)
        then choose_key trusted candidate phone_fp pem hello
        else none)
