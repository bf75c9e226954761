-- ===== src/Daemon/Legacy.antt =====
-- daemon.py: `_async_handshake`, the challenge and response without a greeting.
pub mod Sound
use phonect.Prelude.{Bool, true, false, Option, none, some, if◌then◌else◌}
use phonect.Python.{
  Value, null, Dict, get, Exception, protocol_error, protocol_security_error, timeout_error,
  connection_error, connection_refused, Result, ok, raise,
}
use phonect.Python.Io.{Io, pure, throw, lift, catch, handle, continue, ◌>>=◌, ◌>>◌}
use phonect.Bytes.{Bytes}
use phonect.Protocol.Frame.{Json, encode_frame}
use phonect.Protocol.Validate.{validate_response}
use phonect.Crypto.{Cryptography, verify_nonce}
use phonect.Handshake.{fromhex_value, check_slice}
use phonect.Handshake.Server.{Drawn, challenge_with}
use phonect.Daemon.Reader.{Session, write_and_drain, read_frame}

module _ (crypto : Cryptography) (json : Json) where
  open crypto use {PublicKey, PrivateKey}

  -- the two `except` clauses round the reading; `null` stands for an answer that is turned away
  unfoldable pub refuse_reading : Exception → Io (Session PublicKey) Value
  refuse_reading timeout_error = pure null
  refuse_reading connection_error = pure null
  refuse_reading connection_refused = pure null
  refuse_reading (protocol_security_error _) = pure null
  refuse_reading e = throw e

  unfoldable pub read_answer : Io (Session PublicKey) Value
  read_answer = catch (read_frame json) refuse_reading

  -- the log line of a valid signature, and the result
  unfoldable pub report : Dict → Bool → Io (Session PublicKey) Bool
  report validated true = do lift (check_slice (get "public_key_fingerprint" validated)); pure true
  report validated false = pure false

  unfoldable pub verify_answer : PublicKey → Bytes → Result Dict → Io (Session PublicKey) Bool
  verify_answer key nonce (raise (protocol_error _)) = pure false
  verify_answer key nonce (raise e) = throw e
  verify_answer key nonce (ok validated) = do
    signature ← lift (fromhex_value (get "signature" validated))
    valid ← lift (verify_nonce crypto key nonce signature)
    report validated valid

  unfoldable pub check_answer : PublicKey → Bytes → Value → Io (Session PublicKey) Bool
  check_answer key nonce null = pure false
  check_answer key nonce msg = verify_answer key nonce (validate_response msg)

  unfoldable pub challenge_phone :
      PublicKey → Option PrivateKey → Drawn → Io (Session PublicKey) Bool
  challenge_phone key pc r = do
    frame ← lift (encode_frame json (challenge_with crypto pc r))
    write_and_drain frame
    msg ← read_answer
    check_answer key r.nonce msg

  -- `_async_handshake`, once the trusted key has been read; the source reads it again behind the `await`s,
  -- where it is still the same, since a key that is set is never replaced
  unfoldable pub challenge_if_paired :
      Option PublicKey → Option PrivateKey → Drawn → Io (Session PublicKey) Bool
  challenge_if_paired none pc r = pure false
  challenge_if_paired (some key) pc r = challenge_phone key pc r

  abbrev pub async_handshake : Option PrivateKey → Drawn → Io (Session PublicKey) Bool
  async_handshake pc r s = challenge_if_paired s.trusted_key pc r s
