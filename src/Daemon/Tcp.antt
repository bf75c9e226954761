-- ===== src/Daemon/Tcp.antt =====
-- daemon.py: `_tcp_handshake` and `_save_phone_key`. The proofs are in the children.
pub mod Keys
pub mod Ending
pub mod Settle
pub mod Sound
pub mod Trust
pub mod Arrive
pub mod Honest
use phonect.Prelude.{ℕ, String, Bool, true, false, not, ◌&&◌, Option, none, some, if◌then◌else◌}
use phonect.Python.{
  Value, null, dict, Dict, get, Exception, protocol_error, protocol_security_error, Result, ok,
  raise,
}
use phonect.Python.Io.{Io, pure, throw, lift, catch, handle, continue, ◌>>=◌, ◌>>◌}
use phonect.Bytes.{Bytes}
use phonect.Protocol.Frame.{Json, encode_frame}
use phonect.Protocol.Messages.{make_pair_accept}
use phonect.Protocol.Validate.{validate_response}
use phonect.Crypto.{Cryptography, verify_nonce, fingerprint_from_public_key}
use phonect.Handshake.{fromhex_value, check_slice}
use phonect.Handshake.Server.{Drawn, challenge_with}
use phonect.Handshake.Client.{item_of}
use phonect.Daemon.Reader.{Session, write_and_drain, read_frame}
use phonect.Daemon.Hello.{Candidate, receive_hello}

-- (valid, may_unlock)
abbrev pub Verdict : Type 0
Verdict = Bool × Bool

abbrev pub rejected : Verdict
rejected = (false, false)

module _ {Key : Type 0} where
  -- `_save_phone_key`: the file is written, or an `OSError` comes
  unfoldable pub save_phone_key : String → Io (Session Key) (Unit {0})
  save_phone_key pem s = elim s.save_error [
    | none ↦ (ok tt, record s { key_file = some pem })
    | some (e, left) ↦ (raise e, record s { key_file = left })
  ]

  -- `self._trusted_key = key`
  abbrev pub trust : Key → Io (Session Key) (Unit {0})
  trust key s = (ok tt, record s { trusted_key = some key })

  -- `if valid: if is_new: …`
  unfoldable pub pin : Candidate Key → Bool → Io (Session Key) (Unit {0})
  pin cand valid =
      if valid && cand.is_new then (do save_phone_key cand.pem; trust cand.key) else pure tt

  abbrev pub current_key : Io (Session Key) (Option Key)
  current_key s = (ok s.trusted_key, s)

module _ (crypto : Cryptography) (json : Json) where
  open crypto use {PublicKey, PrivateKey, public_key, public_pem_text}

  unfoldable pub send_accept : PrivateKey → Candidate PublicKey → Io (Session PublicKey) (Unit {0})
  send_accept pc cand = do
    session_id ← lift (item_of "session_id" cand.hello)
    frame ← lift (
        encode_frame json (
          make_pair_accept session_id (public_pem_text (public_key pc))
            (fingerprint_from_public_key crypto (public_key pc))))
    write_and_drain frame

  unfoldable pub send_challenge : PrivateKey → Drawn → Io (Session PublicKey) (Unit {0})
  send_challenge pc r = do
    frame ← lift (encode_frame json (challenge_with crypto (some pc) r))
    write_and_drain frame

  -- `except ProtocolSecurityError` round the reading of the response; `null` stands for it, since
  -- both it and a JSON null are turned away
  unfoldable pub refuse_violation : Exception → Io (Session PublicKey) Value
  refuse_violation (protocol_security_error _) = pure null
  refuse_violation e = throw e

  unfoldable pub receive_response : Io (Session PublicKey) Value
  receive_response = catch (read_frame json) refuse_violation

  -- from the verdict of `verify_nonce` to the result
  unfoldable pub settle : Candidate PublicKey → Dict → Bool → Io (Session PublicKey) Verdict
  settle cand validated valid = do
    pin cand valid
    lift (check_slice (get "public_key_fingerprint" validated))
    pure (valid, valid && not cand.is_new)

  -- step 6 and on, for a response that validates
  unfoldable pub conclude : Candidate PublicKey → Bytes → Dict → Io (Session PublicKey) Verdict
  conclude cand nonce validated = do
    signature ← lift (fromhex_value (get "signature" validated))
    valid ← lift (verify_nonce crypto cand.verification_key nonce signature)
    settle cand validated valid

  unfoldable pub check_response :
      Candidate PublicKey → Bytes → Result Dict → Io (Session PublicKey) Verdict
  check_response cand nonce (raise (protocol_error _)) = pure rejected
  check_response cand nonce (raise e) = throw e
  check_response cand nonce (ok validated) = conclude cand nonce validated

  unfoldable pub answer_response :
      Candidate PublicKey → Bytes → Value → Io (Session PublicKey) Verdict
  answer_response cand nonce null = pure rejected
  answer_response cand nonce msg = check_response cand nonce (validate_response msg)

  unfoldable pub with_candidate :
      PrivateKey → Drawn → Option (Candidate PublicKey) → Io (Session PublicKey) Verdict
  with_candidate pc r none = pure rejected
  with_candidate pc r (some cand) = do
    send_accept pc cand
    send_challenge pc r
    msg ← receive_response
    answer_response cand r.nonce msg

  -- the body of the `try`
  unfoldable pub greet_and_verify : Option PrivateKey → Drawn → Io (Session PublicKey) Verdict
  greet_and_verify none r = pure rejected
  greet_and_verify (some pc) r = do
    msg ← read_frame json
    trusted ← current_key
    chosen ← lift (receive_hello crypto trusted msg)
    with_candidate pc r chosen

  -- `_tcp_handshake`: whatever exception comes, it is logged and the phone is rejected
  unfoldable pub tcp_handshake : Option PrivateKey → Drawn → Io (Session PublicKey) Verdict
  tcp_handshake pc r = catch (greet_and_verify pc r) (λ _. pure rejected)
