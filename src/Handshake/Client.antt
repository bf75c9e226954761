-- ===== src/Handshake/Client.antt =====
-- handshake.py: `HandshakeClient`, the phone's side. The proofs are in the children.
pub mod Sound
pub mod Sends
pub mod Declined
pub mod Complete
use phonect.Prelude.{ℕ, String, Bool, true, false, Option, none, some, List, [], ◌∷◌, if◌then◌else◌}
use phonect.Python.{
  Value, null, bool, int, float, str, list, dict, Dict, get, Exception, protocol_error, Result, ok,
  raise, key_error, Items,
}
use phonect.Python.Io.{Io, pure, throw, lift, catch, handle, continue, ◌>>=◌, ◌>>◌}
use phonect.Bytes.{Bytes}
use phonect.Protocol.Frame.{Json, encode_frame}
use phonect.Protocol.Messages.{make_response}
use phonect.Protocol.Validate.{validate_challenge}
use phonect.Crypto.{Cryptography, sign_nonce}
use phonect.Handshake.{
  Conn, sendall, Read, message, read_loop, read_fuel, fromhex_value, check_slice,
}

-- `value is not None`
abbrev pub is_given : Option Value → Bool
is_given none = false
is_given (some null) = false
is_given (some _) = true

-- `d[key]`
abbrev pub item_of : String → Dict → Result Value
item_of key d = elim (get key d) [ none ↦ raise key_error | some v ↦ ok v ]

-- `before_sign_callback`, where there is one
abbrev pub Gate : Type 0
Gate = Option (Bytes → Dict → Result Bool)

unfoldable pub ask : Gate → Bytes → Dict → Result Bool
ask none nonce challenge = ok true
ask (some callback) nonce challenge = callback nonce challenge

-- step 2a only logs the first characters of the PC's fingerprint
unfoldable pub log_mutual : Dict → Result (Unit {0})
log_mutual d =
    if is_given (get "pc_key_fingerprint" d)
    then if is_given (get "pc_signature" d) then check_slice (get "pc_key_fingerprint" d) else ok tt
    else ok tt

module _ (crypto : Cryptography) where
  pub record HandshakeClient : Type 0 where
    pub signing_key : crypto.PrivateKey
    pub fingerprint : String
    pub device_name : String
    -- a float, kept as its text
    pub connect_timeout : String

module _ (crypto : Cryptography) (json : Json) where
  -- steps 4 and 5
  unfoldable pub sign_and_send : HandshakeClient crypto → Bytes → Value → Bytes → Io Conn Bool
  sign_and_send h salt session_id nonce = do
    frame ← lift (
        encode_frame json (
          make_response session_id (sign_nonce crypto h.signing_key salt nonce) h.fingerprint
            h.device_name))
    sendall frame
    pure true

  -- steps 2a to 5, for a challenge that validates
  unfoldable pub answer_challenge : HandshakeClient crypto → Gate → Bytes → Dict → Io Conn Bool
  answer_challenge h gate salt validated = do
    nonce ← lift (fromhex_value (get "nonce" validated))
    session_id ← lift (item_of "session_id" validated)
    lift (log_mutual validated)
    proceed ← lift (ask gate nonce validated)
    if proceed then sign_and_send h salt session_id nonce else pure false

  unfoldable pub check_challenge :
      HandshakeClient crypto → Gate → Bytes → Result Dict → Io Conn Bool
  check_challenge h gate salt (raise (protocol_error _)) = pure false
  check_challenge h gate salt (raise e) = throw e
  check_challenge h gate salt (ok validated) = answer_challenge h gate salt validated

  unfoldable pub answer_read : HandshakeClient crypto → Gate → Bytes → Read → Io Conn Bool
  answer_read h gate salt (message msg) =
      check_challenge h gate salt (validate_challenge (dict msg))
  answer_read h gate salt _ = pure false

  -- the body of the `try` in `do_handshake`
  unfoldable pub read_and_answer :
      HandshakeClient crypto → Gate → Bytes → Result (Unit {0}) → Io Conn Bool
  read_and_answer h gate salt connected = do
    lift connected
    outcome ← read_loop json read_fuel []
    answer_read h gate salt outcome

  -- `do_handshake`. `connected` is how `connect` ended; every exception is logged and gives `False`,
  -- and the socket is closed at last.
  unfoldable pub do_handshake :
      HandshakeClient crypto → Gate → Bytes → Result (Unit {0}) → Conn → Result Bool × Conn
  do_handshake h gate salt connected conn =
      let (result, conn') = catch (read_and_answer h gate salt connected) (λ _. pure false) conn in
      (result, record conn' { closed = true })
