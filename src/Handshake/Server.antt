-- ===== src/Handshake/Server.antt =====
-- handshake.py: `HandshakeServer`. The proofs are in the children. The nonce, the id that `uuid4` gives and the salt of a signature
-- are drawn from outside, and `str` gives the text of a `ProtocolError`.
pub mod Sound
pub mod Complete
pub mod Socket
use phonect.Prelude.{ℕ, String, Bool, true, false, Option, none, some, List, [], ◌∷◌, if◌then◌else◌}
use phonect.Python.{
  ℤ, pos, Value, str, dict, Dict, get, Exception, protocol_error, ProtocolFault, runtime_error,
  is_os_error, value_error, Result, ok, raise, is_value_error,
}
use phonect.Python.Io.{Io, pure, throw, lift, catch, handle, continue, ◌>>=◌, ◌>>◌}
use phonect.Bytes.{Bytes}
use phonect.Protocol.Frame.{Json, encode_frame}
use phonect.Protocol.Messages.{make_challenge, make_error}
use phonect.Protocol.Validate.{validate_response}
use phonect.Crypto.{Cryptography, verify_nonce, sign_nonce, fingerprint_from_public_key}
use phonect.Handshake.{
  Conn, sendall, Read, message, read_loop, read_fuel, fromhex_value, check_slice,
}

-- What one handshake draws at random.
pub record Drawn : Type 0 where
  pub nonce : Bytes
  pub uuid : String
  pub salt : Bytes

-- `dict.get(key, default)`
abbrev pub get_or : String → Value → Dict → Value
get_or key default d = elim (get key d) [ none ↦ default | some v ↦ v ]

-- How the calls of `start` end: the making of the socket, its binding to a host and a port, which gives
-- the port bound to, and its listening.
pub record Opening : Type 0 where
  pub creating : Result (Unit {0})
  pub binding : String → ℤ → Result ℤ
  pub listening : Result (Unit {0})

-- `except OSError: pass`
abbrev pub ignore_os_error : {W : Type 0} → Exception → Io W (Unit {0})
ignore_os_error e = if is_os_error e then pure tt else throw e

module _ (crypto : Cryptography) where
  open crypto use {PublicKey, PrivateKey, public_key}

  pub record HandshakeServer : Type 0 where
    pub trusted_key : PublicKey
    pub pc_private_key : Option PrivateKey
    pub listen_host : String
    pub listen_port : ℤ
    pub timeout : String
    -- `_sock`: the port that the socket is bound to, which is 0 as long as it is bound to none
    pub sock : Option ℤ

  -- `__init__`; the timeout is a float and kept as its text
  abbrev pub new_server : PublicKey → Option PrivateKey → String → ℤ → String → HandshakeServer
  new_server trusted pc host port seconds = record {
    trusted_key = trusted;
    pc_private_key = pc;
    listen_host = host;
    listen_port = port;
    timeout = seconds;
    sock = none;
  }

  -- `self._sock is not None`
  abbrev pub has_socket : HandshakeServer → Bool
  has_socket s = elim s.sock [ none ↦ false | some _ ↦ true ]

  -- `port`
  abbrev pub port : HandshakeServer → Option ℤ
  port s = s.sock

  -- `start`; a socket whose binding or listening fails is kept
  unfoldable pub start : Opening → Io HandshakeServer (Unit {0})
  start calls = do
    lift calls.creating
    λ s. (ok tt, record s { sock = some (pos 0) })
    bound_port ← λ s. (calls.binding s.listen_host s.listen_port, s)
    λ s. (ok tt, record s { sock = some bound_port })
    lift calls.listening

  -- `close`, where `closing` is how closing the socket ends
  unfoldable pub close : Result (Unit {0}) → Io HandshakeServer (Unit {0})
  close closing s = elim s.sock [
    | none ↦ (ok tt, s)
    | some _ ↦ (catch (lift closing) ignore_os_error >> λ t. (ok tt, record t { sock = none })) s
  ]

  -- the challenge, with the fields of mutual authentication where there is a PC key
  unfoldable pub challenge_with : Option PrivateKey → Drawn → Dict
  challenge_with none r = make_challenge r.uuid r.nonce none none none
  challenge_with (some k) r =
      make_challenge r.uuid r.nonce none (some (fingerprint_from_public_key crypto (public_key k)))
        (some (sign_nonce crypto k r.salt r.nonce))

  abbrev pub server_challenge : HandshakeServer → Drawn → Dict
  server_challenge s r = challenge_with s.pc_private_key r

module _ (crypto : Cryptography) (json : Json) (str_fault : ProtocolFault → String) where
  -- `except OSError: pass` round the sending of an error
  unfoldable pub pass_os_error : Exception → Io Conn (Unit {0})
  pass_os_error e = if is_os_error e then pure tt else throw e

  -- step 3 for a response that does not validate
  unfoldable pub refuse_response : Dict → ProtocolFault → Io Conn Bool
  refuse_response msg fault = do
    catch
        (do
          frame ←
              lift (
                encode_frame json (make_error (get_or "session_id" (str "") msg) (str_fault fault)))
          sendall frame)
        pass_os_error
    pure false

  -- step 4: `except ValueError` round `bytes.fromhex`
  unfoldable pub check_signature :
      HandshakeServer crypto → Bytes → Dict → Result Bytes → Io Conn Bool
  check_signature s nonce validated (raise e) = if is_value_error e then pure false else throw e
  check_signature s nonce validated (ok signature) = do
    valid ← lift (verify_nonce crypto s.trusted_key nonce signature)
    if valid
        then (do lift (check_slice (get "public_key_fingerprint" validated)); pure true)
        else pure false

  -- steps 3 and 4, by what `validate_response` gave
  unfoldable pub verify_response :
      HandshakeServer crypto → Bytes → Dict → Result Dict → Io Conn Bool
  verify_response s nonce msg (raise (protocol_error fault)) = refuse_response msg fault
  verify_response s nonce msg (raise e) = throw e
  verify_response s nonce msg (ok validated) =
      check_signature s nonce validated (fromhex_value (get "signature" validated))

  -- by how the reading loop ended; it has fuel enough, so that `out_of_fuel` is never what is answered
  unfoldable pub answer_read : HandshakeServer crypto → Bytes → Read → Io Conn Bool
  answer_read s nonce (message msg) = verify_response s nonce msg (validate_response (dict msg))
  answer_read s nonce _ = pure false

  -- the body of the `try` in `accept_and_verify`
  unfoldable pub challenge_and_verify : HandshakeServer crypto → Drawn → Io Conn Bool
  challenge_and_verify s r = do
    frame ← lift (encode_frame json (server_challenge crypto s r))
    sendall frame
    outcome ← read_loop json read_fuel []
    answer_read s r.nonce outcome

  abbrev close_conn : Result Bool × Conn → Result Bool × Conn
  close_conn (r, c) = (r, record c { closed = true })

  -- `accept_and_verify`. `accepted` is how `accept` ended; every exception behind it, a timeout and an
  -- `OSError` among them, is logged and gives `False`, and the connection is closed at last.
  unfoldable pub accept_and_verify :
      HandshakeServer crypto → Drawn → Result Conn → Result Bool × Option Conn
  accept_and_verify s r accepted =
      if has_socket crypto s
      then elim accepted [
        | raise e ↦ (raise e, none)
        | ok conn ↦
            let (result, conn') =
              close_conn (catch (challenge_and_verify s r) (λ _. pure false) conn) in
            (result, some conn')
      ]
      else (raise runtime_error, none)
