-- ===== src/Handshake/Client/Complete.antt =====
-- handshake.py: a client and the challenge of a server of this repository.
use phonect.Prelude.{
  String, Bool, true, Option, none, some, List, [], ◌++◌, ◌≡◌, refl, ◌∙◌, length, arith,
}
use phonect.Python.{Value, str, dict, Dict, get, ok}
use phonect.Bytes.{Bytes, hex, IsBytes}
use phonect.Bytes.Hex.{fromhex-hex}
use phonect.Protocol.Frame.{Json, encode_frame}
use phonect.Protocol.Messages.{make_response, make_challenge}
use phonect.Protocol.Validate.{validate_challenge}
use phonect.Protocol.Validate.Built.{validate_challenge-make_challenge}
use phonect.Crypto.{Cryptography, sign_nonce, fingerprint_from_public_key}
use phonect.Handshake.{Conn, Recv, message, read_loop, read_fuel, fromhex_value, check_slice}
use phonect.Handshake.Arrival.{Arrives, arriving, Carries, read_arriving, sendall_ready}
use phonect.Handshake.Server.{Drawn, HandshakeServer, challenge_with, server_challenge}
use phonect.Handshake.Client.{
  HandshakeClient, Gate, ask, log_mutual, item_of, sign_and_send, answer_challenge, check_challenge,
  answer_read, read_and_answer, do_handshake,
}

-- The session id of a challenge that the server builds.
abbrev pub session_of : Drawn → Value
session_of r = str r.uuid

item_of-some : (key : String) (d : Dict) (v : Value) → get key d ≡ some v → item_of key d ≡ ok v
item_of-some key d v h = ground arith

module _ (crypto : Cryptography) where
  -- What a built challenge holds, whether or not it is signed.
  pub challenge_with-fields :
      (pc : Option crypto.PrivateKey) (r : Drawn)
      → IsBytes r.nonce
      → length r.nonce ≡ 32
      → let d = challenge_with crypto pc r in
        (validate_challenge (dict d) ≡ ok d)
        × (get "nonce" d ≡ some (str (hex r.nonce)))
        × (get "session_id" d ≡ some (session_of r))
        × (log_mutual d ≡ ok tt)
  unfolding challenge_with log_mutual make_challenge check_slice
  challenge_with-fields none r bytes size =
      let (valid, at, _) =
        validate_challenge-make_challenge r.uuid r.nonce none none none bytes size in
      (valid, at, refl, refl)
  challenge_with-fields (some k) r bytes size =
      let (valid, at, _) =
        validate_challenge-make_challenge r.uuid r.nonce none
          (some (fingerprint_from_public_key crypto (crypto.public_key k)))
          (some (sign_nonce crypto k r.salt r.nonce)) bytes size in
      (valid, at, refl, refl)

module _ (crypto : Cryptography) (json : Json) (s : HandshakeServer crypto) (r : Drawn)
    (h : HandshakeClient crypto) (gate : Gate) (salt : Bytes) where
  abbrev pub challenge : Dict
  challenge = server_challenge crypto s r

  abbrev pub response : Dict
  response =
      make_response (session_of r) (sign_nonce crypto h.signing_key salt r.nonce) h.fingerprint
        h.device_name

  fromhex_value-nonce :
      IsBytes r.nonce
      → get "nonce" challenge ≡ some (str (hex r.nonce))
      → fromhex_value (get "nonce" challenge) ≡ ok r.nonce
  unfolding fromhex_value
  fromhex_value-nonce bytes at = ground (arith, fromhex-hex r.nonce bytes)

  sign_and_send-run :
      (f : Bytes) (c : Conn)
      → encode_frame json response ≡ ok f
      → c.sends ≡ []
      → sign_and_send crypto json h salt (session_of r) r.nonce c
        ≡ (ok true, record c { sent = c.sent ++ f })
  unfolding sign_and_send
  sign_and_send-run f c encoded ready = simp (encoded, sendall_ready f c ready)

  answer_challenge-run :
      (f : Bytes) (c : Conn)
      → IsBytes r.nonce
      → length r.nonce ≡ 32
      → ask gate r.nonce challenge ≡ ok true
      → encode_frame json response ≡ ok f
      → c.sends ≡ []
      → answer_challenge crypto json h gate salt challenge c
        ≡ (ok true, record c { sent = c.sent ++ f })
  unfolding answer_challenge
  answer_challenge-run f c bytes size approved encoded ready =
      let (valid, at, id, logged) = challenge_with-fields crypto s.pc_private_key r bytes size in
      simp
        (
          fromhex_value-nonce bytes at,
          item_of-some "session_id" challenge (session_of r) id,
          logged,
          approved,
        )
        (sign_and_send-run f c encoded ready)

  read_and_answer-run :
      (f : Bytes) (c c' : Conn)
      → validate_challenge (dict challenge) ≡ ok challenge
      → read_loop json read_fuel [] c ≡ (ok (message challenge), c')
      → read_and_answer crypto json h gate salt (ok tt) c
        ≡ answer_challenge crypto json h gate salt challenge c'
  unfolding read_and_answer answer_read check_challenge
  read_and_answer-run f c c' valid read = rw (read, valid)

  do_handshake-run :
      (conn c : Conn) (b : Bool)
      → read_and_answer crypto json h gate salt (ok tt) conn ≡ (ok b, c)
      → do_handshake crypto json h gate salt (ok tt) conn ≡ (ok b, record c { closed = true })
  unfolding do_handshake
  do_handshake-run conn c b run = simp run

  -- Where a client whose gate approves gets the frame of the challenge that the server builds, in
  -- whatever chunks, it sends the frame of its response, says `True` and closes the connection.
  pub do_handshake_complete :
      (challenge_frame response_frame : Bytes) (c : Conn) (a : Arrives challenge_frame)
      (rest : List Recv)
      → IsBytes r.nonce
      → length r.nonce ≡ 32
      → ask gate r.nonce challenge ≡ ok true
      → c.sends ≡ []
      → Carries json challenge challenge_frame
      → encode_frame json response ≡ ok response_frame
      → do_handshake crypto json h gate salt (ok tt) (arriving c a rest)
        ≡ (ok true, record c { incoming = rest; sent = c.sent ++ response_frame; closed = true })
  do_handshake_complete f1 f2 c a rest bytes size approved ready carried encoded =
      let (valid, _, _, _) = challenge_with-fields crypto s.pc_private_key r bytes size in
      let c1 : Conn = record c { incoming = rest } in
      do_handshake-run (arriving c a rest) (record c1 { sent = c.sent ++ f2 }) true
        (read_and_answer-run f2 (arriving c a rest) c1 valid
            (read_arriving json challenge f1 c a rest carried)
          ∙ answer_challenge-run f2 c1 bytes size approved encoded ready)
