-- ===== src/Handshake/Server/Complete.antt =====
-- handshake.py: a server and the response of a client that holds the trusted key.
use phonect.Prelude.{String, Bool, true, some, List, [], ◌++◌, ◌≡◌, ◌∙◌, arith}
use phonect.Python.{Value, Dict, get, ProtocolFault, ok}
use phonect.Bytes.{Bytes, IsBytes}
use phonect.Bytes.Hex.{fromhex-hex}
use phonect.Protocol.Frame.{Json, encode_frame}
use phonect.Protocol.Messages.{make_response}
use phonect.Protocol.Validate.Built.{validate_response-make_response}
use phonect.Crypto.{Cryptography, IsLawful, sign_nonce}
use phonect.Crypto.Laws.{verify_nonce-sign_nonce}
use phonect.Handshake.{
  Conn, Recv, sendall, message, read_loop, read_fuel, fromhex_value, check_slice,
}
use phonect.Handshake.Arrival.{Arrives, arriving, Carries, read_arriving, sendall_ready}
use phonect.Handshake.Server.{
  Drawn, HandshakeServer, has_socket, server_challenge, check_signature, verify_response,
  answer_read, challenge_and_verify, accept_and_verify,
}

module _ (crypto : Cryptography) (json : Json) (str_fault : ProtocolFault → String)
    (s : HandshakeServer crypto) (r : Drawn) where
  challenge_and_verify-run :
      (f : Bytes) (d : Dict) (c c1 c2 : Conn)
      → encode_frame json (server_challenge crypto s r) ≡ ok f
      → sendall f c ≡ (ok tt, c1)
      → read_loop json read_fuel [] c1 ≡ (ok (message d), c2)
      → challenge_and_verify crypto json str_fault s r c
        ≡ answer_read crypto json str_fault s r.nonce (message d) c2
  unfolding challenge_and_verify
  challenge_and_verify-run f d c c1 c2 encoded sent read = rw (encoded, sent, read)

  accept_and_verify-run :
      (conn c : Conn) (b : Bool)
      → has_socket crypto s ≡ true
      → challenge_and_verify crypto json str_fault s r conn ≡ (ok b, c)
      → accept_and_verify crypto json str_fault s r (ok conn)
        ≡ (ok b, some (record c { closed = true }))
  unfolding accept_and_verify
  accept_and_verify-run conn c b up run = simp (up, run)

  fromhex_value-signature :
      (session : Value) (signature : Bytes) (fp name : String)
      → IsBytes signature
      → fromhex_value (get "signature" (make_response session signature fp name)) ≡ ok signature
  unfolding fromhex_value make_response
  fromhex_value-signature session signature fp name bytes =
      ground (arith, fromhex-hex signature bytes)

  module _ (L : IsLawful crypto) (k : crypto.PrivateKey)
      (trusted : s.trusted_key ≡ crypto.public_key k) (salt : Bytes) (session : Value)
      (fp name : String) where
    abbrev response : Dict
    response = make_response session (sign_nonce crypto k salt r.nonce) fp name

    check_signature-signed :
        (c : Conn)
        → check_signature crypto json str_fault s r.nonce response
            (ok (sign_nonce crypto k salt r.nonce))
            c
          ≡ (ok true, c)
    unfolding check_signature make_response check_slice
    check_signature-signed c = rw (trusted, verify_nonce-sign_nonce crypto L k salt r.nonce)

    answer_read-signed :
        (c : Conn) → answer_read crypto json str_fault s r.nonce (message response) c ≡ (ok true, c)
    unfolding answer_read verify_response
    answer_read-signed c =
        rw
          (
            validate_response-make_response session (sign_nonce crypto k salt r.nonce) fp name
                (L.sign-IsBytes k salt r.nonce) (L.length-sign k salt r.nonce),
            fromhex_value-signature session (sign_nonce crypto k salt r.nonce) fp name
                (L.sign-IsBytes k salt r.nonce),
          )
          (check_signature-signed c)

    -- Where a server that listens and trusts the key of the client gets the frame of the response that
    -- the client signs for the nonce of this handshake, in whatever chunks, it sends its challenge, says
    -- `True` and closes the connection.
    pub accept_and_verify_complete :
        (challenge_frame response_frame : Bytes) (c : Conn) (a : Arrives response_frame)
        (rest : List Recv)
        → has_socket crypto s ≡ true
        → c.sends ≡ []
        → encode_frame json (server_challenge crypto s r) ≡ ok challenge_frame
        → Carries json response response_frame
        → accept_and_verify crypto json str_fault s r (ok (arriving c a rest)) ≡ (
          ok true,
          some (record c { incoming = rest; sent = c.sent ++ challenge_frame; closed = true }),
        )
    accept_and_verify_complete f1 f2 c a rest up ready encoded carried =
        let c1 : Conn = record c { sent = c.sent ++ f1 } in
        let c2 : Conn = record c1 { incoming = rest } in
        accept_and_verify-run (arriving c a rest) c2 true up (
          challenge_and_verify-run f1 response (arriving c a rest) (arriving c1 a rest) c2 encoded
            (sendall_ready f1 (arriving c a rest) ready)
            (read_arriving json response f2 c1 a rest carried)
          ∙ answer_read-signed c2)
