-- ===== src/Handshake/Server/Sound.antt =====
-- handshake.py: the results of `accept_and_verify`, whatever the peer does.
use phonect.Prelude.{
  String, Bool, true, false, Option, none, some, [], ◌≡◌, ◌≢◌, refl, ap, arith, if◌then◌else◌,
}
use phonect.Python.{
  dict, Dict, get, protocol_error, ProtocolFault, Result, ok, raise, runtime_error,
}
use phonect.Python.Io.{Io, pure, handle, continue-eq-ok, ◌>>=◌, ◌>>◌}
use phonect.Bytes.{Bytes}
use phonect.Protocol.Frame.{Json, encode_frame}
use phonect.Protocol.Validate.{validate_response}
use phonect.Protocol.Validate.Schemas.{IsResponse, validate_response_iff}
use phonect.Crypto.{Cryptography, verify_nonce}
use phonect.Handshake.Heard.{IsHeard, read_loop-IsHeard}
use phonect.Handshake.Reading.{read_loop-returns}
use mathlib.Core.Path.{subst}
use phonect.Handshake.{
  Conn, sendall, Read, message, closed_by_peer, out_of_fuel, read_loop, read_fuel, fromhex_value,
}
use phonect.Handshake.Server.{
  Drawn, HandshakeServer, has_socket, server_challenge, check_signature, verify_response,
  answer_read, challenge_and_verify, accept_and_verify, refuse_response, pass_os_error,
}
use phonect.Crypto.Laws.{verify_nonce-eq-true}

-- the end of `accept_and_verify`, from how its `try` ended
abbrev closing : Result Bool × Conn → Result Bool × Option Conn
closing p =
    let (result, c) = handle p (λ _. pure false) in (result, some (record c { closed = true }))

-- `sendall` leaves what the peer sends alone.
incoming-sendall : (b : Bytes) (c : Conn) → (sendall b c).1.incoming ≡ c.incoming
unfolding sendall
incoming-sendall b c = ground arith

module _ (crypto : Cryptography) (json : Json) (str_fault : ProtocolFault → String)
    (s : HandshakeServer crypto) (r : Drawn) where
  check_signature-eq-true :
      (v : Dict) (q : Result Bytes) (c : Conn)
      → (check_signature crypto json str_fault s r.nonce v q c).0 ≡ ok true
      → (signature : Bytes) × (q ≡ ok signature)
        × (verify_nonce crypto s.trusted_key r.nonce signature ≡ ok true)
  unfolding check_signature
  check_signature-eq-true v q c h = ground arith

  refuse_response-ne-true :
      (d : Dict) (fault : ProtocolFault) (c : Conn)
      → (refuse_response crypto json str_fault d fault c).0 ≡ ok true
      → ⊥
  unfolding refuse_response pass_os_error
  refuse_response-ne-true d fault c h = ground arith

  answer_read-eq-true :
      (o : Read) (c : Conn)
      → (answer_read crypto json str_fault s r.nonce o c).0 ≡ ok true
      → (d v : Dict) × (o ≡ message d)
        × (validate_response (dict d) ≡ ok v)
        × ((check_signature crypto json str_fault s r.nonce v
              (fromhex_value (get "signature" v))
              c).0
            ≡ ok true)
  unfolding answer_read verify_response
  answer_read-eq-true (message d) c h =
      let (v, valid, rest) = verified_by (validate_response (dict d)) h in (d, v, refl, valid, rest)
    where
      verified_by :
          (q : Result Dict)
          → (verify_response crypto json str_fault s r.nonce d q c).0 ≡ ok true
          → (v : Dict) × (q ≡ ok v)
            × ((check_signature crypto json str_fault s r.nonce v
                  (fromhex_value (get "signature" v))
                  c).0
                ≡ ok true)
      verified_by (ok v) e = (v, refl, e)
      verified_by (raise (protocol_error fault)) e = absurd (refuse_response-ne-true d fault c e)
      verified_by (raise _) e = cc
  answer_read-eq-true closed_by_peer c h = cc
  answer_read-eq-true _ c h = cc

  challenge_and_verify-eq-true :
      (c : Conn)
      → (challenge_and_verify crypto json str_fault s r c).0 ≡ ok true
      → (c1 : Conn) × (o : Read) × (c2 : Conn) × (c1.incoming ≡ c.incoming)
        × (read_loop json read_fuel [] c1 ≡ (ok o, c2))
        × ((answer_read crypto json str_fault s r.nonce o c2).0 ≡ ok true)
  unfolding challenge_and_verify
  challenge_and_verify-eq-true c h =
      let answer = answer_read crypto json str_fault s r.nonce in
      let reading : Io Conn Bool = read_loop json read_fuel [] >>= answer in
      let (frame, c0, first, h1) =
        continue-eq-ok (encode_frame json (server_challenge crypto s r), c)
          (λ frame. sendall frame >> reading) h in
      let (_, c1, second, h2) = continue-eq-ok (sendall frame c0) (λ _. reading) h1 in
      let (o, c2, third, h3) = continue-eq-ok (read_loop json read_fuel [] c1) answer h2 in
      let here : c ≡ c0 = ap (λ p. p.1) first in
      let sent : (sendall frame c0).1 ≡ c1 = ap (λ p. p.1) second in
      (c1, o, c2, rw (← sent, here) (incoming-sendall frame c0), third, h3)

  accept_and_verify-eq-true :
      (accepted : Result Conn)
      → (accept_and_verify crypto json str_fault s r accepted).0 ≡ ok true
      → (has_socket crypto s ≡ true)
        × (conn : Conn) × (accepted ≡ ok conn)
        × ((challenge_and_verify crypto json str_fault s r conn).0 ≡ ok true)
  unfolding accept_and_verify
  accept_and_verify-eq-true accepted h = ground arith

  -- `accept_and_verify` says `True` only if the server listens, a connection was accepted, and the bytes
  -- that the peer sends on it begin with the frame of a valid response whose signature is verified for
  -- the nonce of this handshake under the trusted key.
  pub accept_and_verify_sound :
      (accepted : Result Conn)
      → (accept_and_verify crypto json str_fault s r accepted).0 ≡ ok true
      → (has_socket crypto s ≡ true)
        × (conn : Conn) × (d : Dict) × (signature : Bytes) × (accepted ≡ ok conn)
        × IsHeard json conn.incoming d
        × IsResponse d
        × (fromhex_value (get "signature" d) ≡ ok signature)
        × (crypto.verify s.trusted_key signature r.nonce ≡ ok tt)
  accept_and_verify_sound accepted h =
      let (up, conn, came, h1) = accept_and_verify-eq-true accepted h in
      let (c1, o, c2, same, read, h2) = challenge_and_verify-eq-true conn h1 in
      let (d, v, is_message, valid, h3) = answer_read-eq-true o c2 h2 in
      let (e, response) = (validate_response_iff (dict d) v).0 valid in
      let (signature, given, good) =
        check_signature-eq-true v (fromhex_value (get "signature" v)) c2 h3 in
      let is_v : d ≡ v = ground arith in
      (
        up,
        conn,
        v,
        signature,
        came,
        subst (λ l. IsHeard json l v) same
            (read_loop-IsHeard json read_fuel c1 v (cc (read, is_message, is_v))),
        response,
        given,
        verify_nonce-eq-true crypto s.trusted_key r.nonce signature good,
      )

  -- Once a connection is accepted, a listening server returns `True` or `False`, whatever the peer
  -- sends and however the socket fails, and has closed the connection; its reading loop ends by itself,
  -- and not because the fuel runs out, whatever the connection is that it reads from.
  pub accept_and_verify_returns :
      (conn : Conn)
      → has_socket crypto s ≡ true
      → (result : Bool) × (closed : Conn) × (accept_and_verify crypto json str_fault s r (ok conn)
          ≡ (ok result, some closed))
        × (closed.closed ≡ true)
        × ((c : Conn) → (read_loop json read_fuel [] c).0 ≢ ok out_of_fuel)
  unfolding accept_and_verify
  accept_and_verify_returns conn up =
      let (b, c, same, shut) =
        settled (has_socket crypto s) (challenge_and_verify crypto json str_fault s r conn) up in
      (b, c, same, shut, read_loop-returns json)
    where
      settled :
          (up : Bool) (p : Result Bool × Conn)
          → up ≡ true
          → (result : Bool) × (closed : Conn) × ((if up
                then closing p
                else (raise runtime_error, none))
              ≡ (ok result, some closed))
            × (closed.closed ≡ true)
      settled true (ok b, c) e = (b, record c { closed = true }, refl, refl)
      settled true (raise e, c) _ = (false, record c { closed = true }, refl, refl)
      settled false p e = cc
