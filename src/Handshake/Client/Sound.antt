-- ===== src/Handshake/Client/Sound.antt =====
-- handshake.py: what the client signs and sends.
use phonect.Prelude.{
  ℕ, zero, suc, ◌+◌, true, some, [], ◌++◌, ◌≡◌, refl, ◌∙◌, ap, sym, arith, leb, length, Bool-cases,
  inl, inr,
}
use phonect.Python.{Value, dict, Dict, get, protocol_error, Result, ok, raise}
use phonect.Python.Io.{pure, continue, continue-eq-ok, ◌>>◌}
use phonect.Bytes.{Bytes}
use phonect.Protocol.Frame.{Json, encode_frame, max_frame_size, frame_header_size}
use phonect.Protocol.Messages.{make_response}
use phonect.Protocol.Validate.{validate_challenge}
use phonect.Protocol.Validate.Schemas.{IsChallenge, validate_challenge_iff}
use phonect.Crypto.{Cryptography, sign_nonce}
use phonect.Handshake.Heard.{IsHeard, read_loop-IsHeard}
use phonect.Handshake.{
  Conn, sendall, recv, Read, message, turn, closed_by_peer, read_loop, read_fuel, read_chunk_size,
  fromhex_value,
}
use phonect.Handshake.Reading.{Turn-cases}
use phonect.Handshake.Client.{
  HandshakeClient, Gate, ask, sign_and_send, answer_challenge, check_challenge, answer_read,
  read_and_answer, do_handshake,
}

sent-recv : (n : ℕ) (c : Conn) → (recv n c).1.sent ≡ c.sent
unfolding recv
sent-recv n c = ground arith

-- Reading sends nothing.
pub sent-read_loop :
    (json : Json) (fuel : ℕ) (buf : Bytes) (c : Conn) → (read_loop json fuel buf c).1.sent ≡ c.sent
unfolding read_loop
sent-read_loop json zero buf c = refl
sent-read_loop json (suc fuel) buf c =
    elim (Bool-cases (leb (length buf) (frame_header_size + max_frame_size))) [
      | inl fits ↦ elim (Turn-cases (turn json buf (recv read_chunk_size c).0)) [
        | inl (q, e) ↦ rw (read_loop, fits, e) (sent-recv read_chunk_size c)
        | inr (buf', e) ↦
            rw (read_loop, fits, e)
              (sent-read_loop json fuel buf' (recv read_chunk_size c).1
                ∙ sent-recv read_chunk_size c)
      ]
      | inr long ↦ rw (read_loop, long)
    ]

dict-injective : {d e : Dict} → dict d ≡ dict e → d ≡ e
dict-injective h = ground arith

module _ (crypto : Cryptography) (json : Json) (h : HandshakeClient crypto) (gate : Gate)
    (salt : Bytes) where
  sent-sendall :
      (frame : Bytes) (c : Conn)
      → (sendall frame c).0 ≡ ok tt
      → (sendall frame c).1.sent ≡ c.sent ++ frame
  unfolding sendall
  sent-sendall frame c sending = ground arith

  abbrev pub response : Value → Bytes → Dict
  response session nonce =
      make_response session (sign_nonce crypto h.signing_key salt nonce) h.fingerprint h.device_name

  sign_and_send-eq-true :
      (session : Value) (nonce : Bytes) (c : Conn)
      → (sign_and_send crypto json h salt session nonce c).0 ≡ ok true
      → (frame : Bytes) × (encode_frame json (response session nonce) ≡ ok frame)
        × ((sign_and_send crypto json h salt session nonce c).1.sent ≡ c.sent ++ frame)
  unfolding sign_and_send
  sign_and_send-eq-true session nonce c e = sending (encode_frame json (response session nonce)) e
    where
      sending :
          (q : Result Bytes)
          → (continue (q, c) (λ frame. sendall frame >> pure true)).0 ≡ ok true
          → (frame : Bytes) × (q ≡ ok frame)
            × ((continue (q, c) (λ frame. sendall frame >> pure true)).1.sent ≡ c.sent ++ frame)
      sending (raise x) e = cc
      sending (ok frame) e = (frame, refl, ground (arith, sent-sendall frame c))

  answer_challenge-eq-true :
      (d : Dict) (c : Conn)
      → (answer_challenge crypto json h gate salt d c).0 ≡ ok true
      → (nonce : Bytes) × (session : Value) × (fromhex_value (get "nonce" d) ≡ ok nonce)
        × (get "session_id" d ≡ some session)
        × (ask gate nonce d ≡ ok true)
        × ((sign_and_send crypto json h salt session nonce c).0 ≡ ok true)
        × ((answer_challenge crypto json h gate salt d c).1
            ≡ (sign_and_send crypto json h salt session nonce c).1)
  unfolding answer_challenge
  answer_challenge-eq-true d c e = ground arith

  check_challenge-eq-true :
      (q : Result Dict) (c : Conn)
      → (check_challenge crypto json h gate salt q c).0 ≡ ok true
      → (d : Dict) × (q ≡ ok d)
        × ((answer_challenge crypto json h gate salt d c).0 ≡ ok true)
        × (check_challenge crypto json h gate salt q c
            ≡ answer_challenge crypto json h gate salt d c)
  unfolding check_challenge
  check_challenge-eq-true (ok d) c e = (d, refl, e, refl)
  check_challenge-eq-true (raise (protocol_error _)) c e = cc
  check_challenge-eq-true (raise _) c e = cc

  answer_read-eq-true :
      (o : Read) (c : Conn)
      → (answer_read crypto json h gate salt o c).0 ≡ ok true
      → (m d : Dict) × (o ≡ message m)
        × (validate_challenge (dict m) ≡ ok d)
        × ((answer_challenge crypto json h gate salt d c).0 ≡ ok true)
        × (answer_read crypto json h gate salt o c ≡ answer_challenge crypto json h gate salt d c)
  unfolding answer_read
  answer_read-eq-true (message m) c e =
      let (d, valid, yes_, same) = check_challenge-eq-true (validate_challenge (dict m)) c e in
      (m, d, refl, valid, yes_, same)
  answer_read-eq-true closed_by_peer c e = cc
  answer_read-eq-true _ c e = cc

  read_and_answer-eq-true :
      (connected : Result (Unit {0})) (c : Conn)
      → (read_and_answer crypto json h gate salt connected c).0 ≡ ok true
      → (o : Read) × (c' : Conn) × (connected ≡ ok tt)
        × (read_loop json read_fuel [] c ≡ (ok o, c'))
        × ((answer_read crypto json h gate salt o c').0 ≡ ok true)
        × (read_and_answer crypto json h gate salt connected c
            ≡ answer_read crypto json h gate salt o c')
  unfolding read_and_answer
  read_and_answer-eq-true (raise x) c e = cc
  read_and_answer-eq-true (ok _) c e =
      let (o, c', read, rest) =
        continue-eq-ok (read_loop json read_fuel [] c) (answer_read crypto json h gate salt) e in
      (o, c', refl, read, rest, ap (λ p. continue p (answer_read crypto json h gate salt)) read)

  do_handshake-eq-true :
      (connected : Result (Unit {0})) (conn : Conn)
      → (do_handshake crypto json h gate salt connected conn).0 ≡ ok true
      → ((read_and_answer crypto json h gate salt connected conn).0 ≡ ok true)
        × ((do_handshake crypto json h gate salt connected conn).1.sent
            ≡ (read_and_answer crypto json h gate salt connected conn).1.sent)
  unfolding do_handshake
  do_handshake-eq-true connected conn e = ground arith

  -- `do_handshake` says `True` only if it connected, the bytes that the PC sends begin with the frame of
  -- a valid challenge, the gate approved the nonce of that challenge, and exactly the frame of the
  -- response that signs this nonce under the id of the challenge's session was sent.
  pub do_handshake_sound :
      (connected : Result (Unit {0})) (conn : Conn)
      → (do_handshake crypto json h gate salt connected conn).0 ≡ ok true
      → (d : Dict) × (nonce : Bytes) × (session : Value) × (frame : Bytes) × (connected ≡ ok tt)
        × IsHeard json conn.incoming d
        × IsChallenge d
        × (fromhex_value (get "nonce" d) ≡ ok nonce)
        × (get "session_id" d ≡ some session)
        × (ask gate nonce d ≡ ok true)
        × (encode_frame json (response session nonce) ≡ ok frame)
        × ((do_handshake crypto json h gate salt connected conn).1.sent ≡ conn.sent ++ frame)
  do_handshake_sound connected conn e =
      let (e1, s1) = do_handshake-eq-true connected conn e in
      let (o, c', up, read, e2, same2) = read_and_answer-eq-true connected conn e1 in
      let (m, d, is_message, valid, e3, same3) = answer_read-eq-true o c' e2 in
      let (nonce, session, has_nonce, has_id, approved, e4, same4) =
        answer_challenge-eq-true d c' e3 in
      let (frame, encoded, sent) = sign_and_send-eq-true session nonce c' e4 in
      let (is_d, challenge) = (validate_challenge_iff (dict m) d).0 valid in
      let unsent = sent-read_loop json read_fuel [] conn in
      let is_m : m ≡ d = dict-injective is_d in
      let before : c'.sent ≡ conn.sent = sym (ap (λ p. p.1.sent) read) ∙ unsent in
      (
        d,
        nonce,
        session,
        frame,
        up,
        read_loop-IsHeard json read_fuel conn d
            (ap (λ p. p.0) read ∙ ap ok (is_message ∙ ap message is_m)),
        challenge,
        has_nonce,
        has_id,
        approved,
        encoded,
        s1
            ∙ ap (λ p. p.1.sent) (same2 ∙ same3)
            ∙ ap (λ w. w.sent) same4
            ∙ sent
            ∙ ap (λ t. t ++ frame) before,
      )
