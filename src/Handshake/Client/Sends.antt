-- ===== src/Handshake/Client/Sends.antt =====
-- handshake.py: what `do_handshake` sends, however it ends.
use mathlib.Core.List.{append-nil}
use phonect.Prelude.{
  String, List, Bool, true, false, some, [], ◌∷◌, ◌++◌, take, drop, ◌≡◌, ◌⊎◌, inl, inr, refl, ◌∙◌,
  ap, sym, arith, take-append-drop, if◌then◌else◌,
}
use phonect.Python.{Value, Dict, dict, get, protocol_error, Result, ok, raise}
use phonect.Python.Io.{Io, pure, handle, continue}
use phonect.Bytes.{Bytes}
use phonect.Protocol.Frame.{Json, encode_frame}
use phonect.Protocol.Validate.{validate_challenge}
use phonect.Protocol.Validate.Schemas.{IsChallenge, validate_challenge_iff}
use phonect.Crypto.{Cryptography}
use phonect.Handshake.{
  Send, taken, breaks, Conn, send_event, sendall, Read, message, closed_by_peer, read_loop,
  read_fuel, fromhex_value,
}
use phonect.Handshake.Heard.{IsHeard, read_loop-IsHeard}
use phonect.Handshake.Client.{
  Gate, ask, item_of, log_mutual, HandshakeClient, sign_and_send, answer_challenge, check_challenge,
  answer_read, read_and_answer, do_handshake,
}
use phonect.Handshake.Client.Sound.{response, sent-read_loop}

-- `sendall` sends a first part of the bytes, which is all of them where it succeeds.
sent-sendall_part :
    (b : Bytes) (c : Conn)
    → (part missing : Bytes) × (b ≡ part ++ missing) × ((sendall b c).1.sent ≡ c.sent ++ part)
unfolding sendall
sent-sendall_part b c = by_event c.sends
  where
    by_event :
        (l : List Send)
        → (part missing : Bytes) × (b ≡ part ++ missing)
          × ((send_event b l c).1.sent ≡ c.sent ++ part)
    by_event [] = (b, [], sym (append-nil b), refl)
    by_event (taken ∷ rest) = (b, [], sym (append-nil b), refl)
    by_event (breaks n e ∷ rest) = (take n b, drop n b, sym (take-append-drop n b), refl)

-- A property of the connection before a step that does not touch it, and after what follows.
lift-holds :
    {A B : Type 0} (P : Conn → Type 0) (q : Result A) (c : Conn) (f : A → Io Conn B)
    → P c
    → ((a : A) → q ≡ ok a → P (f a c).1)
    → P (continue (q, c) f).1
lift-holds P (ok a) c f h next = next a refl
lift-holds P (raise e) c f h next = h

module _ (crypto : Cryptography) (json : Json) (h : HandshakeClient crypto) (gate : Gate)
    (salt : Bytes) where
  -- Between two states of the connection, a first part of the frame was sent that answers the
  -- challenge, whose nonce the gate has approved.
  pub record IsAnswering (d : Dict) (c c' : Conn) : Type 0 where
    pub nonce : Bytes
    pub session : Value
    pub frame : Bytes
    pub part : Bytes
    pub missing : Bytes
    pub has_nonce : fromhex_value (get "nonce" d) ≡ ok nonce
    pub has_id : get "session_id" d ≡ some session
    pub approved : ask gate nonce d ≡ ok true
    pub encoded : encode_frame json (response crypto json h gate salt session nonce) ≡ ok frame
    pub split : frame ≡ part ++ missing
    pub sent : c'.sent ≡ c.sent ++ part

  item_of-eq-ok : (key : String) (d : Dict) (v : Value) → item_of key d ≡ ok v → get key d ≡ some v
  item_of-eq-ok key d v e = ground arith

  -- Nothing was sent, or a part of the answer.
  abbrev pub IsDiscreet : Dict → Conn → Conn → Type 0
  IsDiscreet d c c' = (c'.sent ≡ c.sent) ⊎ IsAnswering d c c'

  sign_and_send-IsDiscreet :
      (d : Dict) (c : Conn) (nonce : Bytes) (session : Value) (proceed : Bool)
      → fromhex_value (get "nonce" d) ≡ ok nonce
      → get "session_id" d ≡ some session
      → ask gate nonce d ≡ ok proceed
      → IsDiscreet d c
          ((if proceed then sign_and_send crypto json h salt session nonce else pure false) c).1
  unfolding sign_and_send
  sign_and_send-IsDiscreet d c nonce session false has_nonce has_id asked = inl refl
  sign_and_send-IsDiscreet d c nonce session true has_nonce has_id asked =
      lift-holds (IsDiscreet d c)
        (encode_frame json (response crypto json h gate salt session nonce)) c _ (inl refl)
        λ frame encoded.
          let (part, missing, split, sent) = sent-sendall_part frame c in
          inr (record {
            nonce = nonce;
            session = session;
            frame = frame;
            part = part;
            missing = missing;
            has_nonce = has_nonce;
            has_id = has_id;
            approved = asked;
            encoded = encoded;
            split = split;
            sent = sent-continue (sendall frame c) ∙ sent;
          })
    where
      sent-continue :
          (p : Result (Unit {0}) × Conn)
          → (continue {B = Bool} p (λ _. pure true)).1.sent ≡ p.1.sent
      sent-continue (ok _, c') = refl
      sent-continue (raise e, c') = refl

  answer_challenge-IsDiscreet :
      (d : Dict) (c : Conn) → IsDiscreet d c (answer_challenge crypto json h gate salt d c).1
  unfolding answer_challenge
  answer_challenge-IsDiscreet d c =
      lift-holds (IsDiscreet d c) (fromhex_value (get "nonce" d)) c _ (inl refl) λ nonce has_nonce.
        lift-holds (IsDiscreet d c) (item_of "session_id" d) c _ (inl refl) λ session has_id.
          lift-holds (IsDiscreet d c) (log_mutual d) c _ (inl refl) λ _ _.
            lift-holds (IsDiscreet d c) (ask gate nonce d) c _ (inl refl) λ proceed asked.
              sign_and_send-IsDiscreet d c nonce session proceed has_nonce
                (item_of-eq-ok "session_id" d session has_id) asked

  -- Nothing was sent, or a part of the answer to the challenge with which the reading ended.
  abbrev pub IsAnswer : Read → Conn → Conn → Type 0
  IsAnswer o c c' =
      (c'.sent ≡ c.sent) ⊎ ((d : Dict) × (o ≡ message d) × IsChallenge d × IsAnswering d c c')

  check_challenge-IsAnswer :
      (m : Dict) (q : Result Dict) (c : Conn)
      → q ≡ validate_challenge (dict m)
      → IsAnswer (message m) c (check_challenge crypto json h gate salt q c).1
  unfolding check_challenge
  check_challenge-IsAnswer m (raise (protocol_error _)) c e = inl refl
  check_challenge-IsAnswer m (raise _) c e = inl refl
  check_challenge-IsAnswer m (ok d) c e = elim (answer_challenge-IsDiscreet d c) [
    | inl same ↦ inl same
    | inr answering ↦
        let (is_d, challenge) = (validate_challenge_iff (dict m) d).0 (sym e) in
        inr (d, ap message (ground arith), challenge, answering)
  ]

  answer_read-IsAnswer :
      (o : Read) (c : Conn) → IsAnswer o c (answer_read crypto json h gate salt o c).1
  unfolding answer_read
  answer_read-IsAnswer (message m) c =
      check_challenge-IsAnswer m (validate_challenge (dict m)) c refl
  answer_read-IsAnswer closed_by_peer c = inl refl
  answer_read-IsAnswer _ c = inl refl

  -- Only what was sent counts.
  same_sent :
      {d : Dict} {c c' e e' : Conn}
      → c.sent ≡ e.sent
      → e'.sent ≡ c'.sent
      → IsAnswering d c c'
      → IsAnswering d e e'
  same_sent before later a = record {
    nonce = a.nonce;
    session = a.session;
    frame = a.frame;
    part = a.part;
    missing = a.missing;
    has_nonce = a.has_nonce;
    has_id = a.has_id;
    approved = a.approved;
    encoded = a.encoded;
    split = a.split;
    sent = later ∙ a.sent ∙ ap (λ (l : Bytes). l ++ a.part) before;
  }

  read_and_answer-IsAnswer :
      (connected : Result (Unit {0})) (c : Conn)
      → ((read_and_answer crypto json h gate salt connected c).1.sent ≡ c.sent)
        ⊎ ((d : Dict) × (connected ≡ ok tt)
            × ((read_loop json read_fuel [] c).0 ≡ ok (message d))
            × IsChallenge d
            × IsAnswering d c (read_and_answer crypto json h gate salt connected c).1)
  unfolding read_and_answer
  read_and_answer-IsAnswer (raise e) c = inl refl
  read_and_answer-IsAnswer (ok _) c =
      behind (read_loop json read_fuel [] c) (sent-read_loop json read_fuel [] c)
    where
      behind :
          (p : Result Read × Conn)
          → p.1.sent ≡ c.sent
          → ((continue p (answer_read crypto json h gate salt)).1.sent ≡ c.sent)
            ⊎ ((d : Dict) × (◌≡◌ {A = Result (Unit {0})} (ok tt) (ok tt))
                × (p.0 ≡ ok (message d))
                × IsChallenge d
                × IsAnswering d c (continue p (answer_read crypto json h gate salt)).1)
      behind (raise e, c') same = inl same
      behind (ok o, c') same = elim (answer_read-IsAnswer o c') [
        | inl quiet ↦ inl (quiet ∙ same)
        | inr (d, is_message, challenge, a) ↦
            inr (d, refl, ap ok is_message, challenge, same_sent same refl a)
      ]

  sent-do_handshake :
      (connected : Result (Unit {0})) (conn : Conn)
      → (do_handshake crypto json h gate salt connected conn).1.sent
        ≡ (read_and_answer crypto json h gate salt connected conn).1.sent
  unfolding do_handshake
  sent-do_handshake connected conn =
      handled (read_and_answer crypto json h gate salt connected conn)
    where
      handled : (p : Result Bool × Conn) → (handle p (λ _. pure false)).1.sent ≡ p.1.sent
      handled (ok b, c) = refl
      handled (raise e, c) = refl

  -- However `do_handshake` ends, it has sent nothing, or it connected, the bytes that the PC sends begin
  -- with the frame of a valid challenge, the gate approved the nonce of that challenge, and a first part
  -- was sent of the frame of the response that signs this nonce under the id of the challenge's session.
  pub do_handshake_sends :
      (connected : Result (Unit {0})) (conn : Conn)
      → ((do_handshake crypto json h gate salt connected conn).1.sent ≡ conn.sent)
        ⊎ ((d : Dict) × (connected ≡ ok tt)
            × IsHeard json conn.incoming d
            × IsChallenge d
            × IsAnswering d conn (do_handshake crypto json h gate salt connected conn).1)
  do_handshake_sends connected conn = elim (read_and_answer-IsAnswer connected conn) [
    | inl quiet ↦ inl (sent-do_handshake connected conn ∙ quiet)
    | inr (d, up, read, challenge, a) ↦ inr (
      d,
      up,
      read_loop-IsHeard json read_fuel conn d read,
      challenge,
      same_sent refl (sent-do_handshake connected conn) a,
    )
  ]
