-- ===== src/Tests/Handshakes.antt =====
-- handshake.py at concrete inputs.
use phonect.Prelude.{
  ◌⊎◌, Bool, true, false, Option, none, some, [], ◌∷◌, ◌++◌, ◌≡◌, ◌≢◌, refl, ap, arith,
}
use phonect.Python.{Value, Dict, get, timeout_error, connection_error, Result, ok}
use phonect.Bytes.{Bytes}
use phonect.Protocol.Messages.{make_challenge, make_response}
use phonect.Handshake.Server.{challenge_with}
use phonect.Bytes.{pack_word}
use phonect.Protocol.Frame.{encode_frame, decode_frame}
use phonect.Protocol.Validate.Schemas.{IsChallenge, IsResponse}
use phonect.Handshake.{
  Conn, breaks, fails, message, out_of_fuel, too_large, read_loop, read_fuel, fromhex_value,
}
use phonect.Handshake.Reading.{read_loop_ends, read_loop_finds, deliver}
use phonect.Handshake.Arrival.{Arrives, arriving, Carries}
use phonect.Handshake.Server.{has_socket, accept_and_verify}
use phonect.Handshake.Heard.{IsHeard}
use phonect.Handshake.Server.Sound.{accept_and_verify_sound, accept_and_verify_returns}
use phonect.Handshake.Client.{Gate, ask, do_handshake}
use phonect.Handshake.Client.Sound.{response, do_handshake_sound}
use phonect.Handshake.Client.Sends.{IsAnswering, do_handshake_sends}
use phonect.Handshake.Client.Declined.{do_handshake_declined}
use phonect.Handshake.Outcome.{handshake_completes}
use phonect.Tests.Setup.{
  repeat-IsBytes, length-repeat, toy_crypto, toy_lawful, drawn, server, client, gate,
  challenge_message, response_message, toy_json, str_fault, challenge_frame, response_frame,
  fresh_conn,
}

-- the challenge comes in two chunks, and the response with a byte behind it
abbrev pub to_client : Arrives challenge_frame
to_client = record {
  earlier = (0 ∷ 0 ∷ []) ∷ [];
  missing = 0 ∷ 1 ∷ 67 ∷ [];
  extra = [];
  chunks = ((omega arith, omega arith), tt);
  last = (omega arith, omega arith);
  left = omega arith;
  whole = refl;
  rounds = omega arith;
}

abbrev pub to_server : Arrives response_frame
to_server = record {
  earlier = [];
  missing = response_frame;
  extra = 9 ∷ [];
  chunks = tt;
  last = (omega arith, omega arith);
  left = omega arith;
  whole = refl;
  rounds = omega arith;
}

pub challenge_carried : Carries toy_json challenge_message challenge_frame
unfolding encode_frame challenge_with make_challenge pack_word
challenge_carried = record { parsed = refl; filled = omega arith; encoded = refl }

pub response_carried : Carries toy_json response_message response_frame
unfolding encode_frame make_response pack_word
response_carried = record { parsed = refl; filled = omega arith; encoded = refl }

approved : ask gate drawn.nonce challenge_message ≡ ok true
unfolding ask
approved = refl

both_complete :
    (do_handshake toy_crypto toy_json client gate [] (ok tt) (arriving fresh_conn to_client [])
      ≡ (ok true, record fresh_conn { sent = response_frame; closed = true }))
    × (accept_and_verify toy_crypto toy_json str_fault server drawn
          (ok (arriving fresh_conn to_server []))
        ≡ (ok true, some (record fresh_conn { sent = challenge_frame; closed = true })))
both_complete =
    handshake_completes toy_crypto toy_lawful toy_json str_fault server drawn client gate []
      challenge_frame response_frame fresh_conn fresh_conn to_client to_server [] [] refl refl
      (repeat-IsBytes 32 5 (omega arith)) (length-repeat 32 5) approved refl refl challenge_carried
      response_carried

handshake_completes_example :
    (do_handshake toy_crypto toy_json client gate [] (ok tt) (arriving fresh_conn to_client [])
      ≡ (ok true, record fresh_conn { sent = response_frame; closed = true }))
    × (accept_and_verify toy_crypto toy_json str_fault server drawn
          (ok (arriving fresh_conn to_server []))
        ≡ (ok true, some (record fresh_conn { sent = challenge_frame; closed = true })))
handshake_completes_example =
    handshake_completes toy_crypto toy_lawful toy_json str_fault server drawn client gate []
      challenge_frame response_frame fresh_conn fresh_conn to_client to_server [] [] refl refl
      (repeat-IsBytes 32 5 (omega arith)) (length-repeat 32 5) approved refl refl challenge_carried
      response_carried

abbrev server_run : Result Bool × Option Conn
server_run =
    accept_and_verify toy_crypto toy_json str_fault server drawn
      (ok (arriving fresh_conn to_server []))

server_run-ok : server_run.0 ≡ ok true
server_run-ok = ap (λ p. p.0) (both_complete.1)

abbrev client_run : Result Bool × Conn
client_run =
    do_handshake toy_crypto toy_json client gate [] (ok tt) (arriving fresh_conn to_client [])

client_run-ok : client_run.0 ≡ ok true
client_run-ok = ap (λ p. p.0) (both_complete.0)

accept_and_verify_sound_example :
    (has_socket toy_crypto server ≡ true)
    × (conn : Conn) × (d : Dict) × (signature : Bytes) × (◌≡◌ {A = Result Conn}
        (ok (arriving fresh_conn to_server []))
        (ok conn))
    × IsHeard toy_json conn.incoming d
    × IsResponse d
    × (fromhex_value (get "signature" d) ≡ ok signature)
    × (toy_crypto.verify server.trusted_key signature drawn.nonce ≡ ok tt)
accept_and_verify_sound_example =
    accept_and_verify_sound toy_crypto toy_json str_fault server drawn
      (ok (arriving fresh_conn to_server [])) server_run-ok

-- a peer that goes away
abbrev broken : Conn
broken = record fresh_conn { incoming = fails timeout_error ∷ [] }

accept_and_verify_returns_example :
    (result : Bool) × (closed : Conn) × (accept_and_verify toy_crypto toy_json str_fault server
        drawn
        (ok broken)
      ≡ (ok result, some closed))
    × (closed.closed ≡ true)
    × ((c : Conn) → (read_loop toy_json read_fuel [] c).0 ≢ ok out_of_fuel)
accept_and_verify_returns_example =
    accept_and_verify_returns toy_crypto toy_json str_fault server drawn broken refl

do_handshake_sound_example :
    (d : Dict) × (nonce : Bytes) × (session : Value) × (frame : Bytes) × (◌≡◌
      {A = Result (Unit {0})}
      (ok tt)
      (ok tt))
    × IsHeard toy_json (arriving fresh_conn to_client []).incoming d
    × IsChallenge d
    × (fromhex_value (get "nonce" d) ≡ ok nonce)
    × (get "session_id" d ≡ some session)
    × (ask gate nonce d ≡ ok true)
    × (encode_frame toy_json (response toy_crypto toy_json client gate [] session nonce) ≡ ok frame)
    × (client_run.1.sent ≡ [] ++ frame)
do_handshake_sound_example =
    do_handshake_sound toy_crypto toy_json client gate [] (ok tt) (arriving fresh_conn to_client [])
      client_run-ok

-- a gate that approves nothing
abbrev closed_gate : Gate
closed_gate = some (λ nonce challenge. ok false)

closed_gate-declines : (nonce : Bytes) (d : Dict) → ask closed_gate nonce d ≢ ok true
unfolding ask
closed_gate-declines nonce d h = cc

declined :
    ((do_handshake toy_crypto toy_json client closed_gate []
        (ok tt)
        (arriving fresh_conn to_client [])).0
      ≡ ok false)
    × ((do_handshake toy_crypto toy_json client closed_gate []
          (ok tt)
          (arriving fresh_conn to_client [])).1.sent
        ≡ [])
declined =
    do_handshake_declined toy_crypto toy_json client closed_gate [] (ok tt)
      (arriving fresh_conn to_client []) closed_gate-declines

-- the PC goes away when three bytes of the response are out
abbrev breaking : Conn
breaking = record (arriving fresh_conn to_client []) { sends = breaks 3 connection_error ∷ [] }

do_handshake_sends_example :
    ((do_handshake toy_crypto toy_json client gate [] (ok tt) breaking).1.sent ≡ [])
    ⊎ ((d : Dict) × (◌≡◌ {A = Result (Unit {0})} (ok tt) (ok tt))
        × IsHeard toy_json breaking.incoming d
        × IsChallenge d
        × IsAnswering toy_crypto toy_json client gate [] d breaking
            (do_handshake toy_crypto toy_json client gate [] (ok tt) breaking).1)
do_handshake_sends_example = do_handshake_sends toy_crypto toy_json client gate [] (ok tt) breaking

empty_waits : decode_frame toy_json [] ≡ ok none
unfolding decode_frame
empty_waits = refl

read_loop_ends_example :
    ((read_loop toy_json read_fuel [] broken).0 ≢ ok out_of_fuel)
    × ((read_loop toy_json read_fuel [] broken).0 ≢ ok too_large)
read_loop_ends_example = read_loop_ends toy_json read_fuel [] broken empty_waits (omega arith)

read_loop_finds_example :
    read_loop toy_json 3 [] (deliver fresh_conn ((0 ∷ 0 ∷ []) ∷ (0 ∷ 1 ∷ 67 ∷ 9 ∷ []) ∷ []) [])
    ≡ (ok (message challenge_message), fresh_conn)
read_loop_finds_example =
    read_loop_finds toy_json challenge_message challenge_frame challenge_carried.parsed
      challenge_carried.filled challenge_carried.encoded 3 [] ((0 ∷ 0 ∷ []) ∷ []) (0 ∷ 1 ∷ 67 ∷ [])
      (9 ∷ []) fresh_conn [] ((omega arith, omega arith), tt) (omega arith, omega arith)
      (omega arith) refl (omega arith)
