-- ===== src/Daemon/Tcp/Honest.antt =====
-- daemon.py: what `_tcp_handshake` does with a phone that keeps to the protocol.
use phonect.Prelude.{
  String, Bool, true, false, Option, none, some, [], ◌++◌, ◌≡◌, refl, ap, arith, not, eq_refl,
}
use phonect.Python.{str, dict, Dict, get, ok}
use phonect.Bytes.{Bytes, utf8}
use phonect.Protocol.Frame.{Json, encode_frame}
use phonect.Crypto.{Cryptography, IsLawful, sign_nonce, fingerprint_from_public_key}
use phonect.Protocol.Messages.{make_pair_hello, make_pair_accept, make_response}
use phonect.Protocol.Validate.{validate_pair_hello}
use phonect.Daemon.Hello.{Candidate, check_hello, text_of, is_known_key, choose_key, receive_hello}
use phonect.Protocol.Validate.Built.{validate_response-make_response}
use phonect.Bytes.Hex.{fromhex-hex}
use phonect.Crypto.Laws.{verify_nonce-sign_nonce}
use phonect.Handshake.{fromhex_value, check_slice}
use phonect.Handshake.Server.{Drawn, challenge_with}
use phonect.Daemon.Tcp.{
  pin, save_phone_key, settle, conclude, check_response, answer_response, receive_response,
  send_accept, send_challenge, with_candidate, greet_and_verify, tcp_handshake,
}
use phonect.Daemon.Reader.{Session}
use phonect.Daemon.Tcp.Arrive.{Conveys, read_frame-run, write_and_drain-run}

module _ (crypto : Cryptography) (L : IsLawful crypto) (k : crypto.PrivateKey)
    (id name : String) where
  abbrev phone_key : crypto.PublicKey
  phone_key = crypto.public_key k

  abbrev phone_fp : String
  phone_fp = fingerprint_from_public_key crypto phone_key

  -- the greeting of the phone that holds `k`
  abbrev pub hello : Dict
  hello = make_pair_hello id (crypto.public_pem_text phone_key) phone_fp name none

  -- the key of a phone that is known, or none
  abbrev pub trusted_if : Bool → Option crypto.PublicKey
  trusted_if true = some phone_key
  trusted_if false = none

  abbrev candidate : Bool → Candidate crypto.PublicKey
  candidate known = record {
    key = phone_key;
    verification_key = phone_key;
    is_new = not known;
    pem = crypto.public_pem_text phone_key;
    hello = hello;
  }

  loads_pem : crypto.load_pem_public_key (utf8 (crypto.public_pem_text phone_key)) ≡ ok phone_key
  loads_pem = rw (L.utf8-public_pem_text phone_key) (L.load-public_pem phone_key)

  choose_key-run :
      (known : Bool)
      → choose_key crypto
          (trusted_if known)
          phone_key
          (str phone_fp)
          (crypto.public_pem_text phone_key)
          hello
        ≡ some (candidate known)
  unfolding choose_key is_known_key
  choose_key-run true = rw (eq_refl phone_fp)
  choose_key-run false = refl

  receive_hello-run :
      (known : Bool)
      → receive_hello crypto (trusted_if known) (dict hello) ≡ ok (some (candidate known))
  unfolding receive_hello check_hello text_of validate_pair_hello make_pair_hello
  receive_hello-run known = rw (loads_pem, eq_refl phone_fp) (ap ok (choose_key-run known))

  module _ (json : Json) (pc : crypto.PrivateKey) (r : Drawn) (salt : Bytes) where
    -- the computer's answer to the greeting, its challenge, and the phone's response
    abbrev pub accept : Dict
    accept =
        make_pair_accept (str id) (crypto.public_pem_text (crypto.public_key pc))
          (fingerprint_from_public_key crypto (crypto.public_key pc))

    abbrev pub challenge : Dict
    challenge = challenge_with crypto (some pc) r

    abbrev signature : Bytes
    signature = sign_nonce crypto k salt r.nonce

    abbrev pub response : Dict
    response = make_response (str r.uuid) signature phone_fp name

    send_accept-run :
        (known : Bool) (f : Bytes) (s : Session crypto.PublicKey)
        → encode_frame json accept ≡ ok f
        → s.drains ≡ []
        → send_accept crypto json pc (candidate known) s
          ≡ (ok tt, record s { output = s.output ++ f })
    unfolding send_accept make_pair_hello
    send_accept-run known f s encoded ready = rw (encoded, write_and_drain-run f s ready)

    send_challenge-run :
        (f : Bytes) (s : Session crypto.PublicKey)
        → encode_frame json challenge ≡ ok f
        → s.drains ≡ []
        → send_challenge crypto json pc r s ≡ (ok tt, record s { output = s.output ++ f })
    unfolding send_challenge
    send_challenge-run f s encoded ready = rw (encoded, write_and_drain-run f s ready)

    receive_response-run :
        (f rest : Bytes) (s : Session crypto.PublicKey)
        → Conveys json response f
        → s.input ≡ f ++ rest
        → receive_response crypto json s ≡ (ok (dict response), record s { input = rest })
    unfolding receive_response
    receive_response-run f rest s carried e = rw (read_frame-run json response f rest s carried e)

    -- what the session keeps after a handshake with this phone
    abbrev pub keyed : Bool → Session crypto.PublicKey → Session crypto.PublicKey
    keyed true s = s
    keyed false s = record s {
      trusted_key = some phone_key;
      key_file = some (crypto.public_pem_text phone_key);
    }

    settle-run :
        (known : Bool) (s : Session crypto.PublicKey)
        → s.save_error ≡ none
        → settle crypto json (candidate known) response true s ≡ (ok (true, known), keyed known s)
    unfolding settle pin save_phone_key make_response check_slice
    settle-run true s saves = refl
    settle-run false s saves = rw saves

    fromhex_value-response : fromhex_value (get "signature" response) ≡ ok signature
    unfolding fromhex_value make_response
    fromhex_value-response = ground (arith, fromhex-hex signature (L.sign-IsBytes k salt r.nonce))

    answer_response-run :
        (known : Bool) (s : Session crypto.PublicKey)
        → s.save_error ≡ none
        → answer_response crypto json (candidate known) r.nonce (dict response) s
          ≡ (ok (true, known), keyed known s)
    unfolding answer_response check_response conclude
    answer_response-run known s saves =
        rw
          (
            validate_response-make_response (str r.uuid) signature phone_fp name
                (L.sign-IsBytes k salt r.nonce) (L.length-sign k salt r.nonce),
            fromhex_value-response,
            verify_nonce-sign_nonce crypto L k salt r.nonce,
          )
          (settle-run known s saves)

    with_candidate-run :
        (known : Bool) (accept_frame challenge_frame response_frame rest : Bytes)
        (s : Session crypto.PublicKey)
        → s.drains ≡ []
        → s.save_error ≡ none
        → s.input ≡ response_frame ++ rest
        → encode_frame json accept ≡ ok accept_frame
        → encode_frame json challenge ≡ ok challenge_frame
        → Conveys json response response_frame
        → with_candidate crypto json pc r (some (candidate known)) s ≡ (
          ok (true, known),
          keyed known
              (record s { input = rest; output = (s.output ++ accept_frame) ++ challenge_frame }),
        )
    unfolding with_candidate
    with_candidate-run known fa fc fr rest s ready saves input accepted challenged carried =
        let s1 : Session crypto.PublicKey = record s { output = s.output ++ fa } in
        let s2 : Session crypto.PublicKey = record s { output = (s.output ++ fa) ++ fc } in
        rw
          (
            send_accept-run known fa s accepted ready,
            send_challenge-run fc s1 challenged ready,
            receive_response-run fr rest s2 carried input,
          )
          (answer_response-run known (record s2 { input = rest }) saves)

    -- A phone that sends its greeting and then its response, signed with its own key for the nonce of
    -- this handshake, is verified, where no write fails. If its key is the trusted one, the verdict
    -- unlocks and the session keeps its key; if no key is trusted, the verdict is that of a pairing
    -- and the phone's key is trusted and saved. Either way the accept frame and the challenge frame
    -- were written, in this order, and no byte behind the response was read.
    pub tcp_handshake_complete :
        (known : Bool) (hello_frame accept_frame challenge_frame response_frame rest : Bytes)
        (s : Session crypto.PublicKey)
        → s.trusted_key ≡ trusted_if known
        → s.drains ≡ []
        → s.save_error ≡ none
        → s.input ≡ hello_frame ++ (response_frame ++ rest)
        → Conveys json hello hello_frame
        → encode_frame json accept ≡ ok accept_frame
        → encode_frame json challenge ≡ ok challenge_frame
        → Conveys json response response_frame
        → tcp_handshake crypto json (some pc) r s ≡ (
          ok (true, known),
          keyed known
              (record s { input = rest; output = (s.output ++ accept_frame) ++ challenge_frame }),
        )
    unfolding tcp_handshake greet_and_verify
    tcp_handshake_complete known fh fa fc fr rest s trusted ready saves input greeted accepted
          challenged carried =
        rw (
          read_frame-run json hello fh (fr ++ rest) s greeted input,
          trusted,
          receive_hello-run known,
          with_candidate-run known fa fc fr rest
              (record s { input = fr ++ rest; trusted_key = trusted_if known }) ready saves refl
              accepted challenged carried,
        )
