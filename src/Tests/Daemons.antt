-- ===== src/Tests/Daemons.antt =====
-- daemon.py at concrete inputs.
use phonect.Daemon.Sessions.{strip, splitlines}
use phonect.Daemon.Sessions.Active.{Listed, get_active_session_ids-Listed}
use phonect.Prelude.{List, arith, String, Bool, true, false, Option, none, some, [], ◌∷◌, ◌≡◌, refl}
use phonect.Python.{str, list, nil, incomplete_read_error, ok}
use phonect.Daemon.Tcp.{
  tcp_handshake, greet_and_verify, with_candidate, send_accept, send_challenge, receive_response,
  refuse_violation, answer_response, check_response, conclude, settle, pin, save_phone_key,
}
use phonect.Daemon.Reader.{read_frame, readexactly, write_and_drain}
use phonect.Daemon.Hello.{receive_hello, check_hello, text_of, choose_key, is_known_key}
use phonect.Protocol.Validate.{validate_pair_hello, validate_response}
use phonect.Handshake.Server.{challenge_with}
use phonect.Handshake.{check_slice, fromhex_value}
use phonect.Protocol.Messages.{make_challenge, make_response, make_pair_hello, make_pair_accept}
use phonect.Protocol.Frame.{encode_frame}
use phonect.Bytes.{unpack_word, pack_word, hex, fromhex_codes, utf8}
use phonect.Crypto.{fingerprint_from_public_key, verify_nonce}
use phonect.Bytes.{Bytes}
use phonect.Daemon.Tcp.{Verdict}
use phonect.Config.{UnlockConfig, text_list}
use phonect.Config.Unlock.{IsUnlock, loginctl, command}
use phonect.Daemon.Reader.{Session}
use phonect.Daemon.Reader.Received.{IsSent}
use phonect.Daemon.Tcp.Ending.{Ending}
use phonect.Daemon.Tcp.Sound.{tcp_handshake_sound}
use phonect.Daemon.Sessions.{get_active_session_ids}
use phonect.Daemon.Unlock.{process, Host, unlock_sessions}
use phonect.Daemon.Unlock.Effects.{finished, unlock_sessions_issues}
use phonect.Daemon.Window.{Link}
use phonect.Daemon.Tcp.Arrive.{Conveys}
use phonect.Daemon.Tcp.Honest.{hello, accept, challenge, response, tcp_handshake_complete}
use phonect.Tests.Setup.{toy_lawful, toy_crypto, toy_json, drawn}

-- the frames of a greeting and of a response
abbrev phone_bytes : Bytes
phone_bytes = 0 ∷ 0 ∷ 0 ∷ 1 ∷ 72 ∷ 0 ∷ 0 ∷ 0 ∷ 1 ∷ 82 ∷ []

abbrev pub link : Link
link = record {
  input = phone_bytes;
  ending = incomplete_read_error;
  drains = [];
  save_error = none;
}

abbrev pub session : Option Bool → Session Bool
session trusted = record {
  input = phone_bytes;
  ending = incomplete_read_error;
  drains = [];
  output = [];
  trusted_key = trusted;
  key_file = none;
  save_error = none;
}

tcp_handshake_sound_example :
    (v : Verdict) × (t : Session Bool) × (tcp_handshake toy_crypto toy_json
        (some false)
        drawn
        (session (some true))
      ≡ (ok v, t))
    × Ending toy_crypto
        (IsSent toy_json (session (some true)).input)
        drawn.nonce
        (session (some true))
        v
        t
tcp_handshake_sound_example =
    tcp_handshake_sound toy_crypto toy_json (some false) drawn (session (some true))

-- The phone that is known unlocks; on first contact it is paired.
known_phone :
    (tcp_handshake toy_crypto toy_json (some false) drawn (session (some true))).0 ≡ ok (true, true)
unfolding tcp_handshake greet_and_verify with_candidate send_accept send_challenge receive_response
    refuse_violation answer_response check_response conclude settle pin save_phone_key read_frame
    readexactly write_and_drain receive_hello check_hello text_of choose_key is_known_key
    validate_pair_hello validate_response challenge_with check_slice fromhex_value make_challenge
    make_response make_pair_hello make_pair_accept encode_frame unpack_word pack_word hex
    fromhex_codes utf8 fingerprint_from_public_key verify_nonce
known_phone = refl

new_phone :
    (tcp_handshake toy_crypto toy_json (some false) drawn (session none)).0 ≡ ok (true, false)
unfolding tcp_handshake greet_and_verify with_candidate send_accept send_challenge receive_response
    refuse_violation answer_response check_response conclude settle pin save_phone_key read_frame
    readexactly write_and_drain receive_hello check_hello text_of choose_key is_known_key
    validate_pair_hello validate_response challenge_with check_slice fromhex_value make_challenge
    make_response make_pair_hello make_pair_accept encode_frame unpack_word pack_word hex
    fromhex_codes utf8 fingerprint_from_public_key verify_nonce
new_phone = refl

pinned : (tcp_handshake toy_crypto toy_json (some false) drawn (session none)).1.key_file ≡ some "T"
unfolding tcp_handshake greet_and_verify with_candidate send_accept send_challenge receive_response
    refuse_violation answer_response check_response conclude settle pin save_phone_key read_frame
    readexactly write_and_drain receive_hello check_hello text_of choose_key is_known_key
    validate_pair_hello validate_response challenge_with check_slice fromhex_value make_challenge
    make_response make_pair_hello make_pair_accept encode_frame unpack_word pack_word hex
    fromhex_codes utf8 fingerprint_from_public_key verify_nonce
pinned = refl

abbrev pub listing : String
listing =
    " 1 1000 ann seat0 tty2\n 2 1001 bob seat0 x\r\n c3 1000 ann seat0 active no\n4 1000 ann - x\n"

pub listed : get_active_session_ids "ann" (ok listing) ≡ ok ("1" ∷ "c3" ∷ [])
unfolding get_active_session_ids
listed = refl

get_active_session_ids-Listed_example :
    (ids : List String) × (get_active_session_ids "ann" (ok listing) ≡ ok ids)
    × Listed "ann" (splitlines (strip listing)) ids
get_active_session_ids-Listed_example = get_active_session_ids-Listed "ann" listing

abbrev pub host : Host
host = record { hook = false; user = "ann"; listing = ok listing; outcome = λ argv. ok 0 }

abbrev pub default_config : UnlockConfig
default_config = record { unlock_backend = str "loginctl"; unlock_command = list nil }

pub default_config-IsUnlock : IsUnlock default_config
unfolding text_list
default_config-IsUnlock = loginctl refl refl

unlock_sessions_issues_example : unlock_sessions host default_config [] ≡ (
  ok tt,
  process ("loginctl" ∷ "unlock-session" ∷ "1" ∷ [])
      ∷ process ("loginctl" ∷ "unlock-session" ∷ "c3" ∷ [])
      ∷ [],
)
unfolding text_list
unlock_sessions_issues_example =
    unlock_sessions_issues host default_config ("1" ∷ "c3" ∷ []) [] default_config-IsUnlock listed
      (λ argv. finished 0)

abbrev blank_config : UnlockConfig
blank_config = record { unlock_backend = str "sudo"; unlock_command = list nil }

blank_config-refused : ¬ IsUnlock blank_config
blank_config-refused (loginctl named none_given) = cc
blank_config-refused (command executable args named given _) = cc

pub hello_conveyed :
    Conveys toy_json (hello toy_crypto toy_lawful true "h1" "pixel") (0 ∷ 0 ∷ 0 ∷ 1 ∷ 72 ∷ [])
unfolding encode_frame pack_word make_pair_hello
hello_conveyed = record { parsed = refl; filled = omega arith; encoded = refl }

pub response_conveyed :
    Conveys toy_json
      (response toy_crypto toy_lawful true "h1" "pixel" toy_json false drawn [])
      (0 ∷ 0 ∷ 0 ∷ 1 ∷ 82 ∷ [])
unfolding encode_frame pack_word make_response
response_conveyed = record { parsed = refl; filled = omega arith; encoded = refl }

pub accept_encoded :
    encode_frame toy_json (accept toy_crypto toy_lawful true "h1" "pixel" toy_json false drawn [])
    ≡ ok (0 ∷ 0 ∷ 0 ∷ 1 ∷ 72 ∷ [])
unfolding encode_frame pack_word make_pair_accept
accept_encoded = refl

pub challenge_encoded :
    encode_frame toy_json
      (challenge toy_crypto toy_lawful true "h1" "pixel" toy_json false drawn [])
    ≡ ok (0 ∷ 0 ∷ 0 ∷ 1 ∷ 67 ∷ [])
unfolding encode_frame pack_word make_challenge challenge_with
challenge_encoded = refl

tcp_handshake_complete_example :
    tcp_handshake toy_crypto toy_json (some false) drawn (session (some true)) ≡ (
      ok (true, true),
      record (session (some true)) {
        input = [];
        output = 0 ∷ 0 ∷ 0 ∷ 1 ∷ 72 ∷ 0 ∷ 0 ∷ 0 ∷ 1 ∷ 67 ∷ [];
      },
    )
tcp_handshake_complete_example =
    tcp_handshake_complete toy_crypto toy_lawful true "h1" "pixel" toy_json false drawn [] true
      (0 ∷ 0 ∷ 0 ∷ 1 ∷ 72 ∷ []) (0 ∷ 0 ∷ 0 ∷ 1 ∷ 72 ∷ []) (0 ∷ 0 ∷ 0 ∷ 1 ∷ 67 ∷ [])
      (0 ∷ 0 ∷ 0 ∷ 1 ∷ 82 ∷ []) [] (session (some true)) refl refl refl refl hello_conveyed
      accept_encoded challenge_encoded response_conveyed
