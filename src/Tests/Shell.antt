-- ===== src/Tests/Shell.antt =====
-- cli.py and the listening socket of handshake.py, at concrete inputs.
use phonect.Prelude.{
  true, false, none, some, [], ◌∷◌, ◌==◌, ◌≡◌, ◌⊎◌, inl, inr, refl, ap, arith, if◌then◌else◌,
}
use phonect.Python.{
  ℤ, pos, str, dict, Dict, empty, entry, get, os_error, json_decode_error, Result, ok, raise,
}
use phonect.Python.Paths.{of_text, path_eq, parent}
use phonect.Python.Disk.{Disk, write_bytes}
use phonect.Bytes.{pack_word}
use phonect.Protocol.Frame.{Json, encode_frame}
use phonect.Protocol.Messages.{make_challenge, make_response}
use phonect.Handshake.Arrival.{arriving, Carries}
use phonect.Handshake.Server.{
  Opening, HandshakeServer, new_server, port, start, close, challenge_with, server_challenge,
}
use phonect.Cli.{Network, cmd_gen_keys, cmd_server, cmd_client}
use phonect.Cli.Laws.{gen_keys_serve, challenge_sent, response_sent}
use phonect.Tests.Setup.{
  repeat-IsBytes, length-repeat, toy_crypto, toy_lawful, toy_text, first, toy_json, str_fault,
  drawn, server, response_message, challenge_frame, response_frame, fresh_conn,
}
use phonect.Tests.Handshakes.{to_client, to_server}
use phonect.Tests.Configs.{toml_of, env, bare_disk, document}
use mathlib.Core.Path.{subst}
use phonect.Cli.Parser.{build_parser, Namespace, func_gen_keys}
use phonect.Cli.Parser.Typed.{IsParsed, left_out, given, is_text}
use phonect.Cli.Run.{System, Parsed, stopped, parsed, main}
use phonect.Cli.Dispatch.{Dispatched, main_dispatches}
use phonect.Handshake.Server.Socket.{close-start}

-- a server without a key of its own, and the files of `gen-keys`
abbrev plain_challenge : Dict
plain_challenge = server_challenge toy_crypto (record server { pc_private_key = none }) drawn

abbrev plain_json : Json
plain_json = record {
  dumps = λ d. toy_text (get "type" d);
  loads = λ b. if first b == 67 then ok (dict plain_challenge) else ok (dict response_message);
  loads_utf8 = λ b. raise json_decode_error;
}

abbrev net : Network
net = record {
  opening = record { creating = ok tt; binding = λ host port. ok (pos 4000); listening = ok tt };
  closing = ok tt;
  drawn = drawn;
  accepted = ok (arriving fresh_conn to_server []);
  salt = [];
  connecting = λ host port. ok tt;
  conn = arriving fresh_conn to_client [];
}

keys_written : (cmd_gen_keys toy_crypto true "a" "b" bare_disk).0 ≡ ok tt
unfolding cmd_gen_keys write_bytes of_text parent
keys_written = refl

names_differ : path_eq (of_text "a") (of_text "b") ≡ false
unfolding of_text
names_differ = refl

plain_carried :
    Carries plain_json
      (challenge_sent toy_crypto toy_lawful plain_json str_fault true net "a" "b" "pixel" "10.0.0.2"
        "30.0" "10.0"
        (pos 0)
        (pos 4000)
        (pos 4000)
        bare_disk)
      challenge_frame
unfolding encode_frame challenge_with make_challenge pack_word
plain_carried = record { parsed = refl; filled = omega arith; encoded = refl }

plain_answered :
    Carries plain_json
      (response_sent toy_crypto toy_lawful plain_json str_fault true net "a" "b" "pixel" "10.0.0.2"
        "30.0" "10.0"
        (pos 0)
        (pos 4000)
        (pos 4000)
        bare_disk)
      response_frame
unfolding encode_frame make_response pack_word
plain_answered = record { parsed = refl; filled = omega arith; encoded = refl }

abbrev key_disk : Disk
key_disk = (cmd_gen_keys toy_crypto true "a" "b" bare_disk).1

both_exit :
    (cmd_client toy_crypto plain_json str_fault net "a" "10.0.0.2"
        (pos 4000)
        "pixel"
        "10.0"
        key_disk
      ≡ (ok 0, key_disk))
    × (cmd_server toy_crypto plain_json str_fault net "b" (pos 0) "30.0" key_disk
        ≡ (ok 0, key_disk))
both_exit =
    gen_keys_serve toy_crypto toy_lawful plain_json str_fault true net "a" "b" "pixel" "10.0.0.2"
      "30.0" "10.0" (pos 0) (pos 4000) (pos 4000) bare_disk challenge_frame response_frame
      fresh_conn fresh_conn to_client to_server [] [] names_differ keys_written refl refl refl refl
      refl refl refl (repeat-IsBytes 32 5 (omega arith)) (length-repeat 32 5) refl refl
      plain_carried plain_answered

gen_keys_serve_example :
    (cmd_client toy_crypto plain_json str_fault net "a" "10.0.0.2"
        (pos 4000)
        "pixel"
        "10.0"
        key_disk
      ≡ (ok 0, key_disk))
    × (cmd_server toy_crypto plain_json str_fault net "b" (pos 0) "30.0" key_disk
        ≡ (ok 0, key_disk))
gen_keys_serve_example =
    gen_keys_serve toy_crypto toy_lawful plain_json str_fault true net "a" "b" "pixel" "10.0.0.2"
      "30.0" "10.0" (pos 0) (pos 4000) (pos 4000) bare_disk challenge_frame response_frame
      fresh_conn fresh_conn to_client to_server [] [] names_differ keys_written refl refl refl refl
      refl refl refl (repeat-IsBytes 32 5 (omega arith)) (length-repeat 32 5) refl refl
      plain_carried plain_answered

-- the command line `phonect gen-keys --private-key a --public-key b`
abbrev gen_keys_args : Namespace
gen_keys_args = record {
  func = func_gen_keys;
  values =
      entry "log_level" (str "INFO")
        (entry "private_key" (str "a") (entry "public_key" (str "b") empty));
}

gen_keys_args-IsParsed : IsParsed build_parser gen_keys_args
gen_keys_args-IsParsed = inl (
  refl,
  ((str "INFO", refl, left_out _ _ _), tt),
  (
    (str "a", refl, given _ _ _ _ (is_text "a")),
    ((str "b", refl, given _ _ _ _ (is_text "b")), tt),
  ),
)

abbrev system : System toy_crypto
system = record {
  parse_args = λ parser argv. parsed gen_keys_args;
  toml = toml_of document;
  env = env;
  network = net;
  adding = λ _. ok tt;
  serving = ok tt;
  drawn_key = true;
  basic_config = λ level. ok tt;
}

abbrev args_of : Parsed → Namespace
args_of (parsed args) = args
args_of (stopped status) = gen_keys_args

system-IsParsed :
    (args : Namespace)
    → ◌≡◌ {A = Parsed} (parsed gen_keys_args) (parsed args)
    → IsParsed build_parser args
system-IsParsed args e = subst (λ a. IsParsed build_parser a) (ap args_of e) gen_keys_args-IsParsed

main_dispatches_example :
    Dispatched toy_crypto toy_json str_fault system bare_disk
      (main toy_crypto toy_json str_fault system ("gen-keys" ∷ []) bare_disk)
      (parsed gen_keys_args)
main_dispatches_example =
    main_dispatches toy_crypto toy_json str_fault system ("gen-keys" ∷ []) bare_disk system-IsParsed

-- a server whose port is taken, and whose socket cannot be closed either
abbrev taken : Opening
taken = record { creating = ok tt; binding = λ host port. raise os_error; listening = ok tt }

abbrev fresh_server : HandshakeServer toy_crypto
fresh_server = new_server toy_crypto true none "0.0.0.0" (pos 80) "30.0"

close-start_example :
    (p : ℤ) × ((p ≡ pos 0) ⊎ (◌≡◌ {A = Result ℤ} (raise os_error) (ok p)))
    × (port toy_crypto (start toy_crypto taken fresh_server).1 ≡ some p)
    × (close toy_crypto (raise os_error) (start toy_crypto taken fresh_server).1
        ≡ (ok tt, record fresh_server { sock = none }))
close-start_example =
    close-start toy_crypto taken (raise os_error) fresh_server refl (inr (os_error, refl, refl))
