-- ===== src/Tests/Commands.antt =====
-- daemon.py from its start on, and the legacy handshake, at concrete inputs.
use phonect.Prelude.{ℕ, String, Bool, true, false, Option, none, some, [], ◌∷◌, ◌≡◌, ◌⊎◌, inl, refl}
use phonect.Python.{pos, os_error, not_implemented_error, Result, ok, raise}
use phonect.Python.Paths.{of_text, join, parent}
use phonect.Python.Disk.{read_bytes, exists, is_file}
use phonect.Bytes.{pack_word, unpack_word, hex, fromhex_codes}
use phonect.Protocol.Frame.{encode_frame}
use phonect.Protocol.Messages.{make_challenge, make_response}
use phonect.Config.Load.{unlock_config}
use phonect.Config.Load.Laws.{Source}
use phonect.Crypto.{fingerprint_from_public_key, verify_nonce}
use phonect.Protocol.Validate.{validate_response}
use phonect.Handshake.{check_slice, fromhex_value}
use phonect.Handshake.Server.{challenge_with}
use phonect.Daemon.Tcp.{tcp_handshake}
use phonect.Daemon.Reader.{Session, read_frame, readexactly, write_and_drain}
use phonect.Daemon.Tcp.Keys.{SameKeys}
use phonect.Daemon.Legacy.{
  challenge_if_paired, challenge_phone, read_answer, refuse_reading, check_answer, verify_answer,
  report, async_handshake,
}
use phonect.Daemon.Reader.Received.{IsSent}
use phonect.Daemon.Legacy.Sound.{Signed, async_handshake_sound}
use phonect.Daemon.Window.{
  Daemon, trigger_wakeup, wake_up, begin_client, end_client, session_of, IsHandler, Reach, here,
  after, triggered, woken, connected, handled,
}
use phonect.Daemon.Window.Safety.{IsCoordinated, IsProven, Happened}
use phonect.Daemon.Window.Refines.{Spec, view, Step-Spec}
use phonect.Daemon.Boot.{
  Booted, run_daemon, load_pc_key, load_trusted_key, configure_logging, is_unsupported, add_handler,
  new_daemon,
}
use phonect.Daemon.Boot.Restart.{saved_to, restart_trusts}
use phonect.Daemon.Boot.Laws.{run_daemon_is_safe}
use phonect.Daemon.Start.{initial_pc_key, initial_trusted_key}
use phonect.Daemon.Resources.{Calls, nothing_open, run}
use phonect.Daemon.Resources.Release.{run_releases}
use phonect.Tests.Setup.{toy_crypto, toy_json, drawn}
use phonect.Tests.Daemons.{host, link, session}
use phonect.Tests.Configs.{
  toml_of, env, bare_disk, full_disk, config_file, document, loaded, load_config-loaded,
}

abbrev level : String → Result (Unit {0})
level name = ok tt

-- the daemon of `document`, whose two key files hold the key `true`
abbrev booted : Booted toy_crypto
booted = new_daemon toy_crypto loaded full_disk

keys_loaded :
    (load_pc_key toy_crypto loaded full_disk ≡ some true)
    × (load_trusted_key toy_crypto loaded full_disk ≡ some true)
unfolding load_pc_key load_trusted_key is_file exists read_bytes initial_pc_key initial_trusted_key
    join of_text parent
keys_loaded = (refl, refl)

-- a platform without signal handlers
abbrev adding : String → Result (Unit {0})
adding _ = raise not_implemented_error

boots :
    (run_daemon toy_crypto
      (toml_of document)
      env
      level
      adding
      (ok tt)
      (some config_file)
      full_disk).0
    ≡ ok booted
unfolding run_daemon configure_logging add_handler is_unsupported
boots = rw load_config-loaded refl

abbrev awake : Daemon Bool
awake = begin_client 7 (wake_up (trigger_wakeup booted.daemon))

abbrev later : Daemon Bool
later =
    end_client host 7
      (tcp_handshake toy_crypto toy_json booted.pc_private_key drawn (session_of link awake)) awake

way : Reach toy_crypto toy_json booted.pc_private_key booted.daemon later
unfolding wake_up begin_client
way =
    after (after (after (after here triggered) (woken refl refl)) (connected 7))
      (handled host 7 drawn link (inl refl))

run_daemon_is_safe_example :
    Source (toml_of document) env full_disk config_file loaded
    × (later.config ≡ unlock_config loaded)
    × IsCoordinated later
    × ((later.issued ≡ [])
        ⊎ IsProven toy_crypto toy_json booted.pc_private_key
            (λ x. Happened toy_crypto toy_json booted.pc_private_key x way)
            (view later))
run_daemon_is_safe_example =
    run_daemon_is_safe toy_crypto (toml_of document) env level adding (ok tt) (some config_file)
      full_disk booted toy_json boots way

abbrev answering : Session Bool
answering = record (session (some true)) { input = 0 ∷ 0 ∷ 0 ∷ 1 ∷ 82 ∷ [] }

async_answers : (async_handshake toy_crypto toy_json (some false) drawn answering).0 ≡ ok true
unfolding challenge_if_paired challenge_phone read_answer refuse_reading check_answer verify_answer
    report read_frame readexactly write_and_drain validate_response challenge_with check_slice
    fromhex_value make_challenge make_response encode_frame unpack_word pack_word hex fromhex_codes
    fingerprint_from_public_key verify_nonce
async_answers = refl

async_handshake_sound_example :
    SameKeys answering (async_handshake toy_crypto toy_json (some false) drawn answering).1
    × ((key : Bool) × (answering.trusted_key ≡ some key)
        × Signed toy_crypto toy_json (IsSent toy_json answering.input) key drawn.nonce)
async_handshake_sound_example =
    async_handshake_sound toy_crypto toy_json (some false) drawn answering async_answers

awake-IsHandler : IsHandler 7 awake.handlers
unfolding wake_up begin_client
awake-IsHandler = inl refl

Step-Spec_example :
    Spec toy_crypto toy_json
      (some false)
      (some (record { nonce = drawn.nonce; input = link.input }))
      (view awake)
      (view (
        end_client host 7
          (tcp_handshake toy_crypto toy_json (some false) drawn (session_of link awake))
          awake))
Step-Spec_example =
    Step-Spec toy_crypto toy_json (some false) (handled host 7 drawn link awake-IsHandler)

-- a bus that is there without the login service, and a port that is taken
abbrev calls : Result (Option ℕ) → Calls
calls serving = record {
  connecting = ok tt;
  introspecting = raise os_error;
  subscribing = ok tt;
  serving = serving;
  looping = ok tt;
  closing = ok tt;
  disconnecting = ok tt;
}

run_releases_example :
    ((run (calls (ok (some 4000))) (nothing_open (pos 0))).0 ≡ ok tt)
    × ((run (calls (ok (some 4000))) (nothing_open (pos 0))).1.bus ≡ false)
    × ((run (calls (ok (some 4000))) (nothing_open (pos 0))).1.server ≡ false)
run_releases_example =
    run_releases (calls (ok (some 4000))) (nothing_open (pos 0)) (some 4000) refl refl refl

restart_trusts_example :
    ((tcp_handshake toy_crypto toy_json (some false) drawn (session none)).1.trusted_key ≡ none)
    ⊎ (load_trusted_key toy_crypto loaded (
          saved_to loaded.public_key_path
            (tcp_handshake toy_crypto toy_json (some false) drawn (session none)).1.key_file
            bare_disk)
        ≡ (tcp_handshake toy_crypto toy_json (some false) drawn (session none)).1.trusted_key)
restart_trusts_example =
    restart_trusts toy_crypto toy_json (some false) drawn (session none) loaded bare_disk refl refl
