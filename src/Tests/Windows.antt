-- ===== src/Tests/Windows.antt =====
-- daemon.py: windows, wakeups and interleavings, at concrete inputs.
use phonect.Prelude.{Bool, true, false, none, some, [], ◌∷◌, ◌++◌, map, ◌≡◌, ◌⊎◌, inl, inr, refl}
use phonect.Daemon.Tcp.{tcp_handshake}
use phonect.Config.{text_list}
use phonect.Daemon.Unlock.{Trace, process}
use phonect.Daemon.Unlock.Effects.{finished, issued, asked}
use phonect.Daemon.Window.{
  IsHandler, Daemon, close_window, started, trigger_wakeup, wake_up, begin_client, end_client,
  session_of, Reach, here, after, triggered, woken, connected, handled,
}
use phonect.Daemon.Window.Complete.{wakeup_unlocks, pair_then_unlock}
use phonect.Daemon.Window.Visit.{Visit, visited}
use phonect.Daemon.Window.Closing.{ReachWith, arrives, goes_on, arrived_is_closed}
use phonect.Daemon.Window.Refines.{view}
use phonect.Daemon.Window.Safety.{
  IsCoordinated, IsProven, Happened, Reach-IsCoordinated, issued_is_earned, trusted_key_stays,
}
use phonect.Tests.Setup.{toy_lawful, toy_crypto, toy_json, drawn}
use phonect.Daemon.Interleave.{
  greeting, looked, Interleaved, set_progress, set_daemon, begin_handshake, end_handshake, event,
  begins, looks, ends, Turns,
}
use phonect.Daemon.Interleave
use phonect.Daemon.Interleave.Undisturbed.{IsUndisturbed}
use phonect.Daemon.Interleave.Atomic.{Turns-Reach}
use phonect.Tests.Daemons.{
  link, host, listed, default_config, default_config-IsUnlock, hello_conveyed, response_conveyed,
  accept_encoded, challenge_encoded,
}

-- a daemon that is woken and lets the known phone in
abbrev asleep : Daemon Bool
asleep = started default_config false (some true) none

abbrev awake : Daemon Bool
awake = begin_client 7 (wake_up (trigger_wakeup asleep))

abbrev unlocked : Daemon Bool
unlocked =
    end_client host 7 (tcp_handshake toy_crypto toy_json (some false) drawn (session_of link awake))
      awake

way : Reach toy_crypto toy_json (some false) asleep unlocked
unfolding wake_up begin_client
way =
    after (after (after (after here triggered) (woken refl refl)) (connected 7))
      (handled host 7 drawn link (inl refl))

asleep-IsCoordinated : IsCoordinated asleep
asleep-IsCoordinated = record { single = inr (refl, refl); bounded = (λ e. cc, λ e. cc) }

Reach-IsCoordinated_example : IsCoordinated unlocked
Reach-IsCoordinated_example =
    Reach-IsCoordinated toy_crypto toy_json (some false) asleep-IsCoordinated way

issued_is_earned_example :
    (unlocked.issued ≡ [])
    ⊎ IsProven toy_crypto toy_json
        (some false)
        (λ x. Happened toy_crypto toy_json (some false) x way)
        (view unlocked)
issued_is_earned_example = issued_is_earned toy_crypto toy_json (some false) refl way

trusted_key_stays_example : unlocked.trusted_key ≡ some true
trusted_key_stays_example = trusted_key_stays toy_crypto toy_json (some false) true refl way

-- the connection whose handshake has ended
seen : ReachWith toy_crypto toy_json (some false) 7 asleep unlocked
unfolding wake_up begin_client
seen =
    goes_on (arrives (after (after here triggered) (woken refl refl)))
      (handled host 7 drawn link (inl refl))

arrived_is_closed_example :
    IsHandler 7 unlocked.closed
    ⊎ ((unlocked.auth_in_progress ≡ true) × (unlocked.handlers ≡ 7 ∷ []))
arrived_is_closed_example =
    arrived_is_closed toy_crypto toy_json (some false) 7 asleep-IsCoordinated seen

abbrev visit : Visit toy_crypto toy_lawful true "h1" "pixel" toy_json false
visit = record {
  drawn = drawn;
  salt = [];
  link = link;
  hello_frame = 0 ∷ 0 ∷ 0 ∷ 1 ∷ 72 ∷ [];
  accept_frame = 0 ∷ 0 ∷ 0 ∷ 1 ∷ 72 ∷ [];
  challenge_frame = 0 ∷ 0 ∷ 0 ∷ 1 ∷ 67 ∷ [];
  response_frame = 0 ∷ 0 ∷ 0 ∷ 1 ∷ 82 ∷ [];
  rest = [];
  ready = refl;
  saves = refl;
  input = refl;
  greeted = hello_conveyed;
  accepted = accept_encoded;
  challenged = challenge_encoded;
  answered = response_conveyed;
}

abbrev both_unlocked : Trace
both_unlocked =
    process ("loginctl" ∷ "unlock-session" ∷ "1" ∷ [])
    ∷ process ("loginctl" ∷ "unlock-session" ∷ "c3" ∷ [])
    ∷ []

wakeup_unlocks_example :
    let e = visited toy_crypto toy_lawful true "h1" "pixel" toy_json false host 7 visit asleep in
    IsHandler 7 (begin_client 7 (wake_up (trigger_wakeup asleep))).handlers
    × Reach toy_crypto toy_json (some false) asleep e
    × (e.issued ≡ both_unlocked)
    × (e.trusted_key ≡ some true)
    × (e.auth_completed ≡ true)
    × (e.last_auth_ok ≡ true)
unfolding text_list
wakeup_unlocks_example =
    wakeup_unlocks toy_crypto toy_lawful true "h1" "pixel" toy_json false asleep 7 visit host
      ("1" ∷ "c3" ∷ []) refl refl refl refl default_config-IsUnlock listed (λ argv. finished 0)

-- the same daemon before a phone is paired
abbrev unpaired : Daemon Bool
unpaired = started default_config false none none

pair_then_unlock_example :
    let paired =
      close_window none
        (visited toy_crypto toy_lawful true "h1" "pixel" toy_json false host 7 visit unpaired) in
    let second =
      visited toy_crypto toy_lawful true "h1" "pixel" toy_json false host 8 visit paired in
    IsHandler 7 (begin_client 7 (wake_up (trigger_wakeup unpaired))).handlers
    × Reach toy_crypto toy_json (some false) unpaired paired
    × (paired.trusted_key ≡ some (toy_crypto.public_key true))
    × (paired.issued ≡ unpaired.issued)
    × IsHandler 8 (begin_client 8 (wake_up (trigger_wakeup paired))).handlers
    × Reach toy_crypto toy_json (some false) paired second
    × (second.trusted_key ≡ some (toy_crypto.public_key true))
    × (second.issued
        ≡ unpaired.issued
          ++ map (issued host) (asked (text_list unpaired.config.unlock_command) ("1" ∷ "c3" ∷ [])))
pair_then_unlock_example =
    pair_then_unlock toy_crypto toy_lawful true "h1" "pixel" toy_json false unpaired 7 8 visit visit
      host ("1" ∷ "c3" ∷ []) refl refl refl refl default_config-IsUnlock listed (λ argv. finished 0)

-- the same events with another one between the turns of the handshake
abbrev resting : Interleaved Bool
resting = record { daemon = asleep; progress = λ id. greeting }

resting-IsUndisturbed : IsUndisturbed resting
resting-IsUndisturbed = record {
  coordinated = asleep-IsCoordinated;
  current = λ id running. absurd running;
}

abbrev greeted : Interleaved Bool
greeted = begin_handshake 7 (set_daemon (wake_up (trigger_wakeup asleep)) resting)

abbrev signalled : Interleaved Bool
signalled =
    set_daemon (trigger_wakeup greeted.daemon)
      (set_progress 7 (looked greeted.daemon.trusted_key) greeted)

abbrev ended : Interleaved Bool
ended =
    set_daemon
      (end_handshake toy_crypto toy_json (some false) host 7 drawn link greeted.daemon.trusted_key
        signalled.daemon)
      signalled

turns : Turns toy_crypto toy_json (some false) resting ended
unfolding wake_up begin_client begin_handshake
turns =
    Interleave.after
      (Interleave.after
        (Interleave.after
          (Interleave.after
            (Interleave.after (Interleave.after Interleave.here (event triggered tt))
              (event (woken refl refl) tt))
            (begins 7))
          (looks 7 (inl refl) refl))
        (event triggered tt))
      (ends host 7 drawn link greeted.daemon.trusted_key (inl refl) refl)

Turns-Reach_example :
    Reach toy_crypto toy_json (some false) asleep ended.daemon × IsUndisturbed ended
Turns-Reach_example = Turns-Reach toy_crypto toy_json (some false) resting-IsUndisturbed turns
