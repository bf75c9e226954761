-- ===== src/Daemon/Boot/Laws.antt =====
-- daemon.py: a daemon that was started from a configuration file, at any later time.
use phonect.Prelude.{
  String, Bool, Option, List, [], ◌++◌, map, ◌≡◌, ◌⊎◌, inr, refl, ◌∙◌, ap, sym, arith,
}
use mathlib.Core.Path.{subst}
use phonect.Python.{Result, ok, raise}
use phonect.Python.Io.{continue, continue-eq-ok}
use phonect.Python.Paths.{PurePath}
use phonect.Python.Disk.{Disk}
use phonect.Protocol.Frame.{Json}
use phonect.Crypto.{Cryptography}
use phonect.Config.{UnlockConfig, text_list}
use phonect.Config.Unlock.{IsUnlock}
use phonect.Config.Load.{Toml, Environment, DaemonConfig, unlock_config, config_path, load_config}
use phonect.Config.Load.Laws.{Source, load_config-Source, load_config-IsUnlock}
use phonect.Python.Results.{ok_injective}
use phonect.Daemon.Sessions.{get_active_session_ids}
use phonect.Daemon.Unlock.{Host, Trace, unlock_sessions}
use phonect.Daemon.Unlock.Effects.{IsExpected, issued, asked, unlock_sessions_issues}
use phonect.Daemon.Window.{Daemon, started, Reach, here, after}
use phonect.Daemon.Window.Safety.{
  IsCoordinated, IsProven, Happened, Reach-IsCoordinated, issued_is_earned,
}
use phonect.Daemon.Window.Refines.{View, view, Spec, rests, pins, unlocks, Step-Spec}
use phonect.Daemon.Boot.{
  Booted, new_daemon, load_pc_key, configure_logging, add_handler, run_daemon,
}

module _ (crypto : Cryptography) where
  started-IsCoordinated :
      (c : UnlockConfig) (b : Bool) (k : Option crypto.PublicKey) (f : Option String)
      → IsCoordinated (started c b k f)
  started-IsCoordinated c b k f = record { single = inr (refl, refl); bounded = ground arith }

  Spec-config :
      {exchange : _} {v w : View crypto.PublicKey} (json : Json) (pc : Option crypto.PrivateKey)
      → Spec crypto json pc exchange v w
      → w.config ≡ v.config
  Spec-config json pc (rests e) = ap (λ (u : View _). u.config) (sym e)
  Spec-config json pc (pins key x made untrusted answered e) = ap (λ (u : View _). u.config) e
  Spec-config json pc (unlocks key x h made trusted answered e) = ap (λ (u : View _). u.config) e

  module _ (json : Json) (pc : Option crypto.PrivateKey) where
    Reach-config : {d e : Daemon crypto.PublicKey} → Reach crypto json pc d e → e.config ≡ d.config
    Reach-config here = refl
    Reach-config (after way step) =
        Spec-config json pc (Step-Spec crypto json pc step) ∙ Reach-config way

  module _ (toml : Toml) (env : Environment) (basic_config : String → Result (Unit {0}))
      (adding : String → Result (Unit {0})) (listening : Result (Unit {0})) (path : Option PurePath)
      (disk : Disk) (b : Booted crypto) where
    abbrev Boots : Type 0
    Boots = (run_daemon crypto toml env basic_config adding listening path disk).0 ≡ ok b

    -- What is lifted and passed over has not raised.
    passed-eq-ok :
        (q : Result (Unit {0})) (next : Disk → Result (Booted crypto) × Disk) (d : Disk)
        → (continue (q, d) (λ _. next)).0 ≡ ok b
        → (next d).0 ≡ ok b
    passed-eq-ok (ok _) next d h = h
    passed-eq-ok (raise e) next d h = cc

    -- A daemon that runs was made from a configuration that was loaded.
    run_daemon-eq-ok :
        Boots
        → (c : DaemonConfig) × ((load_config toml env path disk).0 ≡ ok c)
          × (b ≡ new_daemon crypto c disk)
    unfolding run_daemon
    run_daemon-eq-ok h =
        let (c, disk', loaded, h1) = continue-eq-ok (load_config toml env path disk) _ h in
        let (_, disk1, logged, h2) =
          continue-eq-ok (configure_logging basic_config c.log_level, disk') _ h1 in
        let made : b ≡ new_daemon crypto c disk1 = sym (
          ok_injective (
            passed-eq-ok listening _ disk1 (
              passed-eq-ok (add_handler adding "SIGUSR1") _ disk1 (
                passed-eq-ok (add_handler adding "SIGINT") _ disk1
                  (passed-eq-ok (add_handler adding "SIGTERM") _ disk1 h2))))) in
        let result : (load_config toml env path disk).0 ≡ ok c = ap (λ q. q.0) loaded in
        let (_, same) = load_config-Source toml env path disk c result in
        let untouched : disk1 ≡ disk =
          sym (ap (λ q. q.1) logged) ∙ sym (ap (λ q. q.1) loaded) ∙ same in
        (c, result, made ∙ ap (new_daemon crypto c) untouched)

    abbrev IsSafe :
        (json : Json) (x : Booted crypto) {e : Daemon crypto.PublicKey}
        → Reach crypto json x.pc_private_key x.daemon e
        → Type 0
    IsSafe json x {e} way =
        Source toml env disk (config_path env path) x.config
        × (e.config ≡ unlock_config x.config)
        × IsCoordinated e
        × ((e.issued ≡ [])
            ⊎ IsProven crypto json x.pc_private_key
                (λ exchange. Happened crypto json x.pc_private_key exchange way) (view e))

    new_daemon-IsSafe :
        {e : Daemon crypto.PublicKey} (json : Json) (c : DaemonConfig)
        → (load_config toml env path disk).0 ≡ ok c
        → (way : Reach crypto json (load_pc_key crypto c disk) (new_daemon crypto c disk).daemon e)
        → IsSafe json (new_daemon crypto c disk) way
    new_daemon-IsSafe json c loaded way = (
      (load_config-Source toml env path disk c loaded).0,
      Reach-config json (load_pc_key crypto c disk) way,
      Reach-IsCoordinated crypto json (load_pc_key crypto c disk) (started-IsCoordinated _ _ _ _)
          way,
      issued_is_earned crypto json (load_pc_key crypto c disk) refl way,
    )

    -- At any time after `run_daemon` came to its loop, on whatever events: the configuration is the one
    -- of the file, or the default where there is none; at most one handshake runs, connections are let
    -- in only inside a window; and the daemon has issued nothing, unless a key is trusted under which the
    -- signature of some nonce was verified.
    pub run_daemon_is_safe :
        {e : Daemon crypto.PublicKey} (json : Json)
        → Boots
        → (way : Reach crypto json b.pc_private_key b.daemon e)
        → Source toml env disk (config_path env path) b.config
          × (e.config ≡ unlock_config b.config)
          × IsCoordinated e
          × ((e.issued ≡ [])
              ⊎ IsProven crypto json b.pc_private_key
                  (λ exchange. Happened crypto json b.pc_private_key exchange way)
                  (view e))
    run_daemon_is_safe {e} json h =
        let (c, loaded, made) = run_daemon-eq-ok h in
        subst (λ x. (way : Reach crypto json x.pc_private_key x.daemon e) → IsSafe json x way)
          (sym made) (new_daemon-IsSafe json c loaded)

    run_daemon-IsUnlock : Boots → IsUnlock (unlock_config b.config)
    run_daemon-IsUnlock h =
        let (c, loaded, made) = run_daemon-eq-ok h in
        subst (λ (x : Booted crypto). IsUnlock (unlock_config x.config)) (sym made)
          (load_config-IsUnlock toml env path disk c loaded)

    -- At any time after `run_daemon` came to its loop, an unlock issues the commands that the
    -- configuration asks for, each once and in order, and does not raise, if the sessions can be listed
    -- and the processes end with a status, a timeout or a missing executable.
    pub run_daemon_unlocks :
        {e : Daemon crypto.PublicKey} (json : Json) (h : Host) (ids : List String) (t : Trace)
        → Boots
        → Reach crypto json b.pc_private_key b.daemon e
        → get_active_session_ids h.user h.listing ≡ ok ids
        → ((argv : List String) → IsExpected (h.outcome argv))
        → unlock_sessions h e.config t
          ≡ (ok tt, t ++ map (issued h) (asked (text_list b.config.unlock_command) ids))
    run_daemon_unlocks {e} json h ids t boots way listed expected =
        let (_, config, _, _) = run_daemon_is_safe json boots way in
        rw config (
          unlock_sessions_issues h (unlock_config b.config) ids t (run_daemon-IsUnlock boots) listed
            expected)
