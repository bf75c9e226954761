-- ===== src/Daemon/Unlock/Effects.antt =====
-- daemon.py: which commands an unlock issues.
use phonect.Prelude.{
  ℕ, String, Bool, true, false, Option, some, List, [], ◌∷◌, ◌++◌, map, ◌≡◌, refl, ◌∙◌, ap, sym,
  if◌then◌else◌, inl, inr,
}
use mathlib.Core.List.{append-nil, append_assoc}
use phonect.Python.{Exception, timeout_expired, file_not_found, Result, ok, raise}
use phonect.Python.Io.{Io, pure, handle, continue}
use phonect.Config.{UnlockConfig, text_list}
use phonect.Config.Unlock.{IsUnlock, loginctl, command, validate_unlock_config_iff}
use phonect.Daemon.Sessions.{get_active_session_ids}
use phonect.Daemon.Unlock.{
  Issued, process, hooked, Host, Trace, issue, loginctl_caught, command_caught, unlock_session_argv,
  unlock_session, unlock_each, unlock_loginctl_sessions, unlock_command, is_command, dispatch,
  unlock_sessions,
}

-- How the host issues a command.
abbrev pub issued : Host → List String → Issued
issued h argv = if h.hook then hooked argv else process argv

-- A process that ends in one of the ways that the daemon expects.
pub data IsExpected : Result ℕ → Type 0 where
  finished : (status : ℕ) → IsExpected (ok status)
  timed_out : IsExpected (raise timeout_expired)
  not_found : IsExpected (raise file_not_found)

-- The commands that settings ask for: their own one, or one for each active session in turn.
abbrev pub asked : Option (List String) → List String → List (List String)
asked (some (executable ∷ arguments)) ids = (executable ∷ arguments) ∷ []
asked _ ids = map unlock_session_argv ids

-- A command is issued once, where the handler swallows a timeout and a missing file.
caught :
    (handler : Exception → Io Trace (Unit {0}))
    → ((w : Trace) → handler timeout_expired w ≡ (ok tt, w))
    → ((w : Trace) → handler file_not_found w ≡ (ok tt, w))
    → (argv : List String) (t : Trace) (hook : Bool) (q : Result ℕ) → IsExpected q
    → (if hook
          then issue (hooked argv)
          else (λ w. handle (continue (q, w ++ process argv ∷ []) (λ _. pure tt)) handler))
        t
      ≡ (ok tt, t ++ (if hook then hooked argv else process argv) ∷ [])
caught handler timeout missing argv t true q expected = refl
caught handler timeout missing argv t false q (finished status) = refl
caught handler timeout missing argv t false q timed_out = timeout (t ++ process argv ∷ [])
caught handler timeout missing argv t false q not_found = missing (t ++ process argv ∷ [])

unlock_session-expected :
    (h : Host) (sid : String) (t : Trace)
    → IsExpected (h.outcome (unlock_session_argv sid))
    → unlock_session h sid t ≡ (ok tt, t ++ issued h (unlock_session_argv sid) ∷ [])
unfolding unlock_session loginctl_caught
unlock_session-expected h sid t expected =
    caught loginctl_caught (λ w. refl) (λ w. refl) (unlock_session_argv sid) t h.hook
      (h.outcome (unlock_session_argv sid)) expected

unlock_each-expected :
    (h : Host) (ids : List String) (t : Trace)
    → ((argv : List String) → IsExpected (h.outcome argv))
    → unlock_each h ids t ≡ (ok tt, t ++ map (issued h) (map unlock_session_argv ids))
unfolding unlock_each
unlock_each-expected h [] t expected = ap (λ u. (ok tt, u)) (sym (append-nil t))
unlock_each-expected h (sid ∷ ids) t expected =
    rw (unlock_session-expected h sid t (expected (unlock_session_argv sid))) (
      unlock_each-expected h ids (t ++ issued h (unlock_session_argv sid) ∷ []) expected
      ∙ ap (λ u. (ok tt, u))
          (append_assoc t (issued h (unlock_session_argv sid) ∷ [])
            (map (issued h) (map unlock_session_argv ids))))

unlock_command-expected :
    (h : Host) (executable : String) (arguments : List String) (t : Trace)
    → IsExpected (h.outcome (executable ∷ arguments))
    → unlock_command h (some (executable ∷ arguments)) t
      ≡ (ok tt, t ++ issued h (executable ∷ arguments) ∷ [])
unfolding unlock_command command_caught
unlock_command-expected h executable arguments t expected =
    caught command_caught (λ w. refl) (λ w. refl) (executable ∷ arguments) t h.hook
      (h.outcome (executable ∷ arguments)) expected

-- Where the sessions can be listed, and every process ends with a status, a timeout or as a missing
-- file, an unlock with settings that validate issues the commands that they ask for, each once and in
-- order, whatever their exit status, and it does not raise.
pub unlock_sessions_issues :
    (h : Host) (c : UnlockConfig) (ids : List String) (t : Trace)
    → IsUnlock c
    → get_active_session_ids h.user h.listing ≡ ok ids
    → ((argv : List String) → IsExpected (h.outcome argv))
    → unlock_sessions h c t ≡ (ok tt, t ++ map (issued h) (asked (text_list c.unlock_command) ids))
unfolding unlock_sessions dispatch is_command unlock_loginctl_sessions
unlock_sessions_issues h c ids t settings listed expected =
    rw ((validate_unlock_config_iff c).0.1 settings) (by_settings settings)
  where
    by_settings :
        IsUnlock c
        → dispatch h c (ok tt) t
          ≡ (ok tt, t ++ map (issued h) (asked (text_list c.unlock_command) ids))
    by_settings (loginctl named none_given) =
        rw (named, none_given, listed) (unlock_each-expected h ids t expected)
    by_settings (command executable args named given _) =
        rw (named, given)
          (unlock_command-expected h executable args t (expected (executable ∷ args)))

-- An unlock with any other settings issues nothing and does not raise.
pub unlock_sessions_refuses :
    (h : Host) (c : UnlockConfig) (t : Trace) → ¬ IsUnlock c → unlock_sessions h c t ≡ (ok tt, t)
unfolding unlock_sessions dispatch
unlock_sessions_refuses h c t settings = elim (validate_unlock_config_iff c).1 [
  | inl valid ↦ absurd (settings ((validate_unlock_config_iff c).0.0 valid))
  | inr refused ↦ rw refused refl
]
