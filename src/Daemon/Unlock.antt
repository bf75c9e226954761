-- ===== src/Daemon/Unlock.antt =====
-- daemon.py: `_unlock_sessions` and the two backends.
pub mod Effects
use phonect.Prelude.{
  ℕ, String, Bool, true, false, Option, none, some, List, [], ◌∷◌, ◌++◌, str_eq, if◌then◌else◌,
}
use phonect.Python.{
  Value, null, bool, int, float, str, list, dict, Exception, value_error, other_error,
  timeout_expired, file_not_found, is_os_error, Result, ok, raise,
}
use phonect.Python.Io.{Io, pure, throw, lift, catch, handle, continue, ◌>>=◌, ◌>>◌}
use phonect.Config.{UnlockConfig, validate_unlock_config, backend_name, text_list}
use phonect.Daemon.Sessions.{get_active_session_ids}

-- A command that was issued: run as a process, or handed to the hook that replaces the process.
pub data Issued : Type 0 where
  process hooked : List String → Issued

-- The machine round the daemon: whether the hook is set, the variable USER, what listing the sessions
-- gives, and how a command ends, which is an exit status or an exception of `subprocess.run`.
pub record Host : Type 0 where
  pub hook : Bool
  pub user : String
  pub listing : Result String
  pub outcome : List String → Result ℕ

abbrev pub Trace : Type 0
Trace = List Issued

abbrev pub issue : Issued → Io Trace (Unit {0})
issue command trace = (ok tt, trace ++ command ∷ [])

-- `except TimeoutExpired` and `except FileNotFoundError`
unfoldable pub loginctl_caught : Exception → Io Trace (Unit {0})
loginctl_caught timeout_expired = pure tt
loginctl_caught file_not_found = pure tt
loginctl_caught e = throw e

-- and `except OSError`
unfoldable pub command_caught : Exception → Io Trace (Unit {0})
command_caught timeout_expired = pure tt
command_caught e = if is_os_error e then pure tt else throw e

-- a status other than 0 is logged only
abbrev pub run_process : Host → List String → Io Trace (Unit {0})
run_process h argv = do issue (process argv); lift (h.outcome argv); pure tt

abbrev pub unlock_session_argv : String → List String
unlock_session_argv sid = "loginctl" ∷ "unlock-session" ∷ sid ∷ []

-- the body of the loop
unfoldable pub unlock_session : Host → String → Io Trace (Unit {0})
unlock_session h sid =
    if h.hook
    then issue (hooked (unlock_session_argv sid))
    else catch (run_process h (unlock_session_argv sid)) loginctl_caught

unfoldable pub unlock_each : Host → List String → Io Trace (Unit {0})
unlock_each h [] = pure tt
unlock_each h (sid ∷ sids) = unlock_session h sid >> unlock_each h sids

-- `_unlock_loginctl_sessions`
unfoldable pub unlock_loginctl_sessions : Host → Io Trace (Unit {0})
unlock_loginctl_sessions h = do
  session_ids ← lift (get_active_session_ids h.user h.listing)
  unlock_each h session_ids

-- `_unlock_command`; an empty list has no item 0 (`IndexError`), and a value that is no list of texts
-- does not come here
unfoldable pub unlock_command : Host → Option (List String) → Io Trace (Unit {0})
unlock_command h (some (executable ∷ arguments)) =
    if h.hook
    then issue (hooked (executable ∷ arguments))
    else catch (run_process h (executable ∷ arguments)) command_caught
unlock_command h _ = throw other_error

-- `self.config.unlock_backend == "command"`
unfoldable pub is_command : Value → Bool
is_command (str s) = str_eq s "command"
is_command _ = false

-- the dispatch, by what `validate_unlock_config` gave
unfoldable pub dispatch : Host → UnlockConfig → Result (Unit {0}) → Io Trace (Unit {0})
dispatch h c (raise value_error) = pure tt
dispatch h c (raise e) = throw e
dispatch h c (ok _) =
    if is_command c.unlock_backend
    then unlock_command h (text_list c.unlock_command)
    else unlock_loginctl_sessions h

-- `_unlock_sessions`
unfoldable pub unlock_sessions : Host → UnlockConfig → Io Trace (Unit {0})
unlock_sessions h c = dispatch h c (validate_unlock_config c)
