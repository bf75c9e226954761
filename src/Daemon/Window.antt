-- ===== src/Daemon/Window.antt =====
-- daemon.py: the coordination of the auth window (`_handle_client`, `_run_auth_cycle`, `run`, `stop`,
-- `trigger_wakeup`, `_on_prepare_for_sleep`). The event loop runs one coroutine at a time, from one
-- `await` to the next, so what stands between two of them is one function here.
pub mod Safety
pub mod Refines
pub mod Visit
pub mod Complete
pub mod Closing
use phonect.Prelude.{
  ℕ, String, Bool, true, false, not, ◌&&◌, ◌||◌, Option, none, some, List, [], ◌∷◌, ◌++◌, ◌==◌, ◌≡◌,
  ◌⊎◌, if◌then◌else◌,
}
use phonect.Python.{Exception, Result, ok, raise}
use phonect.Bytes.{Bytes}
use phonect.Protocol.Frame.{Json}
use phonect.Crypto.{Cryptography}
use phonect.Config.{UnlockConfig}
use phonect.Handshake.Server.{Drawn}
use phonect.Daemon.Reader.{Session}
use phonect.Daemon.Tcp.{Verdict, tcp_handshake}
use phonect.Daemon.Unlock.{Host, Trace, unlock_sessions}

-- Where `run` is: at `_wakeup_event.wait()`, inside `_run_auth_cycle`, or past its loop.
pub data Phase : Type 0 where
  waiting in_window finished : Phase

pub record Daemon (Key : Type 0) : Type 0 where
  pub config : UnlockConfig
  pub running : Bool
  pub wakeup_event : Bool
  pub auth_completed : Bool
  pub last_auth_ok : Bool
  pub auth_in_progress : Bool
  pub auth_pending : Bool
  pub trusted_key : Option Key
  pub key_file : Option String
  pub phase : Phase
  -- the connections whose handshake is running, those that the daemon has closed, and the commands
  -- issued so far
  pub handlers : List ℕ
  pub closed : List ℕ
  pub issued : Trace

-- What a connection will do: the fields of `Session` that the phone and the system decide.
pub record Link : Type 0 where
  pub input : Bytes
  pub ending : Exception
  pub drains : List (Option Exception)
  pub save_error : Option (Exception × Option String)

abbrev pub remove : ℕ → List ℕ → List ℕ
remove id [] = []
remove id (x ∷ xs) = let rest = remove id xs in if id == x then rest else x ∷ rest

module _ {Key : Type 0} where
  -- `__init__` and the first lines of `run`: nothing is pending, and the wakeup event is set if the
  -- configuration says so
  abbrev pub started : UnlockConfig → Bool → Option Key → Option String → Daemon Key
  started config unlock_on_start trusted file = record {
    config = config;
    running = true;
    wakeup_event = unlock_on_start;
    auth_completed = false;
    last_auth_ok = false;
    auth_in_progress = false;
    auth_pending = false;
    trusted_key = trusted;
    key_file = file;
    phase = waiting;
    handlers = [];
    closed = [];
    issued = [];
  }

  -- `stop`
  abbrev pub stop : Daemon Key → Daemon Key
  stop d = record d { running = false; wakeup_event = true }

  -- `trigger_wakeup`
  abbrev pub trigger_wakeup : Daemon Key → Daemon Key
  trigger_wakeup d = record d { wakeup_event = true }

  -- `_on_prepare_for_sleep`
  unfoldable pub on_prepare_for_sleep : Bool → Daemon Key → Daemon Key
  on_prepare_for_sleep sleeping d = if sleeping then d else record d { wakeup_event = true }

  -- `writer.close()`
  abbrev pub close_writer : ℕ → Daemon Key → Daemon Key
  close_writer id d = record d { closed = id ∷ d.closed }

  -- `_handle_client` up to the call of `_tcp_handshake`
  unfoldable pub begin_client : ℕ → Daemon Key → Daemon Key
  begin_client id d =
      if not d.auth_pending
      then close_writer id d
      else (if d.auth_in_progress then close_writer id d else record d {
        auth_in_progress = true;
        auth_completed = false;
        last_auth_ok = false;
        handlers = id ∷ d.handlers;
      })

  -- the loop of `run`, from the wakeup to the next `await`
  unfoldable pub wake_up : Daemon Key → Daemon Key
  wake_up d =
      if d.running
      then record d {
        wakeup_event = false;
        auth_pending = true;
        auth_completed = false;
        last_auth_ok = false;
        phase = in_window;
      }
      else record d { wakeup_event = false; phase = finished }

  -- the end of `_run_auth_cycle`, after an authentication or a timeout, and the test of the loop; the
  -- broadcast is awaited, and an exception that ended it earlier comes up here and ends `run`
  unfoldable pub close_window : Option Exception → Daemon Key → Daemon Key
  close_window none d =
      if d.running
      then record d { auth_pending = false; phase = waiting }
      else record d { auth_pending = false; phase = finished }
  close_window (some e) d = record d { auth_pending = false; phase = finished }

  -- a cancellation of `run`
  abbrev pub cancel : Daemon Key → Daemon Key
  cancel d = record d { auth_pending = false; phase = finished }

  abbrev pub session_of : Link → Daemon Key → Session Key
  session_of l d = record {
    input = l.input;
    ending = l.ending;
    drains = l.drains;
    output = [];
    trusted_key = d.trusted_key;
    key_file = d.key_file;
    save_error = l.save_error;
  }

  -- the branch on `ok and may_unlock`; what `_unlock_sessions` raises passes through `finally`
  unfoldable pub unlock_if : Host → Bool → Daemon Key → Trace
  unlock_if h may d = if may then (unlock_sessions h d.config d.issued).1 else d.issued

  -- the rest of `_handle_client`, with the verdict
  unfoldable pub end_client : Host → ℕ → Result Verdict × Session Key → Daemon Key → Daemon Key
  end_client h id (ok (valid, may_unlock), s) d = record d {
    issued = unlock_if h (valid && may_unlock) d;
    trusted_key = s.trusted_key;
    key_file = s.key_file;
    last_auth_ok = valid;
    auth_completed = true;
    auth_in_progress = false;
    handlers = remove id d.handlers;
    closed = id ∷ d.closed;
  }
  end_client h id (raise e, s) d = record d {
    trusted_key = s.trusted_key;
    key_file = s.key_file;
    last_auth_ok = false;
    auth_completed = true;
    auth_in_progress = false;
    handlers = remove id d.handlers;
    closed = id ∷ d.closed;
  }

-- Membership in the list of handlers.
abbrev pub IsHandler : ℕ → List ℕ → Type 0
IsHandler id [] = ⊥
IsHandler id (x ∷ xs) = (id ≡ x) ⊎ IsHandler id xs

module _ (crypto : Cryptography) (json : Json) (pc : Option crypto.PrivateKey) where
  -- One step of the event loop or of its surroundings. No other coroutine writes the trusted key
  -- while a handshake runs, so a handshake is one step, at its end.
  pub data Step (d : Daemon crypto.PublicKey) : Daemon crypto.PublicKey → Type 0 where
    sleep_signal : (sleeping : Bool) → Step d (on_prepare_for_sleep sleeping d)
    triggered : Step d (trigger_wakeup d)
    stopped : Step d (stop d)
    cancelled : Step d (cancel d)
    woken : d.phase ≡ waiting → d.wakeup_event ≡ true → Step d (wake_up d)
    window_closed :
        (broadcast : Option Exception) → d.phase ≡ in_window → Step d (close_window broadcast d)
    connected : (id : ℕ) → Step d (begin_client id d)
    handled :
        (h : Host) (id : ℕ) (r : Drawn) (l : Link)
        → IsHandler id d.handlers
        → Step d (end_client h id (tcp_handshake crypto json pc r (session_of l d)) d)
    -- A cancellation at an `await` of the handshake passes by its `except Exception`; the handshake
    -- writes the key behind its last `await` only.
    aborted :
        (h : Host) (id : ℕ) (l : Link) (cancelled_error : Exception)
        → IsHandler id d.handlers
        → Step d (end_client h id (raise cancelled_error, session_of l d) d)

  pub data Reach (d : Daemon crypto.PublicKey) : Daemon crypto.PublicKey → Type 0 where
    here : Reach d d
    after : {e f : Daemon crypto.PublicKey} → Reach d e → Step e f → Reach d f
