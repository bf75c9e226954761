-- ===== src/Daemon/Interleave.antt =====
-- daemon.py: the handshakes between their `await`s. A handshake reads `_trusted_key` once it has the
-- greeting, and writes it behind its last `await`; in between, other events may happen.
pub mod Undisturbed
pub mod Atomic
use phonect.Prelude.{ℕ, Bool, true, false, not, ◌&&◌, Option, none, some, ◌==◌, ◌≡◌, if◌then◌else◌}
use phonect.Python.{Result}
use phonect.Protocol.Frame.{Json}
use phonect.Crypto.{Cryptography}
use phonect.Handshake.Server.{Drawn}
use phonect.Daemon.Reader.{Session}
use phonect.Daemon.Tcp.{Verdict, tcp_handshake}
use phonect.Daemon.Unlock.{Host}
use phonect.Daemon.Window.{
  Daemon, Link, begin_client, session_of, end_client, IsHandler, Step, connected, handled,
}

-- How far a handshake is: it has not looked at the trusted key yet, or found this one.
pub data Progress (Key : Type 0) : Type 0 where
  greeting : Progress Key
  looked : Option Key → Progress Key

pub record Interleaved (Key : Type 0) : Type 0 where
  pub daemon : Daemon Key
  pub progress : ℕ → Progress Key

module _ {Key : Type 0} where
  abbrev pub set_progress : ℕ → Progress Key → Interleaved Key → Interleaved Key
  set_progress id p s = record s { progress = λ j. if j == id then p else s.progress j }

  abbrev pub set_daemon : Daemon Key → Interleaved Key → Interleaved Key
  set_daemon d s = record s { daemon = d }

  -- `_handle_client` up to its first `await`
  unfoldable pub begin_handshake : ℕ → Interleaved Key → Interleaved Key
  begin_handshake id s =
      if s.daemon.auth_pending && not s.daemon.auth_in_progress
      then set_progress id greeting (set_daemon (begin_client id s.daemon) s)
      else set_daemon (begin_client id s.daemon) s

  -- The trusted key after a handshake that had found `found` and ended with `left`, where it is `current`
  -- by now: a handshake writes the key only where it had found none.
  abbrev pub written : (found left current : Option Key) → Option Key
  written (some _) left current = current
  written none none current = current
  written none (some key) current = some key

  abbrev pub write_back :
      Option Key → Option Key → Result Verdict × Session Key → Result Verdict × Session Key
  write_back found current (q, t) =
      (q, record t { trusted_key = written found t.trusted_key current })

module _ (crypto : Cryptography) (json : Json) (pc : Option crypto.PrivateKey) where
  -- the events that neither begin nor end a handshake of themselves
  abbrev pub IsPlain : {d e : Daemon crypto.PublicKey} → Step crypto json pc d e → Type 0
  IsPlain (connected id) = ⊥
  IsPlain (handled h id r l running) = ⊥
  IsPlain _ = Unit

  -- the end of a handshake that had found `found` as the trusted key
  abbrev pub end_handshake :
      Host
      → ℕ
      → Drawn
      → Link
      → Option crypto.PublicKey
      → Daemon crypto.PublicKey
      → Daemon crypto.PublicKey
  end_handshake h id r l found d =
      end_client h id
        (write_back found d.trusted_key
          (tcp_handshake crypto json pc r (session_of l (record d { trusted_key = found }))))
        d

  -- One turn of the event loop.
  pub data Turn (s : Interleaved crypto.PublicKey) : Interleaved crypto.PublicKey → Type 0 where
    event :
        {e : Daemon crypto.PublicKey} (step : Step crypto json pc s.daemon e)
        → IsPlain step
        → Turn s (set_daemon e s)
    begins : (id : ℕ) → Turn s (begin_handshake id s)
    looks :
        (id : ℕ)
        → IsHandler id s.daemon.handlers
        → s.progress id ≡ greeting
        → Turn s (set_progress id (looked s.daemon.trusted_key) s)
    -- a handshake that ends before it looks at the key, or in the turn in which it looks
    ends_at_once :
        (h : Host) (id : ℕ) (r : Drawn) (l : Link)
        → IsHandler id s.daemon.handlers
        → s.progress id ≡ greeting
        → Turn s (set_daemon (end_handshake h id r l s.daemon.trusted_key s.daemon) s)
    ends :
        (h : Host) (id : ℕ) (r : Drawn) (l : Link) (found : Option crypto.PublicKey)
        → IsHandler id s.daemon.handlers
        → s.progress id ≡ looked found
        → Turn s (set_daemon (end_handshake h id r l found s.daemon) s)

  pub data Turns (s : Interleaved crypto.PublicKey) : Interleaved crypto.PublicKey → Type 0 where
    here : Turns s s
    after : {t u : Interleaved crypto.PublicKey} → Turns s t → Turn t u → Turns s u
