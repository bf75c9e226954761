-- ===== src/Daemon/Window/Refines.antt =====
-- daemon.py: the daemon as its user sees it, a configuration, a trusted key and the commands issued so
-- far, and an abstract specification of what may happen to them.
use phonect.Prelude.{ℕ, true, false, Option, none, some, ◌≡◌, refl, arith}
use phonect.Python.{ok}
use phonect.Bytes.{Bytes}
use phonect.Protocol.Frame.{Json}
use phonect.Crypto.{Cryptography}
use phonect.Handshake.Server.{Drawn}
use phonect.Config.{UnlockConfig}
use phonect.Daemon.Reader.{Session}
use phonect.Daemon.Reader.Received.{IsSent}
use phonect.Daemon.Tcp.{Verdict, tcp_handshake}
use phonect.Daemon.Tcp.Ending.{Ending, turned_away, unsaved, unlocking, paired}
use phonect.Daemon.Tcp.Sound.{tcp_handshake_sound}
use phonect.Daemon.Unlock.{Host, Trace, unlock_sessions}
use phonect.Daemon.Window.{
  Daemon, Link, on_prepare_for_sleep, begin_client, wake_up, close_window, session_of, unlock_if,
  end_client, Step, sleep_signal, triggered, stopped, cancelled, woken, window_closed, connected,
  handled, aborted,
}

pub record View (Key : Type 0) : Type 0 where
  pub config : UnlockConfig
  pub trusted_key : Option Key
  pub issued : Trace

abbrev pub view : {Key : Type 0} → Daemon Key → View Key
view d = record { config = d.config; trusted_key = d.trusted_key; issued = d.issued }

-- What one handshake has drawn, and all that the phone sends in it.
pub record Exchange : Type 0 where
  pub nonce : Bytes
  pub input : Bytes

module _ (crypto : Cryptography) (json : Json) (pc : Option crypto.PrivateKey) where
  -- Among the bytes that the phone sent in an exchange is a frame that gives a signature of the nonce
  -- drawn for it, verified under the key.
  pub record IsAnswered (x : Exchange) (key : crypto.PublicKey) : Type 0 where
    pub signature : Bytes
    pub sent : IsSent json x.input signature
    pub verified : crypto.verify key signature x.nonce ≡ ok tt

  -- What a daemon may do, when `exchange` is that of the handshake that ends: nothing, trust a first
  -- key, or run the configured unlocking, which takes an answer of the trusted key.
  pub data Spec (exchange : Option Exchange) (v w : View crypto.PublicKey) : Type 0 where
    rests : v ≡ w → Spec exchange v w
    pins :
        (key : crypto.PublicKey) (x : Exchange)
        → exchange ≡ some x
        → v.trusted_key ≡ none
        → IsAnswered x key
        → w ≡ record v { trusted_key = some key }
        → Spec exchange v w
    unlocks :
        (key : crypto.PublicKey) (x : Exchange) (h : Host)
        → exchange ≡ some x
        → v.trusted_key ≡ some key
        → IsAnswered x key
        → w ≡ record v { issued = (unlock_sessions h v.config v.issued).1 }
        → Spec exchange v w

  -- the exchange of a step's handshake
  abbrev pub exchange_of :
      {d e : Daemon crypto.PublicKey} → Step crypto json pc d e → Option Exchange
  exchange_of (handled h id r l running) = some (record { nonce = r.nonce; input = l.input })
  exchange_of _ = none

  end_client-Spec :
      (h : Host) (id : ℕ) (nonce : Bytes) (l : Link) (d : Daemon crypto.PublicKey) (v : Verdict)
      (t : Session crypto.PublicKey)
      → Ending crypto (IsSent json l.input) nonce (session_of l d) v t
      → Spec
          (some (record { nonce = nonce; input = l.input }))
          (view d)
          (view (end_client h id (ok v, t) d))
  unfolding end_client unlock_if
  end_client-Spec h id nonce l d v t (turned_away e keys) = rests (ground arith)
  end_client-Spec h id nonce l d v t (unsaved e untrusted none_yet) = rests (ground arith)
  end_client-Spec h id nonce l d v t (unlocking key signature e trusted given good keys) =
      unlocks key _ h refl trusted (record { signature = signature; sent = given; verified = good })
        (ground arith)
  end_client-Spec h id nonce l d v t
        (paired key pem signature e untrusted loaded given good pinned saved) =
      pins key _ refl untrusted (record { signature = signature; sent = given; verified = good })
        (ground arith)

  handled-Spec :
      (h : Host) (id : ℕ) (r : Drawn) (l : Link) (d : Daemon crypto.PublicKey)
      → Spec
          (some (record { nonce = r.nonce; input = l.input }))
          (view d)
          (view (end_client h id (tcp_handshake crypto json pc r (session_of l d)) d))
  handled-Spec h id r l d =
      let (v, t, e, ending) = tcp_handshake_sound crypto json pc r (session_of l d) in
      rw e (end_client-Spec h id r.nonce l d v t ending)

  -- Every step of the event loop does one of three things to the trusted key and the commands issued,
  -- and none to the configuration: it leaves both; or it ends a handshake, among whose bytes from the
  -- phone a frame gives a signature of the nonce drawn for it, and either trusts a first key, under
  -- which that signature is verified, or keeps the trusted key, under which it is verified, and adds
  -- what `_unlock_sessions` issues.
  pub Step-Spec :
      {d e : Daemon crypto.PublicKey} (step : Step crypto json pc d e)
      → Spec (exchange_of step) (view d) (view e)
  unfolding on_prepare_for_sleep begin_client wake_up close_window end_client
  Step-Spec (handled h id r l running) = handled-Spec h id r l _
  Step-Spec (sleep_signal true) = rests refl
  Step-Spec (sleep_signal false) = rests refl
  Step-Spec (aborted h id l e running) = rests refl
  Step-Spec triggered = rests refl
  Step-Spec stopped = rests refl
  Step-Spec cancelled = rests refl
  Step-Spec (woken at up) = rests (ground arith)
  Step-Spec (window_closed none at) = rests (ground arith)
  Step-Spec (window_closed (some e) at) = rests refl
  Step-Spec (connected id) = rests (ground arith)
