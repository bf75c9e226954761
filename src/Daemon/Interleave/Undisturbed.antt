-- ===== src/Daemon/Interleave/Undisturbed.antt =====
-- daemon.py: the handshakes that run, and the events that leave them undisturbed.
use mathlib.Core.Path.{subst}
use phonect.Prelude.{
  ℕ, Bool, true, false, Option, none, some, List, [], ◌∷◌, ◌≡◌, refl, ap, sym, arith, if◌then◌else◌,
}
use phonect.Python.{Result, ok, raise}
use phonect.Protocol.Frame.{Json}
use phonect.Crypto.{Cryptography}
use phonect.Handshake.Server.{Drawn}
use phonect.Daemon.Reader.{Session}
use phonect.Daemon.Tcp.{Verdict, tcp_handshake}
use phonect.Daemon.Tcp.Trust.{tcp_handshake_keeps_key}
use phonect.Daemon.Unlock.{Host}
use phonect.Daemon.Window.{
  Daemon, Link, on_prepare_for_sleep, wake_up, close_window, session_of, end_client, remove,
  IsHandler, Step, sleep_signal, triggered, stopped, cancelled, woken, window_closed, connected,
  handled, aborted,
}
use phonect.Daemon.Window.Safety.{IsCoordinated}
use phonect.Daemon.Interleave.{
  Progress, greeting, looked, Interleaved, written, write_back, IsPlain, end_handshake,
}

IsHandler-remove : (id j : ℕ) (xs : List ℕ) → IsHandler j (remove id xs) → IsHandler j xs
IsHandler-remove id j [] h = h
IsHandler-remove id j (x ∷ xs) h = ground (arith, IsHandler-remove id j xs)

-- A handshake that runs has not looked at the key, or found the one that is trusted now.
abbrev pub IsCurrent : {Key : Type 0} → Option Key → Progress Key → Type 0
IsCurrent trusted greeting = Unit
IsCurrent trusted (looked found) = found ≡ trusted

pub if-IsCurrent :
    {Key : Type 0} (b : Bool) (k : Option Key) (p q : Progress Key)
    → IsCurrent k p
    → IsCurrent k q
    → IsCurrent k (if b then p else q)
if-IsCurrent true k p q hp hq = hp
if-IsCurrent false k p q hp hq = hq

pub record IsUndisturbed {Key : Type 0} (s : Interleaved Key) : Type 0 where
  pub coordinated : IsCoordinated s.daemon
  pub current :
      (id : ℕ) → IsHandler id s.daemon.handlers → IsCurrent s.daemon.trusted_key (s.progress id)

written-same :
    {Key : Type 0} (found left : Option Key)
    → ((key : Key) → found ≡ some key → left ≡ some key)
    → written found left found ≡ left
written-same (some key) left kept = sym (kept key refl)
written-same none none kept = refl
written-same none (some key) kept = refl

module _ (crypto : Cryptography) (json : Json) (pc : Option crypto.PrivateKey) where
  -- the key that a handshake leaves is the one that is written back, if nobody else wrote it
  write_back-same :
      (r : Drawn) (s : Session crypto.PublicKey)
      → write_back s.trusted_key s.trusted_key (tcp_handshake crypto json pc r s)
        ≡ tcp_handshake crypto json pc r s
  write_back-same r s =
      ap
        (λ k. (
          (tcp_handshake crypto json pc r s).0,
          record (tcp_handshake crypto json pc r s).1 { trusted_key = k },
        ))
        (written-same s.trusted_key (tcp_handshake crypto json pc r s).1.trusted_key
          λ key h. (tcp_handshake_keeps_key crypto json pc r s key h).0)

  pub end_handshake-current :
      (h : Host) (id : ℕ) (r : Drawn) (l : Link) (d : Daemon crypto.PublicKey)
      → end_handshake crypto json pc h id r l d.trusted_key d
        ≡ end_client h id (tcp_handshake crypto json pc r (session_of l d)) d
  end_handshake-current h id r l d =
      ap (λ q. end_client h id q d) (write_back-same r (session_of l d))

  wake_up-same :
      (d : Daemon crypto.PublicKey)
      → ((wake_up d).trusted_key ≡ d.trusted_key) × ((wake_up d).handlers ≡ d.handlers)
  unfolding wake_up
  wake_up-same d = ground arith

  close_window-same :
      (d : Daemon crypto.PublicKey)
      → ((close_window none d).trusted_key ≡ d.trusted_key)
        × ((close_window none d).handlers ≡ d.handlers)
  unfolding close_window
  close_window-same d = ground arith

  -- the connections that run after a step were running before it, where it lets none in
  pub plain-handlers :
      {d e : Daemon crypto.PublicKey} (step : Step crypto json pc d e)
      → IsPlain crypto json pc step
      → (e.trusted_key ≡ d.trusted_key)
        × ((id : ℕ) → IsHandler id e.handlers → IsHandler id d.handlers)
  unfolding on_prepare_for_sleep wake_up close_window end_client
  plain-handlers (sleep_signal true) p = (refl, λ id h. h)
  plain-handlers (sleep_signal false) p = (refl, λ id h. h)
  plain-handlers triggered p = (refl, λ id h. h)
  plain-handlers stopped p = (refl, λ id h. h)
  plain-handlers cancelled p = (refl, λ id h. h)
  plain-handlers {d} (woken at up) p =
      ((wake_up-same d).0, λ id h. subst (λ xs. IsHandler id xs) ((wake_up-same d).1) h)
  plain-handlers {d} (window_closed none at) p =
      ((close_window-same d).0, λ id h. subst (λ xs. IsHandler id xs) ((close_window-same d).1) h)
  plain-handlers (window_closed (some e) at) p = (refl, λ id h. h)
  plain-handlers {d} (aborted h id l e running) p =
      (refl, λ j runs. IsHandler-remove id j d.handlers runs)
  plain-handlers (connected id) p = absurd p
  plain-handlers (handled h id r l running) p = absurd p

  pub end_client-handlers :
      (h : Host) (id : ℕ) (p : Result Verdict × Session crypto.PublicKey)
      (d : Daemon crypto.PublicKey)
      → IsCoordinated d
      → IsHandler id d.handlers
      → (end_client h id p d).handlers ≡ []
  unfolding end_client
  end_client-handlers h id (ok v, t) d i running = ground (arith, i.single)
  end_client-handlers h id (raise e, t) d i running = ground (arith, i.single)
