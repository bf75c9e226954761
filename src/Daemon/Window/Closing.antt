-- ===== src/Daemon/Window/Closing.antt =====
-- daemon.py: every connection is closed in the end, by `_handle_client`.
use phonect.Prelude.{ℕ, true, Option, List, [], ◌∷◌, ◌≡◌, ◌⊎◌, inl, inr, arith}
use phonect.Python.{Result, ok, raise}
use phonect.Protocol.Frame.{Json}
use phonect.Crypto.{Cryptography}
use phonect.Daemon.Reader.{Session}
use phonect.Daemon.Tcp.{Verdict, tcp_handshake}
use phonect.Daemon.Unlock.{Host}
use phonect.Daemon.Window.{
  Daemon, on_prepare_for_sleep, begin_client, wake_up, close_window, session_of, end_client, remove,
  IsHandler, Step, sleep_signal, triggered, stopped, cancelled, woken, window_closed, connected,
  handled, aborted, Reach, after,
}
use phonect.Daemon.Window.Safety.{IsCoordinated, Reach-IsCoordinated}

-- The connection is closed, or its handshake is running.
abbrev pub IsServed : {Key : Type 0} → ℕ → Daemon Key → Type 0
IsServed id d = IsHandler id d.handlers ⊎ IsHandler id d.closed

remove-IsHandler :
    (id n : ℕ) (xs : List ℕ) → IsHandler id xs → (id ≡ n) ⊎ IsHandler id (remove n xs)
remove-IsHandler id n [] h = elim h [ ]
remove-IsHandler id n (x ∷ xs) (inl e) = ground arith
remove-IsHandler id n (x ∷ xs) (inr h) = ground (arith, remove-IsHandler id n xs h)

module _ {Key : Type 0} where
  begin_client-IsServed :
      (id n : ℕ) (d : Daemon Key) → IsServed id d → IsServed id (begin_client n d)
  unfolding begin_client
  begin_client-IsServed id n d served = ground arith

  begin_client-serves : (n : ℕ) (d : Daemon Key) → IsServed n (begin_client n d)
  unfolding begin_client
  begin_client-serves n d = ground arith

  end_client-IsServed :
      (h : Host) (id n : ℕ) (p : Result Verdict × Session Key) (d : Daemon Key)
      → IsServed id d
      → IsServed id (end_client h n p d)
  unfolding end_client
  end_client-IsServed h id n (ok v, t) d (inl running) =
      ground (arith, remove-IsHandler id n d.handlers running)
  end_client-IsServed h id n (ok v, t) d (inr over) = inr (inr over)
  end_client-IsServed h id n (raise e, t) d (inl running) =
      ground (arith, remove-IsHandler id n d.handlers running)
  end_client-IsServed h id n (raise e, t) d (inr over) = inr (inr over)

module _ (crypto : Cryptography) (json : Json) (pc : Option crypto.PrivateKey) where
  Step-IsServed :
      {d e : Daemon crypto.PublicKey} (id : ℕ)
      → Step crypto json pc d e
      → IsServed id d
      → IsServed id e
  unfolding on_prepare_for_sleep wake_up close_window
  Step-IsServed id (sleep_signal b) served = ground arith
  Step-IsServed id triggered served = served
  Step-IsServed id stopped served = served
  Step-IsServed id cancelled served = served
  Step-IsServed id (woken at up) served = ground arith
  Step-IsServed id (window_closed b at) served = ground arith
  Step-IsServed {d} id (connected n) served = begin_client-IsServed id n d served
  Step-IsServed {d} id (handled h n r l running) served =
      end_client-IsServed h id n (tcp_handshake crypto json pc r (session_of l d)) d served
  Step-IsServed {d} id (aborted h n l e running) served =
      end_client-IsServed h id n (raise e, session_of l d) d served

  -- The daemon comes to a state by steps of which one is this connection.
  pub data ReachWith (id : ℕ) (d : Daemon crypto.PublicKey) : Daemon crypto.PublicKey → Type 0 where
    arrives :
        {e : Daemon crypto.PublicKey}
        → Reach crypto json pc d e
        → ReachWith id d (begin_client id e)
    goes_on :
        {e f : Daemon crypto.PublicKey}
        → ReachWith id d e
        → Step crypto json pc e f
        → ReachWith id d f

  ReachWith-Reach :
      (id : ℕ) {d e : Daemon crypto.PublicKey} → ReachWith id d e → Reach crypto json pc d e
  ReachWith-Reach id (arrives way) = after way (connected id)
  ReachWith-Reach id (goes_on way step) = after (ReachWith-Reach id way) step

  ReachWith-IsServed : (id : ℕ) {d e : Daemon crypto.PublicKey} → ReachWith id d e → IsServed id e
  ReachWith-IsServed id (arrives {e = met} way) = begin_client-serves id met
  ReachWith-IsServed id (goes_on way step) = Step-IsServed id step (ReachWith-IsServed id way)

  served_alone :
      (id : ℕ) (e : Daemon crypto.PublicKey)
      → IsCoordinated e
      → IsServed id e
      → IsHandler id e.closed ⊎ ((e.auth_in_progress ≡ true) × (e.handlers ≡ id ∷ []))
  served_alone id e i (inr over) = inl over
  served_alone id e i (inl running) = ground (arith, i.single)

  -- From a coordinated state on, as its start is one, the daemon has closed every connection that came,
  -- inside a window or outside, but for the one whose handshake is running, if there is one.
  pub arrived_is_closed :
      {d e : Daemon crypto.PublicKey} (id : ℕ)
      → IsCoordinated d
      → ReachWith id d e
      → IsHandler id e.closed ⊎ ((e.auth_in_progress ≡ true) × (e.handlers ≡ id ∷ []))
  arrived_is_closed {e = e} id i way =
      served_alone id e (Reach-IsCoordinated crypto json pc i (ReachWith-Reach id way))
        (ReachWith-IsServed id way)
