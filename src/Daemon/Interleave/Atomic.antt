-- ===== src/Daemon/Interleave/Atomic.antt =====
-- daemon.py: the interleaving of handshakes with other events, against handshakes in one step.
use mathlib.Core.Path.{subst}
use phonect.Prelude.{
  ℕ, true, false, not, ◌&&◌, Option, List, Bool-cases, ◌∷◌, ◌==◌, ◌≡◌, ◌⊎◌, inl, inr, refl, sym,
  arith,
}
use phonect.Protocol.Frame.{Json}
use phonect.Crypto.{Cryptography}
use phonect.Handshake.Server.{Drawn}
use phonect.Daemon.Tcp.{tcp_handshake}
use phonect.Daemon.Unlock.{Host}
use phonect.Daemon.Window.{
  Daemon, Link, on_prepare_for_sleep, begin_client, wake_up, close_window, session_of, end_client,
  remove, IsHandler, Step, sleep_signal, triggered, stopped, cancelled, woken, window_closed,
  connected, handled, aborted, Reach,
}
use phonect.Daemon.Window
use phonect.Daemon.Window.Safety.{Step-IsCoordinated}
use phonect.Daemon.Interleave.{
  Progress, greeting, looked, Interleaved, set_progress, set_daemon, begin_handshake, end_handshake,
  Turn, event, begins, looks, ends_at_once, ends, Turns, here, after,
}
use phonect.Daemon.Interleave.Undisturbed.{
  IsCurrent, IsUndisturbed, if-IsCurrent, end_handshake-current, plain-handlers,
  end_client-handlers,
}

module _ (crypto : Cryptography) (json : Json) (pc : Option crypto.PrivateKey) where
  -- one turn of the loop, seen without the progress of the handshakes
  abbrev Moves : Daemon crypto.PublicKey → Daemon crypto.PublicKey → Type 0
  Moves d e = (d ≡ e) ⊎ Step crypto json pc d e

  -- a turn keeps the handshakes undisturbed, and is nothing or one step
  abbrev IsAtomic : Interleaved crypto.PublicKey → Interleaved crypto.PublicKey → Type 0
  IsAtomic s t = Moves s.daemon t.daemon × IsUndisturbed t

  ends-IsAtomic :
      (s : Interleaved crypto.PublicKey) (h : Host) (id : ℕ) (r : Drawn) (l : Link)
      → IsUndisturbed s
      → IsHandler id s.daemon.handlers
      → IsAtomic s
          (set_daemon (end_handshake crypto json pc h id r l s.daemon.trusted_key s.daemon) s)
  ends-IsAtomic s h id r l i running =
      let d : Daemon crypto.PublicKey = s.daemon in
      let whole : Step crypto json pc d
          (end_client h id (tcp_handshake crypto json pc r (session_of l d)) d) =
        handled h id r l running in
      let none_left =
        end_client-handlers crypto json pc h id (tcp_handshake crypto json pc r (session_of l d)) d
          i.coordinated running in
      subst (λ e. IsAtomic s (set_daemon e s))
        (sym (end_handshake-current crypto json pc h id r l d))
        (
          inr whole,
          record {
            coordinated = Step-IsCoordinated crypto json pc whole i.coordinated;
            current = λ j runs. absurd (subst (λ xs. IsHandler j xs) none_left runs);
          },
        )

  begin_client-refuses :
      (id : ℕ) (d : Daemon crypto.PublicKey)
      → (d.auth_pending && not d.auth_in_progress) ≡ false
      → ((begin_client id d).trusted_key ≡ d.trusted_key)
        × ((begin_client id d).handlers ≡ d.handlers)
  unfolding begin_client
  begin_client-refuses id d h = ground arith

  begin_client-admits :
      (id : ℕ) (d : Daemon crypto.PublicKey)
      → (d.auth_pending && not d.auth_in_progress) ≡ true
      → ((begin_client id d).trusted_key ≡ d.trusted_key)
        × ((begin_client id d).handlers ≡ id ∷ d.handlers)
  unfolding begin_client
  begin_client-admits id d h = ground arith

  -- the progress of the new handshake, and of those that were running
  began-IsCurrent :
      (id : ℕ) (s : Interleaved crypto.PublicKey)
      → IsUndisturbed s
      → (j : ℕ) → IsHandler j (id ∷ s.daemon.handlers)
      → IsCurrent s.daemon.trusted_key ((set_progress id greeting s).progress j)
  began-IsCurrent id s i j (inl e) = let same : (j == id) ≡ true = ground arith in rw same tt
  began-IsCurrent id s i j (inr runs) =
      if-IsCurrent (j == id) s.daemon.trusted_key greeting (s.progress j) tt (i.current j runs)

  -- A connection that came, where `hs` are the handlers and `p` is their progress from now on.
  arrived-IsAtomic :
      (s : Interleaved crypto.PublicKey) (id : ℕ) (hs : List ℕ) (p : ℕ → Progress crypto.PublicKey)
      → IsUndisturbed s
      → (begin_client id s.daemon).trusted_key ≡ s.daemon.trusted_key
      → (begin_client id s.daemon).handlers ≡ hs
      → ((j : ℕ) → IsHandler j hs → IsCurrent s.daemon.trusted_key (p j))
      → IsAtomic s (record { daemon = begin_client id s.daemon; progress = p })
  arrived-IsAtomic s id hs p i same more fits = (
    inr (connected id),
    record {
      coordinated = Step-IsCoordinated crypto json pc (connected id) i.coordinated;
      current = λ j runs.
          subst (λ k. IsCurrent k (p j)) (sym same)
            (fits j (subst (λ xs. IsHandler j xs) more runs));
    },
  )

  begins-IsAtomic :
      (s : Interleaved crypto.PublicKey) (id : ℕ)
      → IsUndisturbed s
      → IsAtomic s (begin_handshake id s)
  unfolding begin_handshake
  begins-IsAtomic s id i =
      elim (Bool-cases (s.daemon.auth_pending && not s.daemon.auth_in_progress)) [
        | inl admits ↦
            let (same, more) = begin_client-admits id s.daemon admits in
            rw admits (
              arrived-IsAtomic s id (id ∷ s.daemon.handlers) (set_progress id greeting s).progress i
                same more (began-IsCurrent id s i))
        | inr refuses ↦
            let (same, kept) = begin_client-refuses id s.daemon refuses in
            rw refuses (arrived-IsAtomic s id s.daemon.handlers s.progress i same kept i.current)
      ]

  Turn-IsAtomic :
      {s t : Interleaved crypto.PublicKey}
      → Turn crypto json pc s t
      → IsUndisturbed s
      → IsAtomic s t
  Turn-IsAtomic {s} (event step plain) i =
      let (same, back) = plain-handlers crypto json pc step plain in
      (
        inr step,
        record {
          coordinated = Step-IsCoordinated crypto json pc step i.coordinated;
          current = λ id runs.
              subst (λ k. IsCurrent k (s.progress id)) (sym same) (i.current id (back id runs));
        },
      )
  Turn-IsAtomic {s} (begins id) i = begins-IsAtomic s id i
  Turn-IsAtomic {s} (looks id running waits) i = (
    inl refl,
    record {
      coordinated = i.coordinated;
      current = λ j runs.
          if-IsCurrent (j == id) s.daemon.trusted_key (looked s.daemon.trusted_key) (s.progress j)
            refl (i.current j runs);
    },
  )
  Turn-IsAtomic {s} (ends_at_once h id r l running waits) i = ends-IsAtomic s h id r l i running
  Turn-IsAtomic {s} (ends h id r l found running has) i =
      let still : found ≡ s.daemon.trusted_key =
        subst (λ p. IsCurrent s.daemon.trusted_key p) has (i.current id running) in
      subst (λ k. IsAtomic s (set_daemon (end_handshake crypto json pc h id r l k s.daemon) s))
        (sym still) (ends-IsAtomic s h id r l i running)

  -- However the turns of the event loop fall between the `await`s of the handshakes, the daemon comes to
  -- no state that it does not also reach with each handshake as one step at its end; and at any time each
  -- handshake that runs has not looked at the trusted key, or found the one that is trusted now.
  pub Turns-Reach :
      {s t : Interleaved crypto.PublicKey}
      → IsUndisturbed s
      → Turns crypto json pc s t
      → Reach crypto json pc s.daemon t.daemon × IsUndisturbed t
  Turns-Reach i here = (Window.here, i)
  Turns-Reach i (after way turn) =
      let (before, j) = Turns-Reach i way in
      let (move, k) = Turn-IsAtomic turn j in (moved before move, k)
    where
      moved :
          {d e f : Daemon crypto.PublicKey}
          → Reach crypto json pc d e
          → Moves e f
          → Reach crypto json pc d f
      moved {d} before (inl same) = subst (λ f. Reach crypto json pc d f) same before
      moved before (inr step) = Window.after before step
