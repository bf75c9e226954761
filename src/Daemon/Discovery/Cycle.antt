-- ===== src/Daemon/Discovery/Cycle.antt =====
-- daemon.py: the end of `_run_auth_cycle`, which awaits the discovery.
use phonect.Prelude.{
  ℕ, zero, suc, ◌+◌, ◌<◌, true, false, Option, none, some, List, [], ◌∷◌, ◌≡◌, ◌≢◌, ◌⊎◌, inl, inr,
  refl, arith,
}
use phonect.Python.{Exception, Result, ok, raise}
use phonect.Bytes.{Bytes}
use phonect.Daemon.Window.{Daemon, waiting, finished, close_window}
use phonect.Daemon.Discovery.{
  failed, Round, Air, TaskEnd, returned, cut_short, failed_with, next_round, later_rounds,
  retry_pause, sleep, with_packet, open_socket, broadcast, broadcast_discovery_window,
  await_discovery,
}
use phonect.Daemon.Discovery.Bounds.{broadcast_ends}

-- A packet of these rounds fails with the exception.
abbrev pub Fails : Exception → List Round → Type 0
Fails e [] = ⊥
Fails e (r ∷ rs) = (r.outcome ≡ failed e) ⊎ Fails e rs

-- The task is said to have failed only for a packet of these rounds.
abbrev IsBlamed : Option TaskEnd → List Round → Type 0
IsBlamed (some (failed_with e)) rounds = Fails e rounds
IsBlamed _ rounds = Unit

Fails-next_round :
    (e : Exception) (rounds : List Round) → (next_round rounds).outcome ≡ failed e → Fails e rounds
Fails-next_round e [] h = cc
Fails-next_round e (r ∷ rs) h = inl h

IsBlamed-later_rounds :
    (q : Option TaskEnd) (rounds : List Round)
    → IsBlamed q (later_rounds rounds)
    → IsBlamed q rounds
IsBlamed-later_rounds none rounds h = tt
IsBlamed-later_rounds (some returned) rounds h = tt
IsBlamed-later_rounds (some cut_short) rounds h = tt
IsBlamed-later_rounds (some (failed_with e)) [] h = elim h [ ]
IsBlamed-later_rounds (some (failed_with e)) (r ∷ rs) h = inr h

module _ (payload : Bytes) (interval deadline : ℕ) where
  broadcast-IsBlamed :
      (fuel : ℕ) (a : Air) → IsBlamed (broadcast fuel payload interval deadline a).0 a.rounds
  unfolding broadcast
  broadcast-IsBlamed zero a = tt
  broadcast-IsBlamed (suc fuel) a =
      let after_sent : Air = sleep interval (next_round a.rounds) (with_packet payload a) in
      let after_unreachable : Air = sleep (retry_pause interval) (next_round a.rounds) a in
      ground (
        arith,
        IsBlamed-later_rounds (broadcast fuel payload interval deadline after_sent).0 a.rounds
            (broadcast-IsBlamed fuel after_sent),
        IsBlamed-later_rounds (broadcast fuel payload interval deadline after_unreachable).0
            a.rounds (broadcast-IsBlamed fuel after_unreachable),
        λ (e : Exception). Fails-next_round e a.rounds,
      )

module _ {Key : Type 0} (d : Daemon Key) where
  -- How `run` goes on behind a discovery that ended so: it waits, or an exception from one of these has
  -- ended it.
  abbrev pub Follows :
      Result (Unit {0}) → Result (Unit {0}) → List Round → TaskEnd → Daemon Key → Type 0
  Follows making allowing rounds t e =
      (((t ≡ returned) ⊎ (t ≡ cut_short)) × (e.phase ≡ waiting))
      ⊎ ((x : Exception) × (t ≡ failed_with x)
          × (e.phase ≡ finished)
          × ((making ≡ raise x) ⊎ ((allowing ≡ raise x) ⊎ Fails x rounds)))

  some-Follows :
      (q : Option TaskEnd) (rounds : List Round)
      → d.running ≡ true
      → q ≢ none
      → IsBlamed q rounds
      → (t : TaskEnd) × (q ≡ some t)
        × ((close_window (await_discovery t) d).auth_pending ≡ false)
        × Follows (ok tt) (ok tt) rounds t (close_window (await_discovery t) d)
  unfolding close_window await_discovery
  some-Follows none rounds runs ends h = elim (ends refl) [ ]
  some-Follows (some returned) rounds runs ends h =
      (returned, refl, rw runs refl, inl (inl refl, rw runs refl))
  some-Follows (some cut_short) rounds runs ends h =
      (cut_short, refl, rw runs refl, inl (inr refl, rw runs refl))
  some-Follows (some (failed_with x)) rounds runs ends h =
      (failed_with x, refl, refl, inr (x, refl, refl, inr (inr h)))

  -- The window of a running daemon, with a positive interval: its discovery ends, and behind the window
  -- no connection is let in. Where the discovery returned or was cancelled, `run` waits for the next
  -- wakeup; else `run` has ended, though nobody stopped it, by an exception that the making of the
  -- socket, its `setsockopt` or one of the packets has raised.
  pub close_window-Follows :
      (making allowing : Result (Unit {0})) (payload : Bytes) (interval timeout : ℕ) (a : Air)
      → 0 < interval
      → d.running ≡ true
      → (t : TaskEnd) × ((broadcast_discovery_window making allowing payload interval timeout a).0
          ≡ some t)
        × ((close_window (await_discovery t) d).auth_pending ≡ false)
        × Follows making allowing a.rounds t (close_window (await_discovery t) d)
  unfolding close_window broadcast_discovery_window await_discovery
  close_window-Follows (raise x) allowing payload interval timeout a spaced runs =
      (failed_with x, refl, refl, inr (x, refl, refl, inl refl))
  close_window-Follows (ok _) (raise x) payload interval timeout a spaced runs =
      (failed_with x, refl, refl, inr (x, refl, refl, inr (inl refl)))
  close_window-Follows (ok _) (ok _) payload interval timeout a spaced runs =
      let deadline : ℕ = a.now + timeout in
      some-Follows _ a.rounds runs
        (broadcast_ends payload interval deadline (suc timeout) (open_socket a) spaced
          (omega arith))
        (broadcast-IsBlamed payload interval deadline (suc (suc timeout)) (open_socket a))
