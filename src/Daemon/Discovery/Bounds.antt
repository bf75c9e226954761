-- ===== src/Daemon/Discovery/Bounds.antt =====
-- daemon.py: how long the discovery loop runs, and how much it broadcasts.
use phonect.Prelude.{
  ℕ, zero, suc, ◌+◌, ◌-◌, ◌*◌, ◌≤◌, ◌<◌, false, none, List, [], ◌∷◌, ◌++◌, All, length, ◌≡◌, ◌≢◌,
  refl, ap, arith, length-append,
}
use phonect.Python.{ok}
use phonect.Bytes.{Bytes}
use phonect.Daemon.Discovery.{
  Packet, Air, next_round, retry_pause, sleep, with_packet, open_socket, broadcast,
  broadcast_discovery_window,
}

retry_pause_pos : (interval : ℕ) → 0 < retry_pause interval
retry_pause_pos interval = ground arith

abbrev pub IsPayload : Bytes → Packet → Type 0
IsPayload payload p = p.payload ≡ payload

-- Each packet follows the one before it an interval later at least.
abbrev pub IsSpaced : ℕ → List Packet → Type 0
IsSpaced interval [] = Unit
IsSpaced interval (p ∷ []) = Unit
IsSpaced interval (p ∷ q ∷ ps) = (p.sent_at + interval ≤ q.sent_at) × IsSpaced interval (q ∷ ps)

-- An interval has passed since the last packet.
abbrev IsRested : ℕ → ℕ → List Packet → Type 0
IsRested interval now [] = Unit
IsRested interval now (p ∷ []) = p.sent_at + interval ≤ now
IsRested interval now (p ∷ q ∷ ps) = IsRested interval now (q ∷ ps)

IsRested-later :
    (interval now later : ℕ) (ps : List Packet)
    → now ≤ later
    → IsRested interval now ps
    → IsRested interval later ps
IsRested-later interval now later [] le h = tt
IsRested-later interval now later (p ∷ []) le h = omega arith
IsRested-later interval now later (p ∷ q ∷ ps) le h =
    IsRested-later interval now later (q ∷ ps) le h

IsSpaced-append :
    (interval : ℕ) (ps : List Packet) (p : Packet)
    → IsRested interval p.sent_at ps
    → IsSpaced interval ps
    → IsSpaced interval (ps ++ p ∷ [])
IsSpaced-append interval [] p rested h = tt
IsSpaced-append interval (q ∷ []) p rested h = (rested, tt)
IsSpaced-append interval (q ∷ r ∷ ps) p rested (first, h) =
    (first, IsSpaced-append interval (r ∷ ps) p rested h)

IsRested-append :
    (interval now : ℕ) (ps : List Packet) (p : Packet)
    → p.sent_at + interval ≤ now
    → IsRested interval now (ps ++ p ∷ [])
IsRested-append interval now [] p h = h
IsRested-append interval now (q ∷ []) p h = h
IsRested-append interval now (q ∷ r ∷ ps) p h = IsRested-append interval now (r ∷ ps) p h

All-append :
    (payload : Bytes) (xs : List Packet) (p : Packet)
    → p.payload ≡ payload
    → All (IsPayload payload) xs
    → All (IsPayload payload) (xs ++ p ∷ [])
All-append payload [] p e h = (e, tt)
All-append payload (x ∷ xs) p e (hx, h) = (hx, All-append payload xs p e h)

module _ (payload : Bytes) (interval deadline : ℕ) where
  -- the packet of a round
  abbrev packet : Air → Packet
  packet a = record { sent_at = a.now; payload = payload }

  -- after a round whose packet goes out, or does not
  abbrev after_sent : Air → Air
  after_sent a = sleep interval (next_round a.rounds) (with_packet payload a)

  abbrev after_unreachable : Air → Air
  after_unreachable a = sleep (retry_pause interval) (next_round a.rounds) a

  pub broadcast_ends :
      (fuel : ℕ) (a : Air)
      → 0 < interval
      → deadline < fuel + a.now
      → (broadcast (suc fuel) payload interval deadline a).0 ≢ none
  unfolding broadcast
  broadcast_ends zero a spaced enough = ground arith
  broadcast_ends (suc fuel) a spaced enough = ground (
    arith,
    broadcast_ends fuel (after_sent a),
    broadcast_ends fuel (after_unreachable a),
    retry_pause_pos interval,
  )

  one_more :
      (packets : List Packet) (p : Packet)
      → length (packets ++ p ∷ []) * interval ≡ length packets * interval + interval
  one_more packets p = omega (arith, ap (λ (n : ℕ). n * interval) (length-append packets (p ∷ [])))

  broadcast-packets :
      (fuel : ℕ) (a : Air)
      → length (broadcast fuel payload interval deadline a).1.packets * interval
        ≤ length a.packets * interval + (deadline + interval - a.now)
  unfolding broadcast
  broadcast-packets zero a = omega arith
  broadcast-packets (suc fuel) a = ground (
    arith,
    broadcast-packets fuel (after_sent a),
    broadcast-packets fuel (after_unreachable a),
    one_more a.packets (packet a),
  )

  broadcast-All :
      (fuel : ℕ) (a : Air)
      → All (IsPayload payload) a.packets
      → All (IsPayload payload) (broadcast fuel payload interval deadline a).1.packets
  unfolding broadcast
  broadcast-All zero a h = h
  broadcast-All (suc fuel) a h = ground (
    arith,
    All-append payload a.packets (packet a) refl h,
    broadcast-All fuel (after_sent a) (All-append payload a.packets (packet a) refl h),
    broadcast-All fuel (after_unreachable a) h,
  )

  broadcast-IsSpaced :
      (fuel : ℕ) (a : Air)
      → IsRested interval a.now a.packets
      → IsSpaced interval a.packets
      → IsSpaced interval (broadcast fuel payload interval deadline a).1.packets
  unfolding broadcast
  broadcast-IsSpaced zero a rested h = h
  broadcast-IsSpaced (suc fuel) a rested h =
      let more = IsSpaced-append interval a.packets (packet a) rested h in
      ground (
        arith,
        more,
        broadcast-IsSpaced fuel (after_sent a)
            (IsRested-append interval (after_sent a).now a.packets (packet a) (omega arith)) more,
        broadcast-IsSpaced fuel (after_unreachable a)
            (IsRested-later interval a.now (after_unreachable a).now a.packets (omega arith) rested)
            h,
      )

-- With a positive interval the discovery of a window ends, and its socket is closed, if it was made and
-- may broadcast; every packet is the payload, each is sent an interval at least behind the one before,
-- and there is at most one more than the intervals of the window.
pub broadcast_discovery_window_bounds :
    (payload : Bytes) (interval timeout : ℕ) (a : Air)
    → 0 < interval
    → a.packets ≡ []
    → let r = broadcast_discovery_window (ok tt) (ok tt) payload interval timeout a in
      (r.0 ≢ none)
      × (r.1.socket_open ≡ false)
      × All (IsPayload payload) r.1.packets
      × IsSpaced interval r.1.packets
      × (length r.1.packets * interval ≤ timeout + interval)
unfolding broadcast_discovery_window
broadcast_discovery_window_bounds payload interval timeout a spaced none_yet =
    let deadline : ℕ = a.now + timeout in
    let open_air : Air = open_socket a in
    let counted : length a.packets ≡ 0 = ap length none_yet in
    (
      broadcast_ends payload interval deadline (suc timeout) open_air spaced (omega arith),
      refl,
      broadcast-All payload interval deadline (suc (suc timeout)) open_air (rw none_yet tt),
      broadcast-IsSpaced payload interval deadline (suc (suc timeout)) open_air (rw none_yet tt)
          (rw none_yet tt),
      omega (
        arith,
        broadcast-packets payload interval deadline (suc (suc timeout)) open_air,
        ap (λ (n : ℕ). n * interval) counted,
      ),
    )
