-- ===== src/Tests/Discovery.antt =====
-- daemon.py: the discovery of a window, at concrete inputs.
use phonect.Prelude.{
  Bool, true, false, none, some, List, [], ◌∷◌, All, length, ◌*◌, ◌+◌, ◌≤◌, ◌≡◌, ◌≢◌, refl, arith,
}
use phonect.Python.{os_error, ok}
use phonect.Daemon.Window.{Daemon, started, wake_up, trigger_wakeup, close_window, finished}
use phonect.Daemon.Discovery.{
  unreachable, failed, Round, Air, TaskEnd, cut_short, failed_with, broadcast,
  broadcast_discovery_window, await_discovery,
}
use phonect.Daemon.Discovery.Bounds.{IsPayload, IsSpaced, broadcast_discovery_window_bounds}
use phonect.Daemon.Discovery.Cycle.{Follows, close_window-Follows}
use phonect.Tests.Daemons.{default_config}

abbrev air : List Round → Air
air rounds = record { now = 7; pending = true; rounds = rounds; packets = []; socket_open = false }

broadcast_discovery_window_bounds_example :
    let r = broadcast_discovery_window (ok tt) (ok tt) (80 ∷ []) 3 15 (air []) in
    (r.0 ≢ none)
    × (r.1.socket_open ≡ false)
    × All (IsPayload (80 ∷ [])) r.1.packets
    × IsSpaced 3 r.1.packets
    × (length r.1.packets * 3 ≤ 15 + 3)
broadcast_discovery_window_bounds_example =
    broadcast_discovery_window_bounds (80 ∷ []) 3 15 (air []) (omega arith) refl

-- the network is not there, and then the system has no buffer
abbrev trouble : List Round
trouble =
    record { outcome = unreachable; late = 0; pending = true; cut = false }
    ∷ record { outcome = failed os_error; late = 0; pending = true; cut = false }
    ∷ []

-- an authentication cancels the discovery in the sleep behind its first packet
abbrev interrupted : List Round
interrupted = record { outcome = unreachable; late = 0; pending = true; cut = true } ∷ []

abbrev open_window : Daemon Bool
open_window = wake_up (trigger_wakeup (started default_config false none none))

trouble_ends_run :
    (broadcast_discovery_window (ok tt) (ok tt) (80 ∷ []) 3_000 90_000 (air trouble)).0
    ≡ some (failed_with os_error)
unfolding broadcast_discovery_window broadcast
trouble_ends_run = refl

trouble_finished :
    (close_window (await_discovery (failed_with os_error)) open_window).phase ≡ finished
unfolding close_window await_discovery
trouble_finished = refl

interrupted_waits :
    (broadcast_discovery_window (ok tt) (ok tt) (80 ∷ []) 3_000 90_000 (air interrupted)).0
    ≡ some cut_short
unfolding broadcast_discovery_window broadcast
interrupted_waits = refl

open_window-runs : open_window.running ≡ true
unfolding wake_up
open_window-runs = refl

close_window-Follows_example :
    (t : TaskEnd) × ((broadcast_discovery_window
        (ok tt)
        (ok tt)
        (80 ∷ [])
        3_000
        90_000
        (air trouble)).0
      ≡ some t)
    × ((close_window (await_discovery t) open_window).auth_pending ≡ false)
    × Follows open_window (ok tt) (ok tt) trouble t (close_window (await_discovery t) open_window)
close_window-Follows_example =
    close_window-Follows open_window (ok tt) (ok tt) (80 ∷ []) 3_000 90_000 (air trouble)
      (omega arith) open_window-runs
