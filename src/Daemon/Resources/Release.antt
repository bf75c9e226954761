-- ===== src/Daemon/Resources/Release.antt =====
-- daemon.py: what is open when `run` has ended.
use phonect.Prelude.{ℕ, true, false, Option, ◌≡◌, arith}
use phonect.Python.{ℤ, Exception, ok, raise}
use phonect.Daemon.Resources.{
  Resources, Calls, nothing_open, connect_dbus, start_server, close_server, disconnect_bus, run,
}

-- Where the server was started and the closings succeed, `run` ends as its loop does, and neither the
-- bus nor the server is open, whether or not D-Bus was there, introspected or subscribed to.
pub run_releases :
    (c : Calls) (w : Resources) (port : Option ℕ)
    → c.serving ≡ ok port
    → c.closing ≡ ok tt
    → c.disconnecting ≡ ok tt
    → ((run c w).0 ≡ c.looping) × ((run c w).1.bus ≡ false) × ((run c w).1.server ≡ false)
unfolding run connect_dbus start_server close_server disconnect_bus
run_releases c w port served closed disconnected = ground arith

-- Where `start_server` raises, `run` raises the same and leaves the bus that it had connected open.
pub run_keeps_bus :
    (c : Calls) (port : ℤ) (e : Exception)
    → c.serving ≡ raise e
    → c.connecting ≡ ok tt
    → ((run c (nothing_open port)).0 ≡ raise e)
      × ((run c (nothing_open port)).1.bus ≡ true)
      × ((run c (nothing_open port)).1.server ≡ false)
unfolding run connect_dbus start_server close_server disconnect_bus
run_keeps_bus c port e failed connected = ground arith
