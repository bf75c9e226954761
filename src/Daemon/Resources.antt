-- ===== src/Daemon/Resources.antt =====
-- daemon.py: what `run` opens and closes, `_connect_dbus` and `_cleanup`.
pub mod Release
use phonect.Prelude.{ℕ, Bool, true, false, Option, none, some, if◌then◌else◌}
use phonect.Python.{ℤ, pos, Exception, Result, ok, raise}
use phonect.Python.Io.{Io, pure, throw, lift, catch, handle, continue, ◌>>=◌, ◌>>◌}

-- `_bus`, whether PrepareForSleep is subscribed to, `_server` and `_actual_listen_port`. The field
-- `_discovery_task` is never set.
pub record Resources : Type 0 where
  pub bus : Bool
  pub subscribed : Bool
  pub server : Bool
  pub actual_listen_port : ℤ

-- How the calls end: the connection to the bus, the introspection with the two proxies, the
-- subscription, `start_server` with the port of its first socket, the loop, and the two closings.
pub record Calls : Type 0 where
  pub connecting : Result (Unit {0})
  pub introspecting : Result (Unit {0})
  pub subscribing : Result (Unit {0})
  pub serving : Result (Option ℕ)
  pub looping : Result (Unit {0})
  pub closing : Result (Unit {0})
  pub disconnecting : Result (Unit {0})

-- `__init__`
abbrev pub nothing_open : ℤ → Resources
nothing_open port = record {
  bus = false;
  subscribed = false;
  server = false;
  actual_listen_port = port;
}

abbrev pub modify : (Resources → Resources) → Io Resources (Unit {0})
modify f w = (ok tt, f w)

-- `_connect_dbus`
unfoldable pub connect_dbus : Calls → Io Resources (Unit {0})
connect_dbus c = do
  lift c.connecting
  modify (λ w. record w { bus = true })
  lift c.introspecting
  lift c.subscribing
  modify (λ w. record w { subscribed = true })

-- `start_server`, and the port where there is a socket
unfoldable pub start_server : Calls → Io Resources (Unit {0})
start_server c = do
  port ← lift c.serving
  modify (λ w. record w {
    server = true;
    actual_listen_port = elim port [ none ↦ w.actual_listen_port | some n ↦ pos n ];
  })

-- `_cleanup`
unfoldable pub close_server : Calls → Io Resources (Unit {0})
close_server c w =
    if w.server then (lift c.closing >> modify (λ u. record u { server = false })) w else (ok tt, w)

unfoldable pub disconnect_bus : Calls → Io Resources (Unit {0})
disconnect_bus c w =
    if w.bus then (lift c.disconnecting >> modify (λ u. record u { bus = false })) w else (ok tt, w)

abbrev pub cleanup : Calls → Io Resources (Unit {0})
cleanup c = close_server c >> disconnect_bus c

-- `try: … finally: …`: what the end raises replaces what came before
abbrev pub finally : {A : Type 0} → Result A → Io Resources (Unit {0}) → Io Resources A
finally q end = end >> lift q

-- `run` with its loop as one call
unfoldable pub run : Calls → Io Resources (Unit {0})
run c = do catch (connect_dbus c) (λ _. pure tt); start_server c; finally c.looping (cleanup c)
