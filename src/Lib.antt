-- ===== src/Lib.antt =====
-- phonect unlocks the sessions of a computer when a paired phone signs a fresh nonce. This library
-- models the program in src/phonect and proves what its parts promise.
--
-- The parts, with the file that models each and the code it models:
--   Python       values, exceptions, results, and methods that read and write a world and may raise;
--                Python/Paths is POSIX paths as `pathlib` keeps them, Python/Disk files and directories
--   Bytes        `bytes.hex`, `bytes.fromhex`, UTF-8 and the `struct` format "!I"
--   Protocol     src/phonect/protocol.py: Protocol/Frame is `encode_frame` and `decode_frame`,
--                Protocol/Messages the functions `make_*`, Protocol/Validate the functions `validate_*`
--   Crypto       src/phonect/crypto.py
--   Handshake    src/phonect/handshake.py: the reading loop that both ends share, Handshake/Server for
--                `HandshakeServer`, Handshake/Client for `HandshakeClient`
--   Config       src/phonect/config.py: `validate_unlock_config`, Config/Load is `load_config`,
--                Config/Keys the properties of `DaemonConfig`, Config/Template `write_default_config`
--                with what its template says as a TOML document
--   State        src/phonect/state.py
--   Daemon       src/phonect/daemon.py: Daemon/Reader is `_read_frame` and the streams, Daemon/Hello and
--                Daemon/Tcp are `_tcp_handshake`, Daemon/Legacy is `_async_handshake`, Daemon/Sessions is
--                `_get_active_session_ids`, Daemon/Unlock is `_unlock_sessions` with its backends,
--                Daemon/Window is `_handle_client`, `_run_auth_cycle`, `run`, `stop` and the wakeups,
--                Daemon/Interleave is the same event loop with events between the awaits of a handshake,
--                Daemon/Discovery is `_broadcast_discovery_window`, Daemon/Start is the loading of keys
--                in `__init__`, Daemon/Boot is `run_daemon`, and Daemon/Resources is `run` with its
--                loop as one call, `_connect_dbus` and `_cleanup`
--   Cli          src/phonect/cli.py: the functions `cmd_*`, Cli/Parser `build_parser`, and Cli/Run `main`
--   Tests        runs at concrete inputs
--
-- How they interact: `phonect daemon` loads the configuration (Config/Load) and the two keys from
-- the disk, and comes to the loop of a daemon (Daemon/Boot). A wakeup opens a window
-- (Daemon/Window), in which one connection at a time goes through a handshake (Daemon/Tcp); this
-- reads and writes frames (Protocol), verifies a signature (Crypto), and keeps the key of the
-- phone; a verdict that unlocks makes Daemon/Unlock issue commands. Handshake is the same exchange
-- over blocking sockets, for the two ends of a direct connection.
--
-- Operations are named as in the source, without the leading underscore. Code that reads and writes
-- sockets, streams or files is a function from the world before it to a result and the world after it.
-- What a socket or stream will deliver, and how each call of it will end, is part of that world; what
-- is drawn at random (nonce, session id, salt) is the record `Drawn`. The `except` clauses are
-- functions by clauses on the exception.
--
-- Parameters: the module `json` is the record `Json`, the package `cryptography` the record
-- `Cryptography`, whose documented behaviour is `IsLawful`; `tomllib` and the conversions between
-- numbers and texts are the record `Toml`; the variables and home directories are `Environment`; what
-- `subprocess.run` gives is the record `Host`; how the calls of D-Bus and of asyncio's server end is
-- the record `Calls`, or an argument; `parse_args` of argparse is a field of the record `System`, whose
-- promise is `IsParsed`. Floats are kept as texts; the discovery counts time in microseconds.
--
-- Fuel: the reading loop runs on fuel. Each round that does not end it adds a byte to the buffer, and
-- the loop stops with more than 65540 bytes, so the 65542 rounds of `read_fuel` are enough. The
-- discovery has a round for each microsecond of its window and two more; where its interval is
-- positive each round sleeps for at least one microsecond, so that is enough too.
--
-- Not modelled: what is printed; a cancellation during the start, or of a discovery that has not made its
-- socket; the daemon's `wait_closed` of a connection; the making of the client's socket; texts with lone
-- surrogates; TOML files that hold dates or times; a `Path.exists` that raises, for a directory that may
-- not be searched; what is logged, except for expressions in log calls that can raise.
pub mod Bytes
pub mod Cli
pub mod Config
pub mod Crypto
pub mod Daemon
pub mod Handshake
pub mod Prelude
pub mod Protocol
pub mod Python
pub mod State
pub mod Tests
