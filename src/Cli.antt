-- ===== src/Cli.antt =====
-- cli.py: the commands, once their arguments are parsed, with the files that they read and write and
-- the status with which the process ends. A raised exception ends the process too.
pub mod Parser
pub mod Run
pub mod Laws
pub mod Dispatch
use phonect.Prelude.{ℕ, String, Bool, true, false, Option, none, some, str_eq, if◌then◌else◌}
use phonect.Python.{ℤ, Dict, ProtocolFault, Result, ok, raise}
use phonect.Python.Io.{Io, pure, lift, continue, ◌>>=◌, ◌>>◌}
use phonect.Python.Paths.{PurePath, of_text}
use phonect.Python.Disk.{Disk, read_bytes, write_bytes}
use phonect.Bytes.{Bytes}
use phonect.Protocol.Frame.{Json}
use phonect.Crypto.{
  Cryptography, KeyPair, generate_key_pair, load_public_key, load_private_key,
  fingerprint_from_public_key,
}
use phonect.Handshake.{Conn}
use phonect.Handshake.Server.{
  Opening, Drawn, HandshakeServer, close, new_server, start, accept_and_verify,
}
use phonect.Handshake.Client.{HandshakeClient, Gate, do_handshake}
use phonect.Config.Load.{Environment}
use phonect.Config.Template.{write_default_config}

-- `sys.exit(0)` or `sys.exit(1)`
abbrev pub exit_status : Bool → ℕ
exit_status true = 0
exit_status false = 1

-- `Path(text) if text else None`
abbrev pub path_argument : Option String → Option PurePath
path_argument none = none
path_argument (some text) = if str_eq text "" then none else some (of_text text)

-- `cmd_init_config`
unfoldable pub cmd_init_config : Environment → Option String → Io Disk PurePath
cmd_init_config env path = write_default_config env (path_argument path)

-- `biometric_prompt`
abbrev pub biometric_prompt : Bytes → Dict → Result Bool
biometric_prompt nonce challenge = ok true

module _ (crypto : Cryptography) where
  -- `cmd_gen_keys`, where `drawn` is the new key
  unfoldable pub cmd_gen_keys : crypto.PrivateKey → String → String → Io Disk (Unit {0})
  cmd_gen_keys drawn private_key public_key =
      let kp : KeyPair = generate_key_pair crypto drawn in
      write_bytes (of_text private_key) kp.private_key_pem
      >> write_bytes (of_text public_key) kp.public_key_pem

  -- the client that `cmd_client` makes
  abbrev pub client_of : crypto.PrivateKey → String → String → HandshakeClient crypto
  client_of key device_name timeout = record {
    signing_key = key;
    fingerprint = fingerprint_from_public_key crypto (crypto.public_key key);
    device_name = device_name;
    connect_timeout = timeout;
  }

-- What the network does to a command, and what it draws: how the listening socket is opened and closed,
-- how `accept` ends, how `connect` ends and on which connection, and the randomness of both sides.
pub record Network : Type 0 where
  pub opening : Opening
  pub closing : Result (Unit {0})
  pub drawn : Drawn
  pub accepted : Result Conn
  pub salt : Bytes
  pub connecting : String → ℤ → Result (Unit {0})
  pub conn : Conn

module _ (crypto : Cryptography) (json : Json) (str_fault : ProtocolFault → String) where
  -- the server of `cmd_server` after `start`, and how that ended
  abbrev pub started_server :
      Network → ℤ → String → crypto.PublicKey → Result (Unit {0}) × HandshakeServer crypto
  started_server net port timeout pub_key =
      start crypto net.opening (new_server crypto pub_key none "0.0.0.0" port timeout)

  -- `cmd_server` behind the loading of the key
  unfoldable pub serve : Network → ℤ → String → crypto.PublicKey → Io Disk ℕ
  serve net port timeout pub_key = do
    lift (started_server net port timeout pub_key).0
    let server : HandshakeServer crypto = (started_server net port timeout pub_key).1
    result ← lift (accept_and_verify crypto json str_fault server net.drawn net.accepted).0
    lift (close crypto net.closing server).0
    pure (exit_status result)

  -- `cmd_server`
  unfoldable pub cmd_server : Network → String → ℤ → String → Io Disk ℕ
  cmd_server net public_key port timeout = do
    pem ← read_bytes (of_text public_key)
    pub_key ← lift (load_public_key crypto pem)
    serve net port timeout pub_key

  -- `cmd_client`
  unfoldable pub cmd_client : Network → String → String → ℤ → String → String → Io Disk ℕ
  cmd_client net private_key pc_ip pc_port device_name timeout = do
    pem ← read_bytes (of_text private_key)
    priv_key ← lift (load_private_key crypto pem)
    result ←
        lift
          (do_handshake crypto json (client_of crypto priv_key device_name timeout)
            (some biometric_prompt) net.salt (net.connecting pc_ip pc_port) net.conn).0
    pure (exit_status result)
