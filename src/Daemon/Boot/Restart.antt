-- ===== src/Daemon/Boot/Restart.antt =====
-- daemon.py: the key that a daemon trusts when it is started anew after a pairing.
use phonect.Prelude.{Option, String, none, some, ◌≡◌, ◌⊎◌, inl, inr, ◌∙◌, sym}
use phonect.Python.Paths.{PurePath}
use phonect.Python.Disk.{Disk, set_file}
use phonect.Python.Disk.Laws.{read_bytes-set_file, exists-set_file}
use phonect.Bytes.{utf8}
use phonect.Protocol.Frame.{Json}
use phonect.Crypto.{Cryptography}
use phonect.Config.Load.{DaemonConfig}
use phonect.Handshake.Server.{Drawn}
use phonect.Daemon.Reader.{Session}
use phonect.Daemon.Tcp.{tcp_handshake}
use phonect.Daemon.Start.{initial_trusted_key}
use phonect.Daemon.Start.Restart.{read_key_file, pairing_outlives}
use phonect.Daemon.Boot.{load_trusted_key}

-- the disk after a session: the text that it has written to the key's file, if any
abbrev pub saved_to : PurePath → Option String → Disk → Disk
saved_to p none disk = disk
saved_to p (some pem) disk = set_file p (utf8 pem) disk

module _ (crypto : Cryptography) (json : Json) where
  load_trusted_key-saved_to :
      (c : DaemonConfig) (disk : Disk) (key_file : Option String) (key : crypto.PublicKey)
      → disk.denied c.public_key_path ≡ none
      → initial_trusted_key crypto (read_key_file key_file) ≡ some key
      → load_trusted_key crypto c (saved_to c.public_key_path key_file disk) ≡ some key
  unfolding load_trusted_key initial_trusted_key
  load_trusted_key-saved_to c disk none key free h = cc
  load_trusted_key-saved_to c disk (some pem) key free h =
      rw
        (
          exists-set_file c.public_key_path (utf8 pem) disk,
          read_bytes-set_file c.public_key_path (utf8 pem) disk free,
        )
        h

  -- After a handshake that began without a trusted key, either there is still none, or a daemon that
  -- is started anew, with the file of the configuration as this handshake has written it, trusts the
  -- same key, if the file may be opened.
  pub restart_trusts :
      (pc : Option crypto.PrivateKey) (r : Drawn) (s : Session crypto.PublicKey) (c : DaemonConfig)
      (disk : Disk)
      → s.trusted_key ≡ none
      → disk.denied c.public_key_path ≡ none
      → let t = (tcp_handshake crypto json pc r s).1 in
        (t.trusted_key ≡ none)
        ⊎ (load_trusted_key crypto c (saved_to c.public_key_path t.key_file disk) ≡ t.trusted_key)
  restart_trusts pc r s c disk untrusted free =
      elim (pairing_outlives crypto json pc r s untrusted) [
        | inl none_yet ↦ inl none_yet
        | inr (key, (pinned, loads)) ↦ inr (
            load_trusted_key-saved_to c disk (tcp_handshake crypto json pc r s).1.key_file key free
              loads
            ∙ sym pinned)
      ]
