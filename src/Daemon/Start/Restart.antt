-- ===== src/Daemon/Start/Restart.antt =====
-- daemon.py: the file of the trusted key, written by one daemon and read by the next.
use phonect.Prelude.{String, Option, none, some, ◌≡◌, ◌⊎◌, inl, inr, ◌∙◌, arith}
use phonect.Python.{Result, ok}
use phonect.Bytes.{Bytes, utf8}
use phonect.Protocol.Frame.{Json}
use phonect.Crypto.{Cryptography}
use phonect.Handshake.Server.{Drawn}
use phonect.Daemon.Reader.{Session}
use phonect.Daemon.Reader.Received.{IsSent}
use phonect.Daemon.Tcp.{Verdict, tcp_handshake}
use phonect.Daemon.Tcp.Ending.{Ending, turned_away, unsaved, unlocking, paired}
use phonect.Daemon.Tcp.Sound.{tcp_handshake_sound}
use phonect.Daemon.Start.{initial_trusted_key}

-- what the file of the trusted key gives when it is read; text is written as UTF-8
abbrev pub read_key_file : Option String → Option (Result Bytes)
read_key_file none = none
read_key_file (some pem) = some (ok (utf8 pem))

module _ (crypto : Cryptography) (json : Json) where
  -- The key is trusted, and a daemon that starts with the file trusts it too.
  abbrev pub IsKept : Session crypto.PublicKey → crypto.PublicKey → Type 0
  IsKept t key =
      (t.trusted_key ≡ some key)
      × (initial_trusted_key crypto (read_key_file t.key_file) ≡ some key)

  -- After a handshake that began without a trusted key, either there is still none, or the key that is
  -- trusted is also the one that a daemon started anew loads from the file.
  pub pairing_outlives :
      (pc : Option crypto.PrivateKey) (r : Drawn) (s : Session crypto.PublicKey)
      → s.trusted_key ≡ none
      → let t = (tcp_handshake crypto json pc r s).1 in
        (t.trusted_key ≡ none) ⊎ ((key : crypto.PublicKey) × IsKept t key)
  unfolding initial_trusted_key
  pairing_outlives pc r s h =
      let (v, t, e, ending) = tcp_handshake_sound crypto json pc r s in rw e (by_ending ending)
    where
      by_ending :
          {v : Verdict} {t : Session crypto.PublicKey}
          → Ending crypto (IsSent json s.input) r.nonce s v t
          → (t.trusted_key ≡ none) ⊎ ((key : crypto.PublicKey) × IsKept t key)
      by_ending (turned_away _ keys) = inl (keys.trusted_key ∙ h)
      by_ending (unsaved _ _ none_yet) = inl none_yet
      by_ending (unlocking _ _ _ trusted _ _ _) = absurd (ground arith)
      by_ending (paired key pem _ _ _ loaded _ _ pinned saved) =
          inr (key, (pinned, rw (saved, loaded)))
