-- ===== src/Daemon/Tcp/Trust.antt =====
-- daemon.py: the trusted key over a handshake.
use phonect.Prelude.{Bool, true, false, Option, none, some, ◌≡◌, inl, inr, ◌∙◌, ap, arith}
use phonect.Python.{Result, ok}
use phonect.Protocol.Frame.{Json}
use phonect.Crypto.{Cryptography}
use phonect.Handshake.Server.{Drawn}
use phonect.Daemon.Reader.{Session}
use phonect.Daemon.Reader.Received.{IsSent}
use phonect.Daemon.Tcp.{Verdict, tcp_handshake}
use phonect.Daemon.Tcp.Ending.{Ending, turned_away, unsaved, unlocking, paired}
use phonect.Daemon.Tcp.Sound.{tcp_handshake_sound}

module _ (crypto : Cryptography) (json : Json) where
  -- Once a key is trusted, no handshake replaces it or rewrites its file.
  pub tcp_handshake_keeps_key :
      (pc : Option crypto.PrivateKey) (r : Drawn) (s : Session crypto.PublicKey)
      (key : crypto.PublicKey)
      → s.trusted_key ≡ some key
      → ((tcp_handshake crypto json pc r s).1.trusted_key ≡ some key)
        × ((tcp_handshake crypto json pc r s).1.key_file ≡ s.key_file)
  tcp_handshake_keeps_key pc r s key h =
      let (v, t, e, ending) = tcp_handshake_sound crypto json pc r s in rw e (kept ending)
    where
      kept :
          {v : Verdict} {t : Session crypto.PublicKey}
          → Ending crypto (IsSent json s.input) r.nonce s v t
          → (t.trusted_key ≡ some key) × (t.key_file ≡ s.key_file)
      kept (turned_away _ keys) = (keys.trusted_key ∙ h, keys.key_file)
      kept (unsaved _ untrusted _) = absurd (ground arith)
      kept (unlocking _ _ _ _ _ _ keys) = (keys.trusted_key ∙ h, keys.key_file)
      kept (paired _ _ _ _ untrusted _ _ _ _ _) = absurd (ground arith)

  -- A handshake that starts without a trusted key never lets the computer unlock.
  pub tcp_handshake_first_contact :
      (pc : Option crypto.PrivateKey) (r : Drawn) (s : Session crypto.PublicKey)
      → s.trusted_key ≡ none
      → (valid : Bool) × ((tcp_handshake crypto json pc r s).0 ≡ ok (valid, false))
  tcp_handshake_first_contact pc r s h =
      let (v, t, e, ending) = tcp_handshake_sound crypto json pc r s in rw e (locked ending)
    where
      locked :
          {v : Verdict} {t : Session crypto.PublicKey}
          → Ending crypto (IsSent json s.input) r.nonce s v t
          → (valid : Bool) × (◌≡◌ {A = Result Verdict} (ok v) (ok (valid, false)))
      locked (turned_away e _) = (false, ap ok e)
      locked (unsaved e _ _) = (false, ap ok e)
      locked (unlocking _ _ _ trusted _ _ _) = absurd (ground arith)
      locked (paired _ _ _ (inl e) _ _ _ _ _ _) = (true, ap ok e)
      locked (paired _ _ _ (inr e) _ _ _ _ _ _) = (false, ap ok e)
