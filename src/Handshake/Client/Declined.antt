-- ===== src/Handshake/Client/Declined.antt =====
-- handshake.py: a client whose gate approves nothing.
use phonect.Prelude.{Bool, true, false, ◌≡◌, ◌≢◌, refl, inl, inr, ◌⊎◌}
use phonect.Python.{Dict, Result, ok, raise}
use phonect.Python.Io.{pure, handle}
use phonect.Bytes.{Bytes}
use phonect.Protocol.Frame.{Json}
use phonect.Crypto.{Cryptography}
use phonect.Handshake.{Conn}
use phonect.Handshake.Client.{HandshakeClient, Gate, ask, read_and_answer, do_handshake}
use phonect.Handshake.Client.Sends.{do_handshake_sends}
use phonect.Handshake.Client.Sound.{do_handshake_sound}

module _ (crypto : Cryptography) (json : Json) (h : HandshakeClient crypto) (gate : Gate)
    (salt : Bytes) where
  do_handshake-cases :
      (connected : Result (Unit {0})) (conn : Conn)
      → ((do_handshake crypto json h gate salt connected conn).0 ≡ ok true)
        ⊎ ((do_handshake crypto json h gate salt connected conn).0 ≡ ok false)
  unfolding do_handshake
  do_handshake-cases connected conn =
      either (read_and_answer crypto json h gate salt connected conn)
    where
      either :
          (p : Result Bool × Conn)
          → ((handle p (λ _. pure false)).0 ≡ ok true) ⊎ ((handle p (λ _. pure false)).0 ≡ ok false)
      either (ok true, c) = inl refl
      either (ok false, c) = inr refl
      either (raise x, c) = inr refl

  -- Where the gate approves no nonce of any challenge, `do_handshake` says `False` and sends nothing.
  pub do_handshake_declined :
      (connected : Result (Unit {0})) (conn : Conn)
      → ((nonce : Bytes) (d : Dict) → ask gate nonce d ≢ ok true)
      → ((do_handshake crypto json h gate salt connected conn).0 ≡ ok false)
        × ((do_handshake crypto json h gate salt connected conn).1.sent ≡ conn.sent)
  do_handshake_declined connected conn declined = (
    elim (do_handshake-cases connected conn) [
      | inl e ↦
          let (d, nonce, _, _, _, _, _, _, _, approved, _, _) =
            do_handshake_sound crypto json h gate salt connected conn e in
          absurd (declined nonce d approved)
      | inr e ↦ e
    ],
    elim (do_handshake_sends crypto json h gate salt connected conn) [
      | inl quiet ↦ quiet
      | inr (d, _, _, _, a) ↦ absurd (declined a.nonce d a.approved)
    ],
  )
