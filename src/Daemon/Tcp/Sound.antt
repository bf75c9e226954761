-- ===== src/Daemon/Tcp/Sound.antt =====
-- daemon.py: how each step of `_tcp_handshake` ends.
use mathlib.Core.List.{append_assoc}
use phonect.Prelude.{◌++◌, Option, none, some, ◌≡◌, refl, ◌∙◌, ap, sym, arith}
use phonect.Python.{Value, null, Exception, protocol_security_error, Result, ok, raise}
use phonect.Python.Io.{pure, handle}
use phonect.Bytes.{Bytes}
use phonect.Protocol.Frame.{Json}
use phonect.Crypto.{Cryptography}
use phonect.Handshake.Server.{Drawn}
use phonect.Daemon.Reader.{Session, read_frame}
use phonect.Daemon.Reader.Received.{Gives, IsSent, read_frame-eq-ok, heard_behind}
use phonect.Daemon.Hello.{Candidate, receive_hello}
use phonect.Daemon.Tcp.{
  Verdict, rejected, send_accept, send_challenge, refuse_violation, receive_response,
  with_candidate, greet_and_verify, tcp_handshake,
}
use phonect.Daemon.Tcp.Ending.{
  Ending, turned_away, Ends, IsCandidate, handled, receive_hello-IsCandidate,
}
use phonect.Daemon.Tcp.Keys.{
  SameKeys, same_keys, write_and_drain-SameKeys, write_and_drain-input, read_frame-SameKeys,
}
use phonect.Daemon.Tcp.Settle.{continue-Ends, lift-Ends, answer_response-Ending}

module _ (crypto : Cryptography) (json : Json) where
  send_accept-SameKeys :
      (pc : crypto.PrivateKey) (cand : Candidate crypto.PublicKey) (s : Session crypto.PublicKey)
      → SameKeys s (send_accept crypto json pc cand s).1
  unfolding send_accept
  send_accept-SameKeys pc cand s = grind (arith, write_and_drain-SameKeys)

  send_challenge-SameKeys :
      (pc : crypto.PrivateKey) (r : Drawn) (s : Session crypto.PublicKey)
      → SameKeys s (send_challenge crypto json pc r s).1
  unfolding send_challenge
  send_challenge-SameKeys pc r s = grind (arith, write_and_drain-SameKeys)

  send_accept-input :
      (pc : crypto.PrivateKey) (cand : Candidate crypto.PublicKey) (s : Session crypto.PublicKey)
      → (send_accept crypto json pc cand s).1.input ≡ s.input
  unfolding send_accept
  send_accept-input pc cand s = grind (arith, write_and_drain-input)

  send_challenge-input :
      (pc : crypto.PrivateKey) (r : Drawn) (s : Session crypto.PublicKey)
      → (send_challenge crypto json pc r s).1.input ≡ s.input
  unfolding send_challenge
  send_challenge-input pc r s = grind (arith, write_and_drain-input)

  receive_response-SameKeys :
      (s : Session crypto.PublicKey) → SameKeys s (receive_response crypto json s).1
  unfolding receive_response refuse_violation
  receive_response-SameKeys s = grind (arith, read_frame-SameKeys)

  refuse_violation-null :
      (e : Exception) (u v : Session crypto.PublicKey) (m : Value)
      → refuse_violation crypto json e u ≡ (ok m, v)
      → m ≡ null
  unfolding refuse_violation
  refuse_violation-null (protocol_security_error _) u v m h = ground arith
  refuse_violation-null _ u v m h = cc

  receive_response-heard :
      (u v : Session crypto.PublicKey) (msg : Value) (input before signature : Bytes)
      → receive_response crypto json u ≡ (ok msg, v)
      → input ≡ before ++ u.input
      → Gives msg signature
      → IsSent json input signature
  unfolding receive_response
  receive_response-heard u v msg input before signature =
      heard_behind json (refuse_violation crypto json) u v msg input before signature
        refuse_violation-null

  with_candidate-Ending :
      (pc : crypto.PrivateKey) (r : Drawn) (input before : Bytes)
      (chosen : Option (Candidate crypto.PublicKey)) (s : Session crypto.PublicKey)
      → input ≡ before ++ s.input
      → ((c : Candidate crypto.PublicKey) → chosen ≡ some c → IsCandidate crypto s.trusted_key c)
      → Ends crypto (IsSent json input) handled r.nonce s (with_candidate crypto json pc r chosen s)
  unfolding with_candidate
  with_candidate-Ending pc r input before none s behind chosen = turned_away refl (same_keys s)
  with_candidate-Ending pc r input before (some cand) s behind chosen =
      continue-Ends crypto json r.nonce (send_accept crypto json pc cand s) _
        (send_accept-SameKeys pc cand s)
        λ _ t accepted st.
          continue-Ends crypto json r.nonce (send_challenge crypto json pc r t) _
            (send_challenge-SameKeys pc r t)
            λ _ u challenged tu.
              continue-Ends crypto json r.nonce (receive_response crypto json u) _
                (receive_response-SameKeys u)
                λ msg v answered uv.
                  let left : u.input ≡ s.input =
                    sym (ap (λ p. p.1.input) challenged)
                    ∙ send_challenge-input pc r t
                    ∙ sym (ap (λ p. p.1.input) accepted)
                    ∙ send_accept-input pc cand s in
                  answer_response-Ending crypto json r.nonce cand msg v
                    (rw (uv.trusted_key, tu.trusted_key, st.trusted_key) (chosen cand refl))
                    λ signature.
                      receive_response-heard u v msg input before signature answered
                        (behind ∙ ap (λ l. before ++ l) (sym left))

  greet_and_verify-Ending :
      (pc : Option crypto.PrivateKey) (r : Drawn) (s : Session crypto.PublicKey)
      → Ends crypto (IsSent json s.input) handled r.nonce s (greet_and_verify crypto json pc r s)
  unfolding greet_and_verify
  greet_and_verify-Ending none r s = turned_away refl (same_keys s)
  greet_and_verify-Ending (some pc) r s =
      continue-Ends crypto json r.nonce (read_frame json s) _ (read_frame-SameKeys json s)
        λ msg t greeted st.
          let (header, text, placed, _, _) = read_frame-eq-ok json s t msg greeted in
          lift-Ends crypto json r.nonce t (receive_hello crypto t.trusted_key msg) _ λ chosen e.
            with_candidate-Ending pc r s.input (header ++ text) chosen t
              (placed ∙ sym (append_assoc header text t.input))
              λ c picked. receive_hello-IsCandidate crypto t.trusted_key msg c (e ∙ ap ok picked)

  catch-Ending :
      {sent : Bytes → Type 0} {nonce : Bytes} {s : Session crypto.PublicKey}
      (p : Result Verdict × Session crypto.PublicKey)
      → Ends crypto sent handled nonce s p
      → (v : Verdict) × (t : Session crypto.PublicKey) × (handle p (λ _. pure rejected) ≡ (ok v, t))
        × Ending crypto sent nonce s v t
  catch-Ending (ok v, t) h = (v, t, refl, h)
  catch-Ending (raise e, t) h = (rejected, t, refl, h)

  -- A handshake of the daemon always returns a verdict, whatever the phone sends and whatever the
  -- streams do. It rejects the phone, and the trusted key stays; or a frame among the bytes that the
  -- phone has sent gives a signature of its nonce that is verified under the trusted key, which stays,
  -- and the verdict unlocks; or no key was trusted, and either it rejects the phone and none is, or the
  -- phone's own key, under which a signature of its nonce in such a frame is verified, is now trusted
  -- and saved, and the verdict does not unlock.
  pub tcp_handshake_sound :
      (pc : Option crypto.PrivateKey) (r : Drawn) (s : Session crypto.PublicKey)
      → (v : Verdict) × (t : Session crypto.PublicKey) × (tcp_handshake crypto json pc r s
          ≡ (ok v, t))
        × Ending crypto (IsSent json s.input) r.nonce s v t
  unfolding tcp_handshake
  tcp_handshake_sound pc r s =
      catch-Ending (greet_and_verify crypto json pc r s) (greet_and_verify-Ending pc r s)
