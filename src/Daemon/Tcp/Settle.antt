-- ===== src/Daemon/Tcp/Settle.antt =====
-- daemon.py: how `_tcp_handshake` ends once it has read the response.
use mathlib.Core.Path.{subst}
use phonect.Prelude.{Bool, true, false, Option-cases, ◌≡◌, inl, inr, refl, sym, arith}
use phonect.Python.{Value, null, dict, Dict, get, Result, ok, raise}
use phonect.Python.Io.{Io, continue}
use phonect.Bytes.{Bytes}
use phonect.Protocol.Frame.{Json}
use phonect.Protocol.Validate.{validate_response}
use phonect.Protocol.Validate.Schemas.{validate_response_iff}
use phonect.Crypto.{Cryptography, verify_nonce}
use phonect.Handshake.{fromhex_value, check_slice}
use phonect.Daemon.Reader.{Session}
use phonect.Daemon.Reader.Received.{fromhex_value-eq-ok, IsHeard}
use phonect.Daemon.Hello.{Candidate}
use phonect.Daemon.Tcp.{
  Verdict, rejected, save_phone_key, pin, settle, conclude, check_response, answer_response,
}
use phonect.Daemon.Tcp.Ending.{
  Ending, turned_away, unsaved, unlocking, paired, Ends, IsCandidate, handled, Result-cases,
}
use phonect.Daemon.Tcp.Keys.{SameKeys, same_keys}
use phonect.Crypto.Laws.{verify_nonce-eq-true}

module _ (crypto : Cryptography) (json : Json) where
  module _ {sent : Bytes → Type 0} (nonce : Bytes) where
    -- A step that touches no key, and then one that ends.
    pub continue-Ends :
        {A : Type 0} {s : Session crypto.PublicKey} (p : Result A × Session crypto.PublicKey)
        (f : A → Io (Session crypto.PublicKey) Verdict)
        → SameKeys s p.1
        → ((a : A) (t : Session crypto.PublicKey)
            → p ≡ (ok a, t)
            → SameKeys s t
            → Ends crypto sent handled nonce t (f a t))
        → Ends crypto sent handled nonce s (continue p f)
    continue-Ends (raise e, t) f same h = turned_away refl same
    continue-Ends {s = s} (ok a, t) f same h = after (h a t refl same)
      where
        after :
            {v : Verdict} {t' : Session crypto.PublicKey}
            → Ending crypto sent nonce t v t'
            → Ending crypto sent nonce s v t'
        after (turned_away e keys) = turned_away e (ground arith)
        after (unsaved e untrusted none_yet) = unsaved e (ground arith) none_yet
        after (unlocking key sig e trusted given good keys) =
            unlocking key sig e (ground arith) given good (ground arith)
        after (paired key pem sig e untrusted loaded given good pinned saved) =
            paired key pem sig e (ground arith) loaded given good pinned saved

    pub lift-Ends :
        {A : Type 0} (s : Session crypto.PublicKey) (q : Result A)
        (f : A → Io (Session crypto.PublicKey) Verdict)
        → ((a : A) → q ≡ ok a → Ends crypto sent handled nonce s (f a s))
        → Ends crypto sent handled nonce s (continue (q, s) f)
    lift-Ends s (ok a) f h = h a refl
    lift-Ends s (raise e) f h = turned_away refl (same_keys s)

    turned_away_if :
        {s : Session crypto.PublicKey} (p : Result Verdict × Session crypto.PublicKey)
        → handled p.0 ≡ rejected
        → p.1 ≡ s
        → Ends crypto sent handled nonce s p
    turned_away_if p e same = turned_away e (ground arith)

    module _ (cand : Candidate crypto.PublicKey) where
      settle-Ending :
          (signature : Bytes) (d : Dict) (s : Session crypto.PublicKey)
          → IsCandidate crypto s.trusted_key cand
          → sent signature
          → crypto.verify cand.verification_key signature nonce ≡ ok tt
          → Ends crypto sent handled nonce s (settle crypto json cand d true s)
      unfolding settle pin save_phone_key
      settle-Ending signature d s (inl (new, untrusted, same, loaded)) given good =
          elim (Option-cases s.save_error) [
            | inl writes ↦ elim (Result-cases (check_slice (get "public_key_fingerprint" d))) [
              | inl (_, sliced) ↦
                  paired cand.key cand.pem signature (inl (ground arith)) untrusted loaded given
                    (rw (sym same) good) (ground arith) (ground arith)
              | inr (_, sliced) ↦
                  paired cand.key cand.pem signature (inr (ground arith)) untrusted loaded given
                    (rw (sym same) good) (ground arith) (ground arith)
            ]
            | inr ((e, left), fails) ↦ unsaved (ground arith) untrusted (ground arith)
          ]
      settle-Ending signature d s (inr (old, trusted)) given good =
          elim (Result-cases (check_slice (get "public_key_fingerprint" d))) [
            | inl (_, sliced) ↦
                unlocking cand.verification_key signature (ground arith) trusted given good
                  (ground arith)
            | inr (_, sliced) ↦ turned_away (ground arith) (ground arith)
          ]

      settle-turned_away :
          (d : Dict) (s : Session crypto.PublicKey)
          → Ends crypto sent handled nonce s (settle crypto json cand d false s)
      unfolding settle pin
      settle-turned_away d s = elim (Result-cases (check_slice (get "public_key_fingerprint" d))) [
        | inl (_, sliced) ↦ turned_away (ground arith) (ground arith)
        | inr (_, sliced) ↦ turned_away (ground arith) (ground arith)
      ]

      settle-either :
          (signature : Bytes) (d : Dict) (s : Session crypto.PublicKey)
          → IsCandidate crypto s.trusted_key cand
          → sent signature
          → (valid : Bool) → verify_nonce crypto cand.verification_key nonce signature ≡ ok valid
          → Ends crypto sent handled nonce s (settle crypto json cand d valid s)
      settle-either signature d s chosen given true h =
          settle-Ending signature d s chosen given
            (verify_nonce-eq-true crypto cand.verification_key nonce signature h)
      settle-either signature d s chosen given false h = settle-turned_away d s

      conclude-Ending :
          (d : Dict) (s : Session crypto.PublicKey)
          → IsCandidate crypto s.trusted_key cand
          → IsHeard sent (dict d)
          → Ends crypto sent handled nonce s (conclude crypto json cand nonce d s)
      unfolding conclude
      conclude-Ending d s chosen heard =
          lift-Ends s (fromhex_value (get "signature" d)) _ λ signature given.
            let (digits, at, read) = fromhex_value-eq-ok (get "signature" d) signature given in
            lift-Ends s (verify_nonce crypto cand.verification_key nonce signature) _ (
              settle-either signature d s chosen (
                heard signature (record {
                  fields = d;
                  digits = digits;
                  object = refl;
                  given = at;
                  digits_read = read;
                })))

      check_response-Ending :
          (msg : Value) (q : Result Dict) (s : Session crypto.PublicKey)
          → q ≡ validate_response msg
          → IsCandidate crypto s.trusted_key cand
          → IsHeard sent msg
          → Ends crypto sent handled nonce s (check_response crypto json cand nonce q s)
      unfolding check_response
      check_response-Ending msg (ok d) s validated chosen heard =
          let (object, _) = (validate_response_iff msg d).0 (sym validated) in
          conclude-Ending d s chosen (subst (IsHeard sent) object heard)
      check_response-Ending msg (raise e) s validated chosen heard =
          turned_away_if (check_response crypto json cand nonce (raise e) s) (ground arith)
            (ground arith)

      pub answer_response-Ending :
          (msg : Value) (s : Session crypto.PublicKey)
          → IsCandidate crypto s.trusted_key cand
          → IsHeard sent msg
          → Ends crypto sent handled nonce s (answer_response crypto json cand nonce msg s)
      unfolding answer_response
      answer_response-Ending null s chosen heard = turned_away refl (same_keys s)
      answer_response-Ending msg s chosen heard =
          check_response-Ending msg (validate_response msg) s refl chosen heard
