-- ===== src/Daemon/Legacy/Sound.antt =====
-- daemon.py: the result `True` of `_async_handshake`.
use phonect.Prelude.{[], sym, Bool, true, false, Option, none, some, ◌≡◌, refl, ◌∙◌, ap, arith}
use phonect.Python.{Value, null, Exception, Dict, get, Result, ok, raise}
use phonect.Python.Io.{Io, continue, continue-eq-ok}
use phonect.Bytes.{Bytes}
use phonect.Protocol.Frame.{Json, encode_frame}
use phonect.Protocol.Validate.{validate_response}
use phonect.Crypto.{Cryptography, verify_nonce}
use phonect.Handshake.{fromhex_value}
use phonect.Handshake.Server.{Drawn, challenge_with}
use phonect.Protocol.Validate.Schemas.{validate_response_iff}
use phonect.Daemon.Reader.{Session, write_and_drain}
use phonect.Daemon.Reader.Received.{IsSent, IsHeard, fromhex_value-eq-ok, heard_behind}
use phonect.Daemon.Legacy.{
  refuse_reading, read_answer, report, verify_answer, check_answer, challenge_phone,
  challenge_if_paired, async_handshake,
}
use phonect.Daemon.Tcp.Keys.{
  SameKeys, same_keys, write_and_drain-SameKeys, write_and_drain-input, read_frame-SameKeys,
}
use phonect.Crypto.Laws.{verify_nonce-eq-true}

module _ (crypto : Cryptography) (json : Json) where
  -- One of the signatures that were sent is verified.
  abbrev pub Signed : (Bytes → Type 0) → crypto.PublicKey → Bytes → Type 0
  Signed sent key nonce =
      (signature : Bytes) × sent signature × (crypto.verify key signature nonce ≡ ok tt)

  report-eq-true :
      (d : Dict) (b : Bool) (s : Session crypto.PublicKey)
      → (report crypto json d b s).0 ≡ ok true
      → b ≡ true
  unfolding report
  report-eq-true d true s h = refl
  report-eq-true d false s h = cc

  module _ {sent : Bytes → Type 0} (key : crypto.PublicKey) (nonce : Bytes) where
    verify_answer-eq-true :
        (msg : Value) (q : Result Dict) (s : Session crypto.PublicKey)
        → q ≡ validate_response msg
        → IsHeard sent msg
        → (verify_answer crypto json key nonce q s).0 ≡ ok true
        → Signed sent key nonce
    unfolding verify_answer
    verify_answer-eq-true msg (ok d) s validated heard h =
        let (object, _) = (validate_response_iff msg d).0 (sym validated) in
        let (signature, s1, given, h1) =
          continue-eq-ok (fromhex_value (get "signature" d), s) _ h in
        let (valid, s2, verified, h2) =
          continue-eq-ok (verify_nonce crypto key nonce signature, s1) _ h1 in
        let is_true : valid ≡ true = report-eq-true d valid s2 h2 in
        let (digits, at, read) =
          fromhex_value-eq-ok (get "signature" d) signature (ap (λ q. q.0) given) in
        (
          signature,
          heard signature (record {
            fields = d;
            digits = digits;
            object = object;
            given = at;
            digits_read = read;
          }),
          verify_nonce-eq-true crypto key nonce signature (ap (λ q. q.0) verified ∙ ap ok is_true),
        )
    verify_answer-eq-true msg (raise e) s validated heard h = absurd (ground arith)

    check_answer-eq-true :
        (msg : Value) (s : Session crypto.PublicKey)
        → IsHeard sent msg
        → (check_answer crypto json key nonce msg s).0 ≡ ok true
        → Signed sent key nonce
    unfolding check_answer
    check_answer-eq-true null s heard h = cc
    check_answer-eq-true msg s heard h =
        verify_answer-eq-true msg (validate_response msg) s refl heard h

  refuse_reading-null :
      (e : Exception) (u v : Session crypto.PublicKey) (m : Value)
      → refuse_reading crypto json e u ≡ (ok m, v)
      → m ≡ null
  unfolding refuse_reading
  refuse_reading-null e u v m h = ground arith

  -- Steps that touch no key, one after the other.
  continue-SameKeys :
      {A B : Type 0} {s : Session crypto.PublicKey} (p : Result A × Session crypto.PublicKey)
      (f : A → Io (Session crypto.PublicKey) B)
      → SameKeys s p.1
      → ((a : A) (t : Session crypto.PublicKey) → SameKeys t (f a t).1)
      → SameKeys s (continue p f).1
  continue-SameKeys (ok a, t) f same h = ground (arith, h a t)
  continue-SameKeys (raise e, t) f same h = same

  report-SameKeys :
      (d : Dict) (b : Bool) (s : Session crypto.PublicKey) → SameKeys s (report crypto json d b s).1
  unfolding report
  report-SameKeys d true s = ground arith
  report-SameKeys d false s = ground arith

  verify_answer-SameKeys :
      (key : crypto.PublicKey) (nonce : Bytes) (q : Result Dict) (s : Session crypto.PublicKey)
      → SameKeys s (verify_answer crypto json key nonce q s).1
  unfolding verify_answer
  verify_answer-SameKeys key nonce (raise e) s = ground arith
  verify_answer-SameKeys key nonce (ok d) s =
      continue-SameKeys (fromhex_value (get "signature" d), s) _ (same_keys s)
        λ signature t.
          continue-SameKeys (verify_nonce crypto key nonce signature, t) _ (same_keys t)
            λ valid u. report-SameKeys d valid u

  check_answer-SameKeys :
      (key : crypto.PublicKey) (nonce : Bytes) (msg : Value) (s : Session crypto.PublicKey)
      → SameKeys s (check_answer crypto json key nonce msg s).1
  unfolding check_answer
  check_answer-SameKeys key nonce null s = same_keys s
  check_answer-SameKeys key nonce msg s = verify_answer-SameKeys key nonce (validate_response msg) s

  read_answer-SameKeys : (s : Session crypto.PublicKey) → SameKeys s (read_answer crypto json s).1
  unfolding read_answer refuse_reading
  read_answer-SameKeys s = grind (arith, read_frame-SameKeys)

  challenge_phone-SameKeys :
      (key : crypto.PublicKey) (pc : Option crypto.PrivateKey) (r : Drawn)
      (s : Session crypto.PublicKey)
      → SameKeys s (challenge_phone crypto json key pc r s).1
  unfolding challenge_phone
  challenge_phone-SameKeys key pc r s =
      continue-SameKeys (encode_frame json (challenge_with crypto pc r), s) _ (same_keys s)
        λ frame t.
          continue-SameKeys (write_and_drain frame t) _ (write_and_drain-SameKeys frame t) λ _ u.
            continue-SameKeys (read_answer crypto json u) _ (read_answer-SameKeys u)
              λ msg v. check_answer-SameKeys key r.nonce msg v

  challenge_phone-eq-true :
      (key : crypto.PublicKey) (pc : Option crypto.PrivateKey) (r : Drawn)
      (s : Session crypto.PublicKey)
      → (challenge_phone crypto json key pc r s).0 ≡ ok true
      → Signed (IsSent json s.input) key r.nonce
  unfolding challenge_phone read_answer
  challenge_phone-eq-true key pc r s h =
      let (frame, s1, encoded, h1) =
        continue-eq-ok (encode_frame json (challenge_with crypto pc r), s) _ h in
      let (_, s2, wrote, h2) = continue-eq-ok (write_and_drain frame s1) _ h1 in
      let (msg, s3, answered, h3) = continue-eq-ok (read_answer crypto json s2) _ h2 in
      let left : s2.input ≡ s.input =
        sym (ap (λ p. p.1.input) wrote)
        ∙ write_and_drain-input frame s1
        ∙ sym (ap (λ p. p.1.input) encoded) in
      check_answer-eq-true key r.nonce msg s3
        (λ signature.
          heard_behind json (refuse_reading crypto json) s2 s3 msg s.input [] signature
            refuse_reading-null answered (sym left))
        h3

  challenge_if_paired-eq-true :
      (o : Option crypto.PublicKey) (pc : Option crypto.PrivateKey) (r : Drawn)
      (s : Session crypto.PublicKey)
      → (challenge_if_paired crypto json o pc r s).0 ≡ ok true
      → SameKeys s (challenge_if_paired crypto json o pc r s).1
        × ((key : crypto.PublicKey) × (o ≡ some key) × Signed (IsSent json s.input) key r.nonce)
  unfolding challenge_if_paired
  challenge_if_paired-eq-true none pc r s h = absurd (ground arith)
  challenge_if_paired-eq-true (some key) pc r s h =
      (challenge_phone-SameKeys key pc r s, (key, refl, challenge_phone-eq-true key pc r s h))

  -- Where `_async_handshake` says `True`, a key is trusted, a frame among the bytes that the phone has
  -- sent gives a signature of this handshake's nonce that is verified under it, and the keys stay what
  -- they are.
  pub async_handshake_sound :
      (pc : Option crypto.PrivateKey) (r : Drawn) (s : Session crypto.PublicKey)
      → (async_handshake crypto json pc r s).0 ≡ ok true
      → SameKeys s (async_handshake crypto json pc r s).1
        × ((key : crypto.PublicKey) × (s.trusted_key ≡ some key)
            × Signed (IsSent json s.input) key r.nonce)
  async_handshake_sound pc r s = challenge_if_paired-eq-true s.trusted_key pc r s
