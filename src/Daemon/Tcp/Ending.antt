-- ===== src/Daemon/Tcp/Ending.antt =====
-- daemon.py: the ways in which `_tcp_handshake` can end, and the key that a response is verified with.
use phonect.Prelude.{
  String, Bool, true, false, Option, none, some, ◌≡◌, ◌⊎◌, inl, inr, refl, arith, if◌then◌else◌,
}
use phonect.Python.{Value, Dict, Exception, Result, ok, raise, ◌>>=◌}
use phonect.Bytes.{Bytes, utf8}
use phonect.Crypto.{Cryptography, load_public_key}
use phonect.Handshake.Client.{item_of}
use phonect.Daemon.Reader.{Session}
use phonect.Daemon.Hello.{Candidate, receive_hello, choose_key, check_hello, text_of}
use phonect.Daemon.Tcp.{Verdict, rejected}
use phonect.Daemon.Tcp.Keys.{SameKeys}

ok_some-injective : {A : Type 0} {o : Option A} {a : A} → ok o ≡ ok (some a) → o ≡ some a
ok_some-injective h = ground arith

pub Result-cases :
    {A : Type 0} (q : Result A) → ((a : A) × (q ≡ ok a)) ⊎ ((e : Exception) × (q ≡ raise e))
Result-cases (ok a) = inl (a, refl)
Result-cases (raise e) = inr (e, refl)

-- what the `except` clauses make of a result
abbrev pub handled : Result Verdict → Verdict
handled (ok v) = v
handled (raise e) = rejected

module _ (crypto : Cryptography) where
  -- How a handshake on session `s` ended, with the verdict `v` and the session `t`; `sent` holds of the
  -- signatures that the phone has sent.
  pub data Ending (sent : Bytes → Type 0) (nonce : Bytes) (s : Session crypto.PublicKey)
      (v : Verdict) (t : Session crypto.PublicKey) : Type 0 where
    -- the phone is rejected, and the trusted key is what it was
    turned_away : v ≡ rejected → SameKeys s t → Ending sent nonce s v t
    -- the phone has sent a signature that is verified under the trusted key, which stays
    unlocking :
        (key : crypto.PublicKey) (signature : Bytes)
        → v ≡ (true, true)
        → s.trusted_key ≡ some key
        → sent signature
        → crypto.verify key signature nonce ≡ ok tt
        → SameKeys s t
        → Ending sent nonce s v t
    -- there was no trusted key and there is none; the file could not be written
    unsaved : v ≡ rejected → s.trusted_key ≡ none → t.trusted_key ≡ none → Ending sent nonce s v t
    -- there was no trusted key, the phone has sent a signature that is verified under its own, which is
    -- now trusted and saved; `v` does not unlock
    paired :
        (key : crypto.PublicKey) (pem : String) (signature : Bytes)
        → (v ≡ (true, false)) ⊎ (v ≡ rejected)
        → s.trusted_key ≡ none
        → crypto.load_pem_public_key (utf8 pem) ≡ ok key
        → sent signature
        → crypto.verify key signature nonce ≡ ok tt
        → t.trusted_key ≡ some key
        → t.key_file ≡ some pem
        → Ending sent nonce s v t

  -- The ending that a step of the handshake reaches from `s`, after `except`.
  abbrev pub Ends :
      {A : Type 0}
      → (Bytes → Type 0)
      → (Result A → Verdict)
      → Bytes
      → Session crypto.PublicKey
      → Result A × Session crypto.PublicKey
      → Type 0
  Ends sent verdict nonce s p = Ending sent nonce s (verdict p.0) p.1

  -- the key of a candidate is the trusted one, or there is none and it is the phone's own
  abbrev pub IsCandidate : Option crypto.PublicKey → Candidate crypto.PublicKey → Type 0
  IsCandidate trusted c =
      ((c.is_new ≡ true)
        × (trusted ≡ none)
        × (c.verification_key ≡ c.key)
        × (crypto.load_pem_public_key (utf8 c.pem) ≡ ok c.key))
      ⊎ ((c.is_new ≡ false) × (trusted ≡ some c.verification_key))

  choose_key-IsCandidate :
      (trusted : Option crypto.PublicKey) (key : crypto.PublicKey) (fp : Value) (pem : String)
      (hello : Dict) (c : Candidate crypto.PublicKey)
      → crypto.load_pem_public_key (utf8 pem) ≡ ok key
      → choose_key crypto trusted key fp pem hello ≡ some c
      → IsCandidate trusted c
  unfolding choose_key
  choose_key-IsCandidate none key fp pem hello c loaded h = ground arith
  choose_key-IsCandidate (some t) key fp pem hello c loaded h = ground arith

  -- Whoever a result picks is a candidate.
  abbrev Picks : Option crypto.PublicKey → Result (Option (Candidate crypto.PublicKey)) → Type 0
  Picks trusted q = (c : Candidate crypto.PublicKey) → q ≡ ok (some c) → IsCandidate trusted c

  >>=-Picks :
      {A : Type 0} {trusted : Option crypto.PublicKey} (m : Result A)
      (f : A → Result (Option (Candidate crypto.PublicKey)))
      → ((a : A) → m ≡ ok a → Picks trusted (f a))
      → Picks trusted (m >>= f)
  >>=-Picks (ok a) f h c q = h a refl c q
  >>=-Picks (raise e) f h c q = cc

  if-Picks :
      {trusted : Option crypto.PublicKey} (b : Bool) (o : Option (Candidate crypto.PublicKey))
      → Picks trusted (ok o)
      → Picks trusted (ok (if b then o else none))
  if-Picks true o h c q = h c q
  if-Picks false o h c q = ground arith

  pub receive_hello-IsCandidate :
      (trusted : Option crypto.PublicKey) (msg : Value)
      → Picks trusted (receive_hello crypto trusted msg)
  unfolding receive_hello
  receive_hello-IsCandidate trusted msg = >>=-Picks (check_hello msg) _ λ hello _.
      >>=-Picks (item_of "public_key_pem" hello) _ λ phone_pem _.
        >>=-Picks (item_of "public_key_fingerprint" hello) _ λ fp _.
          >>=-Picks (text_of phone_pem) _ λ pem _.
            >>=-Picks (load_public_key crypto (utf8 pem)) _ λ key loaded.
              if-Picks _ (choose_key crypto trusted key fp pem hello) λ c q.
                choose_key-IsCandidate trusted key fp pem hello c loaded (ok_some-injective q)
