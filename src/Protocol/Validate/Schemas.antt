-- ===== src/Protocol/Validate/Schemas.antt =====
-- protocol.py: the schemas of a challenge and a response, against the validators.
use phonect.Prelude.{
  String, ◌≡◌, ◌⊎◌, ◌↔◌, inl, inr, refl, true, not, Option, none, some, length, arith, ◌==◌, eq_iff,
  eq_refl,
}
use phonect.Python.{
  Value, null, bool, int, float, str, list, dict, Dict, get, has, is_text, attribute_error,
  protocol_error, signature_not_hex, nonce_not_hex, signature_length, ok, raise, raise_if,
}
use phonect.Bytes.{Bytes, codes, fromhex}
use phonect.Protocol.Messages.{msg_challenge, msg_response}
use phonect.Protocol.Validate.{
  nonce_hex_length, validate_challenge, validate_response, as_dict, check_nonce, check_signature,
}

pub is_text-eq-true : (o : Option Value) (t : String) → is_text o t ≡ true → o ≡ some (str t)
is_text-eq-true (some (str s)) t h = ground (arith, eq_iff s t)
is_text-eq-true none t h = cc
is_text-eq-true (some null) t h = cc
is_text-eq-true (some (bool _)) t h = cc
is_text-eq-true (some (int _)) t h = cc
is_text-eq-true (some (float _)) t h = cc
is_text-eq-true (some (list _)) t h = cc
is_text-eq-true (some (dict _)) t h = cc

-- Only a dict has the method `get`.
pub dict-cases : (m : Value) → ((d : Dict) × (m ≡ dict d)) ⊎ (as_dict m ≡ raise attribute_error)
unfolding as_dict
dict-cases (dict d) = inl (d, refl)
dict-cases null = inr refl
dict-cases _ = inr refl

-- A message that `validate_response` accepts.
pub record IsResponse (d : Dict) : Type 0 where
  pub kind : get "type" d ≡ some (str msg_response)
  pub signature :
      (s : String) × (bs : Bytes) × (get "signature" d ≡ some (str s))
      × (fromhex s ≡ some bs)
      × (length bs ≡ 512)
  pub session_id : has "session_id" d ≡ true
  pub fingerprint : has "public_key_fingerprint" d ≡ true

check_signature-eq-ok :
    (o : Option Value)
    → check_signature o ≡ ok tt
    → (s : String) × (bs : Bytes) × (o ≡ some (str s)) × (fromhex s ≡ some bs) × (length bs ≡ 512)
unfolding check_signature
check_signature-eq-ok (some (str s)) h =
    let (bs, read, size) = sized (fromhex s) h in (s, bs, refl, read, size)
  where
    sized :
        (o : Option Bytes)
        → (elim o [
          | none ↦ raise (protocol_error (signature_not_hex s))
          | some bs ↦
              raise_if (not (length bs == 512)) (protocol_error (signature_length (length bs)))
        ])
          ≡ ok tt
        → (bs : Bytes) × (o ≡ some bs) × (length bs ≡ 512)
    sized none e = cc
    sized (some bs) e = (bs, refl, ground arith)
check_signature-eq-ok none h = cc
check_signature-eq-ok (some null) h = cc
check_signature-eq-ok (some (bool _)) h = cc
check_signature-eq-ok (some (int _)) h = cc
check_signature-eq-ok (some (float _)) h = cc
check_signature-eq-ok (some (list _)) h = cc
check_signature-eq-ok (some (dict _)) h = cc

validate_response-dict : (d e : Dict) → validate_response (dict d) ≡ ok e → (d ≡ e) × IsResponse d
unfolding validate_response
validate_response-dict d e h = (
  ground arith,
  record {
    kind = is_text-eq-true (get "type" d) msg_response (ground arith);
    signature = check_signature-eq-ok (get "signature" d) (ground arith);
    session_id = ground arith;
    fingerprint = ground arith;
  },
)

IsResponse-validate : (d : Dict) → IsResponse d → validate_response (dict d) ≡ ok d
unfolding validate_response
IsResponse-validate d v =
    let (s, bs, at, read, size) = v.signature in ground (arith, eq_refl msg_response)

-- `validate_response` returns a message exactly when it is a dict of type "response" with a session
-- id, a fingerprint and a signature that is the hexadecimal text of 512 bytes, and returns it as it is.
pub validate_response_iff :
    (msg : Value) (d : Dict) → (validate_response msg ≡ ok d) ↔ ((msg ≡ dict d) × IsResponse d)
validate_response_iff msg d = (accepted, λ (e, v). rw e (IsResponse-validate d v))
  where
    accepted : validate_response msg ≡ ok d → (msg ≡ dict d) × IsResponse d
    accepted h = elim (dict-cases msg) [
      | inl (c, e) ↦
          let (same, v) = validate_response-dict c d (rw e at h) in (rw (e, same), rw same at v)
      | inr q ↦ absurd (unfold validate_response in ground arith)
    ]

-- A message that `validate_challenge` accepts.
pub record IsChallenge (d : Dict) : Type 0 where
  pub kind : get "type" d ≡ some (str msg_challenge)
  pub nonce :
      (s : String) × (bs : Bytes) × (get "nonce" d ≡ some (str s))
      × (length (codes s) ≡ nonce_hex_length)
      × (fromhex s ≡ some bs)
  pub session_id : has "session_id" d ≡ true

check_nonce-eq-ok :
    (o : Option Value)
    → check_nonce o ≡ ok tt
    → (s : String) × (bs : Bytes) × (o ≡ some (str s))
      × (length (codes s) ≡ nonce_hex_length)
      × (fromhex s ≡ some bs)
unfolding check_nonce
check_nonce-eq-ok (some (str s)) h =
    let (bs, e) = read (fromhex s) (ground arith) in (s, bs, refl, ground arith, e)
  where
    read :
        (o : Option Bytes)
        → (elim o [ none ↦ raise (protocol_error (nonce_not_hex s)) | some bs ↦ ok tt ])
          ≡ ok (tt {0})
        → (bs : Bytes) × (o ≡ some bs)
    read none e = cc
    read (some bs) e = (bs, refl)
check_nonce-eq-ok none h = cc
check_nonce-eq-ok (some (list xs)) h = cc
check_nonce-eq-ok (some (dict d)) h = cc
check_nonce-eq-ok (some null) h = cc
check_nonce-eq-ok (some (bool _)) h = cc
check_nonce-eq-ok (some (int _)) h = cc
check_nonce-eq-ok (some (float _)) h = cc

validate_challenge-dict :
    (d e : Dict) → validate_challenge (dict d) ≡ ok e → (d ≡ e) × IsChallenge d
unfolding validate_challenge
validate_challenge-dict d e h = (
  ground arith,
  record {
    kind = is_text-eq-true (get "type" d) msg_challenge (ground arith);
    nonce = check_nonce-eq-ok (get "nonce" d) (ground arith);
    session_id = ground arith;
  },
)

IsChallenge-validate : (d : Dict) → IsChallenge d → validate_challenge (dict d) ≡ ok d
unfolding validate_challenge
IsChallenge-validate d v =
    let (s, bs, at, size, read) = v.nonce in ground (arith, eq_refl msg_challenge)

-- `validate_challenge` returns a message exactly when it is a dict of type "challenge" with a session
-- id and a nonce that is a text of 64 characters which `bytes.fromhex` reads, and returns it as it is.
pub validate_challenge_iff :
    (msg : Value) (d : Dict) → (validate_challenge msg ≡ ok d) ↔ ((msg ≡ dict d) × IsChallenge d)
validate_challenge_iff msg d = (accepted, λ (e, v). rw e (IsChallenge-validate d v))
  where
    accepted : validate_challenge msg ≡ ok d → (msg ≡ dict d) × IsChallenge d
    accepted h = elim (dict-cases msg) [
      | inl (c, e) ↦
          let (same, v) = validate_challenge-dict c d (rw e at h) in (rw (e, same), rw same at v)
      | inr q ↦ absurd (unfold validate_challenge in ground arith)
    ]
