-- ===== src/Protocol/Validate/Pairings.antt =====
-- protocol.py: the schemas of the two messages of a pairing, against the validators.
use phonect.Prelude.{String, ◌≡◌, ◌↔◌, inl, inr, true, some, arith, eq_refl}
use phonect.Python.{Value, str, dict, Dict, get, has, ok}
use phonect.Protocol.Messages.{msg_pair_hello, msg_pair_accept}
use phonect.Protocol.Validate.{validate_pair_hello, validate_pair_accept}
use phonect.Protocol.Validate.Schemas.{is_text-eq-true, dict-cases}

-- What a message of the pairing must hold: its type and three keys.
pub record IsPairing (kind : String) (d : Dict) : Type 0 where
  pub type : get "type" d ≡ some (str kind)
  pub public_key_pem : has "public_key_pem" d ≡ true
  pub public_key_fingerprint : has "public_key_fingerprint" d ≡ true
  pub session_id : has "session_id" d ≡ true

validate_pair_hello-dict :
    (d e : Dict) → validate_pair_hello (dict d) ≡ ok e → (d ≡ e) × IsPairing msg_pair_hello d
unfolding validate_pair_hello
validate_pair_hello-dict d e h = (
  ground arith,
  record {
    type = is_text-eq-true (get "type" d) msg_pair_hello (ground arith);
    public_key_pem = ground arith;
    public_key_fingerprint = ground arith;
    session_id = ground arith;
  },
)

-- `validate_pair_hello` returns a message exactly when it is a dict of type "pair_hello" with a
-- public key, a fingerprint and a session id, and returns it as it is.
pub validate_pair_hello_iff :
    (msg : Value) (d : Dict)
    → (validate_pair_hello msg ≡ ok d) ↔ ((msg ≡ dict d) × IsPairing msg_pair_hello d)
validate_pair_hello_iff msg d = (
  accepted,
  λ (e, v). rw e (unfold validate_pair_hello in ground (arith, eq_refl msg_pair_hello)),
)
  where
    accepted : validate_pair_hello msg ≡ ok d → (msg ≡ dict d) × IsPairing msg_pair_hello d
    accepted h = elim (dict-cases msg) [
      | inl (c, e) ↦
          let (same, v) = validate_pair_hello-dict c d (rw e at h) in (rw (e, same), rw same at v)
      | inr q ↦ absurd (unfold validate_pair_hello in ground arith)
    ]

validate_pair_accept-dict :
    (d e : Dict) → validate_pair_accept (dict d) ≡ ok e → (d ≡ e) × IsPairing msg_pair_accept d
unfolding validate_pair_accept
validate_pair_accept-dict d e h = (
  ground arith,
  record {
    type = is_text-eq-true (get "type" d) msg_pair_accept (ground arith);
    public_key_pem = ground arith;
    public_key_fingerprint = ground arith;
    session_id = ground arith;
  },
)

-- `validate_pair_accept` returns a message exactly when it is a dict of type "pair_accept" with a
-- public key, a fingerprint and a session id, and returns it as it is.
pub validate_pair_accept_iff :
    (msg : Value) (d : Dict)
    → (validate_pair_accept msg ≡ ok d) ↔ ((msg ≡ dict d) × IsPairing msg_pair_accept d)
validate_pair_accept_iff msg d = (
  accepted,
  λ (e, v). rw e (unfold validate_pair_accept in ground (arith, eq_refl msg_pair_accept)),
)
  where
    accepted : validate_pair_accept msg ≡ ok d → (msg ≡ dict d) × IsPairing msg_pair_accept d
    accepted h = elim (dict-cases msg) [
      | inl (c, e) ↦
          let (same, v) = validate_pair_accept-dict c d (rw e at h) in (rw (e, same), rw same at v)
      | inr q ↦ absurd (unfold validate_pair_accept in ground arith)
    ]
