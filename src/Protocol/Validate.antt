-- ===== src/Protocol/Validate.antt =====
-- protocol.py: the validators. Each takes any value, since a frame may hold any JSON; what has no
-- method `get` raises an `AttributeError`.
pub mod Schemas
pub mod Pairings
pub mod Built
use phonect.Prelude.{
  ℕ, String, Bool, true, false, not, Option, none, some, length, ◌==◌, if◌then◌else◌,
}
use phonect.Python.{
  Value, null, bool, int, float, str, list, dict, Items, nil, item, Dict, empty, entry, get, has,
  is_text, protocol_error, wrong_type, missing, nonce_length, nonce_not_hex, signature_not_text,
  signature_not_hex, signature_length, attribute_error, type_error, Result, ok, raise, raise_if,
  ◌>>=◌, ◌>>◌,
}
use phonect.Bytes.{Bytes, codes, fromhex}
use phonect.Protocol.Messages.{msg_challenge, msg_response, msg_pair_hello, msg_pair_accept}

abbrev pub nonce_hex_length : ℕ
nonce_hex_length = 64

-- `msg.get`, the attribute
pub as_dict : Value → Result Dict
as_dict (dict d) = ok d
as_dict _ = raise attribute_error

-- `if msg.get("type") != expected: raise`
check_type : String → Dict → Result (Unit {0})
check_type expected d =
    raise_if (not (is_text (get "type" d) expected))
      (protocol_error (wrong_type expected (get "type" d)))

-- `if key not in msg: raise`
check_has : String → String → Dict → Result (Unit {0})
check_has key message d = raise_if (not (has key d)) (protocol_error (missing key message))

count_items : Items → ℕ
count_items nil = 0
count_items (item _ rest) = ℕ.suc (count_items rest)

count_entries : Dict → ℕ
count_entries empty = 0
count_entries (entry _ _ rest) = ℕ.suc (count_entries rest)

-- `len(value)`, which not every value has
len : Value → Result ℕ
unfolding count_items count_entries
len (str s) = ok (length (codes s))
len (list xs) = ok (count_items xs)
len (dict d) = ok (count_entries d)
len _ = raise type_error

-- `not isinstance(nonce, str) or len(nonce) != 64`, and the message computes `len` again
check_nonce_length : Value → Result (Unit {0})
unfolding len
check_nonce_length (str s) =
    raise_if (not (length (codes s) == nonce_hex_length))
      (protocol_error (nonce_length (length (codes s))))
check_nonce_length v = do n ← len v; raise (protocol_error (nonce_length n))

-- `bytes.fromhex(nonce)`, with the `ValueError` translated
check_nonce_hex : Value → Result (Unit {0})
check_nonce_hex (str s) = elim (fromhex s) [
  | none ↦ raise (protocol_error (nonce_not_hex s))
  | some _ ↦ ok tt
]
check_nonce_hex _ = raise type_error

check_nonce : Option Value → Result (Unit {0})
unfolding check_nonce_length check_nonce_hex
check_nonce none = raise (protocol_error (missing "nonce" "challenge"))
check_nonce (some nonce) = do check_nonce_length nonce; check_nonce_hex nonce

unfoldable pub validate_challenge : Value → Result Dict
unfolding as_dict check_type check_has check_nonce
validate_challenge msg = do
  d ← as_dict msg
  check_type msg_challenge d
  check_has "nonce" "challenge" d
  check_has "session_id" "challenge" d
  check_nonce (get "nonce" d)
  ok d

-- a signature is the text of 512 bytes
check_signature : Option Value → Result (Unit {0})
check_signature (some (str s)) = elim (fromhex s) [
  | none ↦ raise (protocol_error (signature_not_hex s))
  | some bs ↦ raise_if (not (length bs == 512)) (protocol_error (signature_length (length bs)))
]
check_signature _ = raise (protocol_error signature_not_text)

unfoldable pub validate_response : Value → Result Dict
unfolding as_dict check_type check_has check_signature
validate_response msg = do
  d ← as_dict msg
  check_type msg_response d
  check_has "signature" "response" d
  check_has "session_id" "response" d
  check_has "public_key_fingerprint" "response" d
  check_signature (get "signature" d)
  ok d

unfoldable pub validate_pair_hello : Value → Result Dict
unfolding as_dict check_type check_has
validate_pair_hello msg = do
  d ← as_dict msg
  check_type msg_pair_hello d
  check_has "public_key_pem" "pair_hello" d
  check_has "public_key_fingerprint" "pair_hello" d
  check_has "session_id" "pair_hello" d
  ok d

unfoldable pub validate_pair_accept : Value → Result Dict
unfolding as_dict check_type check_has
validate_pair_accept msg = do
  d ← as_dict msg
  check_type msg_pair_accept d
  check_has "public_key_pem" "pair_accept" d
  check_has "public_key_fingerprint" "pair_accept" d
  check_has "session_id" "pair_accept" d
  ok d
