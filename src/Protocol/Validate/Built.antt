-- ===== src/Protocol/Validate/Built.antt =====
-- protocol.py: the validators on what the builders write, and on unusual nonces.
use phonect.Prelude.{
  ◌+◌, ◌*◌, ◌<◌, String, ◌≡◌, refl, Bool, true, false, Option, none, some, length, arith, eq_refl,
  ◌∙◌,
}
use phonect.Python.{Value, null, bool, int, float, str, dict, Dict, get, has, type_error, ok, raise}
use phonect.Bytes.{Bytes, IsBytes, codes, fromhex, hex}
use phonect.Bytes.Hex.{spaces, fromhex-hex, length-hex, length-fromhex_codes}
use phonect.Protocol.Messages.{msg_challenge, make_challenge, make_response}
use phonect.Protocol.Validate.{validate_challenge, validate_response}
use phonect.Protocol.Validate.Schemas.{validate_challenge_iff, validate_response_iff}

make_challenge-fields :
    (fresh : String) (nonce : Bytes) (session pc_fp : Option String) (pc_sig : Option Bytes)
    → let msg = make_challenge fresh nonce session pc_fp pc_sig in
      (get "type" msg ≡ some (str msg_challenge))
      × (get "nonce" msg ≡ some (str (hex nonce)))
      × (has "session_id" msg ≡ true)
unfolding make_challenge
make_challenge-fields fresh nonce session none none = (refl, refl, refl)
make_challenge-fields fresh nonce session none (some _) = (refl, refl, refl)
make_challenge-fields fresh nonce session (some _) none = (refl, refl, refl)
make_challenge-fields fresh nonce session (some _) (some _) = (refl, refl, refl)

-- A challenge built around a nonce of 32 bytes is accepted, with or without the fields of mutual
-- authentication, and the nonce field reads back as that nonce.
pub validate_challenge-make_challenge :
    (fresh : String) (nonce : Bytes) (session pc_fp : Option String) (pc_sig : Option Bytes)
    → IsBytes nonce
    → length nonce ≡ 32
    → let msg = make_challenge fresh nonce session pc_fp pc_sig in
      (validate_challenge (dict msg) ≡ ok msg)
      × (get "nonce" msg ≡ some (str (hex nonce)))
      × (fromhex (hex nonce) ≡ some nonce)
validate_challenge-make_challenge fresh nonce session pc_fp pc_sig bytes size =
    let (kind, at, id) = make_challenge-fields fresh nonce session pc_fp pc_sig in
    let text : length (codes (hex nonce)) ≡ 64 = omega (arith, length-hex nonce) in
    let read = fromhex-hex nonce bytes in
    (
      (validate_challenge_iff _ _).1 (
        refl,
        record { kind = kind; nonce = (hex nonce, nonce, at, text, read); session_id = id },
      ),
      at,
      read,
    )

-- A response built around a signature of 512 bytes is accepted.
pub validate_response-make_response :
    (session : Value) (signature : Bytes) (fp name : String)
    → IsBytes signature
    → length signature ≡ 512
    → let msg = make_response session signature fp name in validate_response (dict msg) ≡ ok msg
unfolding make_response
validate_response-make_response session signature fp name bytes size =
    (validate_response_iff _ _).1 (
      refl,
      record {
        kind = refl;
        signature = (hex signature, signature, refl, fromhex-hex signature bytes, size);
        session_id = refl;
        fingerprint = refl;
      },
    )

-- The nonce of an accepted challenge is a text of 64 characters, and its whitespace takes the place
-- of digits: twice the number of its bytes and the number of its whitespace characters add up to 64.
pub validate_challenge_nonce :
    (msg : Value) (d : Dict)
    → validate_challenge msg ≡ ok d
    → (s : String) × (bs : Bytes) × (get "nonce" d ≡ some (str s))
      × (fromhex s ≡ some bs)
      × (2 * length bs + spaces (codes s) ≡ 64)
validate_challenge_nonce msg d accepted =
    let (s, bs, at, size, read) = ((validate_challenge_iff msg d).0 accepted).1.nonce in
    (s, bs, at, read, length-fromhex_codes (codes s) bs read ∙ size)

-- A challenge whose nonce is 64 characters of which some are whitespace that `bytes.fromhex` skips is
-- accepted with a nonce of fewer than 32 bytes.
pub validate_challenge_short_nonce :
    (d : Dict) (s : String) (bs : Bytes)
    → get "type" d ≡ some (str msg_challenge)
    → has "session_id" d ≡ true
    → get "nonce" d ≡ some (str s)
    → length (codes s) ≡ 64
    → fromhex s ≡ some bs
    → 0 < spaces (codes s)
    → (validate_challenge (dict d) ≡ ok d) × (length bs < 32)
validate_challenge_short_nonce d s bs kind session at size read blank = (
  (validate_challenge_iff _ _).1
      (refl, record { kind = kind; nonce = (s, bs, at, size, read); session_id = session }),
  omega (arith, length-fromhex_codes (codes s) bs read),
)

-- A value that has no length.
abbrev pub is_unsized : Value → Bool
is_unsized null = true
is_unsized (bool _) = true
is_unsized (int _) = true
is_unsized (float _) = true
is_unsized _ = false

-- For a challenge whose nonce is null, a truth value or a number, `validate_challenge` raises a
-- `TypeError`, and no `ProtocolError`.
pub validate_challenge_type_error :
    (d : Dict) (v : Value)
    → get "type" d ≡ some (str msg_challenge)
    → has "session_id" d ≡ true
    → get "nonce" d ≡ some v
    → is_unsized v ≡ true
    → validate_challenge (dict d) ≡ raise type_error
unfolding validate_challenge
validate_challenge_type_error d null kind session at u = ground (arith, eq_refl msg_challenge)
validate_challenge_type_error d v kind session at u = ground (arith, eq_refl msg_challenge)
