-- ===== src/Protocol/Frame.antt =====
-- protocol.py: `encode_frame` and `decode_frame`. A frame is a four-byte length and a JSON text.
-- The proofs are in the children.
pub mod Decode
pub mod Laws
pub mod Decoded
use phonect.Prelude.{
  ℕ, ◌+◌, Bool, ◌||◌, Option, none, some, List, [], ◌∷◌, ◌++◌, length, take, drop, ltb, leb, ◌==◌,
  if◌then◌else◌,
}
use phonect.Python.{
  Value, null, bool, int, float, str, list, dict, Dict, Exception, json_decode_error,
  protocol_security_error, payload_too_long, declared_length, invalid_json, not_an_object, Result,
  ok, raise, raise_if, ◌>>=◌, ◌>>◌,
}
use phonect.Bytes.{Bytes, pack_word, unpack_word}

abbrev pub max_frame_size : ℕ
max_frame_size = 65_536

abbrev pub frame_header_size : ℕ
frame_header_size = 4

-- Python's module `json`: `dumps d` is `json.dumps(d, separators=(",", ":")).encode("utf-8")`, and
-- `loads` is `json.loads` of a byte string, and `loads_utf8 b` is `json.loads(b.decode("utf-8"))`.
pub record Json : Type 0 where
  pub dumps : Dict → Bytes
  pub loads : Bytes → Result Value
  pub loads_utf8 : Bytes → Result Value

unfoldable pub encode_frame : Json → Dict → Result Bytes
encode_frame json payload = do
  let text = json.dumps payload
  raise_if (ltb max_frame_size (length text))
      (protocol_security_error (payload_too_long (length text)))
  header ← pack_word (length text)
  ok (header ++ text)

-- `except json.JSONDecodeError`: any other exception of `json.loads` passes through
unfoldable pub wrap_json : Result Value → Result Value
wrap_json (raise json_decode_error) = raise (protocol_security_error invalid_json)
wrap_json r = r

-- `isinstance(payload, dict)`
unfoldable pub require_object : Value → Result (Option Dict)
require_object (dict d) = ok (some d)
require_object _ = raise (protocol_security_error not_an_object)

-- the payload of a buffer that holds the whole frame
pub decode_payload : Json → Bytes → ℕ → Result (Option Dict)
unfolding wrap_json require_object
decode_payload json buffer n = do
  payload ← wrap_json (json.loads (take n (drop frame_header_size buffer)))
  require_object payload

-- `none` where the buffer holds no complete frame yet
unfoldable pub decode_frame : Json → Bytes → Result (Option Dict)
unfolding decode_payload
decode_frame json buffer = if ltb (length buffer) frame_header_size then ok none else do
  payload_len ← unpack_word (take frame_header_size buffer)
  raise_if (leb payload_len 0 || ltb max_frame_size payload_len)
      (protocol_security_error (declared_length payload_len))
  if ltb (length buffer) (frame_header_size + payload_len)
      then ok none
      else decode_payload json buffer payload_len
