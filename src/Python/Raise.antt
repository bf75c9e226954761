-- ===== src/Python/Raise.antt =====
-- Exceptions, and code that returns or raises. `is_os_error` and `is_value_error` are the
-- subclass tests of `except OSError` and `except ValueError`.
use phonect.Prelude.{ℕ, String, Bool, true, false, Option}
use phonect.Python.Values.{Value}

-- The messages of `ProtocolError`, one constructor for each `raise`.
pub data ProtocolFault : Type 0 where
  wrong_type : String → Option Value → ProtocolFault
  missing : String → String → ProtocolFault
  nonce_length : ℕ → ProtocolFault
  nonce_not_hex : String → ProtocolFault
  signature_not_text : ProtocolFault
  signature_not_hex : String → ProtocolFault
  signature_length : ℕ → ProtocolFault
  not_a_dict : Value → ProtocolFault

-- The messages of `ProtocolSecurityError`.
pub data SecurityFault : Type 0 where
  payload_too_long : ℕ → SecurityFault
  declared_length : ℕ → SecurityFault
  invalid_json : SecurityFault
  not_an_object : SecurityFault

pub data Exception : Type 0 where
  protocol_error : ProtocolFault → Exception
  protocol_security_error : SecurityFault → Exception
  json_decode_error unicode_decode_error value_error : Exception
  attribute_error not_implemented_error type_error key_error struct_error runtime_error : Exception
  timeout_error connection_error connection_refused file_not_found os_error : Exception
  incomplete_read_error timeout_expired invalid_signature other_error : Exception

abbrev pub is_os_error : Exception → Bool
is_os_error timeout_error = true
is_os_error connection_error = true
is_os_error connection_refused = true
is_os_error file_not_found = true
is_os_error os_error = true
is_os_error _ = false

abbrev pub is_value_error : Exception → Bool
is_value_error json_decode_error = true
is_value_error unicode_decode_error = true
is_value_error value_error = true
is_value_error _ = false

pub data Result {ℓ} (A : Type ℓ) : Type ℓ where
  ok : A → Result A
  raise : Exception → Result A

infixl 5 ◌>>=◌ ◌>>◌
module _ {ℓ κ} {T : Type ℓ} {U : Type κ} where
  -- go on with the value, or hand the exception on
  abbrev pub ◌>>=◌ : Result T → (T → Result U) → Result U
  ◌>>=◌ (ok value) next = next value
  ◌>>=◌ (raise e) next = raise e

module _ {κ} {U : Type κ} where
  abbrev pub ◌>>◌ : Result (Unit {0}) → Result U → Result U
  ◌>>◌ first next = first >>= λ _. next

-- `if test: raise e`
abbrev pub raise_if : Bool → Exception → Result (Unit {0})
raise_if true e = raise e
raise_if false e = ok tt
