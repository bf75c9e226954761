-- ===== src/Tests/Setup.antt =====
-- A toy of the packages that are parameters, and a phone and a computer that use it.
use phonect.Prelude.{
  ℕ, zero, suc, String, Bool, true, false, Option, none, some, [], ◌∷◌, length, ◌≡◌, ◌<◌, refl,
  arith, ◌==◌, str_eq, if◌then◌else◌,
}
use phonect.Python.{
  pos, Value, str, dict, Dict, get, json_decode_error, value_error, invalid_signature,
  ProtocolFault, Result, ok, raise,
}
use phonect.Bytes.{Bytes, IsBytes, utf8}
use phonect.Protocol.Frame.{Json}
use phonect.Protocol.Messages.{make_response, make_pair_hello}
use phonect.Crypto.{Cryptography, IsLawful, sign_nonce, fingerprint_from_public_key}
use phonect.Handshake.{Conn}
use phonect.Handshake.Server.{Drawn, HandshakeServer, server_challenge}
use phonect.Handshake.Client.{HandshakeClient, Gate}

abbrev pub repeat : ℕ → ℕ → Bytes
repeat zero b = []
repeat (suc n) b = b ∷ repeat n b

pub length-repeat : (n b : ℕ) → length (repeat n b) ≡ n
length-repeat zero b = refl
length-repeat (suc n) b = omega (arith, length-repeat n b)

pub repeat-IsBytes : (n b : ℕ) → b < 256 → IsBytes (repeat n b)
repeat-IsBytes zero b h = tt
repeat-IsBytes (suc n) b h = (h, repeat-IsBytes n b h)

-- two keys, whose signatures begin with 1 and with 2
abbrev pub tag : Bool → ℕ
tag true = 1
tag false = 2

abbrev pub toy_verify : Bool → Bytes → Bytes → Result (Unit {0})
toy_verify key [] nonce = raise invalid_signature
toy_verify key (b ∷ bs) nonce = if b == tag key then ok tt else raise invalid_signature

abbrev pub toy_digest : Bytes → Bytes
toy_digest [] = repeat 32 0
toy_digest (b ∷ bs) = if b == 1 then repeat 32 1 else repeat 32 2

abbrev pub toy_pem : Bool → String
toy_pem true = "T"
toy_pem false = "F"

abbrev pub first : Bytes → ℕ
first [] = 0
first (b ∷ bs) = b

abbrev pub toy_load : Bytes → Result Bool
toy_load b =
    if first b == 84 then ok true else (if first b == 70 then ok false else raise value_error)

abbrev pub toy_crypto : Cryptography
toy_crypto = record {
  PublicKey = Bool;
  PrivateKey = Bool;
  public_key = λ k. k;
  sign = λ k salt nonce. tag k ∷ repeat 511 7;
  verify = toy_verify;
  sha256 = toy_digest;
  public_der = λ k. tag k ∷ [];
  public_pem = λ k. utf8 (toy_pem k);
  public_pem_text = toy_pem;
  private_pem = λ k. utf8 (toy_pem k);
  load_pem_public_key = toy_load;
  load_pem_private_key = toy_load;
}

verify-toy : (k : Bool) (nonce : Bytes) → toy_verify k (tag k ∷ repeat 511 7) nonce ≡ ok tt
verify-toy true nonce = refl
verify-toy false nonce = refl

digest-toy : (b : Bytes) → length (toy_digest b) ≡ 32
digest-toy [] = refl
digest-toy (b ∷ bs) = ground arith

load-toy : (k : Bool) → toy_load (utf8 (toy_pem k)) ≡ ok k
unfolding utf8
load-toy true = refl
load-toy false = refl

tag-byte : (k : Bool) → tag k < 256
tag-byte true = omega arith
tag-byte false = omega arith

pub toy_lawful : IsLawful toy_crypto
toy_lawful = record {
  verify-sign = λ k salt nonce. verify-toy k nonce;
  length-sign = λ k salt nonce. omega (arith, length-repeat 511 7);
  sign-IsBytes = λ k salt nonce. (tag-byte k, repeat-IsBytes 511 7 (omega arith));
  length-sha256 = digest-toy;
  load-public_pem = load-toy;
  utf8-public_pem_text = λ k. refl;
  load-private_pem = load-toy;
}

abbrev pub drawn : Drawn
drawn = record { nonce = repeat 32 5; uuid = "s1"; salt = [] }

abbrev pub server : HandshakeServer toy_crypto
server = record {
  trusted_key = true;
  pc_private_key = some false;
  listen_host = "0.0.0.0";
  listen_port = pos 0;
  timeout = "30.0";
  sock = some (pos 4000);
}

abbrev pub client : HandshakeClient toy_crypto
client = record {
  signing_key = true;
  fingerprint = fingerprint_from_public_key toy_crypto true;
  device_name = "pixel";
  connect_timeout = "10.0";
}

-- a gate that approves the nonce of `drawn`
abbrev pub starts_with_five : Bytes → Bool
starts_with_five [] = false
starts_with_five (b ∷ bs) = b == 5

abbrev pub gate : Gate
gate = some (λ nonce challenge. ok (starts_with_five nonce))

abbrev pub challenge_message : Dict
challenge_message = server_challenge toy_crypto server drawn

abbrev pub response_message : Dict
response_message =
    make_response (str "s1") (sign_nonce toy_crypto true [] drawn.nonce)
      (fingerprint_from_public_key toy_crypto true) "pixel"

abbrev pub hello_message : Dict
hello_message = make_pair_hello "h1" "T" (fingerprint_from_public_key toy_crypto true) "pixel" none

-- one byte for each message
abbrev pub toy_text : Option Value → Bytes
toy_text (some (str kind)) =
    if str_eq kind "challenge"
    then 67 ∷ []
    else (if str_eq kind "response" then 82 ∷ [] else 72 ∷ [])
toy_text _ = []

abbrev pub toy_loads : Bytes → Result Value
toy_loads b =
    if first b == 67
    then ok (dict challenge_message)
    else (if first b == 82
        then ok (dict response_message)
        else (if first b == 72 then ok (dict hello_message) else raise json_decode_error))

abbrev pub toy_json : Json
toy_json = record {
  dumps = λ d. toy_text (get "type" d);
  loads = toy_loads;
  loads_utf8 = toy_loads;
}

abbrev pub str_fault : ProtocolFault → String
str_fault fault = "fault"

abbrev pub challenge_frame : Bytes
challenge_frame = 0 ∷ 0 ∷ 0 ∷ 1 ∷ 67 ∷ []

abbrev pub response_frame : Bytes
response_frame = 0 ∷ 0 ∷ 0 ∷ 1 ∷ 82 ∷ []

-- connections on which nothing was sent yet, and no call fails
abbrev pub fresh_conn : Conn
fresh_conn = record { incoming = []; sends = []; sent = []; closed = false }
