-- ===== src/Crypto.antt =====
-- crypto.py: keys, nonces and signatures over the package `cryptography`, which is a parameter.
pub mod Laws
use phonect.Prelude.{ℕ, ◌≡◌, String, Bool, true, false, Option, none, some, List, length}
use phonect.Python.{Exception, invalid_signature, Result, ok, raise, ◌>>=◌}
use phonect.Bytes.{Bytes, hex, IsBytes, utf8}

abbrev pub nonce_bytes : ℕ
nonce_bytes = 32

-- The operations of the package that the program calls. RSA PSS signing draws a salt, which is the
-- argument `salt`; `verify` returns or raises, `InvalidSignature` among others.
pub record Cryptography : Type 1 where
  pub PublicKey : Type 0
  pub PrivateKey : Type 0
  pub public_key : PrivateKey → PublicKey
  pub sign : PrivateKey → Bytes → Bytes → Bytes
  pub verify : PublicKey → Bytes → Bytes → Result (Unit {0})
  pub sha256 : Bytes → Bytes
  pub public_der : PublicKey → Bytes
  pub public_pem : PublicKey → Bytes
  -- the PEM as text, `public_bytes(…).decode()`
  pub public_pem_text : PublicKey → String
  pub private_pem : PrivateKey → Bytes
  pub load_pem_public_key : Bytes → Result PublicKey
  pub load_pem_private_key : Bytes → Result PrivateKey

-- What the program relies on: a signature by a key of 4096 bits has 512 bytes and is verified under
-- the key's public half, whatever the salt; a digest has 32 bytes; PEM texts are read back, also when
-- decoded and encoded again.
pub record IsLawful (c : Cryptography) : Type 0 where
  pub verify-sign :
      (k : c.PrivateKey) (salt nonce : Bytes)
      → c.verify (c.public_key k) (c.sign k salt nonce) nonce ≡ ok tt
  pub length-sign : (k : c.PrivateKey) (salt nonce : Bytes) → length (c.sign k salt nonce) ≡ 512
  pub sign-IsBytes : (k : c.PrivateKey) (salt nonce : Bytes) → IsBytes (c.sign k salt nonce)
  pub length-sha256 : (b : Bytes) → length (c.sha256 b) ≡ 32
  pub load-public_pem : (k : c.PublicKey) → c.load_pem_public_key (c.public_pem k) ≡ ok k
  pub utf8-public_pem_text : (k : c.PublicKey) → utf8 (c.public_pem_text k) ≡ c.public_pem k
  pub load-private_pem : (k : c.PrivateKey) → c.load_pem_private_key (c.private_pem k) ≡ ok k

pub record KeyPair : Type 0 where
  pub private_key_pem : Bytes
  pub public_key_pem : Bytes
  pub public_key_fingerprint : String

-- `except InvalidSignature: return False`; any other exception passes through
verified : Result (Unit {0}) → Result Bool
verified (ok _) = ok true
verified (raise invalid_signature) = ok false
verified (raise e) = raise e

module _ (c : Cryptography) where
  open c use {
    PublicKey, PrivateKey, public_key, sign, verify, sha256, public_der, public_pem, private_pem,
    load_pem_public_key, load_pem_private_key,
  }

  abbrev pub load_public_key : Bytes → Result PublicKey
  load_public_key pem_data = load_pem_public_key pem_data

  abbrev pub load_private_key : Bytes → Result PrivateKey
  load_private_key pem_data = load_pem_private_key pem_data

  abbrev pub sign_nonce : PrivateKey → Bytes → Bytes → Bytes
  sign_nonce private_key salt nonce = sign private_key salt nonce

  unfoldable pub verify_nonce : PublicKey → Bytes → Bytes → Result Bool
  unfolding verified
  verify_nonce key nonce signature = verified (verify key signature nonce)

  unfoldable pub fingerprint_from_public_key : PublicKey → String
  fingerprint_from_public_key key = hex (sha256 (public_der key))

  abbrev pub public_key_to_pem : PublicKey → Bytes
  public_key_to_pem key = public_pem key

  abbrev pub private_key_to_pem : PrivateKey → Bytes
  private_key_to_pem key = private_pem key

  -- `drawn` is the key that `rsa.generate_private_key` gives.
  unfoldable pub generate_key_pair : PrivateKey → KeyPair
  generate_key_pair drawn = record {
    private_key_pem = private_pem drawn;
    public_key_pem = public_pem (public_key drawn);
    public_key_fingerprint = hex (sha256 (public_der (public_key drawn)));
  }

  -- The properties of `KeyPair` that load its keys.
  abbrev pub pair_private_key : KeyPair → Result PrivateKey
  pair_private_key kp = load_pem_private_key kp.private_key_pem

  abbrev pub pair_public_key : KeyPair → Result PublicKey
  pair_public_key kp = load_pem_public_key kp.public_key_pem
