-- ===== src/Crypto/Laws.antt =====
-- crypto.py: signing and verifying, and the two halves of a generated pair.
use phonect.Prelude.{◌≡◌, refl, length, true, arith}
use phonect.Python.{ok}
use phonect.Bytes.{Bytes, codes}
use phonect.Bytes.Hex.{length-hex}
use phonect.Crypto.{
  Cryptography, IsLawful, verify_nonce, sign_nonce, fingerprint_from_public_key, generate_key_pair,
  pair_private_key, pair_public_key,
}

-- A signature that `verify_nonce` accepts is one that `verify` lets pass.
pub verify_nonce-eq-true :
    (c : Cryptography) (key : c.PublicKey) (nonce signature : Bytes)
    → verify_nonce c key nonce signature ≡ ok true
    → c.verify key signature nonce ≡ ok tt
unfolding verify_nonce
verify_nonce-eq-true c key nonce signature h = ground arith

module _ (c : Cryptography) (L : IsLawful c) where
  -- What a key signs is verified under its public half, whatever the salt.
  pub verify_nonce-sign_nonce :
      (k : c.PrivateKey) (salt nonce : Bytes)
      → verify_nonce c (c.public_key k) nonce (sign_nonce c k salt nonce) ≡ ok true
  unfolding verify_nonce
  verify_nonce-sign_nonce k salt nonce = rw L.verify-sign

  -- The two PEM texts of a generated pair load as the drawn key and its public half; the fingerprint
  -- has 64 characters and is the one that `fingerprint_from_public_key` computes from the loaded key;
  -- and what the loaded private key signs is verified under the loaded public key.
  pub generate_key_pair_lem :
      (drawn : c.PrivateKey) (salt nonce : Bytes)
      → let kp = generate_key_pair c drawn in
        (pair_private_key c kp ≡ ok drawn)
        × (pair_public_key c kp ≡ ok (c.public_key drawn))
        × (kp.public_key_fingerprint ≡ fingerprint_from_public_key c (c.public_key drawn))
        × (length (codes kp.public_key_fingerprint) ≡ 64)
        × (verify_nonce c (c.public_key drawn) nonce (sign_nonce c drawn salt nonce) ≡ ok true)
  unfolding generate_key_pair fingerprint_from_public_key
  generate_key_pair_lem drawn salt nonce = (
    L.load-private_pem drawn,
    L.load-public_pem (c.public_key drawn),
    refl,
    omega (
      arith,
      length-hex (c.sha256 (c.public_der (c.public_key drawn))),
      L.length-sha256 (c.public_der (c.public_key drawn)),
    ),
    verify_nonce-sign_nonce drawn salt nonce,
  )
