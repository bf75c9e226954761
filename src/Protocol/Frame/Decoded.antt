-- ===== src/Protocol/Frame/Decoded.antt =====
-- protocol.py: every way in which `decode_frame` ends.
use phonect.Prelude.{
  ◌∙◌, ℕ, ◌<◌, ◌≤◌, ◌≡◌, ◌≢◌, refl, ap, sym, Option, none, some, ◌∷◌, ◌++◌, length, take, drop,
  length-take, take-append-drop, arith, ltb, ltb→lt, Bool-cases, inl, inr, ◌⊎◌,
}
use phonect.Python.{
  Value, null, bool, int, float, str, list, dict, Dict, Exception, json_decode_error,
  protocol_security_error, declared_length, invalid_json, not_an_object, Result, ok, raise, ◌>>=◌,
}
use phonect.Bytes.{Bytes}
use phonect.Bytes.Word.{word}
use phonect.Protocol.Frame.{max_frame_size, Json, decode_frame, wrap_json, require_object}
use phonect.Protocol.Frame.Decode.{
  is_bad_length, decode_body, decode_frame-header, four_first, decode_frame_short,
}

-- The buffer begins with four bytes that declare the length of a text, and with this text.
pub record IsWhole (buffer text : Bytes) : Type 0 where
  pub rest : Bytes
  pub a : ℕ
  pub b : ℕ
  pub c : ℕ
  pub d : ℕ
  pub placed : buffer ≡ a ∷ b ∷ c ∷ d ∷ (text ++ rest)
  pub declared : word a b c d ≡ length text
  pub not_empty : 0 < length text
  pub fits : length text ≤ max_frame_size

-- What the end of `json.loads` makes of the text of a whole frame.
pub data Parsed (p : Result Value) (q : Result (Option Dict)) : Type 0 where
  object : (d : Dict) → p ≡ ok (dict d) → q ≡ ok (some d) → Parsed p q
  no_object :
      (v : Value)
      → p ≡ ok v
      → ((d : Dict) → v ≢ dict d)
      → q ≡ raise (protocol_security_error not_an_object)
      → Parsed p q
  no_json :
      p ≡ raise json_decode_error → q ≡ raise (protocol_security_error invalid_json) → Parsed p q
  -- any other exception, that of a text which is no UTF-8 among them, is not translated
  passed_on : (e : Exception) → p ≡ raise e → e ≢ json_decode_error → q ≡ raise e → Parsed p q

-- The ways in which the decoding of a buffer ends with `q`.
pub data Decoded (json : Json) (buffer : Bytes) (q : Result (Option Dict)) : Type 0 where
  no_header : length buffer < 4 → q ≡ ok none → Decoded json buffer q
  bad_length :
      (a b c d : ℕ) (body : Bytes)
      → buffer ≡ a ∷ b ∷ c ∷ d ∷ body
      → (word a b c d ≡ 0) ⊎ (max_frame_size < word a b c d)
      → q ≡ raise (protocol_security_error (declared_length (word a b c d)))
      → Decoded json buffer q
  incomplete :
      (a b c d : ℕ) (body : Bytes)
      → buffer ≡ a ∷ b ∷ c ∷ d ∷ body
      → word a b c d ≤ max_frame_size
      → length body < word a b c d
      → q ≡ ok none
      → Decoded json buffer q
  whole : (text : Bytes) → IsWhole buffer text → Parsed (json.loads text) q → Decoded json buffer q

require-Parsed : (p : Result Value) → Parsed p (wrap_json p >>= require_object)
unfolding wrap_json require_object
require-Parsed (ok (dict d)) = object d refl refl
require-Parsed (ok null) = no_object null refl (λ d e. cc) refl
require-Parsed (ok (bool b)) = no_object (bool b) refl (λ d e. cc) refl
require-Parsed (ok (int n)) = no_object (int n) refl (λ d e. cc) refl
require-Parsed (ok (float t)) = no_object (float t) refl (λ d e. cc) refl
require-Parsed (ok (str s)) = no_object (str s) refl (λ d e. cc) refl
require-Parsed (ok (list xs)) = no_object (list xs) refl (λ d e. cc) refl
require-Parsed (raise json_decode_error) = no_json refl refl
require-Parsed (raise e) = passed_on e refl (λ same. cc) refl

module _ (json : Json) where
  decode_body-Decoded :
      (a b c d : ℕ) (body : Bytes)
      → Decoded json (a ∷ b ∷ c ∷ d ∷ body) (decode_body json (word a b c d) body)
  unfolding decode_body
  decode_body-Decoded a b c d body =
      let n : ℕ = word a b c d in
      elim (Bool-cases (is_bad_length n)) [
        | inl bad ↦ bad_length a b c d body refl (ground arith) (ground arith)
        | inr good ↦ elim (Bool-cases (ltb (length body) n)) [
          | inl short ↦
              incomplete a b c d body refl (ground arith) (ltb→lt (length body) n short)
                (rw (good, short) refl)
          | inr enough ↦
              let size : length (take n body) ≡ n = ground (arith, length-take n body) in
              rw (good, enough)
                (whole (take n body)
                  (record {
                    rest = drop n body;
                    a = a;
                    b = b;
                    c = c;
                    d = d;
                    placed = ap (λ (l : Bytes). a ∷ b ∷ c ∷ d ∷ l) (sym (take-append-drop n body));
                    declared = sym size;
                    not_empty = ground (arith, size);
                    fits = ground (arith, size);
                  })
                  (require-Parsed (json.loads (take n body))))
        ]
      ]

  -- Of any buffer: where less than four bytes are there, or less than they declare, `decode_frame` says
  -- that the frame is not complete; it refuses a declared length of 0 or of more than 65536; and of a
  -- whole frame it returns the object that its text is read as, refuses other JSON and text that is no
  -- JSON, and lets any other exception of `json.loads` pass.
  pub decode_frame-Decoded : (buffer : Bytes) → Decoded json buffer (decode_frame json buffer)
  decode_frame-Decoded buffer = elim (Bool-cases (ltb (length buffer) 4)) [
    | inl short ↦
        no_header (ltb→lt (length buffer) 4 short)
          (decode_frame_short json buffer (ltb→lt (length buffer) 4 short))
    | inr long ↦
        let (a, b, c, d, body, cut) = four_first buffer (ground arith) in
        rw (cut, decode_frame-header json a b c d body) (decode_body-Decoded a b c d body)
  ]

  -- A message is what the text of a whole frame is read as.
  pub decode_frame-eq-message :
      (buffer : Bytes) (d : Dict)
      → decode_frame json buffer ≡ ok (some d)
      → (text : Bytes) × IsWhole buffer text × (json.loads text ≡ ok (dict d))
  decode_frame-eq-message buffer d h =
      by_way (decode_frame json buffer) (decode_frame-Decoded buffer) h
    where
      by_way :
          (q : Result (Option Dict))
          → Decoded json buffer q
          → q ≡ ok (some d)
          → (text : Bytes) × IsWhole buffer text × (json.loads text ≡ ok (dict d))
      by_way q (no_header _ e) is_some = cc
      by_way q (bad_length _ _ _ _ _ _ _ e) is_some = cc
      by_way q (incomplete _ _ _ _ _ _ _ _ e) is_some = cc
      by_way q (whole text frame (object d' parsed e)) is_some =
          let same : d' ≡ d = ground arith in (text, frame, parsed ∙ ap (λ x. ok (dict x)) same)
      by_way q (whole text frame (no_object _ _ _ e)) is_some = cc
      by_way q (whole text frame (no_json _ e)) is_some = cc
      by_way q (whole text frame (passed_on _ _ _ e)) is_some = cc
