-- ===== src/Protocol/Frame/Decode.antt =====
-- `encode_frame` and `decode_frame` taken apart: the four bytes of the header and what follows them.
use phonect.Prelude.{
  ℕ, suc, ◌+◌, ◌<◌, ◌≤◌, ◌≡◌, refl, Bool, ◌||◌, Option, none, [], ◌∷◌, length, take, arith, ltb,
  leb, Bool-cases, inl, inr, if◌then◌else◌, le→not-ltb, lt→ltb,
}
use phonect.Python.{
  Dict, protocol_security_error, declared_length, Result, ok, raise_if, ◌>>=◌, ◌>>◌,
}
use phonect.Bytes.{Bytes, unpack_word}
use phonect.Bytes.Word.{word, pack_word-IsBytes}
use phonect.Protocol.Frame.{
  max_frame_size, Json, encode_frame, decode_frame, wrap_json, require_object,
}

-- a declared length that `decode_frame` refuses
abbrev pub is_bad_length : ℕ → Bool
is_bad_length n = leb n 0 || ltb max_frame_size n

-- What `decode_frame` does behind the four bytes of the header.
unfoldable pub decode_body : Json → ℕ → Bytes → Result (Option Dict)
unfolding wrap_json require_object
decode_body json n body = do
  raise_if (is_bad_length n) (protocol_security_error (declared_length n))
  if ltb (length body) n
      then ok none
      else (do payload ← wrap_json (json.loads (take n body)); require_object payload)

ltb-shift : (m n : ℕ) → ltb (suc (suc (suc (suc m)))) (4 + n) ≡ ltb m n
ltb-shift m n = ground arith

pub decode_frame-header :
    (json : Json) (a b c d : ℕ) (body : Bytes)
    → decode_frame json (a ∷ b ∷ c ∷ d ∷ body) ≡ decode_body json (word a b c d) body
unfolding decode_frame decode_body unpack_word
decode_frame-header json a b c d body =
    rw (le→not-ltb (suc (suc (suc (suc (length body))))) 4 (omega arith)) (rw ltb-shift)

-- A list of four or more has four first items.
pub four_first :
    (h : Bytes) → 4 ≤ length h → (a b c d : ℕ) × (body : Bytes) × (h ≡ a ∷ b ∷ c ∷ d ∷ body)
four_first [] l = absurd (omega arith)
four_first (a ∷ []) l = absurd (omega arith)
four_first (a ∷ b ∷ []) l = absurd (omega arith)
four_first (a ∷ b ∷ c ∷ []) l = absurd (omega arith)
four_first (a ∷ b ∷ c ∷ d ∷ body) l = (a, b, c, d, body, refl)

pub decode_frame_short :
    (json : Json) (buffer : Bytes) → length buffer < 4 → decode_frame json buffer ≡ ok none
unfolding decode_frame
decode_frame_short json buffer h = rw (lt→ltb _ _ h)

-- the parts of an encoded frame
pub encode_frame-parts :
    (json : Json) (payload : Dict) (frame : Bytes)
    → encode_frame json payload ≡ ok frame
    → (a b c d : ℕ) × (frame ≡ a ∷ b ∷ c ∷ d ∷ json.dumps payload)
      × (word a b c d ≡ length (json.dumps payload))
      × (length (json.dumps payload) ≤ max_frame_size)
unfolding encode_frame
encode_frame-parts json payload frame h =
    elim (Bool-cases (ltb max_frame_size (length (json.dumps payload)))) [
      | inl long ↦ absurd (ground arith)
      | inr fits ↦
          let (a, b, c, d, packed, joined, _) =
            pack_word-IsBytes (length (json.dumps payload)) (ground arith) in
          (a, b, c, d, ground arith, joined, ground arith)
    ]
