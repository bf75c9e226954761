-- ===== src/Bytes/Word.antt =====
-- The four-byte big-endian word.
use phonect.Prelude.{ℕ, ◌^◌, ◌<◌, ◌*◌, ◌+◌, ◌/◌, ◌%◌, ◌≡◌, refl, ap, [], ◌∷◌, length, arith, lt→ltb}
use phonect.Python.{ok}
use phonect.Bytes.{Bytes, IsBytes, pack_word, unpack_word}

digits_join :
    (n : ℕ)
    → n < 2 ^ 32
    → ((n / 2 ^ 24 * 256 + n / 2 ^ 16 % 256) * 256 + n / 2 ^ 8 % 256) * 256 + n % 256 ≡ n
digits_join n h = omega arith

-- the number that four bytes stand for, the most significant first
abbrev pub word : ℕ → ℕ → ℕ → ℕ → ℕ
word a b c d = ((a * 256 + b) * 256 + c) * 256 + d

-- `pack_word` writes four bytes that stand for the number.
pub pack_word-IsBytes :
    (n : ℕ)
    → n < 2 ^ 32
    → (a b c d : ℕ) × (pack_word n ≡ ok (a ∷ b ∷ c ∷ d ∷ []))
      × (word a b c d ≡ n)
      × IsBytes (a ∷ b ∷ c ∷ d ∷ [])
unfolding pack_word
pack_word-IsBytes n h = (
  n / 2 ^ 24,
  n / 2 ^ 16 % 256,
  n / 2 ^ 8 % 256,
  n % 256,
  rw (lt→ltb n (2 ^ 32) h),
  digits_join n h,
  omega arith,
)

-- What `pack_word` writes has four bytes, and `unpack_word` reads it back.
pub unpack_word-pack_word :
    (n : ℕ)
    → n < 2 ^ 32
    → (h : Bytes) × (pack_word n ≡ ok h) × (length h ≡ 4) × (unpack_word h ≡ ok n)
unfolding unpack_word
unpack_word-pack_word n h =
    let (a, b, c, d, packed, joined, _) = pack_word-IsBytes n h in
    (a ∷ b ∷ c ∷ d ∷ [], packed, refl, ap ok joined)
