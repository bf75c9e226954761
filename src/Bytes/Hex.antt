-- ===== src/Bytes/Hex.antt =====
-- Hexadecimal text: `hex` and then `fromhex`, and their lengths.
use Prim.Native.Char.{code}
use phonect.Prelude.{
  ℕ, zero, suc, ◌+◌, ◌*◌, ◌/◌, ◌%◌, ◌<◌, ◌≡◌, refl, Bool, true, false, Option, none, some, List, [],
  ◌∷◌, length, arith, ◌==◌, Bool-cases, inl, inr, if◌then◌else◌, ◌&&◌, not,
}
use phonect.Bytes.{
  Bytes, IsBytes, codes, is_space, digit_value, join_digits, fromhex_codes, fromhex, hex_digit, hex,
}

-- How many characters of a text are whitespace.
unfoldable pub spaces : List ℕ → ℕ
unfolding is_space
spaces [] = 0
spaces (c ∷ cs) = (if is_space c then 1 else 0) + spaces cs

-- a test that no number under a bound fails
never_fails : (ℕ → Bool) → ℕ → Bool
never_fails test zero = true
never_fails test (suc bound) =
    let lower = never_fails test bound in if test bound then lower else false

never_fails_below :
    (test : ℕ → Bool) (bound digit : ℕ)
    → digit < bound
    → never_fails test bound ≡ true
    → test digit ≡ true
unfolding never_fails
never_fails_below test zero digit under h = absurd (omega arith)
never_fails_below test (suc bound) digit under h =
    ground (arith, never_fails_below test bound digit)

-- The digit of `n` is read as `n`, and is not whitespace.
abbrev reads_back : ℕ → Bool
reads_back n =
    elim (digit_value (code (hex_digit n))) [ none ↦ false | some m ↦ m == n ]
    && not (is_space (code (hex_digit n)))

reads_back_table : never_fails reads_back 16 ≡ true
unfolding never_fails digit_value hex_digit is_space
reads_back_table = refl

digit_read :
    (n : ℕ)
    → n < 16
    → (digit_value (code (hex_digit n)) ≡ some n) × (is_space (code (hex_digit n)) ≡ false)
digit_read n h = ground (arith, never_fails_below reads_back 16 n h reads_back_table)

-- What `hex` writes, `fromhex` reads.
pub fromhex-hex : (bs : Bytes) → IsBytes bs → fromhex (hex bs) ≡ some bs
unfolding hex fromhex_codes
fromhex-hex [] h = refl
fromhex-hex (b ∷ bs) (hb, h) =
    ground (arith, digit_read (b / 16), digit_read (b % 16), fromhex-hex bs h)

pub length-hex : (bs : Bytes) → length (codes (hex bs)) ≡ 2 * length bs
unfolding hex
length-hex [] = refl
length-hex (b ∷ bs) = omega (arith, length-hex bs)

digit_not_space : (c v : ℕ) → digit_value c ≡ some v → is_space c ≡ false
unfolding digit_value is_space
digit_not_space c v h = ground arith

join_digits-eq-some :
    (h l : Option ℕ) (r : Option Bytes) (bs : Bytes)
    → join_digits h l r ≡ some bs
    → (a b : ℕ) × (rest : Bytes) × (h ≡ some a)
      × (l ≡ some b)
      × (r ≡ some rest)
      × (length bs ≡ suc (length rest))
join_digits-eq-some (some a) (some b) (some rest) bs e =
    (a, b, rest, refl, refl, refl, ground arith)
join_digits-eq-some (some a) (some b) none bs e = cc
join_digits-eq-some (some a) none r bs e = cc
join_digits-eq-some none l r bs e = cc

-- The bytes that are read and the whitespace that is skipped account for the whole text.
pub length-fromhex_codes :
    (cs : List ℕ) (bs : Bytes) → fromhex_codes cs ≡ some bs → 2 * length bs + spaces cs ≡ length cs
unfolding fromhex_codes spaces
length-fromhex_codes [] bs h = ground arith
length-fromhex_codes (c ∷ []) bs h = ground arith
length-fromhex_codes (c ∷ d ∷ cs) bs h = elim (Bool-cases (is_space c)) [
  | inl e ↦ ground (arith, length-fromhex_codes (d ∷ cs) bs)
  | inr e ↦
      let (a, b, rest, ha, hb, hr, hl) =
        join_digits-eq-some (digit_value c) (digit_value d) (fromhex_codes cs) bs (rw e at h) in
      ground (arith, length-fromhex_codes cs rest hr, digit_not_space d b hb)
]
