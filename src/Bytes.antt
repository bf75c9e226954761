-- ===== src/Bytes.antt =====
-- Byte strings, as Python's `bytes`: hexadecimal text (`bytes.hex`, `bytes.fromhex`) and the
-- `struct` format "!I". The proofs are in the children.
pub mod Hex
pub mod Word
use Prim.Native.Char.{Char, code}
use phonect.Prelude.{
  ℕ, ◌+◌, ◌*◌, ◌/◌, ◌%◌, ◌^◌, ◌<◌, ◌-◌, String, Bool, true, false, ◌&&◌, ◌||◌, Option, none, some,
  List, [], ◌∷◌, ◌++◌, All, leb, ltb, ◌==◌, if◌then◌else◌,
}
use phonect.Python.{Result, ok, raise, struct_error}

abbrev pub Bytes : Type 0
Bytes = List ℕ

-- Every item is a byte.
abbrev pub IsBytes : Bytes → Type 0
IsBytes = All (λ b. b < 256)

-- The code points of a text.
abbrev pub codes : String → List ℕ
codes String.[] = []
codes (String.◌∷◌ c s) = code c ∷ codes s

-- `str.encode("utf-8")`
encode_code : ℕ → Bytes
encode_code c =
    if ltb c 128
    then c ∷ []
    else if ltb c 2048
    then (192 + c / 64) ∷ (128 + c % 64) ∷ []
    else if ltb c 65_536
    then (224 + c / 4096) ∷ (128 + c / 64 % 64) ∷ (128 + c % 64) ∷ []
    else (240 + c / 262_144) ∷ (128 + c / 4096 % 64) ∷ (128 + c / 64 % 64) ∷ (128 + c % 64) ∷ []

encode_codes : List ℕ → Bytes
unfolding encode_code
encode_codes [] = []
encode_codes (c ∷ cs) = encode_code c ++ encode_codes cs

unfoldable pub utf8 : String → Bytes
unfolding encode_codes
utf8 s = encode_codes (codes s)

-- ASCII whitespace: tab, newline, vertical tab, form feed, carriage return, space
pub is_space : ℕ → Bool
is_space c = (leb 9 c && leb c 13) || c == 32

pub digit_value : ℕ → Option ℕ
digit_value c =
    if leb b'0' c && leb c b'9'
    then some (c - 48)
    else if leb b'a' c && leb c b'f'
    then some (c - 87)
    else if leb b'A' c && leb c b'F'
    then some (c - 55)
    else none

abbrev pub join_digits : Option ℕ → Option ℕ → Option Bytes → Option Bytes
join_digits (some h) (some l) (some bs) = some ((h * 16 + l) ∷ bs)
join_digits _ _ _ = none

-- `bytes.fromhex`: whitespace between the pairs of digits is skipped, and `none` stands for the
-- `ValueError`.
unfoldable pub fromhex_codes : List ℕ → Option Bytes
unfolding is_space digit_value
fromhex_codes [] = some []
fromhex_codes (c ∷ []) = if is_space c then some [] else none
fromhex_codes (c ∷ d ∷ cs) =
    let rest = fromhex_codes (d ∷ cs) in
    let pair = join_digits (digit_value c) (digit_value d) (fromhex_codes cs) in
    if is_space c then rest else pair

abbrev pub fromhex : String → Option Bytes
fromhex s = fromhex_codes (codes s)

-- the digits that `bytes.hex` writes
unfoldable pub hex_digit : ℕ → Char
hex_digit n =
    if n == 0
    then "0"
    else if n == 1
    then "1"
    else if n == 2
    then "2"
    else if n == 3
    then "3"
    else if n == 4
    then "4"
    else if n == 5
    then "5"
    else if n == 6
    then "6"
    else if n == 7
    then "7"
    else if n == 8
    then "8"
    else if n == 9
    then "9"
    else if n == 10
    then "a"
    else if n == 11
    then "b"
    else if n == 12
    then "c"
    else if n == 13
    then "d"
    else if n == 14
    then "e"
    else "f"

-- `bytes.hex`
unfoldable pub hex : Bytes → String
unfolding hex_digit
hex [] = ""
hex (b ∷ bs) = String.◌∷◌ (hex_digit (b / 16)) (String.◌∷◌ (hex_digit (b % 16)) (hex bs))

-- `struct.pack("!I", n)`
unfoldable pub pack_word : ℕ → Result Bytes
pack_word n =
    if ltb n (2 ^ 32)
    then ok ((n / 2 ^ 24) ∷ (n / 2 ^ 16 % 256) ∷ (n / 2 ^ 8 % 256) ∷ (n % 256) ∷ [])
    else raise struct_error

-- `struct.unpack("!I", bytes)[0]`
unfoldable pub unpack_word : Bytes → Result ℕ
unpack_word (a ∷ b ∷ c ∷ d ∷ []) = ok (((a * 256 + b) * 256 + c) * 256 + d)
unpack_word _ = raise struct_error
