-- ===== src/Python/Values.antt =====
-- The values that JSON and TOML documents hold. A dict is an association list in the order of its
-- insertions, and a float is kept as its text.
use phonect.Prelude.{ℕ, String, Bool, true, false, Option, none, some, str_eq, if◌then◌else◌}

pub data ℤ : Type 0 where
  pos : ℕ → ℤ
  negsuc : ℕ → ℤ

mutual
  pub data Value : Type 0 where
    null : Value
    bool : Bool → Value
    int : ℤ → Value
    float : String → Value
    str : String → Value
    list : Items → Value
    dict : Dict → Value

  pub data Items : Type 0 where
    nil : Items
    item : Value → Items → Items

  pub data Dict : Type 0 where
    empty : Dict
    entry : String → Value → Dict → Dict

-- `d.get(key)`, where `none` is Python's `None` for a missing key
abbrev pub get : String → Dict → Option Value
get key empty = none
get key (entry k v d) = if str_eq key k then some v else get key d

-- `key in d`
abbrev pub has : String → Dict → Bool
has key d = elim (get key d) [ none ↦ false | some _ ↦ true ]

-- `d[key] = v` for a key that `d` lacks: it goes last
abbrev pub append : Dict → String → Value → Dict
append empty key v = entry key v empty
append (entry k w d) key v = entry k w (append d key v)

-- `d.get(key) == text`
abbrev pub is_text : Option Value → String → Bool
is_text (some (str s)) t = str_eq s t
is_text _ t = false
