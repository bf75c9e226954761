-- ===== src/Config.antt =====
-- config.py: `DaemonConfig`, as far as the daemon's decisions read it, and `validate_unlock_config`.
-- A setting that the TOML file gives is whatever value stands there.
pub mod Unlock
pub mod Load
pub mod Keys
pub mod Template
use phonect.Prelude.{
  ℕ, String, Bool, true, false, not, ◌&&◌, ◌||◌, Option, none, some, List, [], ◌∷◌, leb, ◌==◌,
  str_eq, if◌then◌else◌,
}
use phonect.Python.{
  Value, null, bool, int, float, str, list, dict, Items, nil, item, Exception, value_error, Result,
  ok, raise, raise_if, ◌>>=◌, ◌>>◌,
}
use phonect.Bytes.{codes}

pub record UnlockConfig : Type 0 where
  pub unlock_backend : Value
  pub unlock_command : Value

-- the whitespace of `str.strip`
unfoldable pub is_whitespace : ℕ → Bool
is_whitespace c =
    (leb 9 c && leb c 13)
    || (leb 28 c && leb c 32)
    || c == 0x85
    || c == 0xa0
    || c == 0x1680
    || (leb 0x2000 c && leb c 0x200a)
    || c == 0x2028
    || c == 0x2029
    || c == 0x202f
    || c == 0x205f
    || c == 0x3000

all_whitespace : List ℕ → Bool
all_whitespace [] = true
all_whitespace (c ∷ cs) = is_whitespace c && all_whitespace cs

-- `not text.strip()`
unfoldable pub is_blank : String → Bool
unfolding all_whitespace is_whitespace
is_blank s = all_whitespace (codes s)

cons_some : String → Option (List String) → Option (List String)
cons_some s none = none
cons_some s (some xs) = some (s ∷ xs)

-- the items, if all of them are texts
texts : Items → Option (List String)
unfolding cons_some
texts nil = some []
texts (item (str s) rest) = cons_some s (texts rest)
texts (item _ rest) = none

-- a value as a list of texts: `isinstance(value, list) and all(isinstance(arg, str) for arg in value)`
unfoldable pub text_list : Value → Option (List String)
unfolding texts
text_list (list xs) = texts xs
text_list _ = none

-- a value that is one of the two names
unfoldable pub backend_name : Value → Option String
backend_name (str s) = if str_eq s "loginctl" || str_eq s "command" then some s else none
backend_name _ = none

-- `if unlock_backend == "command": … elif unlock_command: raise`
check_command : String → List String → Result (Unit {0})
check_command backend [] = if str_eq backend "command" then raise value_error else ok tt
check_command backend (executable ∷ _) =
    if str_eq backend "command"
    then raise_if (is_blank executable) value_error
    else raise value_error

check_backend : Option String → Option (List String) → Result (Unit {0})
unfolding check_command
check_backend none command = raise value_error
check_backend (some backend) none = raise value_error
check_backend (some backend) (some command) = check_command backend command

unfoldable pub validate_unlock_config : UnlockConfig → Result (Unit {0})
unfolding check_backend
validate_unlock_config c =
    check_backend (backend_name c.unlock_backend) (text_list c.unlock_command)
