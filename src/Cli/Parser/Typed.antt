-- ===== src/Cli/Parser/Typed.antt =====
-- cli.py: the attributes that `argparse` gives, against those that the handlers read.
use phonect.Prelude.{String, Bool, Option, none, some, List, [], ◌∷◌, All, ◌≡◌, ◌⊎◌, refl, ◌∙◌, ap}
use phonect.Python.{
  ℤ, Value, null, bool, int, float, str, get, attribute_error, Result, ok, raise, ◌>>=◌,
}
use phonect.Cli.Parser.{
  Kind, text, integer, number, truth, choice, Argument, option, positional, Subparser,
  ArgumentParser, dest, Namespace, attribute, as_text, as_integer, as_number, as_truth,
  as_optional_text, text_of,
}

abbrev pub IsOneOf : String → List String → Type 0
IsOneOf s [] = ⊥
IsOneOf s (x ∷ xs) = (s ≡ x) ⊎ IsOneOf s xs

-- A value that a text of the command line can become.
pub data HasKind : Kind → Value → Type 0 where
  is_text : (s : String) → HasKind text (str s)
  is_integer : (n : ℤ) → HasKind integer (int n)
  is_number : (t : String) → HasKind number (float t)
  is_truth : (b : Bool) → HasKind truth (bool b)
  is_choice : (s : String) (xs : List String) → IsOneOf s xs → HasKind (choice xs) (str s)

-- The value of an argument: that of the command line, or the default of an option.
pub data Fits : Argument → Value → Type 0 where
  given :
      (flag : String) (kind : Kind) (default v : Value)
      → HasKind kind v
      → Fits (option flag kind default) v
  left_out :
      (flag : String) (kind : Kind) (default : Value) → Fits (option flag kind default) default
  placed :
      (name : String) (kind : Kind) (v : Value) → HasKind kind v → Fits (positional name kind) v

-- The namespace has the attribute of the argument.
abbrev pub HasArgument : Namespace → Argument → Type 0
HasArgument args a = (v : Value) × (get (dest a) args.values ≡ some v) × Fits a v

abbrev pub IsParsedBy : List Argument → Namespace → Subparser → Type 0
IsParsedBy options args sub =
    (args.func ≡ sub.func) × All (HasArgument args) options × All (HasArgument args) sub.arguments

abbrev pub AnyParses : List Argument → Namespace → List Subparser → Type 0
AnyParses options args [] = ⊥
AnyParses options args (s ∷ ss) = IsParsedBy options args s ⊎ AnyParses options args ss

-- What `argparse` promises of a namespace: one of the subparsers was chosen, and every argument of it
-- and of the parser has its attribute.
abbrev pub IsParsed : ArgumentParser → Namespace → Type 0
IsParsed p args = AnyParses p.options args p.subparsers

-- The attribute of a text that may be missing.
abbrev pub optional : Option String → Value
optional none = null
optional (some s) = str s

-- An attribute that is there is read, where every value that fits its argument can be.
pub reads :
    {A : Type 0} (read : Value → Result A) (put : A → Value) (args : Namespace) (a : Argument)
    → ((v : Value) → Fits a v → (x : A) × (read v ≡ ok x) × (v ≡ put x))
    → HasArgument args a
    → (x : A) × (attribute (dest a) args >>= read ≡ ok x)
      × (get (dest a) args.values ≡ some (put x))
reads read put args a can (v, there, fits) =
    let (x, e, is_put) = can v fits in
    (
      x,
      ap (λ o. elim o [ none ↦ raise attribute_error | some w ↦ ok w ] >>= read) there ∙ e,
      there ∙ ap some is_put,
    )

pub text-Fits :
    (flag s : String) (v : Value)
    → Fits (option flag text (str s)) v
    → (x : String) × (as_text v ≡ ok x) × (v ≡ str x)
unfolding as_text
text-Fits flag s v (given _ _ _ _ (is_text x)) = (x, refl, refl)
text-Fits flag s v (left_out _ _ _) = (s, refl, refl)

choice-Fits :
    (flag s : String) (xs : List String) (v : Value)
    → Fits (option flag (choice xs) (str s)) v
    → (x : String) × (as_text v ≡ ok x) × (v ≡ str x)
unfolding as_text
choice-Fits flag s xs v (given _ _ _ _ (is_choice x _ _)) = (x, refl, refl)
choice-Fits flag s xs v (left_out _ _ _) = (s, refl, refl)

pub text_or_none-Fits :
    (flag : String) (v : Value)
    → Fits (option flag text null) v
    → (x : Option String) × (as_optional_text v ≡ ok x) × (v ≡ optional x)
unfolding as_optional_text
text_or_none-Fits flag v (given _ _ _ _ (is_text x)) = (some x, refl, refl)
text_or_none-Fits flag v (left_out _ _ _) = (none, refl, refl)

pub integer-Fits :
    (flag : String) (n : ℤ) (v : Value)
    → Fits (option flag integer (int n)) v
    → (x : ℤ) × (as_integer v ≡ ok x) × (v ≡ int x)
unfolding as_integer
integer-Fits flag n v (given _ _ _ _ (is_integer x)) = (x, refl, refl)
integer-Fits flag n v (left_out _ _ _) = (n, refl, refl)

pub number-Fits :
    (flag t : String) (v : Value)
    → Fits (option flag number (float t)) v
    → (x : String) × (as_number v ≡ ok x) × (v ≡ float x)
unfolding as_number
number-Fits flag t v (given _ _ _ _ (is_number x)) = (x, refl, refl)
number-Fits flag t v (left_out _ _ _) = (t, refl, refl)

pub truth-Fits :
    (flag : String) (b : Bool) (v : Value)
    → Fits (option flag truth (bool b)) v
    → (x : Bool) × (as_truth v ≡ ok x) × (v ≡ bool x)
unfolding as_truth
truth-Fits flag b v (given _ _ _ _ (is_truth x)) = (x, refl, refl)
truth-Fits flag b v (left_out _ _ _) = (b, refl, refl)

pub text_placed :
    (name : String) (v : Value)
    → Fits (positional name text) v
    → (x : String) × (as_text v ≡ ok x) × (v ≡ str x)
unfolding as_text
text_placed name v (placed _ _ _ (is_text x)) = (x, refl, refl)

pub integer_placed :
    (name : String) (v : Value)
    → Fits (positional name integer) v
    → (x : ℤ) × (as_integer v ≡ ok x) × (v ≡ int x)
unfolding as_integer
integer_placed name v (placed _ _ _ (is_integer x)) = (x, refl, refl)

abbrev level_names : List String
level_names = "DEBUG" ∷ "INFO" ∷ "WARNING" ∷ "ERROR" ∷ []

pub log_level_read :
    (args : Namespace)
    → HasArgument args (option "--log-level" (choice level_names) (str "INFO"))
    → (x : String) × (text_of "log_level" args ≡ ok x)
      × (get "log_level" args.values ≡ some (str x))
log_level_read args = reads as_text str args _ (choice-Fits "--log-level" "INFO" level_names)
