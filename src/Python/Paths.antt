-- ===== src/Python/Paths.antt =====
-- POSIX paths, as `pathlib.Path` keeps them: how many slashes stand in front (two are kept, three or
-- more count as one), and the names, without empty ones and without ".".
pub mod Laws
use Prim.Native.Char.{Char, code}
use phonect.Prelude.{
  ℕ, zero, suc, String, Bool, true, false, ◌&&◌, ◌||◌, Option, none, some, List, [], ◌∷◌, ◌++◌,
  ◌==◌, leb, str_eq, if◌then◌else◌,
}
use phonect.Python.Raise.{Result, ok, raise, runtime_error}

-- `s + t`
abbrev pub text_append : String → String → String
text_append String.[] t = t
text_append (String.◌∷◌ c s) t = String.◌∷◌ c (text_append s t)

pub record PurePath : Type 0 where
  pub root : ℕ
  pub parts : List String

abbrev pub texts_eq : List String → List String → Bool
texts_eq [] [] = true
texts_eq (x ∷ xs) (y ∷ ys) = str_eq x y && texts_eq xs ys
texts_eq _ _ = false

abbrev pub path_eq : PurePath → PurePath → Bool
path_eq p q = p.root == q.root && texts_eq p.parts q.parts

-- the slashes in front, and what stands behind them
slashes : String → ℕ × String
slashes String.[] = (0, String.[])
slashes (String.◌∷◌ c s) =
    let (n, rest) = slashes s in if code c == 47 then (suc n, rest) else (0, String.◌∷◌ c s)

cons_name : String → List String → List String
cons_name name later = if str_eq name "" || str_eq name "." then later else name ∷ later

-- the text before the first slash, and the names behind it
names : String → String × List String
unfolding cons_name
names String.[] = (String.[], [])
names (String.◌∷◌ c s) =
    let (name, later) = names s in
    if code c == 47 then (String.[], cons_name name later) else (String.◌∷◌ c name, later)

-- `Path(text)`
unfoldable pub of_text : String → PurePath
unfolding slashes names cons_name
of_text s =
    let (n, rest) = slashes s in
    let (name, later) = names rest in
    record { root = if leb n 2 then n else 1; parts = cons_name name later }

-- `path / name`
unfoldable pub join : PurePath → PurePath → PurePath
join p q = elim q.root [ zero ↦ record { root = p.root; parts = p.parts ++ q.parts } | suc _ ↦ q ]

abbrev pub all_but_last : List String → List String
all_but_last [] = []
all_but_last (x ∷ []) = []
all_but_last (x ∷ y ∷ ys) = x ∷ all_but_last (y ∷ ys)

-- `path.parent`
unfoldable pub parent : PurePath → PurePath
parent p = record { root = p.root; parts = all_but_last p.parts }

abbrev pub join_names : List String → String
join_names [] = ""
join_names (x ∷ []) = x
join_names (x ∷ y ∷ ys) = text_append x (text_append "/" (join_names (y ∷ ys)))

abbrev pub slash_text : ℕ → String
slash_text zero = ""
slash_text (suc n) = text_append "/" (slash_text n)

-- `str(path)`
unfoldable pub show : PurePath → String
show p = elim p.root [
  | zero ↦ elim p.parts [ [] ↦ "." | x ∷ xs ↦ join_names (x ∷ xs) ]
  | suc n ↦ text_append (slash_text (suc n)) (join_names p.parts)
]

starts_tilde : String → Bool
starts_tilde String.[] = false
starts_tilde (String.◌∷◌ c s) = code c == 126

-- a first name "~" or "~user" becomes that home directory; an unknown one is a `RuntimeError`
expand_first : (String → Option PurePath) → List String → Result PurePath
unfolding starts_tilde
expand_first home_of [] = ok (record { root = 0; parts = [] })
expand_first home_of (x ∷ xs) =
    if starts_tilde x
    then elim (home_of x) [
      | none ↦ raise runtime_error
      | some home ↦ ok (record { root = home.root; parts = home.parts ++ xs })
    ]
    else ok (record { root = 0; parts = x ∷ xs })

-- `path.expanduser()`, where `home_of` gives the home directory of a name such as "~" or "~user"
unfoldable pub expanduser : (String → Option PurePath) → PurePath → Result PurePath
unfolding expand_first
expanduser home_of p = elim p.root [ zero ↦ expand_first home_of p.parts | suc _ ↦ ok p ]
