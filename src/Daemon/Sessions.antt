-- ===== src/Daemon/Sessions.antt =====
-- daemon.py: `_get_active_session_ids`, with the methods of `str` that it uses.
pub mod Active
use Prim.Native.Char.{Char, code}
use phonect.Prelude.{
  ℕ, String, Bool, true, false, ◌&&◌, ◌||◌, List, [], ◌∷◌, ◌++◌, leb, ◌==◌, str_eq, if◌then◌else◌,
}
use phonect.Python.{timeout_expired, file_not_found, Result, ok, raise}
use phonect.Config.{is_whitespace}

-- `str.lstrip`, `str.rstrip` and `str.strip`
lstrip : String → String
unfolding is_whitespace
lstrip String.[] = String.[]
lstrip (String.◌∷◌ c s) =
    let rest = lstrip s in if is_whitespace (code c) then rest else String.◌∷◌ c s

keep_char : Bool → Char → String → String
keep_char true c String.[] = String.[]
keep_char _ c s = String.◌∷◌ c s

rstrip : String → String
unfolding keep_char is_whitespace
rstrip String.[] = String.[]
rstrip (String.◌∷◌ c s) = keep_char (is_whitespace (code c)) c (rstrip s)

unfoldable pub strip : String → String
unfolding lstrip rstrip
strip s = rstrip (lstrip s)

-- the characters at which `str.splitlines` ends a line
is_line_end : ℕ → Bool
is_line_end c =
    (leb 10 c && leb c 13) || (leb 28 c && leb c 30) || c == 0x85 || c == 0x2028 || c == 0x2029

starts_newline : String → Bool
starts_newline String.[] = false
starts_newline (String.◌∷◌ c s) = code c == 10

cons_char : Char → List String → List String
cons_char c [] = String.◌∷◌ c String.[] ∷ []
cons_char c (line ∷ lines) = String.◌∷◌ c line ∷ lines

-- `str.splitlines`; "\r\n" ends one line
unfoldable pub splitlines : String → List String
unfolding is_line_end starts_newline cons_char
splitlines String.[] = []
splitlines (String.◌∷◌ c s) =
    let rest = splitlines s in
    if code c == 13 && starts_newline s
    then rest
    else (if is_line_end (code c) then String.[] ∷ rest else cons_char c rest)

add_word : String → List String → List String
add_word String.[] later = later
add_word word later = word ∷ later

-- the word that a text begins with, which is empty before a blank, and the words behind it
words : String → String × List String
unfolding is_whitespace add_word
words String.[] = (String.[], [])
words (String.◌∷◌ c s) =
    let (word, later) = words s in
    if is_whitespace (code c) then (String.[], add_word word later) else (String.◌∷◌ c word, later)

-- `str.split` without an argument
unfoldable pub split : String → List String
unfolding words add_word
split s = let (word, later) = words s in add_word word later

-- the id of a line that lists an active session of the user
unfoldable pub session_of_line : String → List String → List String
session_of_line current_user (sid ∷ uid ∷ user ∷ seat ∷ state ∷ more) =
    if str_eq user current_user && str_eq seat "seat0" then sid ∷ [] else []
session_of_line current_user parts = []

unfoldable pub sessions_of : String → List String → List String
unfolding session_of_line strip split
sessions_of current_user [] = []
sessions_of current_user (line ∷ lines) =
    session_of_line current_user (split (strip line)) ++ sessions_of current_user lines

-- `_get_active_session_ids`, from what "loginctl list-sessions" printed
unfoldable pub get_active_session_ids : String → Result String → Result (List String)
unfolding sessions_of splitlines strip
get_active_session_ids current_user (ok stdout) =
    ok (sessions_of current_user (splitlines (strip stdout)))
get_active_session_ids current_user (raise timeout_expired) = ok []
get_active_session_ids current_user (raise file_not_found) = ok []
get_active_session_ids current_user (raise e) = raise e
