-- ===== src/Python/Paths/Laws.antt =====
-- Paths: their text, and the path of that text.
use Prim.Native.Char.{code}
use phonect.Prelude.{String, false, List, [], ◌∷◌, ◌++◌, All, ◌==◌, ◌≡◌, refl, ◌∙◌, ap, sym, str_eq}
use phonect.Python.Paths.{text_append, of_text, show, slashes, names, cons_name, join_names}

abbrev pub HasNoSlash : String → Type 0
HasNoSlash String.[] = Unit
HasNoSlash (String.◌∷◌ c s) = ((code c == 47) ≡ false) × HasNoSlash s

-- A name that a path can hold.
pub record IsName (s : String) : Type 0 where
  pub no_slash : HasNoSlash s
  pub not_empty : str_eq s "" ≡ false
  pub not_dot : str_eq s "." ≡ false

names-single : (s : String) → HasNoSlash s → names s ≡ (s, [])
unfolding names
names-single String.[] h = refl
names-single (String.◌∷◌ c s) (hc, h) = rw (names-single s h, hc)

names-append :
    (x s : String)
    → HasNoSlash x
    → names (text_append x (text_append "/" s)) ≡ (x, cons_name (names s).0 (names s).1)
unfolding names
names-append String.[] s h = refl
names-append (String.◌∷◌ c x) s (hc, h) = rw (names-append x s h, hc)

cons_name-IsName : (x : String) (xs : List String) → IsName x → cons_name x xs ≡ x ∷ xs
unfolding cons_name
cons_name-IsName x xs h = rw (h.not_empty, h.not_dot)

names-join_names :
    (x : String) (xs : List String)
    → IsName x
    → All IsName xs
    → names (join_names (x ∷ xs)) ≡ (x, xs)
names-join_names x [] h hs = names-single x h.no_slash
names-join_names x (y ∷ ys) h (hy, hs) =
    rw (names-append x (join_names (y ∷ ys)) h.no_slash, names-join_names y ys hy hs)
      (ap (λ l. (x, l)) (cons_name-IsName y ys hy))

slashes-name : (x s : String) → IsName x → slashes (text_append x s) ≡ (0, text_append x s)
unfolding slashes
slashes-name String.[] s h = absurd (cc (h.not_empty))
slashes-name (String.◌∷◌ c x) s h = rw h.no_slash.0

append-nil_text : (s : String) → text_append s "" ≡ s
append-nil_text String.[] = refl
append-nil_text (String.◌∷◌ c s) = ap (λ t. String.◌∷◌ c t) (append-nil_text s)

slashes-join_names :
    (x : String) (xs : List String)
    → IsName x
    → slashes (join_names (x ∷ xs)) ≡ (0, join_names (x ∷ xs))
slashes-join_names x [] h = rw (sym (append-nil_text x)) (slashes-name x "" h)
slashes-join_names x (y ∷ ys) h = slashes-name x (text_append "/" (join_names (y ∷ ys))) h

-- The text of an absolute path, with names in it, is read back as that path.
pub of_text-show :
    (x : String) (xs : List String)
    → IsName x
    → All IsName xs
    → of_text (show (record { root = 1; parts = x ∷ xs })) ≡ record { root = 1; parts = x ∷ xs }
unfolding of_text show
of_text-show x xs h hs =
    rw (slashes-join_names x xs h, names-join_names x xs h hs)
      (ap (λ l. record { root = 1; parts = l }) (cons_name-IsName x xs h))

pub text_append_assoc :
    (s t u : String) → text_append (text_append s t) u ≡ text_append s (text_append t u)
text_append_assoc String.[] t u = refl
text_append_assoc (String.◌∷◌ c s) t u = ap (λ v. String.◌∷◌ c v) (text_append_assoc s t u)

join_names-append :
    (x : String) (xs : List String) (y : String)
    → text_append (join_names (x ∷ xs)) (text_append "/" y) ≡ join_names (x ∷ (xs ++ y ∷ []))
join_names-append x [] y = refl
join_names-append x (z ∷ zs) y =
    text_append_assoc x (text_append "/" (join_names (z ∷ zs))) (text_append "/" y)
    ∙ ap (λ t. text_append x (text_append "/" t)) (join_names-append z zs y)

All-append : (xs : List String) (y : String) → All IsName xs → IsName y → All IsName (xs ++ y ∷ [])
All-append [] y hs h = (h, tt)
All-append (x ∷ xs) y (hx, hs) h = (hx, All-append xs y hs h)

-- The text of an absolute directory with a slash and a name behind it is read as the path of that
-- name in the directory.
pub of_text_file :
    (x : String) (xs : List String) (y : String)
    → IsName x
    → All IsName xs
    → IsName y
    → of_text (text_append (show (record { root = 1; parts = x ∷ xs })) (text_append "/" y))
      ≡ record { root = 1; parts = x ∷ (xs ++ y ∷ []) }
unfolding show
of_text_file x xs y hx hs hy =
    ap (λ t. of_text (text_append "/" t)) (join_names-append x xs y)
    ∙ of_text-show x (xs ++ y ∷ []) hx (All-append xs y hs hy)
