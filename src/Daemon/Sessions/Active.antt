-- ===== src/Daemon/Sessions/Active.antt =====
-- daemon.py: which sessions `_get_active_session_ids` lists.
use phonect.Prelude.{
  Bool-cases, String, ◌&&◌, List, [], ◌∷◌, ◌++◌, ◌≡◌, refl, inl, inr, arith, str_eq, eq_iff,
}
use phonect.Python.{ok}
use phonect.Daemon.Sessions.{
  strip, splitlines, split, session_of_line, sessions_of, get_active_session_ids,
}

-- A printed line that lists the session `sid` of `user` on seat0, with a state at least behind it.
pub record IsListing (user sid line : String) : Type 0 where
  pub uid : String
  pub state : String
  pub more : List String
  pub fields : split (strip line) ≡ sid ∷ uid ∷ user ∷ "seat0" ∷ state ∷ more

-- The ids of the lines that list a session of the user, in their order; no other line has one.
pub data Listed (user : String) : List String → List String → Type 0 where
  no_lines : Listed user [] []
  listing :
      {line sid : String} {lines ids : List String}
      → IsListing user sid line
      → Listed user lines ids
      → Listed user (line ∷ lines) (sid ∷ ids)
  passing :
      {line : String} {lines ids : List String}
      → ((sid : String) → ¬ IsListing user sid line)
      → Listed user lines ids
      → Listed user (line ∷ lines) ids

session_of_line-Listed :
    (user line : String) (parts lines ids : List String)
    → split (strip line) ≡ parts
    → Listed user lines ids
    → Listed user (line ∷ lines) (session_of_line user parts ++ ids)
unfolding session_of_line
session_of_line-Listed user line (sid ∷ uid ∷ who ∷ seat ∷ state ∷ more) lines ids e h =
    elim (Bool-cases (str_eq who user && str_eq seat "seat0")) [
      | inl same ↦ rw same (
          listing
            record {
              uid = uid;
              state = state;
              more = more;
              fields = ground (arith, eq_iff who user, eq_iff seat "seat0");
            }
            h)
      | inr differs ↦
          rw differs (
            passing (λ sid' l. ground (arith, l.fields, e, eq_iff who user, eq_iff seat "seat0")) h)
    ]
session_of_line-Listed user line [] lines ids e h = passing (λ sid l. cc (l.fields, e)) h
session_of_line-Listed user line (_ ∷ []) lines ids e h = passing (λ sid l. cc (l.fields, e)) h
session_of_line-Listed user line (_ ∷ _ ∷ []) lines ids e h = passing (λ sid l. cc (l.fields, e)) h
session_of_line-Listed user line (_ ∷ _ ∷ _ ∷ []) lines ids e h =
    passing (λ sid l. cc (l.fields, e)) h
session_of_line-Listed user line (_ ∷ _ ∷ _ ∷ _ ∷ []) lines ids e h =
    passing (λ sid l. cc (l.fields, e)) h

sessions_of-Listed :
    (user : String) (lines : List String) → Listed user lines (sessions_of user lines)
unfolding sessions_of
sessions_of-Listed user [] = no_lines
sessions_of-Listed user (line ∷ lines) =
    session_of_line-Listed user line (split (strip line)) lines (sessions_of user lines) refl
      (sessions_of-Listed user lines)

-- What loginctl printed gives the session ids, in the order of its lines: of each line whose third
-- field is the user and whose fourth is "seat0", with a field behind it, its first field, and of no
-- other line anything.
pub get_active_session_ids-Listed :
    (user stdout : String)
    → (ids : List String) × (get_active_session_ids user (ok stdout) ≡ ok ids)
      × Listed user (splitlines (strip stdout)) ids
unfolding get_active_session_ids
get_active_session_ids-Listed user stdout = (
  sessions_of user (splitlines (strip stdout)),
  refl,
  sessions_of-Listed user (splitlines (strip stdout)),
)
