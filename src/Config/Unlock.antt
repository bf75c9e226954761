-- ===== src/Config/Unlock.antt =====
-- config.py: the unlock settings that can be carried out, against `validate_unlock_config`.
use phonect.Prelude.{
  String, false, Option, none, some, List, [], ◌∷◌, ◌≡◌, ◌↔◌, ◌⊎◌, inl, inr, refl, ◌∙◌, ap, arith,
  eq_iff,
}
use phonect.Python.{Value, null, str, value_error, ok, raise}
use phonect.Config.{
  UnlockConfig, is_blank, text_list, backend_name, check_command, check_backend,
  validate_unlock_config,
}

-- Settings that can be carried out: sessions are unlocked by loginctl and there is no command, or a
-- command of texts is run whose executable is not blank.
pub data IsUnlock (c : UnlockConfig) : Type 0 where
  loginctl : c.unlock_backend ≡ str "loginctl" → text_list c.unlock_command ≡ some [] → IsUnlock c
  command :
      (executable : String) (args : List String)
      → c.unlock_backend ≡ str "command"
      → text_list c.unlock_command ≡ some (executable ∷ args)
      → is_blank executable ≡ false
      → IsUnlock c

backend_name-eq-some :
    (v : Value) (s : String)
    → backend_name v ≡ some s
    → (v ≡ str s) × ((s ≡ "loginctl") ⊎ (s ≡ "command"))
unfolding backend_name
backend_name-eq-some (str t) s h = ground (arith, eq_iff t "loginctl", eq_iff t "command")
backend_name-eq-some null s h = cc
backend_name-eq-some _ s h = cc

check_backend-eq-ok :
    (b : Option String) (command : Option (List String))
    → check_backend b command ≡ ok tt
    → (s : String) × (xs : List String) × (b ≡ some s)
      × (command ≡ some xs)
      × (check_command s xs ≡ ok tt)
unfolding check_backend
check_backend-eq-ok none xs h = cc
check_backend-eq-ok (some s) none h = cc
check_backend-eq-ok (some s) (some xs) h = (s, xs, refl, refl, h)

check_command-loginctl : (xs : List String) → check_command "loginctl" xs ≡ ok tt → xs ≡ []
unfolding check_command
check_command-loginctl [] h = refl
check_command-loginctl (x ∷ xs) h = cc

check_command-command :
    (xs : List String)
    → check_command "command" xs ≡ ok tt
    → (executable : String) × (args : List String) × (xs ≡ executable ∷ args)
      × (is_blank executable ≡ false)
unfolding check_command
check_command-command [] h = cc
check_command-command (x ∷ xs) h = (x, xs, refl, ground arith)

validate-IsUnlock : (c : UnlockConfig) → validate_unlock_config c ≡ ok tt → IsUnlock c
unfolding validate_unlock_config
validate-IsUnlock c h =
    let (s, xs, named, listed, checked) =
      check_backend-eq-ok (backend_name c.unlock_backend) (text_list c.unlock_command) h in
    let (is_s, which) = backend_name-eq-some c.unlock_backend s named in
    elim which [
      | inl e ↦
          loginctl (rw e at is_s) (listed ∙ ap some (check_command-loginctl xs (rw e at checked)))
      | inr e ↦
          let (x, args, shape, full) = check_command-command xs (rw e at checked) in
          command x args (rw e at is_s) (listed ∙ ap some shape) full
    ]

IsUnlock-validate : (c : UnlockConfig) → IsUnlock c → validate_unlock_config c ≡ ok tt
unfolding validate_unlock_config check_backend check_command backend_name
IsUnlock-validate c (loginctl b l) = rw (b, l)
IsUnlock-validate c (command x args b l full) = rw (b, l, full)

check_backend-cases :
    (b : Option String) (command : Option (List String))
    → (check_backend b command ≡ ok tt) ⊎ (check_backend b command ≡ raise value_error)
unfolding check_backend check_command
check_backend-cases none xs = inr refl
check_backend-cases (some s) none = inr refl
check_backend-cases (some s) (some xs) = ground arith

-- `validate_unlock_config` accepts exactly the settings that can be carried out, and for any other it
-- raises a `ValueError`.
pub validate_unlock_config_iff :
    (c : UnlockConfig)
    → ((validate_unlock_config c ≡ ok tt) ↔ IsUnlock c)
      × ((validate_unlock_config c ≡ ok tt) ⊎ (validate_unlock_config c ≡ raise value_error))
unfolding validate_unlock_config
validate_unlock_config_iff c = (
  (validate-IsUnlock c, IsUnlock-validate c),
  check_backend-cases (backend_name c.unlock_backend) (text_list c.unlock_command),
)
