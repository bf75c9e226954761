-- ===== src/Python/Results.antt =====
-- Lemmas on results.
use phonect.Prelude.{◌≡◌, refl, arith}
use phonect.Python.Raise.{Result, ok, raise, ◌>>=◌}

-- Whatever a result returns satisfies the predicate.
abbrev pub Ensures : {A : Type 0} → (A → Type 0) → Result A → Type 0
Ensures {A} P q = (a : A) → q ≡ ok a → P a

pub >>=-Ensures :
    {A B : Type 0} (P : B → Type 0) (m : Result A) (f : A → Result B)
    → ((a : A) → m ≡ ok a → Ensures P (f a))
    → Ensures P (m >>= f)
>>=-Ensures P (ok a) f h b e = h a refl b e
>>=-Ensures P (raise x) f h b e = cc

pub ok_injective : {A : Type 0} {a b : A} → ok a ≡ ok b → a ≡ b
ok_injective h = ground arith
