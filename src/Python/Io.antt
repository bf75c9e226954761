-- ===== src/Python/Io.antt =====
-- Methods that read and write the world and may raise. What was done before a raise stays done, so
-- the world comes back beside the exception too.
use phonect.Prelude.{◌≡◌, refl}
use phonect.Python.Raise.{Exception, Result, ok, raise}

abbrev pub Io {ℓ} : Type ℓ → Type ℓ → Type ℓ
Io W A = W → Result A × W

module _ {ℓ} {W A : Type ℓ} where
  abbrev pub pure : A → Io W A
  pure a w = (ok a, w)

  abbrev pub throw : Exception → Io W A
  throw e w = (raise e, w)

  -- a computation that does not touch the world
  abbrev pub lift : Result A → Io W A
  lift r w = (r, w)

  -- `try: m` with the handler given by the exception
  abbrev pub handle : Result A × W → (Exception → Io W A) → Result A × W
  handle (ok a, w) h = (ok a, w)
  handle (raise e, w) h = h e w

  abbrev pub catch : Io W A → (Exception → Io W A) → Io W A
  catch m h w = handle (m w) h

module _ {ℓ} {W A B : Type ℓ} where
  abbrev pub continue : Result A × W → (A → Io W B) → Result B × W
  continue (ok a, w) f = f a w
  continue (raise e, w) f = (raise e, w)

  infixl 5 ◌>>=◌ ◌>>◌
  abbrev pub ◌>>=◌ : Io W A → (A → Io W B) → Io W B
  ◌>>=◌ m f w = continue (m w) f

  abbrev pub ◌>>◌ : Io W A → Io W B → Io W B
  m >> n = m >>= λ _. n

  -- Inversion of a bind that returns.
  pub continue-eq-ok :
      (p : Result A × W) (f : A → Io W B) {b : B}
      → (continue p f).0 ≡ ok b
      → (a : A) × (w : W) × (p ≡ (ok a, w)) × ((f a w).0 ≡ ok b)
  continue-eq-ok (ok a, w) f h = (a, w, refl, h)
  continue-eq-ok (raise e, w) f h = cc

  -- The same for a bind that returns in a world.
  pub continue-eq :
      (p : Result A × W) (f : A → Io W B) {b : B} {v : W}
      → continue p f ≡ (ok b, v)
      → (a : A) × (w : W) × (p ≡ (ok a, w)) × (f a w ≡ (ok b, v))
  continue-eq (ok a, w) f h = (a, w, refl, h)
  continue-eq (raise e, w) f h = cc
