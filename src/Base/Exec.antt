-- ===== src/Base/Exec.antt =====
-- Code that acts on a world outside it and may fail: what was done before an error stays done, so
-- the world comes back beside the error too.
use mathlib.Core.Path.{◌≡◌, refl}
use hardline.Base.Results.{Result, ok, err}

abbrev pub Exec : Type 0 → Type 0 → Type 0 → Type 0
Exec W E A = W → Result E A × W

module _ {W E A : Type 0} where
  abbrev pub pure : A → Exec W E A
  pure a w = (ok a, w)

  abbrev pub fail : E → Exec W E A
  fail e w = (err e, w)

  abbrev pub lift : Result E A → Exec W E A
  lift r w = (r, w)

module _ {W E A B : Type 0} where
  abbrev pub continue : Result E A → (A → Exec W E B) → Exec W E B
  continue (ok a) f w = f a w
  continue (err e) f w = (err e, w)

  infixl 5 ◌>>=◌ ◌>>◌
  abbrev pub ◌>>=◌ : Exec W E A → (A → Exec W E B) → Exec W E B
  ◌>>=◌ m f w = let (r, w') = m w in continue r f w'

  abbrev pub ◌>>◌ : Exec W E A → Exec W E B → Exec W E B
  m >> k = m >>= λ _. k

abbrev pub wrap_result : {E F A : Type 0} → (F → E) → Result F A → Result E A
wrap_result f (ok a) = ok a
wrap_result f (err e) = err (f e)

module _ {W E F A : Type 0} where
  -- `if err != nil { return wrap(err) }` around a call with errors of another kind.
  abbrev pub wrapping : (F → E) → Exec W F A → Exec W E A
  wrapping f m w = let (r, w') = m w in (wrap_result f r, w')

module _ {W E A : Type 0} where
  -- `defer cleanup()`: the clean-up runs on every way out, and its own error is only logged.
  abbrev pub deferring : {F B : Type 0} → Exec W F B → Exec W E A → Exec W E A
  deferring cleanup m w = let (r, w') = m w in let (_, w'') = cleanup w' in (r, w'')

module _ {W E A B : Type 0} where
  -- A block that succeeds has gone on from the success of its first action.
  continue-ok :
      (r : Result E A) (f : A → Exec W E B) (w : W) (b : B)
      → (continue r f w).0 ≡ ok b
      → (a : A) × (r ≡ ok a) × (continue r f w ≡ f a w)
  continue-ok (ok a) f w b h = (a, refl, refl)
  continue-ok (err e) f w b h = absurd (cc)

  pub >>=-ok :
      (m : Exec W E A) (f : A → Exec W E B) (w : W) (b : B)
      → ((m >>= f) w).0 ≡ ok b
      → (a : A) × ((m w).0 ≡ ok a) × ((m >>= f) w ≡ f a (m w).1)
  >>=-ok m f w b h = continue-ok (m w).0 f (m w).1 b h

pub wrap_result-ok :
    {E F A : Type 0} {a : A} (g : F → E) (r : Result F A) → wrap_result g r ≡ ok a → r ≡ ok a
wrap_result-ok g (ok x) h = cc
wrap_result-ok g (err e) h = absurd (cc)

module _ {W E F A : Type 0} where
  pub wrapping-ok :
      {a : A} (g : F → E) (m : Exec W F A) (w : W) → (wrapping g m w).0 ≡ ok a → (m w).0 ≡ ok a
  wrapping-ok g m w h = wrap_result-ok g (m w).0 h
