-- ===== src/Base/Keeps.antt =====
-- Invariants of actions: what an action leaves true of the world, whether it succeeds or fails.
use mathlib.Core.Path.{◌≡◌, refl}
use mathlib.Core.Bool.{Bool, true, false}
use hardline.Base.Tests.{if◌then◌else◌}
use hardline.Base.Results.{Result, ok, err}
use hardline.Base.Exec.{Exec, continue, ◌>>=◌, pure, lift, wrapping}

pub record Keeps {W E A : Type 0} (P : W → Type 0) (m : Exec W E A) : Type 0 where
  pub at : (w : W) → P w → P (m w).1

module _ {W E A : Type 0} {P : W → Type 0} where
  pub Keeps-pure : (a : A) → Keeps P (pure {W = W} {E = E} a)
  Keeps-pure a = record { at = λ w h. h }

  pub Keeps-lift : (r : Result E A) → Keeps P (lift {W = W} r)
  Keeps-lift r = record { at = λ w h. h }

  pub Keeps-if :
      (b : Bool) (m n : Exec W E A) → Keeps P m → Keeps P n → Keeps P (if b then m else n)
  Keeps-if true m n km kn = km
  Keeps-if false m n km kn = kn

  pub Keeps-wrapping :
      {F : Type 0} (f : F → E) (m : Exec W F A) → Keeps P m → Keeps P (wrapping f m)
  Keeps-wrapping f m km = record { at = km.at }

module _ {W E A B : Type 0} (P : W → Type 0) where
  -- The rest of the block may use what the first action returned, and where it left the world.
  continue-keeps :
      (r : Result E A) (f : A → Exec W E B) (w : W)
      → P w
      → ((a : A) → r ≡ ok a → P (f a w).1)
      → P (continue r f w).1
  continue-keeps (ok a) f w h kf = kf a refl
  continue-keeps (err e) f w h kf = h

  pub Keeps-bind :
      (m : Exec W E A) (f : A → Exec W E B)
      → Keeps P m
      → ((a : A) → Keeps P (f a))
      → Keeps P (m >>= f)
  Keeps-bind m f km kf = record {
    at = λ w h. continue-keeps (m w).0 f (m w).1 (km.at w h) (λ a _. (kf a).at (m w).1 (km.at w h));
  }

  pub Keeps-bind-at :
      (m : Exec W E A) (f : A → Exec W E B) (w : W)
      → P (m w).1
      → ((a : A) → (m w).0 ≡ ok a → P (f a (m w).1).1)
      → P ((m >>= f) w).1
  Keeps-bind-at m f w h kf = continue-keeps (m w).0 f (m w).1 h kf
