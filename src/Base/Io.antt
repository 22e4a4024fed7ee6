-- ===== src/Base/Io.antt =====
-- Calls that read and change a state and may throw. The state stays as it is at the throw.
use mathlib.Core.Path.{◌≡◌, ap}
use fabric_common.Base.Result.{Result, ok, err}

abbrev pub Io : Type 0 → Type 0 → Type 0 → Type 0
Io S X A = S → Result X A × S

module _ {S X A B : Type 0} where
  abbrev pub continue : Result X A × S → (A → Io S X B) → Result X B × S
  continue (ok a, s) f = f a s
  continue (err x, s) f = (err x, s)

infixl 5 ◌>>=◌
abbrev pub ◌>>=◌ : {S X A B : Type 0} → Io S X A → (A → Io S X B) → Io S X B
m >>= f = λ s. continue (m s) f

module _ {S X A : Type 0} where
  abbrev pub pure : A → Io S X A
  pure a = λ s. (ok a, s)

  abbrev pub raise : X → Io S X A
  raise x = λ s. (err x, s)

module _ {S X A B : Type 0} where
  -- What runs behind a call that returns.
  pub bind-ok :
      (m : Io S X A) (f : A → Io S X B) (s : S) {t : S} {a : A}
      → m s ≡ (ok a, t)
      → (m >>= f) s ≡ f a t
  bind-ok m f s h = ap (λ r. continue r f) h
