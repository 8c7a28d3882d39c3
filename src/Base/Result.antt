-- ===== src/Base/Result.antt =====
-- A function that may raise: the error, or the value.
use mathlib.Core.Path.{◌≡◌, refl}
use mathlib.Core.Bool.{Bool, true, false}

pub data Raises (E A : Type 0) : Type 0 where
  err : E → Raises E A
  ok : A → Raises E A

infixl 10 ◌>>=◌ ◌>>◌
abbrev pub ◌>>=◌ : {E A B : Type 0} → Raises E A → (A → Raises E B) → Raises E B
m >>= k = elim m [ err e ↦ err e | ok a ↦ k a ]

abbrev pub ◌>>◌ : {E B : Type 0} → Raises E (Unit {0}) → Raises E B → Raises E B
m >> k = m >>= λ _. k

-- `if test: raise error`
abbrev pub raise_if : {E : Type 0} → Bool → E → Raises E (Unit {0})
raise_if true e = err e
raise_if false e = ok tt

module _ {E A : Type 0} where
  pub bind-eq-ok :
      {B : Type 0} (k : A → Raises E B) (m : Raises E A) (b : B)
      → (m >>= k) ≡ ok b
      → (a : A) × (m ≡ ok a) × (k a ≡ ok b)
  bind-eq-ok k (err e) b raised = cc
  bind-eq-ok k (ok a) b done = (a, refl, done)

  -- an error of a callee, as an error of the caller
  abbrev pub map_error : {F : Type 0} → (E → F) → Raises E A → Raises F A
  map_error f (err e) = err (f e)
  map_error f (ok a) = ok a

module _ {E : Type 0} where
  pub raise_if-eq-ok : (test : Bool) (e : E) → raise_if test e ≡ ok tt → test ≡ false
  raise_if-eq-ok true e h = cc
  raise_if-eq-ok false e h = refl

  pub ok-injective : {A : Type 0} (a b : A) → ◌≡◌ {A = Raises E A} (ok a) (ok b) → a ≡ b
  ok-injective a b h = cc
