-- ===== src/Prelude/Results.antt =====
-- How a call ends: with a value, an error, a panic that unwinds the thread, or not yet, where the
-- rounds that were given to its loops are used up. The state survives all of these.
use mathlib.Core.Path.{◌≡◌, refl}
use mathlib.Core.Logic.{◌⊎◌, inl, inr}
use mathlib.Core.Bool.{Bool}
use mathlib.Core.Option.{Option, none, some}
use Prim.Native.Nat.{ℕ, ◌+◌, ◌^◌}
use joinstr.Prelude.Tests.{ltb, if◌then◌else◌}

pub data Outcome {ℓ κ} (E : Type ℓ) (A : Type κ) : Type (ℓ ⊔ κ) where
  ok : A → Outcome E A
  err : E → Outcome E A
  panic : Outcome E A
  unfinished : Outcome E A

pub Outcome-cases {ℓ κ} :
    {E : Type ℓ} {A : Type κ} (r : Outcome E A)
    → ((a : A) × (r ≡ ok a)) ⊎ ((e : E) × (r ≡ err e)) ⊎ (r ≡ panic) ⊎ (r ≡ unfinished)
Outcome-cases (ok a) = inl (a, refl)
Outcome-cases (err e) = inr (inl (e, refl))
Outcome-cases panic = inr (inr (inl refl))
Outcome-cases unfinished = inr (inr (inr refl))

-- A method on `&mut S`: what it returns, and the object afterwards.
abbrev pub Action {ℓ κ μ} : Type ℓ → Type κ → Type μ → Type (ℓ ⊔ κ ⊔ μ)
Action S E A = S → Outcome E A × S

module _ {ℓ κ μ} {S : Type ℓ} {E : Type κ} {A : Type μ} where
  unfoldable pub pure : A → Action S E A
  pure a s = (ok a, s)

  unfoldable pub throw : E → Action S E A
  throw e s = (err e, s)

  unfoldable pub gets : (S → A) → Action S E A
  gets f s = (ok (f s), s)

  -- `o.ok_or(e)?`
  unfoldable pub ok_or : Option A → E → Action S E A
  unfolding throw pure
  ok_or none e = throw e
  ok_or (some a) e = pure a

module _ {κ μ} {E : Type κ} {A : Type μ} where
  -- `r?`
  unfoldable pub yields {ℓ} : {S : Type ℓ} → Outcome E A → Action S E A
  yields r s = (r, s)

  -- The conversion of an error that `?` makes.
  abbrev pub map_err {ℓ} : {F : Type ℓ} → (E → F) → Outcome E A → Outcome F A
  map_err f (ok a) = ok a
  map_err f (err e) = err (f e)
  map_err f panic = panic
  map_err f unfinished = unfinished

  -- `o.ok_or(e)`
  abbrev pub ok_or_err : Option A → E → Outcome E A
  ok_or_err none e = err e
  ok_or_err (some a) e = ok a

-- `a.checked_add(b)` on `u64`
unfoldable pub checked_add : ℕ → ℕ → Option ℕ
checked_add a b = if ltb (a + b) (2 ^ 64) then some (a + b) else none

module _ {ℓ κ} {S : Type ℓ} {E : Type κ} where
  unfoldable pub modify : (S → S) → Action S E (Unit {0})
  modify f s = (ok tt, f s)

  -- `if c { return Err(e) }`
  unfoldable pub throw_if : Bool → E → Action S E (Unit {0})
  throw_if c e s = (if c then err e else ok tt, s)

infixl 5 ◌>>=◌ ◌>>◌
unfoldable pub ◌>>=◌ {ℓ κ μ ν} :
    {S : Type ℓ} {E : Type κ} {A : Type μ} {B : Type ν}
    → Action S E A
    → (A → Action S E B)
    → Action S E B
◌>>=◌ m f s =
    let (r, s') = m s in
    elim r [
      | ok a ↦ f a s'
      | err e ↦ (err e, s')
      | panic ↦ (panic, s')
      | unfinished ↦ (unfinished, s')
    ]

unfoldable pub ◌>>◌ {ℓ κ ν} :
    {S : Type ℓ} {E : Type κ} {B : Type ν} → Action S E (Unit {0}) → Action S E B → Action S E B
unfolding ◌>>=◌ pure throw gets ok_or yields modify throw_if
m >> k = m >>= λ _. k
