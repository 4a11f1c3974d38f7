-- ===== src/Base/Fallible.antt =====
-- `Result<A, E>`, its error type first, and checks in sequence.
use mathlib.Core.Path.{◌≡◌, refl, ap}
use mathlib.Core.Logic.{◌≢◌, ◌⊎◌, inl, inr}
use mathlib.Core.Bool.{Bool, true, false}

pub data Result {ℓ κ} (E : Type ℓ) (A : Type κ) : Type (ℓ ⊔ κ) where
  ok : A → Result E A
  err : E → Result E A

unwrap : {E A : Type 0} → A → Result E A → A
unwrap a (ok b) = b
unwrap a (err e) = a

pub ok_inj : {E A : Type 0} {a b : A} → ◌≡◌ {A = Result E A} (ok a) (ok b) → a ≡ b
unfolding unwrap
ok_inj {a} h = ap (unwrap a) h

pub ok_not_err : {E A : Type 0} {e : E} {a : A} → ok a ≢ err e
ok_not_err h = cc

-- A check that passes with `ok tt`.
abbrev pub Check {ℓ} : Type ℓ → Type ℓ
Check E = Result E (Unit {0})

abbrev pub check {ℓ} : {E : Type ℓ} → Bool → E → Check E
check true e = ok tt
check false e = err e

infixr 30 ◌&>◌
-- `?` between two checks.
abbrev pub ◌&>◌ {ℓ} : {E : Type ℓ} → Check E → Check E → Check E
ok t &> r = r
err e &> r = err e

pub &>-ok {ℓ} : {E : Type ℓ} (a b : Check E) → (a &> b) ≡ ok tt → (a ≡ ok tt) × (b ≡ ok tt)
&>-ok (ok tt) b h = (refl, h)
&>-ok (err e) b h = absurd (cc)

pub check-ok {ℓ} : {E : Type ℓ} (b : Bool) (e : E) → check b e ≡ ok tt → b ≡ true
check-ok true e h = refl
check-ok false e h = absurd (cc)

pub check-&> {ℓ} :
    {E : Type ℓ} (b : Bool) (e : E) (r : Check E)
    → (check b e &> r) ≡ ok tt
    → (b ≡ true) × (r ≡ ok tt)
check-&> true e r h = (refl, h)
check-&> false e r h = absurd (cc)

pub Result-cases {ℓ κ} :
    {E : Type ℓ} {A : Type κ} (r : Result E A) → ((a : A) × (r ≡ ok a)) ⊎ ((e : E) × (r ≡ err e))
Result-cases (ok a) = inl (a, refl)
Result-cases (err e) = inr (e, refl)
