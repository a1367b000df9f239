-- ===== src/Base/Results.antt =====
-- `Result` with its error first, and the `?` operator as bind.
use mathlib.Core.Path.{◌≡◌, Path, refl, ap}
use mathlib.Core.Bool.{Bool, true, false}

pub data Result {ℓ κ} (E : Type ℓ) (A : Type κ) : Type (ℓ ⊔ κ) where
  ok : A → Result E A
  err : E → Result E A

infixl 5 ◌>>=◌ ◌>>◌
abbrev pub ◌>>=◌ {ℓ κ ι} :
    {E : Type ℓ} {A : Type κ} {B : Type ι} → Result E A → (A → Result E B) → Result E B
ok a >>= f = f a
err e >>= f = err e

abbrev pub ◌>>◌ {ℓ κ} : {E : Type ℓ} {B : Type κ} → Result E (Unit {0}) → Result E B → Result E B
m >> k = m >>= λ _. k

-- `if test { return Err(e) }`
abbrev pub refuse_if {ℓ} : {E : Type ℓ} → Bool → E → Result E (Unit {0})
refuse_if true e = err e
refuse_if false e = ok tt

-- `map_err`
abbrev pub map_err {ℓ κ ι} :
    {E : Type ℓ} {F : Type κ} {A : Type ι} → (E → F) → Result E A → Result F A
map_err f (ok a) = ok a
map_err f (err e) = err (f e)

pub >>=-eq_ok {ℓ κ ι} :
    {E : Type ℓ} {A : Type κ} {B : Type ι} (m : Result E A) (f : A → Result E B) {b : B}
    → (m >>= f) ≡ ok b
    → (a : A) × (m ≡ ok a) × (f a ≡ ok b)
>>=-eq_ok (ok a) f h = (a, refl, h)
>>=-eq_ok (err e) f h = cc

pub refuse_if-eq_ok {ℓ} :
    {E : Type ℓ} (test : Bool) (e : E) {u : Unit} → refuse_if test e ≡ ok u → test ≡ false
refuse_if-eq_ok true e h = cc
refuse_if-eq_ok false e h = refl

pub ok-injective {ℓ κ} :
    {E : Type ℓ} {A : Type κ} {a b : A} → Path (Result E A) (ok a) (ok b) → a ≡ b
ok-injective h = cc

pub err≢ok {ℓ κ} : {E : Type ℓ} {A : Type κ} {e : E} {a : A} → ¬ Path (Result E A) (err e) (ok a)
err≢ok h = cc

pub map_err-eq_ok {ℓ κ ι} :
    {E : Type ℓ} {F : Type κ} {A : Type ι} (f : E → F) (m : Result E A) {a : A}
    → map_err f m ≡ ok a
    → m ≡ ok a
map_err-eq_ok f (ok a) h = ap ok (ok-injective h)
map_err-eq_ok f (err e) h = absurd (err≢ok h)

-- What is given unless a test refuses.
pub unrefused {ℓ κ} :
    {E : Type ℓ} {A : Type κ} (test : Bool) (e : E) {a b : A}
    → (refuse_if test e >> ok a) ≡ ok b
    → a ≡ b
unrefused true e h = absurd (err≢ok h)
unrefused false e h = ok-injective h

-- What follows a test that does not refuse.
pub after_refusal {ℓ κ} :
    {E : Type ℓ} {B : Type κ} (test : Bool) (e : E) {k : Result E B} {b : B}
    → (refuse_if test e >> k) ≡ ok b
    → (test ≡ false) × (k ≡ ok b)
after_refusal true e h = absurd (err≢ok h)
after_refusal false e h = (refl, h)
