-- ===== src/Base/Within.antt =====
-- Membership and inclusion of lists, as `contains` and `is_subset` decide them.
use mathlib.Core.Path.{◌≡◌, refl, sym, ap, ◌∙◌, subst}
use mathlib.Core.Bool.{Bool, true, ◌||◌, or_comm}
use mathlib.Core.Logic.{inl, inr}
use mathlib.Core.List.{List, [], ◌∷◌, ◌++◌}
use kiteframe.Base.Tests.{Bool-cases, and-eq_true}
use kiteframe.Base.Lists.{any, all, retain, Elem}
use kiteframe.Base.Equality.{Eq, ◌==◌, eq_of_==, ==_of_eq}
use native.Mathlib.Omega.{arith}

module _ {A : Type 0} where
  -- `any` and `all` as quantifiers over the elements.
  pub any-Elem : (t : A → Bool) (xs : List A) → any t xs ≡ true → (x : A) × Elem x xs × (t x ≡ true)
  any-Elem t [] h = cc
  any-Elem t (x ∷ xs) h = elim (Bool-cases (t x)) [
    | inl holds ↦ (x, inl refl, holds)
    | inr fails ↦ let (y, e, holds) = any-Elem t xs (sym (rw (fails) refl) ∙ h) in (y, inr e, holds)
  ]

  pub any_of_Elem : (t : A → Bool) (x : A) (xs : List A) → Elem x xs → t x ≡ true → any t xs ≡ true
  any_of_Elem t x [] e h = absurd e
  any_of_Elem t x (y ∷ ys) (inl same) h = rw (ap t same ∙ h) refl
  any_of_Elem t x (y ∷ ys) (inr e) h = rw (any_of_Elem t x ys e h) (or_comm (t y) true)

  pub all-Elem : (t : A → Bool) (x : A) (xs : List A) → all t xs ≡ true → Elem x xs → t x ≡ true
  all-Elem t x [] h e = absurd e
  all-Elem t x (y ∷ ys) h (inl same) = ap t (sym same) ∙ (and-eq_true {a = t y} h).0
  all-Elem t x (y ∷ ys) h (inr e) = all-Elem t x ys (and-eq_true {a = t y} h).1 e

  pub all_of_Elem :
      (t : A → Bool) (xs : List A) → ((x : A) → Elem x xs → t x ≡ true) → all t xs ≡ true
  all_of_Elem t [] f = refl
  all_of_Elem t (x ∷ xs) f = rw (f x (inl refl), all_of_Elem t xs (λ y e. f y (inr e))) refl

  pub all_weaken :
      (t u : A → Bool) (xs : List A)
      → ((x : A) → t x ≡ true → u x ≡ true)
      → all t xs ≡ true
      → all u xs ≡ true
  all_weaken t u [] f h = refl
  all_weaken t u (x ∷ xs) f h =
      let parts = and-eq_true {a = t x} h in rw (f x parts.0, all_weaken t u xs f parts.1) refl

  pub any-append : (t : A → Bool) (xs ys : List A) → any t (xs ++ ys) ≡ (any t xs || any t ys)
  any-append t [] ys = refl
  any-append t (x ∷ xs) ys = rw (any-append t xs ys) (or_assoc (t x) (any t xs) (any t ys))
    where
      or_assoc : (a b c : Bool) → (a || (b || c)) ≡ ((a || b) || c)
      or_assoc a b c = ground arith

module _ {A : Type 0} ⦃e : Eq A⦄ where
  abbrev pub member : A → List A → Bool
  member x ys = any (λ y. y == x) ys

  abbrev pub within : List A → List A → Bool
  within xs ys = all (λ x. member x ys) xs

  member-all :
      (t : A → Bool) (x : A) (ys : List A) → member x ys ≡ true → all t ys ≡ true → t x ≡ true
  member-all t x [] h k = cc
  member-all t x (y ∷ ys) h k =
      let parts = and-eq_true {a = t y} k in
      elim (Bool-cases (y == x)) [
        | inl same ↦ subst (λ z. t z ≡ true) (eq_of_== same) parts.0
        | inr other ↦ member-all t x ys (sym (rw (other) refl) ∙ h) parts.1
      ]

  within_cons : (x : A) (xs ys : List A) → within xs ys ≡ true → within xs (x ∷ ys) ≡ true
  within_cons x xs ys h =
      all_weaken (λ z. member z ys) (λ z. member z (x ∷ ys)) xs
        (λ z k. rw (k) (or_comm (x == z) true)) h

  pub within_refl : (xs : List A) → within xs xs ≡ true
  within_refl [] = refl
  within_refl (x ∷ xs) = rw (==_of_eq {a = x} refl, within_cons x xs xs (within_refl xs)) refl

  pub within_trans :
      (xs ys zs : List A) → within xs ys ≡ true → within ys zs ≡ true → within xs zs ≡ true
  within_trans xs ys zs h k =
      all_weaken (λ x. member x ys) (λ x. member x zs) xs
        (λ x m. member-all (λ y. member y zs) x ys m k) h

  pub within-append_left : (xs ys : List A) → within xs (xs ++ ys) ≡ true
  within-append_left xs ys =
      all_weaken (λ x. member x xs) (λ x. member x (xs ++ ys)) xs
        (λ x m. any-append (λ y. y == x) xs ys ∙ rw (m) refl) (within_refl xs)

  pub within-append_right : (xs ys : List A) → within ys (xs ++ ys) ≡ true
  within-append_right xs ys =
      all_weaken (λ y. member y ys) (λ y. member y (xs ++ ys)) ys
        (λ y m. any-append (λ z. z == y) xs ys ∙ rw (m) (or_comm (member y xs) true))
        (within_refl ys)

  pub all-retain : (t : A → Bool) (xs : List A) → all t (retain t xs) ≡ true
  all-retain t [] = refl
  all-retain t (x ∷ xs) = elim (Bool-cases (t x)) [
    | inl y ↦ rw (y) (rw (y, all-retain t xs) refl)
    | inr n ↦ rw (n) (all-retain t xs)
  ]

  pub within-retain : (t : A → Bool) (xs : List A) → within (retain t xs) xs ≡ true
  within-retain t [] = refl
  within-retain t (x ∷ xs) =
      let rest = within_cons x (retain t xs) xs (within-retain t xs) in
      elim (Bool-cases (t x)) [ inl y ↦ rw (y, ==_of_eq {a = x} refl) rest | inr n ↦ rw (n) rest ]
