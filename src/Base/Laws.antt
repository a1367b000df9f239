-- ===== src/Base/Laws.antt =====
-- What holds of the list predicates under the iterator adaptors.
use kiteframe.Base.Tests.{Bool-cases}
use kiteframe.Base.Lists.{length, any, All, Pairwise, retain, find}
use Prim.Native.Nat.{suc}
use mathlib.Core.Path.{◌≡◌, refl, sym, ap, ◌∙◌}
use mathlib.Core.Bool.{Bool, true, false}
use mathlib.Core.Logic.{inl, inr, ◌⊎◌}
use mathlib.Core.Option.{some}
use mathlib.Core.List.{List, [], ◌∷◌, ◌++◌}
use native.Mathlib.Omega.{arith}

module _ {ℓ κ} {A : Type ℓ} (P : A → Type κ) where
  pub All-append : (xs ys : List A) → All P xs → All P ys → All P (xs ++ ys)
  All-append [] ys hx hy = hy
  All-append (x ∷ xs) ys hx hy = (hx.0, All-append xs ys hx.1 hy)

  pub All-retain : (test : A → Bool) (xs : List A) → All P xs → All P (retain test xs)
  All-retain test [] h = tt
  All-retain test (x ∷ xs) h = elim (Bool-cases (test x)) [
    | inl e ↦ rw e (h.0, All-retain test xs h.1)
    | inr e ↦ rw e (All-retain test xs h.1)
  ]

module _ {ℓ κ} {A : Type ℓ} (R : A → A → Type κ) where
  pub Pairwise-append_one :
      (xs : List A) (y : A) → Pairwise R xs → All (λ x. R x y) xs → Pairwise R (xs ++ y ∷ [])
  Pairwise-append_one [] y h hy = (tt, tt)
  Pairwise-append_one (x ∷ xs) y h hy =
      (All-append (R x) xs (y ∷ []) h.0 (hy.0, tt), Pairwise-append_one xs y h.1 hy.1)

  pub Pairwise-retain :
      (test : A → Bool) (xs : List A) → Pairwise R xs → Pairwise R (retain test xs)
  Pairwise-retain test [] h = tt
  Pairwise-retain test (x ∷ xs) h = elim (Bool-cases (test x)) [
    | inl e ↦ rw e (All-retain (R x) test xs h.0, Pairwise-retain test xs h.1)
    | inr e ↦ rw e (Pairwise-retain test xs h.1)
  ]

module _ {ℓ} {A : Type ℓ} (test : A → Bool) where
  -- What a search finds is the head, or is found behind it.
  pub find-cons :
      (e x : A) (xs : List A)
      → find test (x ∷ xs) ≡ some e
      → (test x ≡ true) × (x ≡ e) ⊎ (test x ≡ false) × (find test xs ≡ some e)
  find-cons e x xs f = ground arith

module _ {ℓ} {A : Type ℓ} (test : A → Bool) where
  pub any-eq_false : (xs : List A) → any test xs ≡ false → All (λ x. test x ≡ false) xs
  any-eq_false [] h = tt
  any-eq_false (x ∷ xs) h = elim (Bool-cases (test x)) [
    | inl e ↦ cc
    | inr e ↦ (e, any-eq_false xs (sym (rw e refl) ∙ h))
  ]

  pub any-eq_false_of_All : (xs : List A) → All (λ x. test x ≡ false) xs → any test xs ≡ false
  any-eq_false_of_All [] h = refl
  any-eq_false_of_All (x ∷ xs) h = rw (h.0, any-eq_false_of_All xs h.1) refl

pub length-append_one {ℓ} :
    {A : Type ℓ} (xs : List A) (y : A) → length (xs ++ y ∷ []) ≡ suc (length xs)
length-append_one [] y = refl
length-append_one (x ∷ xs) y = ap suc (length-append_one xs y)
