-- ===== src/Base/Ordered.antt =====
-- `BTreeSet`, and a vector after `sort` and `dedup`: the list of the elements in ascending order,
-- without repetitions.
use Prim.Native.Nat.{Ordering}
use mathlib.Core.Path.{◌≡◌, refl, sym, ◌∙◌}
use mathlib.Core.Bool.{Bool, ◌||◌, ◌&&◌, not}
use mathlib.Core.List.{List, [], ◌∷◌}
use kiteframe.Base.Lists.{any, all}
use native.Mathlib.Omega.{arith}

or_self_left : (a b : Bool) → (a || (a || b)) ≡ (a || b)
or_self_left a b = ground arith

or_swap : (a b c : Bool) → (a || (b || c)) ≡ (b || (a || c))
or_swap a b c = ground arith

all-any :
    {A : Type 0} (test : A → Bool) (xs : List A) → all test xs ≡ not (any (λ x. not (test x)) xs)
all-any test [] = refl
all-any test (x ∷ xs) = rw (all-any test xs) (and_not (test x) (any (λ y. not (test y)) xs))
  where
    and_not : (a b : Bool) → (a && not b) ≡ not (not a || b)
    and_not a b = ground arith

-- An element in front of another one and its successors, or behind it.
abbrev place : {A : Type 0} → Ordering → A → A → List A → List A → List A
place Ordering.lt x y ys rest = x ∷ y ∷ ys
place Ordering.eq x y ys rest = y ∷ ys
place Ordering.gt x y ys rest = y ∷ rest

module _ {A : Type 0} (cmp : A → A → Ordering) where
  abbrev pub insert : A → List A → List A
  insert x [] = x ∷ []
  insert x (y ∷ ys) = place (cmp x y) x y ys (insert x ys)

  abbrev pub sort_dedup : List A → List A
  sort_dedup [] = []
  sort_dedup (x ∷ xs) = insert x (sort_dedup xs)

  module _ (faithful : (x y : A) → cmp x y ≡ Ordering.eq → x ≡ y) where
    any-place :
        (test : A → Bool) (x y : A) (ys rest : List A) (o : Ordering)
        → cmp x y ≡ o
        → any test rest ≡ any test (x ∷ ys)
        → any test (place o x y ys rest) ≡ any test (x ∷ y ∷ ys)
    any-place test x y ys rest Ordering.lt k h = refl
    any-place test x y ys rest Ordering.eq k h =
        rw (faithful x y k) (sym (or_self_left (test y) (any test ys)))
    any-place test x y ys rest Ordering.gt k h = rw (h) (or_swap (test y) (test x) (any test ys))

    pub any-insert :
        (test : A → Bool) (x : A) (xs : List A) → any test (insert x xs) ≡ any test (x ∷ xs)
    any-insert test x [] = refl
    any-insert test x (y ∷ ys) =
        any-place test x y ys (insert x ys) (cmp x y) refl (any-insert test x ys)

    pub any-sort_dedup : (test : A → Bool) (xs : List A) → any test (sort_dedup xs) ≡ any test xs
    any-sort_dedup test [] = refl
    any-sort_dedup test (x ∷ xs) =
        rw (any-insert test x (sort_dedup xs), any-sort_dedup test xs) refl

    pub all-sort_dedup : (test : A → Bool) (xs : List A) → all test (sort_dedup xs) ≡ all test xs
    all-sort_dedup test xs =
        all-any test (sort_dedup xs)
        ∙ rw (any-sort_dedup (λ x. not (test x)) xs) (sym (all-any test xs))

    pub all-insert :
        (test : A → Bool) (x : A) (xs : List A) → all test (insert x xs) ≡ all test (x ∷ xs)
    all-insert test x xs =
        all-any test (insert x xs)
        ∙ rw (any-insert (λ y. not (test y)) x xs) (sym (all-any test (x ∷ xs)))
