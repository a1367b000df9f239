-- ===== src/Authority/Selector/Preorder.antt =====
-- The subset test of resource selectors (crates/kiteframe-provider/src/resource.rs) as an order.
use mathlib.Core.Option
use kiteframe.Base.{
  true, Option, none, some, List, [], ◌∷◌, Char, String, Result, ok, err, length, char_eq, chars_eq,
  nat_eq, ◌≡◌, ◌∙◌, sym, subst, refl, arith, ==_of_eq, some_injective, and-eq_true, ok-injective,
  err≢ok,
}
use kiteframe.Authority.Selector.{
  ParsedSelector, parse, render, all_covered, parsed_is_subset, resource_selector_is_subset,
  intersect_parsed, intersect_resource_selectors,
}
use mathlib.Core.Option.{none-ne-some}
use mathlib.Core.Bool.{true≢false}
use kiteframe.Authority.Selector.Text.{IsSelector, parse-render, parse-IsSelector}
use kiteframe.Authority.Selector.Order.{covered_trans}
use kiteframe.Authority.Selector.Parsed.{
  same_shape-eq, same_shape_of_eq, intersect_parsed-IsSelector,
}
use kiteframe.Authority.Selector.Meet.{subset-parsed, subset-unparsed, not_contained}

all_covered_trans :
    (a b c : List (List Char))
    → length a ≡ length b
    → length b ≡ length c
    → all_covered a b ≡ true
    → all_covered b c ≡ true
    → all_covered a c ≡ true
unfolding all_covered
all_covered_trans [] b c h k hab hbc = refl
all_covered_trans (x ∷ a) b [] h k hab hbc = refl
all_covered_trans (x ∷ a) [] (z ∷ c) h k hab hbc = absurd (omega arith)
all_covered_trans (x ∷ a) (y ∷ b) (z ∷ c) h k hab hbc =
    let ab = and-eq_true hab in
    let bc = and-eq_true hbc in
    rw (covered_trans x y z ab.0 bc.0)
      (all_covered_trans a b c (omega arith) (omega arith) ab.1 bc.1)

all_covered_refl : (a : List (List Char)) → all_covered a a ≡ true
unfolding all_covered
all_covered_refl [] = refl
all_covered_refl (x ∷ a) = rw (==_of_eq {a = x} refl, all_covered_refl a) refl

parsed_is_subset_refl : (p : ParsedSelector) → parsed_is_subset p p ≡ true
unfolding parsed_is_subset
parsed_is_subset_refl p = rw (same_shape_of_eq p p refl refl, all_covered_refl p.segments) refl

parsed_is_subset_trans :
    (a b c : ParsedSelector)
    → parsed_is_subset a b ≡ true
    → parsed_is_subset b c ≡ true
    → parsed_is_subset a c ≡ true
unfolding parsed_is_subset
parsed_is_subset_trans a b c h k =
    let hab = and-eq_true h in
    let hbc = and-eq_true k in
    let ab = same_shape-eq a b hab.0 in
    let bc = same_shape-eq b c hbc.0 in
    rw
      (
        same_shape_of_eq a c (ab.0 ∙ bc.0) (ab.1 ∙ bc.1),
        all_covered_trans a.segments b.segments c.segments ab.1 bc.1 hab.1 hbc.1,
      )
      refl

-- Both sides of a positive answer can be read.
record Parsed (candidate allowed : String) : Type 0 where
  c : ParsedSelector
  a : ParsedSelector
  candidate_parsed : parse candidate ≡ ok c
  allowed_parsed : parse allowed ≡ ok a
  contained : parsed_is_subset c a ≡ true

subset-Parsed :
    (candidate allowed : String)
    → resource_selector_is_subset candidate allowed ≡ true
    → Parsed candidate allowed
subset-Parsed candidate allowed h = go (parse candidate) (parse allowed) refl refl
  where
    go :
        (pc pa : Result String ParsedSelector)
        → parse candidate ≡ pc
        → parse allowed ≡ pa
        → Parsed candidate allowed
    go (err e) pa ec ea =
        absurd (true≢false (sym h ∙ not_contained candidate (ok (some allowed)) ec))
    go (ok c) (err e) ec ea = absurd (true≢false (sym h ∙ subset-unparsed candidate allowed ea))
    go (ok c) (ok a) ec ea = record {
      c = c;
      a = a;
      candidate_parsed = ec;
      allowed_parsed = ea;
      contained = sym (subset-parsed candidate allowed c a ec ea) ∙ h;
    }

-- A selector that is contained in one that is contained in a third is contained in the third.
pub subset_trans :
    (a b c : String)
    → resource_selector_is_subset a b ≡ true
    → resource_selector_is_subset b c ≡ true
    → resource_selector_is_subset a c ≡ true
subset_trans a b c h k =
    let ab = subset-Parsed a b h in
    let bc = subset-Parsed b c k in
    let same = ok-injective (sym ab.allowed_parsed ∙ bc.candidate_parsed) in
    subset-parsed a c ab.c bc.a ab.candidate_parsed bc.allowed_parsed
    ∙ parsed_is_subset_trans ab.c ab.a bc.a ab.contained
        (subst (λ p. parsed_is_subset p bc.a ≡ true) (sym same) bc.contained)

-- What an intersection gives can be read, and contains itself.
pub intersection_refl :
    (left right i : String)
    → intersect_resource_selectors left right ≡ ok (some i)
    → resource_selector_is_subset i i ≡ true
unfolding intersect_resource_selectors Option.map
intersection_refl left right i h = go (parse left) (parse right) refl refl
  where
    agreed :
        (l r : ParsedSelector)
        → IsSelector l
        → IsSelector r
        → (o : Option ParsedSelector) → intersect_parsed l r ≡ o
        → Option.map render o ≡ some i
        → resource_selector_is_subset i i ≡ true
    agreed l r hl hr none e k = absurd (none-ne-some i k)
    agreed l r hl hr (some p) e k =
        let back = parse-render p (intersect_parsed-IsSelector l r p hl hr e) in
        subst (λ s. resource_selector_is_subset s s ≡ true) (some_injective k)
          (subset-parsed (render p) (render p) p p back back ∙ parsed_is_subset_refl p)

    go :
        (pl pr : Result String ParsedSelector)
        → parse left ≡ pl
        → parse right ≡ pr
        → resource_selector_is_subset i i ≡ true
    go (err e) pr el er = absurd (err≢ok {e = e} (sym (rw (el) refl) ∙ h))
    go (ok l) (err e) el er = absurd (err≢ok {e = e} (sym (rw (el, er) refl) ∙ h))
    go (ok l) (ok r) el er =
        agreed l r (parse-IsSelector left el).0 (parse-IsSelector right er).0 (intersect_parsed l r)
          refl (ok-injective (sym (rw (el, er) refl) ∙ h))
