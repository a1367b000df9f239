-- ===== src/Authority/Selector/Meet.antt =====
-- `intersect_resource_selectors` against `resource_selector_is_subset`
-- (crates/kiteframe-provider/src/resource.rs).
use mathlib.Core.Option
use kiteframe.Base.{
  Bool, false, ◌&&◌, Option, none, some, String, Result, ok, err, char_eq, chars_eq, nat_eq, ◌≡◌,
  ◌∙◌, refl,
}
use mathlib.Core.Option.{none-ne-some}
use mathlib.Core.Bool.{and_comm}
use kiteframe.Authority.Selector.{
  ParsedSelector, parse, render, parsed_is_subset, resource_selector_is_subset, intersect_parsed,
  intersect_resource_selectors,
}
use kiteframe.Authority.Selector.Text.{IsSelector, parse-render, parse-IsSelector}
use kiteframe.Authority.Selector.Parsed.{
  subset_of, intersect_parsed-meet, intersect_parsed-IsSelector,
}

-- Whether a selector is contained in the outcome of an intersection: in no outcome but a selector.
abbrev pub contained_in : String → Result String (Option String) → Bool
contained_in candidate (ok (some selector)) = resource_selector_is_subset candidate selector
contained_in candidate (ok none) = false
contained_in candidate (err message) = false

pub not_contained :
    (candidate : String) (m : Result String (Option String)) {e : String}
    → parse candidate ≡ err e
    → contained_in candidate m ≡ false
unfolding resource_selector_is_subset
not_contained candidate (ok (some selector)) h = rw (h, resource_selector_is_subset) refl
not_contained candidate (ok none) h = refl
not_contained candidate (err e) h = refl

pub subset-parsed :
    (candidate selector : String) (c p : ParsedSelector)
    → parse candidate ≡ ok c
    → parse selector ≡ ok p
    → resource_selector_is_subset candidate selector ≡ parsed_is_subset c p
unfolding resource_selector_is_subset
subset-parsed candidate selector c p h k = rw (h, k, resource_selector_is_subset) refl

pub subset-unparsed :
    (candidate selector : String) {e : String}
    → parse selector ≡ err e
    → resource_selector_is_subset candidate selector ≡ false
unfolding resource_selector_is_subset
subset-unparsed candidate selector h = go (parse candidate) refl
  where
    go :
        (r : Result String ParsedSelector)
        → parse candidate ≡ r
        → resource_selector_is_subset candidate selector ≡ false
    go (err e) k = rw (k, resource_selector_is_subset) refl
    go (ok c) k = rw (k, h, resource_selector_is_subset) refl

contained-intersection :
    (candidate : String) (c l r : ParsedSelector)
    → parse candidate ≡ ok c
    → IsSelector l
    → IsSelector r
    → contained_in candidate (ok (Option.map render (intersect_parsed l r)))
      ≡ subset_of c (intersect_parsed l r)
unfolding Option.map
contained-intersection candidate c l r h hl hr = go (intersect_parsed l r) refl
  where
    go :
        (o : Option ParsedSelector)
        → intersect_parsed l r ≡ o
        → contained_in candidate (ok (Option.map render o)) ≡ subset_of c o
    go none e = refl
    go (some p) e =
        subset-parsed candidate (render p) c p h
          (parse-render p (intersect_parsed-IsSelector l r p hl hr e))

-- A selector is contained in the intersection of two selectors exactly when it is contained in
-- both; when an intersection fails or is empty, no selector is contained in both.
pub intersect_resource_selectors-meet :
    (candidate left right : String)
    → contained_in candidate (intersect_resource_selectors left right)
      ≡ (resource_selector_is_subset candidate left && resource_selector_is_subset candidate right)
unfolding intersect_resource_selectors
intersect_resource_selectors-meet candidate left right =
    go (parse candidate) (parse left) (parse right) refl refl refl
  where
    go :
        (pc pl pr : Result String ParsedSelector)
        → parse candidate ≡ pc
        → parse left ≡ pl
        → parse right ≡ pr
        → contained_in candidate (intersect_resource_selectors left right) ≡ (
            resource_selector_is_subset candidate left
            && resource_selector_is_subset candidate right)
    go (err e) pl pr ec el er =
        not_contained candidate (intersect_resource_selectors left right) ec
        ∙ rw (not_contained candidate (ok (some left)) ec) refl
    go (ok c) (err e) pr ec el er = rw (el, subset-unparsed candidate left el) refl
    go (ok c) (ok l) (err e) ec el er =
        rw (el, er, subset-unparsed candidate right er)
          (and_comm false (resource_selector_is_subset candidate left))
    go (ok c) (ok l) (ok r) ec el er =
        rw (el, er, subset-parsed candidate left c l ec el, subset-parsed candidate right c r ec er)
          (contained-intersection candidate c l r ec (parse-IsSelector left el).0
              (parse-IsSelector right er).0
            ∙ intersect_parsed-meet c l r)
