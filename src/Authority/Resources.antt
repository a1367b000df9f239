-- ===== src/Authority/Resources.antt =====
-- The resources that several grants share: `intersect_resource_sets` and the loop over the grants
-- (crates/kiteframe-provider/src/authority.rs).
pub mod Reach
pub mod Narrow
use Prim.Native.String.{compare}
use kiteframe.Base.{
  Bool, true, false, not, ◌&&◌, ◌||◌, Option, none, some, List, [], ◌∷◌, String, Result, ok, err,
  ◌>>=◌, ◌>>◌, map_err, any, all, if◌then◌else◌, is_empty, ◌≡◌, ◌∙◌, sym, ap, refl, arith,
}
use kiteframe.Base.Ordered.{insert}
use kiteframe.Contract.Diagnostic.{Diagnostic}
use kiteframe.Contract.Capability.{EffectiveCapabilityGrant}
use kiteframe.Authority.Selector.{intersect_resource_selectors, resource_selector_is_subset}
use kiteframe.Authority.Bounds.{denied}

abbrev pub denied_by : {A : Type 0} → Result String A → Result (List Diagnostic) A
denied_by m = map_err (λ message. denied message ∷ []) m

-- `validate_selector`
unfoldable pub validate_selector : String → Result String (Unit {0})
validate_selector value = intersect_resource_selectors value value >>= λ _. ok tt

abbrev add_intersection : Option String → List String → List String
add_intersection none intersections = intersections
add_intersection (some i) intersections = insert compare i intersections

-- The inner loop of `intersect_resource_sets`, with the set collected so far.
unfoldable pub intersect_with_each :
    String → List String → List String → Result (List Diagnostic) (List String)
unfolding validate_selector
intersect_with_each left [] intersections = ok intersections
intersect_with_each left (r ∷ right) intersections = do
  denied_by (validate_selector r)
  i ← denied_by (intersect_resource_selectors left r)
  intersect_with_each left right (add_intersection i intersections)

-- The outer loop.
unfoldable pub intersect_each :
    List String → List String → List String → Result (List Diagnostic) (List String)
unfolding intersect_with_each
intersect_each [] right intersections = ok intersections
intersect_each (l ∷ left) right intersections = do
  denied_by (validate_selector l)
  more ← intersect_with_each l right intersections
  intersect_each left right more

-- `intersect_resource_sets`
unfoldable pub intersect_resource_sets :
    List String → List String → Result (List Diagnostic) (List String)
unfolding intersect_each
intersect_resource_sets left right = intersect_each left right []

-- The loop over the grants: `none` when a step leaves no resource.
unfoldable pub narrow_resources :
    List String → List EffectiveCapabilityGrant → Result (List Diagnostic) (Option (List String))
unfolding intersect_resource_sets
narrow_resources resources [] = ok (some resources)
narrow_resources resources (grant ∷ grants) = do
  narrowed ← intersect_resource_sets resources grant.resources
  if is_empty narrowed then ok none else narrow_resources narrowed grants

-- Whether a selector is contained in one of a list.
abbrev pub reaches : String → List String → Bool
reaches candidate selectors =
    any (λ allowed. resource_selector_is_subset candidate allowed) selectors
