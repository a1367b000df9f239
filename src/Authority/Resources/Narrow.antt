-- ===== src/Authority/Resources/Narrow.antt =====
-- The loop over the grants that narrows the resources (crates/kiteframe-provider/src/authority.rs).
use Prim.Native.String.{compare}
use text.Mathlib.TextEquality.{path_by_compare}
use mathlib.Core.Option.{none-ne-some}
use mathlib.Core.Bool.{or_comm, and_assoc}
use kiteframe.Base.{
  Bool, true, false, ◌&&◌, Option, none, some, List, [], ◌∷◌, String, Result, ok, all, All,
  if◌then◌else◌, is_empty, ◌≡◌, ◌∙◌, sym, ap, refl, arith, >>=-eq_ok, ok-injective, some_injective,
  and-eq_true,
}
use kiteframe.Base.Ordered.{all-insert}
use kiteframe.Contract.Diagnostic.{Diagnostic}
use kiteframe.Contract.Capability.{EffectiveCapabilityGrant}
use kiteframe.Authority.Selector.{intersect_resource_selectors, resource_selector_is_subset}
use kiteframe.Authority.Selector.Preorder.{intersection_refl}
use kiteframe.Authority.Resources.{
  add_intersection, intersect_with_each, intersect_each, intersect_resource_sets, narrow_resources,
  reaches,
}
use kiteframe.Authority.Resources.Reach.{
  is_selector, with_each_step, each_step, intersect_resource_sets-reaches,
}

-- ------------------------------------------------------------------ only selectors

all-add :
    (left right : String) (o : Option String) (acc : List String)
    → intersect_resource_selectors left right ≡ ok o
    → all is_selector acc ≡ true
    → all is_selector (add_intersection o acc) ≡ true
all-add left right none acc h k = k
all-add left right (some i) acc h k =
    all-insert compare path_by_compare is_selector i acc
    ∙ rw (intersection_refl left right i h, k) refl

all-with_each :
    (l : String) (right acc : List String) {s : List String}
    → intersect_with_each l right acc ≡ ok s
    → all is_selector acc ≡ true
    → all is_selector s ≡ true
unfolding intersect_with_each
all-with_each l [] acc h k = sym (ap (all is_selector) (ok-injective h)) ∙ k
all-with_each l (r ∷ right) acc h k =
    let step = with_each_step l r right acc h in
    all-with_each l right (add_intersection step.0 acc) step.2 (all-add l r step.0 acc step.1 k)

all-each :
    (left right acc : List String) {s : List String}
    → intersect_each left right acc ≡ ok s
    → all is_selector acc ≡ true
    → all is_selector s ≡ true
unfolding intersect_each
all-each [] right acc h k = sym (ap (all is_selector) (ok-injective h)) ∙ k
all-each (l ∷ left) right acc h k =
    let step = each_step l left right acc h in
    all-each left right step.0 step.2 (all-with_each l right acc step.1 k)

all-intersect :
    (left right : List String) {s : List String}
    → intersect_resource_sets left right ≡ ok s
    → all is_selector s ≡ true
unfolding intersect_resource_sets
all-intersect left right h = all-each left right [] h refl

-- ------------------------------------------------------------------ the loop

narrow_step :
    (resources : List String) (g : EffectiveCapabilityGrant) (gs : List EffectiveCapabilityGrant)
    {s : List String}
    → narrow_resources resources (g ∷ gs) ≡ ok (some s)
    → (narrowed : List String) × (intersect_resource_sets resources g.resources ≡ ok narrowed)
      × (narrow_resources narrowed gs ≡ ok (some s))
unfolding narrow_resources
narrow_step resources g gs {s} h =
    let a =
      >>=-eq_ok (intersect_resource_sets resources g.resources)
        (λ narrowed. if is_empty narrowed then ok none else narrow_resources narrowed gs) h in
    (a.0, a.1, not_empty (is_empty a.0) (narrow_resources a.0 gs) a.2)
  where
    not_empty :
        (b : Bool) (rest : Result (List Diagnostic) (Option (List String)))
        → (if b then ok none else rest) ≡ ok (some s)
        → rest ≡ ok (some s)
    not_empty true rest k = absurd (none-ne-some s (ok-injective k))
    not_empty false rest k = k

-- The resources that are left reach what the first set and every grant reach.
pub narrow_resources-reaches :
    (c : String) (resources : List String) (grants : List EffectiveCapabilityGrant)
    {s : List String}
    → narrow_resources resources grants ≡ ok (some s)
    → reaches c s ≡ (reaches c resources && all (λ g. reaches c g.resources) grants)
unfolding narrow_resources
narrow_resources-reaches c resources [] h =
    sym (ap (reaches c) (some_injective (ok-injective h))) ∙ and_true (reaches c resources)
  where
    and_true : (a : Bool) → a ≡ (a && true)
    and_true a = ground arith
narrow_resources-reaches c resources (g ∷ gs) h =
    let step = narrow_step resources g gs h in
    narrow_resources-reaches c step.0 gs step.2
    ∙ rw (intersect_resource_sets-reaches c resources g.resources step.1) (
        and_assoc (reaches c resources) (reaches c g.resources)
          (all (λ k. reaches c k.resources) gs))

all-narrow :
    (resources : List String) (grants : List EffectiveCapabilityGrant) {s : List String}
    → narrow_resources resources grants ≡ ok (some s)
    → all is_selector resources ≡ true
    → all is_selector s ≡ true
unfolding narrow_resources
all-narrow resources [] h k = sym (ap (all is_selector) (some_injective (ok-injective h))) ∙ k
all-narrow resources (g ∷ gs) h k =
    let step = narrow_step resources g gs h in
    all-narrow step.0 gs step.2 (all-intersect resources g.resources step.1)

-- What one grant or more leave are selectors.
pub narrow_selectors :
    (resources : List String) (g : EffectiveCapabilityGrant) (gs : List EffectiveCapabilityGrant)
    {s : List String}
    → narrow_resources resources (g ∷ gs) ≡ ok (some s)
    → all is_selector s ≡ true
narrow_selectors resources g gs h =
    let step = narrow_step resources g gs h in
    all-narrow step.0 gs step.2 (all-intersect resources g.resources step.1)

-- ------------------------------------------------------------------ a set within another

reaches_itself : (xs : List String) → all is_selector xs ≡ true → All (λ i. reaches i xs ≡ true) xs
reaches_itself [] h = tt
reaches_itself (x ∷ xs) h =
    let parts = and-eq_true {a = is_selector x} h in
    (rw (parts.0) refl, weaken xs (reaches_itself xs parts.1))
  where
    weaken :
        (ys : List String)
        → All (λ i. reaches i xs ≡ true) ys
        → All (λ i. reaches i (x ∷ xs) ≡ true) ys
    weaken [] k = tt
    weaken (y ∷ ys) k = (rw (k.0) (or_comm (resource_selector_is_subset y x) true), weaken ys k.1)

-- A set of selectors lies within every set that reaches what it reaches.
pub all_reached :
    (xs ys : List String)
    → all is_selector xs ≡ true
    → ((c : String) → reaches c xs ≡ true → reaches c ys ≡ true)
    → all (λ i. reaches i ys) xs ≡ true
all_reached xs ys h f = each xs (reaches_itself xs h)
  where
    each :
        (zs : List String) → All (λ i. reaches i xs ≡ true) zs → all (λ i. reaches i ys) zs ≡ true
    each [] k = refl
    each (z ∷ zs) k = rw (f z k.0, each zs k.1) refl
