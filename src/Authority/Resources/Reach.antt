-- ===== src/Authority/Resources/Reach.antt =====
-- What `intersect_resource_sets` (crates/kiteframe-provider/src/authority.rs) reaches.
use Prim.Native.String.{compare}
use text.Mathlib.TextEquality.{path_by_compare}
use kiteframe.Base.{
  Bool, false, ◌&&◌, ◌||◌, Option, none, some, List, [], ◌∷◌, String, ok, ◌>>=◌, ◌≡◌, ◌∙◌, sym, ap,
  refl, arith, >>=-eq_ok, map_err-eq_ok, ok-injective,
}
use kiteframe.Base.Ordered.{any-insert}
use kiteframe.Authority.Selector.{intersect_resource_selectors, resource_selector_is_subset}
use kiteframe.Authority.Selector.Meet.{contained_in, intersect_resource_selectors-meet}
use kiteframe.Authority.Resources.{
  denied_by, validate_selector, add_intersection, intersect_with_each, intersect_each,
  intersect_resource_sets, reaches,
}

-- A selector that can be read contains itself.
abbrev pub is_selector : String → Bool
is_selector s = resource_selector_is_subset s s

reaches-add :
    (c : String) (o : Option String) (acc : List String)
    → reaches c (add_intersection o acc) ≡ (contained_in c (ok o) || reaches c acc)
reaches-add c none acc = refl
reaches-add c (some i) acc =
    any-insert compare path_by_compare (λ allowed. resource_selector_is_subset c allowed) i acc

intersection-contained :
    (c l r : String) {o : Option String}
    → intersect_resource_selectors l r ≡ ok o
    → contained_in c (ok o) ≡ (resource_selector_is_subset c l && resource_selector_is_subset c r)
intersection-contained c l r h =
    sym (ap (contained_in c) h) ∙ intersect_resource_selectors-meet c l r

pub with_each_step :
    (l r : String) (right acc : List String) {s : List String}
    → intersect_with_each l (r ∷ right) acc ≡ ok s
    → (o : Option String) × (intersect_resource_selectors l r ≡ ok o)
      × (intersect_with_each l right (add_intersection o acc) ≡ ok s)
unfolding intersect_with_each
with_each_step l r right acc h =
    let a =
      >>=-eq_ok (denied_by (validate_selector r))
        (λ _. denied_by (intersect_resource_selectors l r) >>= λ i.
          intersect_with_each l right (add_intersection i acc))
        h in
    let b =
      >>=-eq_ok (denied_by (intersect_resource_selectors l r))
        (λ i. intersect_with_each l right (add_intersection i acc)) a.2 in
    (b.0, map_err-eq_ok _ (intersect_resource_selectors l r) b.1, b.2)

pub each_step :
    (l : String) (left right acc : List String) {s : List String}
    → intersect_each (l ∷ left) right acc ≡ ok s
    → (more : List String) × (intersect_with_each l right acc ≡ ok more)
      × (intersect_each left right more ≡ ok s)
unfolding intersect_each
each_step l left right acc h =
    let a =
      >>=-eq_ok (denied_by (validate_selector l))
        (λ _. intersect_with_each l right acc >>= λ more. intersect_each left right more) h in
    >>=-eq_ok (intersect_with_each l right acc) (λ more. intersect_each left right more) a.2

-- ------------------------------------------------------------------ what a set reaches

with_each-reaches :
    (c l : String) (right acc : List String) {s : List String}
    → intersect_with_each l right acc ≡ ok s
    → reaches c s ≡ (reaches c acc || resource_selector_is_subset c l && reaches c right)
unfolding intersect_with_each
with_each-reaches c l [] acc h =
    sym (ap (reaches c) (ok-injective h))
    ∙ nothing_more (reaches c acc) (resource_selector_is_subset c l)
  where
    nothing_more : (a b : Bool) → a ≡ (a || b && false)
    nothing_more a b = ground arith
with_each-reaches c l (r ∷ right) acc h =
    let step = with_each_step l r right acc h in
    with_each-reaches c l right (add_intersection step.0 acc) step.2
    ∙ rw (reaches-add c step.0 acc, intersection-contained c l r step.1)
        (regroup (reaches c acc) (resource_selector_is_subset c l) (resource_selector_is_subset c r)
          (reaches c right))
  where
    regroup : (a l r rest : Bool) → ((l && r || a) || l && rest) ≡ (a || l && (r || rest))
    regroup a l r rest = ground arith

each-reaches :
    (c : String) (left right acc : List String) {s : List String}
    → intersect_each left right acc ≡ ok s
    → reaches c s ≡ (reaches c acc || reaches c left && reaches c right)
unfolding intersect_each
each-reaches c [] right acc h = sym (ap (reaches c) (ok-injective h)) ∙ nothing_more (reaches c acc)
  where
    nothing_more : (a : Bool) → a ≡ (a || false)
    nothing_more a = ground arith
each-reaches c (l ∷ left) right acc h =
    let step = each_step l left right acc h in
    each-reaches c left right step.0 step.2
    ∙ rw (with_each-reaches c l right acc step.1) (
        regroup (reaches c acc) (resource_selector_is_subset c l) (reaches c right)
          (reaches c left))
  where
    regroup : (a l r rest : Bool) → ((a || l && r) || rest && r) ≡ (a || (l || rest) && r)
    regroup a l r rest = ground arith

-- The intersection of two resource sets reaches what both sets reach.
pub intersect_resource_sets-reaches :
    (c : String) (left right : List String) {s : List String}
    → intersect_resource_sets left right ≡ ok s
    → reaches c s ≡ (reaches c left && reaches c right)
unfolding intersect_resource_sets
intersect_resource_sets-reaches c left right h = each-reaches c left right [] h
