-- ===== src/Authority/Selector/Parsed.antt =====
-- The intersection of parsed selectors (crates/kiteframe-provider/src/resource.rs): its shape, its
-- segments and what it contains.
use mathlib.Core.Option
use kiteframe.Base.{
  Bool, true, false, ◌&&◌, Option, none, some, List, [], ◌∷◌, Char, suc, any, All, length, char_eq,
  chars_eq, nat_eq, ◌≡◌, ◌∙◌, sym, ap, subst, refl, Bool-cases, inl, inr, arith, ==_of_eq,
  some_injective,
}
use mathlib.Core.Option.{none-ne-some}
use mathlib.Core.Bool.{and_comm, true≢false}
use kiteframe.Base.Laws.{any-eq_false, any-eq_false_of_All}
use kiteframe.Authority.Selector.{
  ParsedSelector, is_separator, placeholder, contains, is_partial_wildcard, all_covered, same_shape,
  parsed_is_subset, intersect_segments, intersect_parsed,
}
use kiteframe.Authority.Selector.Text.{IsSegment, IsWoven, IsSelector}
use kiteframe.Authority.Selector.Order.{
  covered_by, all_covered-intersect, length-intersect, intersect-All,
}

pub same_shape-eq :
    (p q : ParsedSelector)
    → same_shape p q ≡ true
    → (p.separators ≡ q.separators) × (length p.segments ≡ length q.segments)
unfolding same_shape
same_shape-eq p q h = ground arith

pub same_shape_of_eq :
    (p q : ParsedSelector)
    → p.separators ≡ q.separators
    → length p.segments ≡ length q.segments
    → same_shape p q ≡ true
unfolding same_shape
same_shape_of_eq p q h k = rw (==_of_eq h, ==_of_eq k) refl

parts_of_woven :
    (segments : List (List Char)) (separators : List Char)
    → IsWoven segments separators
    → All IsSegment segments
      × (length segments ≡ suc (length separators))
      × All (λ c. is_separator c ≡ true) separators
parts_of_woven [] separators h = elim h [ ]
parts_of_woven (s ∷ t ∷ segments) [] h = elim h [ ]
parts_of_woven (s ∷ []) separators h = rw (h.1) ((h.0, tt), refl, tt)
parts_of_woven (s ∷ t ∷ segments) (c ∷ separators) h =
    let rest = parts_of_woven (t ∷ segments) separators h.2 in
    ((h.0, rest.0), ap suc rest.1, (h.1, rest.2))

IsWoven-of_parts :
    (segments : List (List Char)) (separators : List Char)
    → All IsSegment segments
    → length segments ≡ suc (length separators)
    → All (λ c. is_separator c ≡ true) separators
    → IsWoven segments separators
IsWoven-of_parts [] separators hs k hc = absurd (omega arith)
IsWoven-of_parts (s ∷ []) [] hs k hc = (hs.0, refl)
IsWoven-of_parts (s ∷ []) (c ∷ separators) hs k hc = absurd (omega arith)
IsWoven-of_parts (s ∷ t ∷ segments) [] hs k hc = absurd (omega arith)
IsWoven-of_parts (s ∷ t ∷ segments) (c ∷ separators) hs k hc =
    (hs.0, hc.0, IsWoven-of_parts (t ∷ segments) separators hs.1 (omega arith) hc.1)

-- Two selectors of one shape agree on a selector.
intersect-IsSelector :
    (l r : ParsedSelector) {s : List (List Char)}
    → IsSelector l
    → IsSelector r
    → same_shape l r ≡ true
    → intersect_segments l.segments r.segments ≡ some s
    → IsSelector (record { segments = s; separators = l.separators })
intersect-IsSelector l r {s} hl hr h e =
    let left = parts_of_woven l.segments l.separators hl.0 in
    let right = parts_of_woven r.segments r.separators hr.0 in
    let size = length-intersect l.segments r.segments s e (same_shape-eq l r h).1 in
    (
      IsWoven-of_parts s l.separators
          (intersect-All IsSegment l.segments r.segments s e left.0 right.0) (size ∙ left.1) left.2,
      none_such is_partial_wildcard hl.1 hr.1,
      none_such (contains placeholder) hl.2 hr.2,
    )
  where
    none_such :
        (test : List Char → Bool)
        → any test l.segments ≡ false
        → any test r.segments ≡ false
        → any test s ≡ false
    none_such test a b = any-eq_false_of_All test s (
        intersect-All (λ x. test x ≡ false) l.segments r.segments s e
          (any-eq_false test l.segments a) (any-eq_false test r.segments b))

abbrev pub subset_of : ParsedSelector → Option ParsedSelector → Bool
subset_of c none = false
subset_of c (some p) = parsed_is_subset c p

-- The shapes agree wherever both contain the candidate.
shapes_differ :
    (c l r : ParsedSelector)
    → same_shape l r ≡ false
    → (parsed_is_subset c l && parsed_is_subset c r) ≡ false
unfolding parsed_is_subset
shapes_differ c l r h = elim (Bool-cases (same_shape c l)) [
  | inr n ↦ rw (n) refl
  | inl y ↦ elim (Bool-cases (same_shape c r)) [
    | inr n ↦ rw (n) (and_comm (same_shape c l && all_covered c.segments l.segments) false)
    | inl z ↦
        let cl = same_shape-eq c l y in
        let cr = same_shape-eq c r z in
        let lr = same_shape_of_eq l r (sym cl.0 ∙ cr.0) (sym cl.1 ∙ cr.1) in
        absurd (true≢false (sym lr ∙ h))
  ]
]

shapes_agree :
    (c l r : ParsedSelector) (o : Option (List (List Char)))
    → same_shape l r ≡ true
    → intersect_segments l.segments r.segments ≡ o
    → subset_of c (Option.map (λ s. record { segments = s; separators = l.separators }) o)
      ≡ (same_shape c l && covered_by c.segments o)
unfolding parsed_is_subset same_shape Option.map
shapes_agree c l r none h e = and_comm false (same_shape c l)
shapes_agree c l r (some s) h e =
    rw (length-intersect l.segments r.segments s e (same_shape-eq l r h).1) refl

both_shapes :
    (c l r : ParsedSelector)
    → same_shape l r ≡ true
    → (same_shape c l && covered_by c.segments (intersect_segments l.segments r.segments))
      ≡ (parsed_is_subset c l && parsed_is_subset c r)
unfolding parsed_is_subset
both_shapes c l r h =
    let lr = same_shape-eq l r h in
    elim (Bool-cases (same_shape c l)) [
      | inr n ↦ rw (n) refl
      | inl y ↦
          let cl = same_shape-eq c l y in
          let cr = same_shape_of_eq c r (cl.0 ∙ lr.0) (cl.1 ∙ lr.1) in
          rw (y, cr) (all_covered-intersect c.segments l.segments r.segments cl.1 lr.1)
    ]

-- A selector is contained in the intersection exactly when it is contained in both.
pub intersect_parsed-meet :
    (c l r : ParsedSelector)
    → subset_of c (intersect_parsed l r) ≡ (parsed_is_subset c l && parsed_is_subset c r)
unfolding intersect_parsed
intersect_parsed-meet c l r = elim (Bool-cases (same_shape l r)) [
  | inr n ↦ rw (n) (sym (shapes_differ c l r n))
  | inl y ↦
      rw (y)
        (shapes_agree c l r (intersect_segments l.segments r.segments) y refl ∙ both_shapes c l r y)
]

pub intersect_parsed-IsSelector :
    (l r p : ParsedSelector)
    → IsSelector l
    → IsSelector r
    → intersect_parsed l r ≡ some p
    → IsSelector p
unfolding intersect_parsed Option.map
intersect_parsed-IsSelector l r p hl hr e = elim (Bool-cases (same_shape l r)) [
  | inr n ↦ absurd (none-ne-some p (sym (rw (n) refl) ∙ e))
  | inl y ↦ go (intersect_segments l.segments r.segments) y refl (sym (rw (y) refl) ∙ e)
]
  where
    go :
        (o : Option (List (List Char)))
        → same_shape l r ≡ true
        → intersect_segments l.segments r.segments ≡ o
        → Option.map (λ s. record { segments = s; separators = l.separators }) o ≡ some p
        → IsSelector p
    go none y h k = absurd (none-ne-some p k)
    go (some s) y h k = subst IsSelector (some_injective k) (intersect-IsSelector l r hl hr y h)
