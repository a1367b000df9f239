-- ===== src/Authority/Intersect/Preconditions.antt =====
-- The preconditions of an intersected grant (crates/kiteframe-provider/src/authority.rs): their
-- order, joining and sorting.
use Prim.Native.Nat.{Ordering, compare as compare_ℕ}
use Prim.Native.String.{compare, then as first_of}
use text.Mathlib.TextEquality.{path_by_compare}
use kiteframe.Base.{Bool, true, List, ◌++◌, All, ◌==◌, ◌≡◌, ◌∙◌, arith}
use kiteframe.Base.Ordered.{sort_dedup, any-sort_dedup}
use kiteframe.Base.Within.{
  member, within, within_refl, within_trans, within-append_left, within-append_right, all_weaken,
}
use kiteframe.Contract.Capability.{
  PreconditionKind, PreconditionDescriptor, EffectiveCapabilityGrant, precondition_eq,
}
use kiteframe.Authority.Bounds.{compare_precondition, kind_rank, flag_rank}
use kiteframe.Authority.Intersect.{all_preconditions}
use kiteframe.Authority.Intersect.Bounded.{meet_all_start, meet_all_each}

first_of-eq : (o p : Ordering) → first_of o p ≡ Ordering.eq → (o ≡ Ordering.eq) × (p ≡ Ordering.eq)
first_of-eq o p h = ground arith

kind_rank-injective :
    (k l : PreconditionKind) → compare_ℕ (kind_rank k) (kind_rank l) ≡ Ordering.eq → k ≡ l
kind_rank-injective k l h = ground arith

flag_rank-injective : (a b : Bool) → compare_ℕ (flag_rank a) (flag_rank b) ≡ Ordering.eq → a ≡ b
flag_rank-injective a b h = ground arith

-- Preconditions that compare equal are equal.
faithful : (a b : PreconditionDescriptor) → compare_precondition a b ≡ Ordering.eq → a ≡ b
unfolding compare_precondition
faithful a b h =
    let names = first_of-eq (compare a.name b.name) _ h in
    let rest = first_of-eq (compare_ℕ (kind_rank a.kind) (kind_rank b.kind)) _ names.1 in
    let kinds = kind_rank-injective a.kind b.kind rest.0 in
    let flags = flag_rank-injective a.required b.required rest.1 in
    let texts = path_by_compare a.name b.name names.0 in
    λ i. record { name = texts i; kind = kinds i; required = flags i }

pub within-sorted :
    (xs ys : List PreconditionDescriptor)
    → within xs ys ≡ true
    → within xs (sort_dedup compare_precondition ys) ≡ true
within-sorted xs ys h =
    all_weaken (λ x. member x ys) (λ x. member x (sort_dedup compare_precondition ys)) xs
      (λ x m. any-sort_dedup compare_precondition faithful (λ y. y == x) ys ∙ m) h

-- A longer list of preconditions is the stricter one.
abbrev demands : List PreconditionDescriptor → List PreconditionDescriptor → Bool
demands xs ys = within ys xs

module _ (ps : List PreconditionDescriptor) (gs : List EffectiveCapabilityGrant) where
  pub preconditions_start : within ps (all_preconditions ps gs) ≡ true
  unfolding all_preconditions
  preconditions_start =
      meet_all_start demands within_refl (λ a b c h k. within_trans c b a k h) (λ xs ys. xs ++ ys)
        within-append_left within-append_right (λ g. g.preconditions) ps gs

  pub preconditions_each : All (λ g. within g.preconditions (all_preconditions ps gs) ≡ true) gs
  unfolding all_preconditions
  preconditions_each =
      meet_all_each demands within_refl (λ a b c h k. within_trans c b a k h) (λ xs ys. xs ++ ys)
        within-append_left within-append_right (λ g. g.preconditions) ps gs
