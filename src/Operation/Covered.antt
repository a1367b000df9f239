-- ===== src/Operation/Covered.antt =====
-- What `validate_current_authorization` (crates/kiteframe-provider/src/operation.rs) asks of an
-- allow.
use kiteframe.Base.{
  not-eq_false, ℕ, ◌≡◌, ◌<◌, ◌↔◌, refl, sym, ◌∙◌, Bool, true, false, not, ◌||◌, String, List, ◌++◌,
  ok, after_refusal, all, leb, ◌==◌, string_eq, Elem, arith, eq_of_==, ==_of_eq,
}
use kiteframe.Base.Within.{any-Elem, any_of_Elem, all-Elem, all_of_Elem}
use kiteframe.Contract.Refs.{NormalizedResourceSelector, Timestamp}
use kiteframe.Contract.Capability.{PreconditionDescriptor}
use kiteframe.Authority.Selector.{resource_selector_is_subset}
use kiteframe.Authorization.{AuthorityRevisionSet, NarrowedAuthorizationConditions, allow}
use kiteframe.Operation.{
  Precondition, InvocationContext, is_granted, is_supplied, validate_current_authorization,
}

-- A selector reaches no further than one of the given ones.
abbrev pub IsGranted : NormalizedResourceSelector → List NormalizedResourceSelector → Type 0
IsGranted selected resources =
    (granted : NormalizedResourceSelector) × Elem granted resources
    × (resource_selector_is_subset selected granted ≡ true)

pub is_granted_iff :
    (selected : NormalizedResourceSelector) (resources : List NormalizedResourceSelector)
    → (is_granted selected resources ≡ true) ↔ IsGranted selected resources
is_granted_iff selected resources = (
  any-Elem (λ granted. resource_selector_is_subset selected granted) resources,
  λ (granted, e, h).
      any_of_Elem (λ granted. resource_selector_is_subset selected granted) granted resources e h,
)

in_time :
    (a b c d : ℕ) (g : Bool)
    → (leb a d || leb b d || leb c d || not g) ≡ false
    → (d < a) × (d < b) × (d < c) × (g ≡ true)
in_time a b c d g h = (ground arith, ground arith, ground arith, ground arith)

timely :
    (a b c d : ℕ) (g : Bool)
    → d < a
    → d < b
    → d < c
    → g ≡ true
    → (leb a d || leb b d || leb c d || not g) ≡ false
timely a b c d g x y z h = ground arith

module _ {Value : Type 0} where
  -- A precondition is supplied, if it is required.
  abbrev pub IsSupplied : List (Precondition Value) → PreconditionDescriptor → Type 0
  IsSupplied supplied descriptor =
      descriptor.required ≡ true
      → (precondition : Precondition Value) × Elem precondition supplied
        × (precondition.name ≡ descriptor.name)

  is_supplied_iff :
      (supplied : List (Precondition Value)) (descriptor : PreconditionDescriptor)
      → (is_supplied supplied descriptor ≡ true) ↔ IsSupplied supplied descriptor
  is_supplied_iff supplied descriptor = (there, back descriptor.required refl)
    where
      there : is_supplied supplied descriptor ≡ true → IsSupplied supplied descriptor
      there h r =
          let (p, e, same) =
            any-Elem (λ (p : Precondition Value). p.name == descriptor.name) supplied
              (sym (rw (r) refl) ∙ h) in
          (p, e, eq_of_== same)

      back :
          (b : Bool)
          → descriptor.required ≡ b
          → IsSupplied supplied descriptor
          → is_supplied supplied descriptor ≡ true
      back false r f = rw (r) refl
      back true r f =
          let (p, e, same) = f r in
          rw (r) (
            any_of_Elem (λ (p : Precondition Value). p.name == descriptor.name) p supplied e
              (==_of_eq same))

  -- An allow in time, for a resource that covers the selected one, with every required
  -- precondition of the grant and of its conditions supplied.
  pub record IsCovered (context : InvocationContext) (decided_at : Timestamp)
      (conditions : NarrowedAuthorizationConditions) (supplied : List (Precondition Value))
      : Type 0 where
    pub before_principals : decided_at < context.principals.expires_at
    pub before_grant : decided_at < context.effective_grant.expires_at
    pub before_conditions : decided_at < conditions.expires_at
    pub grants : IsGranted context.selected_resource conditions.resources
    pub supplies :
        (descriptor : PreconditionDescriptor)
        → Elem descriptor
            (context.effective_grant.preconditions ++ conditions.required_preconditions)
        → IsSupplied supplied descriptor

  validate_current_authorization-IsCovered :
      (context : InvocationContext) (reference : String) (revisions : AuthorityRevisionSet)
      (decided_at : Timestamp) (conditions : NarrowedAuthorizationConditions)
      (supplied : List (Precondition Value))
      → validate_current_authorization context
          (allow reference revisions decided_at conditions)
          supplied
        ≡ ok tt
      → IsCovered context decided_at conditions supplied
  unfolding validate_current_authorization
  validate_current_authorization-IsCovered context reference revisions decided_at conditions
        supplied h =
      let granted = is_granted context.selected_resource conditions.resources in
      let all_required =
        context.effective_grant.preconditions ++ conditions.required_preconditions in
      let first =
        after_refusal
          (leb context.principals.expires_at decided_at
            || leb context.effective_grant.expires_at decided_at
            || leb conditions.expires_at decided_at
            || not granted)
          _ h in
      let times =
        in_time context.principals.expires_at context.effective_grant.expires_at
          conditions.expires_at decided_at granted first.0 in
      let second = after_refusal (not (all (is_supplied supplied) all_required)) _ first.1 in
      record {
        before_principals = times.0;
        before_grant = times.1;
        before_conditions = times.2;
        grants = (is_granted_iff context.selected_resource conditions.resources).0 times.3;
        supplies = λ descriptor e. (is_supplied_iff supplied descriptor).0 (
            all-Elem (is_supplied supplied) descriptor all_required
              (not-eq_false (all (is_supplied supplied) all_required) second.0) e);
      }

  validate_current_authorization-of_IsCovered :
      (context : InvocationContext) (reference : String) (revisions : AuthorityRevisionSet)
      (decided_at : Timestamp) (conditions : NarrowedAuthorizationConditions)
      (supplied : List (Precondition Value))
      → IsCovered context decided_at conditions supplied
      → validate_current_authorization context
          (allow reference revisions decided_at conditions)
          supplied
        ≡ ok tt
  unfolding validate_current_authorization
  validate_current_authorization-of_IsCovered context reference revisions decided_at conditions
        supplied c =
      let granted = is_granted context.selected_resource conditions.resources in
      let all_required =
        context.effective_grant.preconditions ++ conditions.required_preconditions in
      rw
        (
          timely context.principals.expires_at context.effective_grant.expires_at
              conditions.expires_at decided_at granted c.before_principals c.before_grant
              c.before_conditions
              ((is_granted_iff context.selected_resource conditions.resources).1 c.grants),
          all_of_Elem (is_supplied supplied) all_required
              (λ d e. (is_supplied_iff supplied d).1 (c.supplies d e)),
        )
        refl

  -- A current authorization is accepted exactly when it covers the invocation.
  pub validate_current_authorization_iff :
      (context : InvocationContext) (reference : String) (revisions : AuthorityRevisionSet)
      (decided_at : Timestamp) (conditions : NarrowedAuthorizationConditions)
      (supplied : List (Precondition Value))
      → (validate_current_authorization context
            (allow reference revisions decided_at conditions)
            supplied
          ≡ ok tt)
        ↔ IsCovered context decided_at conditions supplied
  validate_current_authorization_iff context reference revisions decided_at conditions supplied = (
    validate_current_authorization-IsCovered context reference revisions decided_at conditions
        supplied,
    validate_current_authorization-of_IsCovered context reference revisions decided_at conditions
        supplied,
  )
