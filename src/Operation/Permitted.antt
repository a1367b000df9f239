-- ===== src/Operation/Permitted.antt =====
-- When `OperationRegistry::execute` (crates/kiteframe-provider/src/operation.rs) runs an operation
-- and gives its output.
use mathlib.Core.Path.{subst}
use kiteframe.Base.{
  not-eq_false, ◌≡◌, ◌↔◌, refl, sym, ap, ◌∙◌, not, String, List, Option, none, some, Result, ok,
  err, ◌>>=◌, ◌>>◌, >>=-eq_ok, after_refusal, map_err, map_err-eq_ok, ok-injective, err≢ok, ◌==◌,
  eq_of_==, ==_of_eq,
}
use kiteframe.Contract.Diagnostic.{Diagnostic}
use kiteframe.Contract.Refs.{Timestamp}
use kiteframe.Contract.Capability.{identity_eq, effect_eq, read_only, StableCapabilityError}
use kiteframe.Authorization.{
  AuthorityRevisionSet, NarrowedAuthorizationConditions, allow, AuthorizationDecision,
  AuthorizationBackend, require_current_authorization,
}
use kiteframe.Authorization.Current.{IsCurrentAllow, require_current_authorization_iff}
use kiteframe.Operation.{
  Precondition, InvocationContext, OperationFailure, stable, diagnostic, CapabilityOperation,
  Schemas, validate_current_authorization, validate_stable_error,
}
use kiteframe.Operation.Registry.{
  OperationRegistry, lookup, required, authorization_request, permit, conclude, execute,
}
use kiteframe.Operation.Covered.{IsCovered, validate_current_authorization_iff}

required-eq_ok :
    {A : Type 0} (message : String) (o : Option A) {a : A} → required message o ≡ ok a → o ≡ some a
required-eq_ok message none h = absurd (err≢ok h)
required-eq_ok message (some a) h = ap some (ok-injective h)

after_check :
    {Value : Type 0} (m : Result Diagnostic (Unit {0})) {k : Result OperationFailure Value}
    {error : StableCapabilityError}
    → (map_err diagnostic m >> k) ≡ err (stable error)
    → (m ≡ ok tt) × (k ≡ err (stable error))
after_check (ok u) h = (refl, h)
after_check (err e) h = cc

stable_injective :
    {Value : Type 0} {a b : StableCapabilityError}
    → ◌≡◌ {A = Result OperationFailure Value} (err (stable a)) (err (stable b))
    → a ≡ b
stable_injective h = cc

module _ (Value : Type 0) (schemas : Schemas Value) where
  -- An operation that may run: of a read-only capability, registered for it in a frozen registry,
  -- under an allow that the backend decided at its current revisions and that covers the
  -- invocation, with valid arguments and preconditions.
  pub record IsPermitted (registry : OperationRegistry Value) (context : InvocationContext)
      (preconditions : List (Precondition Value)) (arguments : Value)
      (operation : CapabilityOperation Value) : Type 0 where
    pub reads_only : context.locked_capability.descriptor.effect ≡ read_only
    pub backend : AuthorizationBackend
    pub is_frozen : registry.authorization_backend ≡ some backend
    pub is_registered : lookup Value context.capability registry ≡ some operation
    pub is_locked : operation.identity ≡ context.locked_capability.identity
    pub reference : String
    pub revisions : AuthorityRevisionSet
    pub decided_at : Timestamp
    pub conditions : NarrowedAuthorizationConditions
    pub is_current : backend.revisions ≡ ok revisions
    pub is_allowed :
        backend.check (authorization_request Value context)
        ≡ ok (allow reference revisions decided_at conditions)
    pub is_covered : IsCovered context decided_at conditions preconditions
    pub is_valid : schemas.validate_input context.locked_capability.descriptor arguments ≡ ok tt
    pub is_prepared : operation.validate_preconditions context preconditions ≡ ok tt

  permit-IsPermitted :
      (registry : OperationRegistry Value) (context : InvocationContext)
      (preconditions : List (Precondition Value)) (arguments : Value)
      {operation : CapabilityOperation Value}
      → permit Value schemas registry context preconditions arguments ≡ ok operation
      → IsPermitted registry context preconditions arguments operation
  unfolding permit
  permit-IsPermitted registry context preconditions arguments {operation} h =
      let read =
        after_refusal (not (context.locked_capability.descriptor.effect == read_only)) _ h in
      let (backend, h_backend, h1) =
        >>=-eq_ok
          (required "operation registry must be frozen with an authorization backend before use"
            registry.authorization_backend)
          _ read.1 in
      let (found, h_found, h2) =
        >>=-eq_ok
          (required "no trusted operation is registered for the exact capability identity"
            (lookup Value context.capability registry))
          _ h1 in
      let locked =
        after_refusal (not (found.identity == context.locked_capability.identity)) _ h2 in
      let (authorization, h_current, h3) =
        >>=-eq_ok (require_current_authorization backend (authorization_request Value context)) _
          locked.1 in
      let (_, h_covered, h4) =
        >>=-eq_ok (validate_current_authorization context authorization preconditions) _ h3 in
      let (_, h_valid, h5) =
        >>=-eq_ok (schemas.validate_input context.locked_capability.descriptor arguments) _ h4 in
      let (_, h_prepared, h6) =
        >>=-eq_ok (found.validate_preconditions context preconditions) _ h5 in
      permitted registry context preconditions arguments found operation backend authorization
        (eq_of_== (not-eq_false (context.locked_capability.descriptor.effect == read_only) read.0))
        (required-eq_ok _ registry.authorization_backend h_backend)
        (required-eq_ok _ (lookup Value context.capability registry) h_found)
        (eq_of_== (not-eq_false (found.identity == context.locked_capability.identity) locked.0))
        ((require_current_authorization_iff backend (authorization_request Value context)
            authorization).0
          h_current)
        h_covered h_valid h_prepared (ok-injective h6)
    where
      permitted :
          (registry : OperationRegistry Value) (context : InvocationContext)
          (preconditions : List (Precondition Value)) (arguments : Value)
          (found operation : CapabilityOperation Value) (backend : AuthorizationBackend)
          (authorization : AuthorizationDecision)
          → context.locked_capability.descriptor.effect ≡ read_only
          → registry.authorization_backend ≡ some backend
          → lookup Value context.capability registry ≡ some found
          → found.identity ≡ context.locked_capability.identity
          → IsCurrentAllow backend (authorization_request Value context) authorization
          → validate_current_authorization context authorization preconditions ≡ ok tt
          → schemas.validate_input context.locked_capability.descriptor arguments ≡ ok tt
          → found.validate_preconditions context preconditions ≡ ok tt
          → found ≡ operation
          → IsPermitted registry context preconditions arguments operation
      permitted registry context preconditions arguments found operation backend authorization r f g
            l (reference, revisions, decided_at, conditions, d, now, asked) c v p same =
          subst (IsPermitted registry context preconditions arguments) same (record {
            reads_only = r;
            backend = backend;
            is_frozen = f;
            is_registered = g;
            is_locked = l;
            reference = reference;
            revisions = revisions;
            decided_at = decided_at;
            conditions = conditions;
            is_current = now;
            is_allowed = asked ∙ ap ok d;
            is_covered =
                (validate_current_authorization_iff context reference revisions decided_at
                    conditions preconditions).0
                  (ap (λ a. validate_current_authorization context a preconditions) (sym d) ∙ c);
            is_valid = v;
            is_prepared = p;
          })

  permit-of_IsPermitted :
      (registry : OperationRegistry Value) (context : InvocationContext)
      (preconditions : List (Precondition Value)) (arguments : Value)
      {operation : CapabilityOperation Value}
      → IsPermitted registry context preconditions arguments operation
      → permit Value schemas registry context preconditions arguments ≡ ok operation
  unfolding permit
  permit-of_IsPermitted registry context preconditions arguments p =
      let decision = allow p.reference p.revisions p.decided_at p.conditions in
      let current =
        (require_current_authorization_iff p.backend (authorization_request Value context)
            decision).1
          (
            p.reference, p.revisions, p.decided_at, p.conditions, refl, p.is_current, p.is_allowed,
          ) in
      let covered =
        (validate_current_authorization_iff context p.reference p.revisions p.decided_at
            p.conditions preconditions).1
          p.is_covered in
      rw
        (
          ==_of_eq p.reads_only,
          p.is_registered,
          p.is_frozen,
          ==_of_eq p.is_locked,
          current,
          covered,
          p.is_valid,
          p.is_prepared,
        )
        refl

  conclude-eq_ok :
      (context : InvocationContext) (answer : Result OperationFailure Value) {output : Value}
      → conclude Value schemas context.locked_capability.descriptor answer ≡ ok output
      → (answer ≡ ok output)
        × (schemas.validate_output context.locked_capability.descriptor output ≡ ok tt)
  unfolding conclude
  conclude-eq_ok context (ok out) {output} h =
      let (_, valid, same) =
        >>=-eq_ok
          (map_err diagnostic (schemas.validate_output context.locked_capability.descriptor out)) _
          h in
      (
        ap ok (ok-injective same),
        subst (λ v. schemas.validate_output context.locked_capability.descriptor v ≡ ok tt)
            (ok-injective same) (map_err-eq_ok diagnostic _ valid),
      )
  conclude-eq_ok context (err (stable e)) h = absurd (
      err≢ok
        (>>=-eq_ok
          (map_err diagnostic (validate_stable_error context.locked_capability.descriptor e)) _
          h).2)
  conclude-eq_ok context (err (diagnostic d)) h = absurd (err≢ok h)

  conclude-eq_stable :
      (context : InvocationContext) (answer : Result OperationFailure Value)
      {error : StableCapabilityError}
      → conclude Value schemas context.locked_capability.descriptor answer ≡ err (stable error)
      → (answer ≡ err (stable error))
        × (validate_stable_error context.locked_capability.descriptor error ≡ ok tt)
  unfolding conclude
  conclude-eq_stable context (ok out) h = absurd (
      err≢ok
        (sym (after_check (schemas.validate_output context.locked_capability.descriptor out) h).1))
  conclude-eq_stable context (err (stable e)) h =
      let (valid, same) =
        after_check (validate_stable_error context.locked_capability.descriptor e) h in
      (
        same,
        subst (λ x. validate_stable_error context.locked_capability.descriptor x ≡ ok tt)
            (stable_injective same) valid,
      )
  conclude-eq_stable context (err (diagnostic d)) h = cc

  -- The output of an execution is one that the registered operation gave when it was permitted, and
  -- fits the output schema; a stable error of an execution is one that the registered operation gave
  -- when it was permitted, and is among the locked ones; and whatever a permitted operation gives of
  -- these kinds is the result. Permitted means: a read-only capability, a frozen registry, an allow
  -- at the backend's current revisions that is unexpired and covers the resource, every required
  -- precondition supplied, and valid arguments and preconditions.
  pub execute_exact :
      (registry : OperationRegistry Value) (context : InvocationContext)
      (preconditions : List (Precondition Value)) (arguments : Value)
      → ((output : Value)
          → (execute Value schemas registry context preconditions arguments ≡ ok output) ↔ (
              (operation : CapabilityOperation Value) × IsPermitted registry context preconditions
                arguments operation
              × (operation.execute context arguments ≡ ok output)
              × (schemas.validate_output context.locked_capability.descriptor output ≡ ok tt)))
        × ((error : StableCapabilityError)
            → (execute Value schemas registry context preconditions arguments ≡ err (stable error))
              ↔ ((operation : CapabilityOperation Value) × IsPermitted registry context
                    preconditions arguments operation
                  × (operation.execute context arguments ≡ err (stable error))
                  × (validate_stable_error context.locked_capability.descriptor error ≡ ok tt)))
  unfolding execute conclude
  execute_exact registry context preconditions arguments = (outputs, errors)
    where
      outputs :
          (output : Value)
          → (execute Value schemas registry context preconditions arguments ≡ ok output) ↔ (
              (operation : CapabilityOperation Value) × IsPermitted registry context preconditions
                arguments operation
              × (operation.execute context arguments ≡ ok output)
              × (schemas.validate_output context.locked_capability.descriptor output ≡ ok tt))
      outputs output = (
        λ h.
            let (operation, permits, h1) =
              >>=-eq_ok
                (map_err diagnostic (permit Value schemas registry context preconditions arguments))
                _ h in
            let answer = conclude-eq_ok context (operation.execute context arguments) h1 in
            (
              operation,
              permit-IsPermitted registry context preconditions arguments
                  (map_err-eq_ok diagnostic _ permits),
              answer.0,
              answer.1,
            ),
        λ (operation, p, answer, valid).
            rw (permit-of_IsPermitted registry context preconditions arguments p, answer, valid)
              refl,
      )

      errors :
          (error : StableCapabilityError)
          → (execute Value schemas registry context preconditions arguments ≡ err (stable error))
            ↔ ((operation : CapabilityOperation Value) × IsPermitted registry context preconditions
                  arguments operation
                × (operation.execute context arguments ≡ err (stable error))
                × (validate_stable_error context.locked_capability.descriptor error ≡ ok tt))
      errors error = (
        λ h. go (permit Value schemas registry context preconditions arguments) refl h,
        λ (operation, p, answer, valid).
            rw (permit-of_IsPermitted registry context preconditions arguments p, answer, valid)
              refl,
      )
        where
          go :
              (m : Result Diagnostic (CapabilityOperation Value))
              → permit Value schemas registry context preconditions arguments ≡ m
              → (map_err diagnostic m >>= λ operation.
                  conclude Value schemas context.locked_capability.descriptor
                    (operation.execute context arguments))
                ≡ err (stable error)
              → (operation : CapabilityOperation Value) × IsPermitted registry context preconditions
                  arguments operation
                × (operation.execute context arguments ≡ err (stable error))
                × (validate_stable_error context.locked_capability.descriptor error ≡ ok tt)
          go (err e) q h = cc
          go (ok operation) q h =
              let answer = conclude-eq_stable context (operation.execute context arguments) h in
              (
                operation,
                permit-IsPermitted registry context preconditions arguments q,
                answer.0,
                answer.1,
              )
