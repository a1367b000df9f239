-- ===== src/Operation/Examples.antt =====
-- Tests and concrete calls of the operation registry (crates/kiteframe-provider/src/operation.rs).
use kiteframe.Base.{
  ℕ, ◌+◌, ◌≡◌, ◌↔◌, refl, true, List, [], ◌∷◌, none, some, ok, err, String-discrete, Char-discrete,
  Chars-discrete, Bytes-discrete, ℕ_discrete,
}
use kiteframe.Contract.Diagnostic.{never}
use kiteframe.Contract.Refs.{zero_bytes}
use kiteframe.Contract.Capability.{
  CapabilityIdentity, CapabilityIdentity-discrete, identity_eq, CapabilityDescriptor,
  LockedCapability, EffectiveCapabilityGrant, EffectClassification-discrete, read_only,
  IdempotencyRequirement, PreconditionDescriptor, PreconditionKind, ConfirmationRequirement,
  ApprovalRequirement, ConsentRequirement, immediate, StableCapabilityError,
}
use kiteframe.Authorization.{
  AuthorityRevisionSet, AuthorityRevision-discrete, AuthorityRevisionSet-discrete, allow,
  AuthorizationBackend, accept_current, require_current_authorization,
}
use kiteframe.Authority.Selector.{
  resource_selector_is_subset, parse, parsed_is_subset, same_shape, all_covered,
}
use kiteframe.Principal.{AuthenticatedInvocationContext}
use kiteframe.Operation.{
  Precondition, InvocationContext, OperationFailure, stable, CapabilityOperation, Schemas,
  invocation_context_try_new, runtime_error, validate_current_authorization, validate_stable_error,
  precondition_error,
}
use kiteframe.Operation.Registry.{
  OperationRegistry, new_registry, lookup, register, freeze, required, resolve, permit, conclude,
  execute,
}
use kiteframe.Operation.Covered.{IsGranted}
use kiteframe.Operation.Permitted.{IsPermitted, execute_exact}
use kiteframe.Operation.Registered.{register_all, first_with, resolve-register_all}
use kiteframe.Operation.Granted.{IsAllowed, execute-IsGranted}

abbrev identity : CapabilityIdentity
identity = record { name = "docs.read"; version = "1" }

abbrev etag : PreconditionDescriptor
etag = record { name = "etag"; kind = PreconditionKind.etag; required = true }

abbrev descriptor : CapabilityDescriptor
descriptor = record {
  identity = identity;
  summary = "Read a document";
  stable_errors =
      record { code = "gone"; category = "state"; retry = never; message = "document is gone" }
      ∷ [];
  execution_modes = immediate ∷ [];
  effect = read_only;
  idempotency = IdempotencyRequirement.none_required;
  freshness = record {
    max_admission_age_seconds = none;
    policy_revision_required = true;
    max_input_age_seconds = none;
  };
  preconditions = etag ∷ [];
  confirmation = ConfirmationRequirement.none;
  approval = ApprovalRequirement.none;
  consent = ConsentRequirement.none;
  descriptor_digest = zero_bytes 32;
}

abbrev locked : LockedCapability
locked = record {
  identity = identity;
  descriptor = descriptor;
  descriptor_digest = zero_bytes 32;
  input_schema_digest = zero_bytes 32;
  output_schema_digest = zero_bytes 32;
  stable_error_set_digest = zero_bytes 32;
  safety_metadata_digest = zero_bytes 32;
}

abbrev grant : EffectiveCapabilityGrant
grant = record {
  capability = identity;
  resources = "docs/*" ∷ [];
  execution_modes = immediate ∷ [];
  maximum_effect = read_only;
  expires_at = 60;
  required_evidence = record {
    confirmation = ConfirmationRequirement.none;
    approval = ApprovalRequirement.none;
    consent = ConsentRequirement.none;
  };
  freshness = descriptor.freshness;
  preconditions = etag ∷ [];
}

abbrev revisions : AuthorityRevisionSet
revisions = record {
  entries = record { source = "policy"; revision = "7" } ∷ [];
  authority_revision_digest = zero_bytes 32;
}

abbrev principals : AuthenticatedInvocationContext
principals = record {
  tenant_ref = "t1";
  human_ref = "h1";
  workload_ref = "w1";
  run_ref = "run";
  actor_ref = "actor";
  agent_ref = "agent";
  task_ref = "task";
  session_ref = "session";
  admission_ref = "admission";
  expires_at = 60;
}

abbrev context : InvocationContext
context = record {
  principals = principals;
  capability = identity;
  selected_resource = "docs/7";
  trace_context = record { traceparent = "00"; tracestate = none; baggage = [] };
  locked_capability = locked;
  effective_grant = grant;
  grant_digest = zero_bytes 32;
  loaded_authority_revisions = revisions;
}

abbrev backend : AuthorizationBackend
backend = record {
  revisions = ok revisions;
  check = λ asked. ok (
      allow "d1" revisions 50
        (record { resources = "docs/*" ∷ []; expires_at = 60; required_preconditions = [] }));
}

abbrev reader : CapabilityOperation ℕ
reader = record {
  identity = identity;
  validate_preconditions = λ asked supplied. ok tt;
  execute = λ asked arguments. ok (arguments + 1);
}

abbrev schemas : Schemas ℕ
schemas = record { validate_input = λ d value. ok tt; validate_output = λ d value. ok tt }

abbrev registry : OperationRegistry ℕ
registry = record { operations = (identity, reader) ∷ []; authorization_backend = some backend }

abbrev supplied : List (Precondition ℕ)
supplied = record { name = "etag"; value = 3 } ∷ []

context_test : invocation_context_try_new context ≡ ok context
unfolding invocation_context_try_new String-discrete CapabilityIdentity-discrete
    resource_selector_is_subset parse parsed_is_subset same_shape all_covered Char-discrete
    Chars-discrete
context_test = refl

execute_test : execute ℕ schemas registry context supplied 6 ≡ ok 7
unfolding execute permit conclude lookup validate_current_authorization
    require_current_authorization accept_current EffectClassification-discrete
    AuthorityRevisionSet-discrete String-discrete CapabilityIdentity-discrete
    resource_selector_is_subset AuthorityRevision-discrete Bytes-discrete ℕ_discrete parse
    parsed_is_subset same_shape all_covered Char-discrete Chars-discrete
execute_test = refl

unsupplied_test :
    execute ℕ schemas registry context [] 6
    ≡ err (
        OperationFailure.diagnostic
          (precondition_error "required authorization or grant precondition is missing"))
unfolding execute permit conclude lookup validate_current_authorization
    require_current_authorization accept_current EffectClassification-discrete
    AuthorityRevisionSet-discrete String-discrete CapabilityIdentity-discrete
    resource_selector_is_subset AuthorityRevision-discrete Bytes-discrete ℕ_discrete parse
    parsed_is_subset same_shape all_covered Char-discrete Chars-discrete
unsupplied_test = refl

execute_exact_example :
    ((output : ℕ)
      → (execute ℕ schemas registry context supplied 6 ≡ ok output) ↔ (
          (operation : CapabilityOperation ℕ) × IsPermitted ℕ schemas registry context supplied 6
            operation
          × (operation.execute context 6 ≡ ok output)
          × (schemas.validate_output descriptor output ≡ ok tt)))
    × ((error : StableCapabilityError)
        → (execute ℕ schemas registry context supplied 6 ≡ err (stable error)) ↔ (
            (operation : CapabilityOperation ℕ) × IsPermitted ℕ schemas registry context supplied 6
              operation
            × (operation.execute context 6 ≡ err (stable error))
            × (validate_stable_error descriptor error ≡ ok tt)))
execute_exact_example = execute_exact ℕ schemas registry context supplied 6

resolve-register_all_example :
    (frozen : OperationRegistry ℕ) × (freeze ℕ backend
        (register_all ℕ (reader ∷ reader ∷ []) (new_registry ℕ))
      ≡ ok frozen)
    × ((asked : CapabilityIdentity)
        → resolve ℕ asked frozen
          ≡ required "no trusted operation is registered for the exact capability identity"
              (first_with ℕ asked (reader ∷ reader ∷ [])))
    × ((operation : CapabilityOperation ℕ)
        → register ℕ operation frozen
          ≡ (frozen, err (runtime_error "operation registry is frozen")))
resolve-register_all_example = resolve-register_all ℕ (reader ∷ reader ∷ []) backend

execute-IsGranted_example :
    (operation : CapabilityOperation ℕ) × (operation.execute context 6 ≡ ok 7)
    × (operation.identity ≡ identity)
    × IsGranted "docs/7" ("docs/*" ∷ [])
    × IsAllowed registry context
execute-IsGranted_example =
    execute-IsGranted ℕ schemas registry context context supplied 6 7 context_test execute_test
