-- ===== src/Operation.antt =====
-- Operations and their registry (crates/kiteframe-provider/src/operation.rs). JSON values and the
-- validation of their schemas are a library's: the type of values is a parameter, and `Schemas`
-- has the validator's answers. An operation is a record of its answers.
mod Registry
mod Covered
mod Permitted
mod Registered
mod Granted
mod Examples
use kiteframe.Base.{
  Bool, true, false, not, ◌&&◌, ◌||◌, String, List, [], ◌∷◌, ◌++◌, Option, none, some, Result, ok,
  err, ◌>>=◌, ◌>>◌, refuse_if, map_err, any, all, find, ◌==◌, if◌then◌else◌, leb, is_blank, Eq,
  string_eq,
}
use kiteframe.Contract.Diagnostic.{
  Diagnostic, DiagnosticCode, DiagnosticCategory, DiagnosticStage, diagnostic_error, retry_eq,
}
use kiteframe.Contract.Refs.{NormalizedResourceSelector, Sha256Digest, TraceContext}
use kiteframe.Contract.Capability.{
  CapabilityIdentity, identity_eq, CapabilityDescriptor, CapabilityErrorDescriptor,
  LockedCapability, EffectiveCapabilityGrant, StableCapabilityError, PreconditionDescriptor,
  EffectClassification, effect_eq,
}
use kiteframe.Authority.Selector.{resource_selector_is_subset}
use kiteframe.Principal.{AuthenticatedInvocationContext}
use kiteframe.Authorization.{
  AuthorityRevisionSet, NarrowedAuthorizationConditions, AuthorizationDecision, allow, deny,
  InvocationAuthorizationRequest, AuthorizationBackend, require_current_authorization,
}

pub record Precondition (Value : Type 0) : Type 0 where
  pub name : String
  pub value : Value

-- `Precondition::try_new`
unfoldable pub precondition_try_new :
    {Value : Type 0} → String → Value → Result String (Precondition Value)
precondition_try_new name value = do
  refuse_if (is_blank name) "precondition name is required"
  ok (record { name = name; value = value })

pub record InvocationContext : Type 0 where
  pub principals : AuthenticatedInvocationContext
  pub capability : CapabilityIdentity
  pub selected_resource : NormalizedResourceSelector
  pub trace_context : TraceContext
  pub locked_capability : LockedCapability
  pub effective_grant : EffectiveCapabilityGrant
  pub grant_digest : Sha256Digest
  pub loaded_authority_revisions : AuthorityRevisionSet

unfoldable pub runtime_error : String → Diagnostic
unfolding diagnostic_error
runtime_error message =
    diagnostic_error DiagnosticCode.component_unresolved DiagnosticCategory.runtime
      DiagnosticStage.runtime message

unfoldable pub capability_error : String → Diagnostic
unfolding diagnostic_error
capability_error message =
    diagnostic_error DiagnosticCode.result_invalid DiagnosticCategory.capability
      DiagnosticStage.invoke message

unfoldable pub precondition_error : String → Diagnostic
unfolding diagnostic_error
precondition_error message =
    diagnostic_error DiagnosticCode.precondition_missing DiagnosticCategory.capability
      DiagnosticStage.invoke message

unfoldable pub authorization_error : String → Diagnostic
unfolding diagnostic_error
authorization_error message =
    diagnostic_error DiagnosticCode.invocation_denied DiagnosticCategory.authorization
      DiagnosticStage.invoke message

-- Whether a selector is within one of the given ones.
abbrev pub is_granted : NormalizedResourceSelector → List NormalizedResourceSelector → Bool
is_granted selected resources =
    any (λ granted. resource_selector_is_subset selected granted) resources

-- `InvocationContext::try_new`, its eight parts given as the value to be checked.
unfoldable pub invocation_context_try_new : InvocationContext → Result Diagnostic InvocationContext
invocation_context_try_new context = do
  refuse_if
      (not (context.locked_capability.identity == context.capability)
        || not (context.effective_grant.capability == context.capability)
        || not (is_granted context.selected_resource context.effective_grant.resources))
      (capability_error "invocation does not match persisted exact capability state")
  ok context

-- `condition_allows_resource`
abbrev pub condition_allows_resource :
    NarrowedAuthorizationConditions → NormalizedResourceSelector → Bool
condition_allows_resource conditions selected = is_granted selected conditions.resources

pub data OperationFailure : Type 0 where
  stable : StableCapabilityError → OperationFailure
  diagnostic : Diagnostic → OperationFailure

-- `OperationFailure::diagnostic`
unfoldable pub failure_diagnostic : OperationFailure → Diagnostic
unfolding capability_error
failure_diagnostic (diagnostic d) = d
failure_diagnostic (stable e) = capability_error "provider returned a stable capability error"

-- `CapabilityOperation`: what an operation answers.
pub record CapabilityOperation (Value : Type 0) : Type 0 where
  pub identity : CapabilityIdentity
  pub validate_preconditions :
      InvocationContext → List (Precondition Value) → Result Diagnostic (Unit {0})
  pub execute : InvocationContext → Value → Result OperationFailure Value

-- `validate_input` and `validate_output` of a descriptor, which call the schema validator.
pub record Schemas (Value : Type 0) : Type 0 where
  pub validate_input : CapabilityDescriptor → Value → Result Diagnostic (Unit {0})
  pub validate_output : CapabilityDescriptor → Value → Result Diagnostic (Unit {0})

abbrev matches_stable_error : StableCapabilityError → CapabilityErrorDescriptor → Bool
matches_stable_error error descriptor =
    descriptor.code == error.code
    && descriptor.category == error.category
    && descriptor.retry == error.retry
    && descriptor.message == error.message

-- `CapabilityDescriptor::validate_stable_error`
unfoldable pub validate_stable_error :
    CapabilityDescriptor → StableCapabilityError → Result Diagnostic (Unit {0})
validate_stable_error descriptor error =
    if any (matches_stable_error error) descriptor.stable_errors
    then ok tt
    else err (capability_error "provider error does not match a locked stable error")

-- The required preconditions are among the supplied ones, by their names.
abbrev pub is_supplied :
    {Value : Type 0} → List (Precondition Value) → PreconditionDescriptor → Bool
is_supplied supplied required =
    not required.required || any (λ precondition. precondition.name == required.name) supplied

-- `validate_current_authorization`
unfoldable pub validate_current_authorization :
    {Value : Type 0}
    → InvocationContext
    → AuthorizationDecision
    → List (Precondition Value)
    → Result Diagnostic (Unit {0})
validate_current_authorization context (deny reason reference) supplied =
    err (authorization_error "invocation has no current authorization")
validate_current_authorization context (allow reference revisions decided_at conditions) supplied =
    do
      refuse_if
          (leb context.principals.expires_at decided_at
            || leb context.effective_grant.expires_at decided_at
            || leb conditions.expires_at decided_at
            || not (condition_allows_resource conditions context.selected_resource))
          (authorization_error "current authorization does not match persisted invocation state")
      refuse_if
          (not (
            all (is_supplied supplied)
              (context.effective_grant.preconditions ++ conditions.required_preconditions)))
          (precondition_error "required authorization or grant precondition is missing")
      ok tt
