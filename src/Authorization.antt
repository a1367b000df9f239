-- ===== src/Authorization.antt =====
-- The authorization of an invocation (crates/kiteframe-provider/src/authorization.rs,
-- crates/kiteframe-contract/src/service.rs): decisions and the check at invocation time. The
-- backend that decides is the deployment's: a record of its answers.
pub mod Current
mod Examples
use Prim.Native.String.{compare}
use kiteframe.Base.{
  Bool, not, List, String, Result, ok, err, ◌>>=◌, ◌>>◌, refuse_if, is_empty, ◌==◌, Eq,
  if◌then◌else◌, String-discrete, Bytes-discrete,
}
use kiteframe.Base.Ordered.{sort_dedup}
use kiteframe.Contract.Diagnostic.{
  Diagnostic, DiagnosticCode, DiagnosticCategory, DiagnosticStage, diagnostic_error,
}
use kiteframe.Contract.Refs.{NormalizedResourceSelector, Timestamp, Sha256Digest, string_ref}
use kiteframe.Contract.Capability.{CapabilityIdentity, PreconditionDescriptor}
use kiteframe.Authority.Bounds.{compare_precondition}
use kiteframe.Principal.{AuthenticatedInvocationContext}

pub record AuthorityRevision : Type 0 where
  pub source : String
  pub revision : String

pub record AuthorityRevisionSet : Type 0 where
  pub entries : List AuthorityRevision
  pub authority_revision_digest : Sha256Digest

unfoldable pub AuthorityRevision-discrete : Discrete AuthorityRevision
AuthorityRevision-discrete = hlevel String-discrete

unfoldable pub AuthorityRevisionSet-discrete : Discrete AuthorityRevisionSet
AuthorityRevisionSet-discrete = hlevel (AuthorityRevision-discrete, Bytes-discrete)

instance abbrev pub revisions_eq : Eq AuthorityRevisionSet
revisions_eq = record { dec = AuthorityRevisionSet-discrete }

pub data SafeDenialReason : Type 0 where
  capability_denied principal_denied resource_denied stale_authority : SafeDenialReason

pub record NarrowedAuthorizationConditions : Type 0 where
  pub resources : List NormalizedResourceSelector
  pub expires_at : Timestamp
  pub required_preconditions : List PreconditionDescriptor

-- `NarrowedAuthorizationConditions::new`
unfoldable pub conditions_new :
    List NormalizedResourceSelector
    → Timestamp
    → List PreconditionDescriptor
    → Result String NarrowedAuthorizationConditions
conditions_new resources expires_at required_preconditions = do
  refuse_if (is_empty (sort_dedup compare resources)) "authorized resources must not be empty"
  ok (record {
    resources = sort_dedup compare resources;
    expires_at = expires_at;
    required_preconditions = sort_dedup compare_precondition required_preconditions;
  })

pub data AuthorizationDecision : Type 0 where
  allow :
      String
      → AuthorityRevisionSet
      → Timestamp
      → NarrowedAuthorizationConditions
      → AuthorizationDecision
  deny : SafeDenialReason → String → AuthorizationDecision

-- `AuthorizationDecision::allow`
unfoldable pub decision_allow :
    String
    → AuthorityRevisionSet
    → Timestamp
    → NarrowedAuthorizationConditions
    → Result String AuthorizationDecision
decision_allow reference revisions decided_at conditions = do
  decision_ref ← string_ref "authorization decision reference is required" reference
  ok (allow decision_ref revisions decided_at conditions)

-- `AuthorizationDecision::deny`
unfoldable pub decision_deny : String → SafeDenialReason → Result String AuthorizationDecision
decision_deny reference reason = do
  decision_ref ← string_ref "authorization decision reference is required" reference
  ok (deny reason decision_ref)

pub record InvocationAuthorizationRequest : Type 0 where
  pub principals : AuthenticatedInvocationContext
  pub capability : CapabilityIdentity
  pub selected_resource : NormalizedResourceSelector
  pub grant_digest : Sha256Digest
  pub loaded_authority_revisions : AuthorityRevisionSet

-- `AuthorizationBackend`: what the deployment's backend answers, first when asked for its
-- revisions and then when asked to check.
pub record AuthorizationBackend : Type 0 where
  pub revisions : Result Diagnostic AuthorityRevisionSet
  pub check : InvocationAuthorizationRequest → Result Diagnostic AuthorizationDecision

unfoldable pub stale_decision : Diagnostic
unfolding diagnostic_error
stale_decision =
    diagnostic_error DiagnosticCode.policy_stale DiagnosticCategory.authorization
      DiagnosticStage.invoke "authorization decision used stale authority revisions"

unfoldable pub denied_invocation : Diagnostic
unfolding diagnostic_error
denied_invocation =
    diagnostic_error DiagnosticCode.invocation_denied DiagnosticCategory.authorization
      DiagnosticStage.invoke "current invocation authorization denied"

-- The `match` of `require_current_authorization`.
unfoldable pub accept_current :
    AuthorityRevisionSet → AuthorizationDecision → Result Diagnostic AuthorizationDecision
accept_current current (allow reference revisions decided_at conditions) =
    if revisions == current
    then ok (allow reference revisions decided_at conditions)
    else err stale_decision
accept_current current (deny reason reference) = err denied_invocation

-- `require_current_authorization`
unfoldable pub require_current_authorization :
    AuthorizationBackend → InvocationAuthorizationRequest → Result Diagnostic AuthorizationDecision
require_current_authorization backend request = do
  current ← backend.revisions
  decision ← backend.check request
  accept_current current decision
