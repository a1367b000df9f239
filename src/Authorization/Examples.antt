-- ===== src/Authorization/Examples.antt =====
-- A backend that allows one request at its current revisions.
use kiteframe.Base.{[], ◌∷◌, ok, ◌≡◌, ◌↔◌}
use kiteframe.Contract.Refs.{zero_bytes}
use kiteframe.Principal.{AuthenticatedInvocationContext}
use kiteframe.Authorization.{
  AuthorityRevisionSet, AuthorizationDecision, allow, InvocationAuthorizationRequest,
  AuthorizationBackend, require_current_authorization,
}
use kiteframe.Authorization.Current.{IsCurrentAllow, require_current_authorization_iff}

abbrev revisions : AuthorityRevisionSet
revisions = record {
  entries = record { source = "policy"; revision = "7" } ∷ [];
  authority_revision_digest = zero_bytes 32;
}

abbrev principals : AuthenticatedInvocationContext
principals = record {
  tenant_ref = "t1";
  human_ref = "h1";
  workload_ref = "w1";
  run_ref = "run";
  actor_ref = "actor";
  agent_ref = "agent";
  task_ref = "task";
  session_ref = "session";
  admission_ref = "admission";
  expires_at = 60;
}

abbrev request : InvocationAuthorizationRequest
request = record {
  principals = principals;
  capability = record { name = "docs.edit"; version = "1" };
  selected_resource = "docs/7";
  grant_digest = zero_bytes 32;
  loaded_authority_revisions = revisions;
}

abbrev decision : AuthorizationDecision
decision =
    allow "d1" revisions 50
      (record { resources = "docs/7" ∷ []; expires_at = 60; required_preconditions = [] })

abbrev backend : AuthorizationBackend
backend = record { revisions = ok revisions; check = λ asked. ok decision }

require_current_authorization_iff_example :
    (require_current_authorization backend request ≡ ok decision)
    ↔ IsCurrentAllow backend request decision
require_current_authorization_iff_example =
    require_current_authorization_iff backend request decision
