-- ===== src/Invocation/Parts.antt =====
-- The parts of a stored invocation (`IdempotencyScopeValue`, `InvocationStatusContext`,
-- `InvocationAuditLink`, `AbandonmentAuthorization` of status.rs) and their checked constructors.
use kiteframe.Base.{
  String, ◌||◌, Option, none, some, [], ◌∷◌, Result, ok, err, ◌>>◌, refuse_if, is_blank, any, Eq,
  String-discrete, string_eq, bytes_eq,
}
use kiteframe.Contract.Diagnostic.{Diagnostic}
use kiteframe.Contract.Refs.{ActorRef, NormalizedResourceSelector, Timestamp}
use kiteframe.Contract.Capability.{CapabilityIdentity, identity_eq}
use kiteframe.Invocation.State.{TransitionAuditRecord, invalid}

pub record IdempotencyScopeValue : Type 0 where
  pub actor : ActorRef
  pub capability : CapabilityIdentity
  pub normalized_resource : NormalizedResourceSelector
  pub semantic_operation : String

-- `IdempotencyScopeValue::try_new`
unfoldable pub scope_try_new :
    ActorRef
    → CapabilityIdentity
    → NormalizedResourceSelector
    → String
    → Result String IdempotencyScopeValue
scope_try_new actor capability resource operation = do
  refuse_if (is_blank operation) "semantic operation is required"
  ok (record {
    actor = actor;
    capability = capability;
    normalized_resource = resource;
    semantic_operation = operation;
  })

pub record InvocationStatusContext : Type 0 where
  pub tenant_ref : String
  pub human_ref : String
  pub workload_ref : String
  pub run_ref : String
  pub actor_ref : String
  pub agent_ref : String
  pub task_ref : String
  pub session_ref : String
  pub admission_ref : String

unfoldable pub InvocationStatusContext-discrete : Discrete InvocationStatusContext
InvocationStatusContext-discrete = hlevel String-discrete

instance abbrev pub context_eq : Eq InvocationStatusContext
context_eq = record { dec = InvocationStatusContext-discrete }

-- `InvocationStatusContext::try_new`, its nine references given as the value to be checked.
unfoldable pub context_try_new : InvocationStatusContext → Result String InvocationStatusContext
context_try_new value = do
  refuse_if
      (any is_blank (
        tenant_ref ∷ human_ref ∷ workload_ref ∷ run_ref ∷ actor_ref ∷ agent_ref ∷ task_ref
        ∷ session_ref ∷ admission_ref ∷ []))
      "complete authenticated invocation status context is required"
  ok value
  where
    open value use {
      tenant_ref, human_ref, workload_ref, run_ref, actor_ref, agent_ref, task_ref, session_ref,
      admission_ref,
    }

pub data InvocationAuditLinkKind : Type 0 where
  authorization outcome : InvocationAuditLinkKind

unfoldable pub InvocationAuditLinkKind-discrete : Discrete InvocationAuditLinkKind
InvocationAuditLinkKind-discrete = hlevel

instance abbrev pub link_kind_eq : Eq InvocationAuditLinkKind
link_kind_eq = record { dec = InvocationAuditLinkKind-discrete }

pub record InvocationAuditLink : Type 0 where
  pub kind : InvocationAuditLinkKind
  pub record_id : String
  pub attached_at : Timestamp

-- `InvocationAuditLink::try_new`
unfoldable pub link_try_new :
    InvocationAuditLinkKind → String → Timestamp → Result String InvocationAuditLink
link_try_new kind record_id attached_at = do
  refuse_if (is_blank record_id) "audit record ID is required"
  ok (record { kind = kind; record_id = record_id; attached_at = attached_at })

abbrev pub optional :
    Result String InvocationAuditLink → Result Diagnostic (Option InvocationAuditLink)
optional (ok link) = ok (some link)
optional (err message) = err (invalid "audit record is invalid")

-- `InvocationAuditLink::from_transition`
unfoldable pub link_from_transition :
    TransitionAuditRecord → Timestamp → Result Diagnostic (Option InvocationAuditLink)
unfolding link_try_new
link_from_transition TransitionAuditRecord.none attached_at = ok none
link_from_transition (TransitionAuditRecord.authorization record_id) attached_at =
    optional (link_try_new InvocationAuditLinkKind.authorization record_id attached_at)
link_from_transition (TransitionAuditRecord.outcome record_id) attached_at =
    optional (link_try_new InvocationAuditLinkKind.outcome record_id attached_at)

pub record AbandonmentAuthorization : Type 0 where
  pub authorization_record_id : String
  pub authorized_by : String

-- `AbandonmentAuthorization::try_new`
unfoldable pub abandonment_try_new : String → String → Result String AbandonmentAuthorization
abandonment_try_new record_id authorized_by = do
  refuse_if (is_blank record_id || is_blank authorized_by)
      "explicit abandonment authorization is required"
  ok (record { authorization_record_id = record_id; authorized_by = authorized_by })
