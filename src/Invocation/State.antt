-- ===== src/Invocation/State.antt =====
-- The states of an invocation, what they mean to a client, and the transitions between them
-- (`InvocationState`, `StatusState`, `TransitionAuditRecord`, `allowed_transition`,
-- `audit_matches_transition`, `InvocationTransition` of status.rs). A status-safe result holds only
-- the three members that its projection keeps.
pub mod Diagram
use kiteframe.Base.{
  ℕ, String, Bool, true, false, not, ◌&&◌, ◌||◌, Option, Result, ok, err, ◌>>=◌, ◌>>◌, refuse_if,
  is_blank, Eq, String-discrete, Bytes-discrete, ℕ_discrete,
}
use kiteframe.Contract.Diagnostic.{
  Diagnostic, DiagnosticCategory, DiagnosticStage, RetryClass, RetryClass-discrete, result_invalid,
  diagnostic_error,
}
use kiteframe.Contract.Refs.{ProtectedEvidenceRequestRef, Sha256Digest}

pub data EvidenceKind : Type 0 where
  confirmation approval consent : EvidenceKind

pub record Suspension : Type 0 where
  pub checkpoint_ref : String
  pub evidence_kind : EvidenceKind
  pub evidence_request_ref : ProtectedEvidenceRequestRef
  pub proposal_digest : Sha256Digest

pub record StatusSafeResult : Type 0 where
  pub changed : Option Bool
  pub affected_count : Option ℕ
  pub item_count : Option ℕ

pub record StatusSafeError : Type 0 where
  pub code : String
  pub category : String
  pub retry : RetryClass
  pub message : String

pub data InvocationState : Type 0 where
  reserved pending : InvocationState
  suspended : Suspension → InvocationState
  succeeded : StatusSafeResult → InvocationState
  failed : StatusSafeError → InvocationState
  denied : StatusSafeError → InvocationState
  outcome_unknown abandoned : InvocationState

unfoldable pub InvocationState-discrete : Discrete InvocationState
InvocationState-discrete = hlevel (String-discrete, Bytes-discrete, ℕ_discrete, RetryClass-discrete)

instance abbrev pub invocation_state_eq : Eq InvocationState
invocation_state_eq = record { dec = InvocationState-discrete }

pub data StatusState : Type 0 where
  pending suspended succeeded failed denied outcome_unknown : StatusState

-- `InvocationState::status_state`
unfoldable pub status_state : InvocationState → StatusState
status_state reserved = StatusState.pending
status_state pending = StatusState.pending
status_state (suspended s) = StatusState.suspended
status_state (succeeded r) = StatusState.succeeded
status_state (failed e) = StatusState.failed
status_state (denied e) = StatusState.denied
status_state outcome_unknown = StatusState.outcome_unknown
status_state abandoned = StatusState.denied

pub data TransitionAuditRecord : Type 0 where
  none : TransitionAuditRecord
  authorization : String → TransitionAuditRecord
  outcome : String → TransitionAuditRecord

-- The states that keep an idempotency scope closed to another invocation.
unfoldable pub state_fences_idempotency_scope : InvocationState → Bool
state_fences_idempotency_scope reserved = true
state_fences_idempotency_scope pending = true
state_fences_idempotency_scope (suspended s) = true
state_fences_idempotency_scope outcome_unknown = true
state_fences_idempotency_scope _ = false

unfoldable pub allowed_transition : InvocationState → InvocationState → Bool
allowed_transition reserved pending = true
allowed_transition reserved (suspended s) = true
allowed_transition reserved (denied e) = true
allowed_transition pending (suspended s) = true
allowed_transition pending (succeeded r) = true
allowed_transition pending (failed e) = true
allowed_transition pending (denied e) = true
allowed_transition pending outcome_unknown = true
allowed_transition (suspended s) pending = true
allowed_transition (suspended s) (denied e) = true
allowed_transition outcome_unknown (succeeded r) = true
allowed_transition outcome_unknown (failed e) = true
allowed_transition outcome_unknown (denied e) = true
allowed_transition _ _ = false

unfoldable pub audit_matches_transition :
    InvocationState → InvocationState → TransitionAuditRecord → Bool
audit_matches_transition reserved pending (authorization r) = true
audit_matches_transition (suspended s) pending (authorization r) = true
audit_matches_transition pending (succeeded x) (outcome r) = true
audit_matches_transition pending (failed e) (outcome r) = true
audit_matches_transition outcome_unknown (succeeded x) (outcome r) = true
audit_matches_transition outcome_unknown (failed e) (outcome r) = true
audit_matches_transition pending outcome_unknown none = true
audit_matches_transition pending outcome_unknown (outcome r) = true
audit_matches_transition reserved (suspended s) none = true
audit_matches_transition reserved (denied e) none = true
audit_matches_transition pending (suspended s) none = true
audit_matches_transition pending (denied e) none = true
audit_matches_transition (suspended s) (denied e) none = true
audit_matches_transition outcome_unknown (denied e) none = true
audit_matches_transition _ _ _ = false

-- `invalid` of status.rs
unfoldable pub invalid : String → Diagnostic
invalid message =
    diagnostic_error result_invalid DiagnosticCategory.capability DiagnosticStage.invoke message

-- `TransitionAuditRecord::validate`
unfoldable pub audit_record_validate : TransitionAuditRecord → Result Diagnostic (Unit {0})
audit_record_validate none = ok tt
audit_record_validate (authorization record_id) =
    refuse_if (is_blank record_id) (invalid "audit record ID is required for state transition")
audit_record_validate (outcome record_id) =
    refuse_if (is_blank record_id) (invalid "audit record ID is required for state transition")

pub record InvocationTransition : Type 0 where
  pub expected : InvocationState
  pub next : InvocationState
  pub audit_record : TransitionAuditRecord

-- `InvocationTransition::try_new`
unfoldable pub transition_try_new :
    InvocationState
    → InvocationState
    → TransitionAuditRecord
    → Result Diagnostic InvocationTransition
unfolding audit_record_validate
transition_try_new expected next audit_record = do
  audit_record_validate audit_record
  refuse_if
      (not (allowed_transition expected next)
        || not (audit_matches_transition expected next audit_record))
      (invalid "invocation state transition and audit record do not correspond")
  ok (record { expected = expected; next = next; audit_record = audit_record })
