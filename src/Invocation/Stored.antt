-- ===== src/Invocation/Stored.antt =====
-- What the store keeps of an invocation (`InvocationReservationInput`, `StoredInvocation`,
-- `InvocationStatus`, `ReservationKey` of status.rs).
use mathlib.Core.Option
use kiteframe.Base.{
  ℕ, ◌+◌, String, Bool, false, not, ◌&&◌, ◌||◌, Option, none, some, List, [], Result, ok, err,
  ◌>>=◌, ◌>>◌, refuse_if, is_blank, is_ascii_control, is_ascii_whitespace, split_once, codes, any,
  find, is_empty, ltb, u64_max, Eq, ◌==◌, String-discrete, Bytes-discrete, string_eq, bytes_eq,
}
use mathlib.Core.List.{reverse}
use kiteframe.Contract.Diagnostic.{Diagnostic}
use kiteframe.Contract.Refs.{
  InvocationId, AdmissionId, IdempotencyKey, ProtectedEvidenceRequestRef, Sha256Digest, Timestamp,
}
use kiteframe.Contract.Capability.{
  identity_eq, CatalogIdentity, CapabilityDescriptor, IdempotencyRequirement, none_required,
  required,
}
use kiteframe.Invocation.State.{InvocationState, reserved, invalid}
use kiteframe.Invocation.Parts.{
  IdempotencyScopeValue, InvocationStatusContext, InvocationAuditLinkKind, link_kind_eq,
  InvocationAuditLink, AbandonmentAuthorization,
}

pub record InvocationReservationInput : Type 0 where
  pub invocation_id : InvocationId
  pub status_id : String
  pub scope : IdempotencyScopeValue
  pub idempotency_key : IdempotencyKey
  pub request_digest : Sha256Digest
  pub admission_id : AdmissionId
  pub grant_digest : Sha256Digest
  pub catalog_identity : CatalogIdentity
  pub catalog_digest : Sha256Digest
  pub authority_revision_digest : Sha256Digest
  pub status_context : InvocationStatusContext
  pub proposal_digest : Sha256Digest
  pub protected_evidence_refs : List ProtectedEvidenceRequestRef

-- A reference `evidence://…` or `vault://…` with a non-empty rest that holds no ASCII white space
-- and no control character. No byte of a longer code point is ASCII, so code points serve as bytes.
unfoldable pub protected_reference : String → Bool
unfolding split_once is_ascii_whitespace is_ascii_control Bytes-discrete
protected_reference reference = elim (split_once (codes "://") (codes reference)) [
  | none ↦ false
  | some (scheme, rest) ↦
      (scheme == codes "evidence" || scheme == codes "vault")
      && not (is_empty rest)
      && not (any (λ c. is_ascii_whitespace c || is_ascii_control c) rest)
]

-- `InvocationReservationInput::validate`
unfoldable pub input_validate : InvocationReservationInput → Result Diagnostic (Unit {0})
unfolding is_blank protected_reference String-discrete
input_validate input =
    refuse_if
      (is_blank status_id
        || is_blank catalog_identity.name
        || is_blank catalog_identity.revision
        || not (scope.actor == status_context.actor_ref)
        || not (admission_id == status_context.admission_ref)
        || any (λ reference. not (protected_reference reference)) protected_evidence_refs)
      (invalid "invalid durable invocation reservation")
  where
    open input use {
      status_id, catalog_identity, scope, admission_id, status_context, protected_evidence_refs,
    }

pub record StoredInvocation : Type 0 where
  pub invocation_id : InvocationId
  pub status_id : String
  pub scope : IdempotencyScopeValue
  pub idempotency_key : IdempotencyKey
  pub request_digest : Sha256Digest
  pub admission_id : AdmissionId
  pub grant_digest : Sha256Digest
  pub catalog_identity : CatalogIdentity
  pub catalog_digest : Sha256Digest
  pub descriptor_digest : Sha256Digest
  pub authority_revision_digest : Sha256Digest
  pub status_context : InvocationStatusContext
  pub proposal_digest : Sha256Digest
  pub protected_evidence_refs : List ProtectedEvidenceRequestRef
  pub state : InvocationState
  pub audit_links : List InvocationAuditLink
  pub created_at : Timestamp
  pub updated_at : Timestamp
  pub retention_until : Timestamp
  pub abandonment : Option AbandonmentAuthorization

abbrev required_seconds : IdempotencyRequirement → Result Diagnostic ℕ
required_seconds (required scope retention_seconds) = ok retention_seconds
required_seconds none_required =
    err (invalid "durable effect reservation requires a locked idempotency contract")

-- What `try_reserve` stores when every check has passed.
unfoldable pub reserved_record :
    InvocationReservationInput → CapabilityDescriptor → Timestamp → Timestamp → StoredInvocation
reserved_record input descriptor created_at retention_until = record {
  invocation_id = input.invocation_id;
  status_id = input.status_id;
  scope = input.scope;
  idempotency_key = input.idempotency_key;
  request_digest = input.request_digest;
  admission_id = input.admission_id;
  grant_digest = input.grant_digest;
  catalog_identity = input.catalog_identity;
  catalog_digest = input.catalog_digest;
  descriptor_digest = descriptor.descriptor_digest;
  authority_revision_digest = input.authority_revision_digest;
  status_context = input.status_context;
  proposal_digest = input.proposal_digest;
  protected_evidence_refs = input.protected_evidence_refs;
  state = reserved;
  audit_links = [];
  created_at = created_at;
  updated_at = created_at;
  retention_until = retention_until;
  abandonment = none;
}

-- `StoredInvocation::try_reserve`
unfoldable pub try_reserve :
    InvocationReservationInput
    → CapabilityDescriptor
    → Timestamp
    → Timestamp
    → Result Diagnostic StoredInvocation
unfolding reserved_record
try_reserve input descriptor created_at retention_until = do
  input_validate input
  seconds ← required_seconds descriptor.idempotency
  refuse_if
      (not (descriptor.identity == input.scope.capability)
        || not (input.scope.semantic_operation == descriptor.identity.name))
      (invalid "idempotency scope does not match the locked capability descriptor")
  refuse_if (ltb u64_max (created_at + seconds))
      (invalid "idempotency retention deadline overflows")
  refuse_if (ltb retention_until (created_at + seconds))
      (invalid "retention deadline is shorter than the locked descriptor contract")
  ok (reserved_record input descriptor created_at retention_until)

pub record InvocationStatus : Type 0 where
  pub invocation_id : InvocationId
  pub status_id : String
  pub state : InvocationState
  pub request_digest : Sha256Digest
  pub grant_digest : Sha256Digest
  pub catalog_identity : CatalogIdentity
  pub catalog_digest : Sha256Digest
  pub descriptor_digest : Sha256Digest
  pub authority_revision_digest : Sha256Digest
  pub proposal_digest : Sha256Digest
  pub audit_links : List InvocationAuditLink
  pub abandonment_authorization_record_id : Option String
  pub abandoned_by : Option String
  pub created_at : Timestamp
  pub updated_at : Timestamp
  pub retention_until : Timestamp

-- `InvocationStatus::from_stored`
unfoldable pub status_from_stored : StoredInvocation → InvocationStatus
status_from_stored stored = record {
  invocation_id = stored.invocation_id;
  status_id = stored.status_id;
  state = stored.state;
  request_digest = stored.request_digest;
  grant_digest = stored.grant_digest;
  catalog_identity = stored.catalog_identity;
  catalog_digest = stored.catalog_digest;
  descriptor_digest = stored.descriptor_digest;
  authority_revision_digest = stored.authority_revision_digest;
  proposal_digest = stored.proposal_digest;
  audit_links = stored.audit_links;
  abandonment_authorization_record_id =
      Option.map (λ value. value.authorization_record_id) stored.abandonment;
  abandoned_by = Option.map (λ value. value.authorized_by) stored.abandonment;
  created_at = stored.created_at;
  updated_at = stored.updated_at;
  retention_until = stored.retention_until;
}

abbrev last_of_kind : InvocationAuditLinkKind → List InvocationAuditLink → Option String
last_of_kind kind links =
    Option.map (λ link. link.record_id) (find (λ link. link.kind == kind) (reverse links))

-- `InvocationStatus::audit_authorization_record_id`
unfoldable pub audit_authorization_record_id : InvocationStatus → Option String
audit_authorization_record_id status =
    last_of_kind InvocationAuditLinkKind.authorization status.audit_links

-- `InvocationStatus::audit_outcome_record_id`
unfoldable pub audit_outcome_record_id : InvocationStatus → Option String
audit_outcome_record_id status = last_of_kind InvocationAuditLinkKind.outcome status.audit_links

pub record ReservationKey : Type 0 where
  pub actor : String
  pub capability_name : String
  pub capability_version : String
  pub normalized_resource : String
  pub semantic_operation : String
  pub idempotency_key : String

unfoldable pub ReservationKey-discrete : Discrete ReservationKey
ReservationKey-discrete = hlevel String-discrete

instance abbrev pub reservation_key_eq : Eq ReservationKey
reservation_key_eq = record { dec = ReservationKey-discrete }

-- `ReservationKey::from_invocation`
unfoldable pub key_from_invocation : StoredInvocation → ReservationKey
key_from_invocation invocation = record {
  actor = invocation.scope.actor;
  capability_name = invocation.scope.capability.name;
  capability_version = invocation.scope.capability.version;
  normalized_resource = invocation.scope.normalized_resource;
  semantic_operation = invocation.scope.semantic_operation;
  idempotency_key = invocation.idempotency_key;
}

-- `ReservationKey::same_scope`
unfoldable pub same_scope : ReservationKey → ReservationKey → Bool
same_scope a b =
    a.actor == b.actor
    && a.capability_name == b.capability_name
    && a.capability_version == b.capability_version
    && a.normalized_resource == b.normalized_resource
    && a.semantic_operation == b.semantic_operation
