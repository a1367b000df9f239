-- ===== src/Audit.antt =====
-- Audit records and receipts (crates/kiteframe-provider/src/audit.rs): what is written before an
-- effect and what is written after it. Every reference and identifier is its text. The child
-- modules are about the ledger that keeps the records.
mod Codec
mod Linkage
mod Partition
mod Ledger
mod Decimal
mod Correlation
mod Sample
mod SampleRun
mod Examples
use Prim.Native.String.{◌++◌ as append}
use kiteframe.Base.{
  ℕ, zero, suc, ◌/◌, ◌%◌, Bool, not, ◌||◌, ◌&&◌, String, List, [], ◌∷◌, Option, Result, ok, err,
  ◌>>=◌, ◌>>◌, refuse_if, ltb, leb, if◌then◌else◌, is_blank, is_ascii_control, is_ascii_whitespace,
  utf8, length, any, all, chars, of_chars, ◌==◌, ℕ_discrete, nat_eq, Char,
}
use kiteframe.Contract.Diagnostic.{
  Diagnostic, DiagnosticCode, DiagnosticCategory, DiagnosticStage, after_refresh, diagnostic_error,
}
use kiteframe.Contract.Refs.{
  ActorRef, AgentRef, TaskRef, SessionRef, AdmissionId, InvocationId, IdempotencyKey,
  NormalizedResourceSelector, Timestamp, Sha256Digest, EvidenceReferences,
}
use kiteframe.Contract.Capability.{CapabilityIdentity, CatalogIdentity, EffectClassification}
use kiteframe.Invocation.State.{StatusSafeResult, StatusSafeError}

abbrev pub PreconditionRef : Type 0
PreconditionRef = String

-- `PreconditionRef::new`
unfoldable pub precondition_ref_new : String → Result String PreconditionRef
precondition_ref_new value = do
  refuse_if (is_blank value) "audit precondition reference is required"
  ok value

-- A digit, or a lowercase hexadecimal letter.
abbrev is_hex : ℕ → Bool
is_hex byte = leb 48 byte && leb byte 57 || leb 97 byte && leb byte 102

-- `new` of the macro `correlation_id!`, with the macro's length and message in front.
unfoldable pub correlation_id_new : ℕ → String → String → Result String String
unfolding ℕ_discrete
correlation_id_new size message value = do
  refuse_if
      (not (length (utf8 value) == size)
        || not (all is_hex (utf8 value))
        || all (λ byte. byte == 48) (utf8 value))
      message
  ok value

unfoldable pub trace_id_new : String → Result String String
unfolding correlation_id_new
trace_id_new =
    correlation_id_new 32 "audit trace ID must be 32 non-zero lowercase hexadecimal characters"

unfoldable pub span_id_new : String → Result String String
unfolding correlation_id_new
span_id_new =
    correlation_id_new 16 "audit span ID must be 16 non-zero lowercase hexadecimal characters"

pub record AuthorizationAuditRecord : Type 0 where
  pub tenant_ref : String
  pub human_principal_ref : String
  pub workload_principal_ref : String
  pub run_ref : String
  pub actor : ActorRef
  pub agent : AgentRef
  pub task : TaskRef
  pub session : SessionRef
  pub capability : CapabilityIdentity
  pub resource : NormalizedResourceSelector
  pub admission_id : AdmissionId
  pub grant_digest : Sha256Digest
  pub catalog_identity : CatalogIdentity
  pub catalog_digest : Sha256Digest
  pub descriptor_digest : Sha256Digest
  pub authority_revision_digest : Sha256Digest
  pub decision_reference : String
  pub invocation_id : InvocationId
  pub status_id : String
  pub idempotency_key : IdempotencyKey
  pub precondition_refs : List PreconditionRef
  pub evidence_refs : EvidenceReferences
  pub proposal_digest : Sha256Digest
  pub portable_digest : Sha256Digest
  pub lock_digest : Sha256Digest
  pub binding_digest : Sha256Digest
  pub resolved_digest : Sha256Digest
  pub trace_id : String
  pub span_id : String
  pub intended_effect : EffectClassification
  pub timestamp : Timestamp

pub data OutcomeAuditKind : Type 0 where
  completion failure suspension outcome_unknown : OutcomeAuditKind

pub record OutcomeAuditRecord : Type 0 where
  pub write_ahead_record_id : String
  pub outcome : OutcomeAuditKind
  pub tenant_ref : String
  pub human_principal_ref : String
  pub workload_principal_ref : String
  pub run_ref : String
  pub actor : ActorRef
  pub agent : AgentRef
  pub task : TaskRef
  pub session : SessionRef
  pub capability : CapabilityIdentity
  pub resource : NormalizedResourceSelector
  pub admission_id : AdmissionId
  pub grant_digest : Sha256Digest
  pub catalog_identity : CatalogIdentity
  pub catalog_digest : Sha256Digest
  pub descriptor_digest : Sha256Digest
  pub authority_revision_digest : Sha256Digest
  pub invocation_id : InvocationId
  pub status_id : String
  pub idempotency_key : IdempotencyKey
  pub proposal_digest : Sha256Digest
  pub portable_digest : Sha256Digest
  pub lock_digest : Sha256Digest
  pub binding_digest : Sha256Digest
  pub resolved_digest : Sha256Digest
  pub trace_id : String
  pub span_id : String
  pub intended_effect : EffectClassification
  pub safe_result : Option StatusSafeResult
  pub safe_error : Option StatusSafeError
  pub timestamp : Timestamp

pub data AuditRecord : Type 0 where
  authorization : AuthorizationAuditRecord → AuditRecord
  outcome : OutcomeAuditRecord → AuditRecord

-- `AuditRecord::partition`
unfoldable pub audit_partition : AuditRecord → String
audit_partition (AuditRecord.authorization r) = r.tenant_ref
audit_partition (AuditRecord.outcome r) = r.tenant_ref

-- The digit of a value below sixteen, in decimal and in lowercase hexadecimal.
abbrev pub digit_from : List Char → ℕ → Char
digit_from [] n = "?"
digit_from (c ∷ cs) zero = c
digit_from (c ∷ cs) (suc n) = digit_from cs n

abbrev pub digit : ℕ → Char
digit = digit_from (chars "0123456789abcdef")

-- A number below 2^64 in decimal, in front of the digits behind it: `Display` of `u64`. A `u64` has
-- at most twenty digits, so twenty rounds are enough.
abbrev pub digits : ℕ → ℕ → List Char → List Char
digits zero n acc = acc
digits (suc rounds) n acc =
    let here = digit (n % 10) ∷ acc in
    let rest = digits rounds (n / 10) here in if ltb n 10 then here else rest

unfoldable pub decimal : ℕ → String
decimal n = of_chars (digits 20 n [])

-- `Display` of `Sha256Digest`
unfoldable pub hex : Sha256Digest → String
hex [] = ""
hex (byte ∷ bytes) = append (of_chars (digit (byte / 16) ∷ digit (byte % 16) ∷ [])) (hex bytes)

pub record DurableAuditReceipt : Type 0 where
  pub partition : String
  pub sequence : ℕ
  pub previous_hash : Sha256Digest
  pub record_hash : Sha256Digest
  pub record_id : String

-- The identifier that `DurableAuditReceipt::try_new` formats.
unfoldable pub receipt_id : String → ℕ → Sha256Digest → String
unfolding decimal
receipt_id partition sequence record_hash =
    append "audit://"
      (append partition (append "/" (append (decimal sequence) (append "/" (hex record_hash)))))

-- `DurableAuditReceipt::try_new`
unfoldable pub receipt_try_new :
    String → ℕ → Sha256Digest → Sha256Digest → Result String DurableAuditReceipt
unfolding ℕ_discrete
receipt_try_new partition sequence previous_hash record_hash = do
  refuse_if
      (is_blank partition
        || any (λ byte. is_ascii_control byte || is_ascii_whitespace byte) (utf8 partition)
        || sequence == 0)
      "durable audit receipt partition and sequence are invalid"
  ok (record {
    partition = partition;
    sequence = sequence;
    previous_hash = previous_hash;
    record_hash = record_hash;
    record_id = receipt_id partition sequence record_hash;
  })

-- `audit_unavailable` of audit.rs, and `unavailable` of the ledger.
unfoldable pub unavailable : String → Diagnostic
unfolding diagnostic_error
unavailable message =
    let d =
      diagnostic_error DiagnosticCode.audit_unavailable DiagnosticCategory.audit
        DiagnosticStage.audit message in
    record d { retry = after_refresh }
