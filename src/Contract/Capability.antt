-- ===== src/Contract/Capability.antt =====
-- Capability descriptors, requirements and grants (capability.rs, service.rs and ir.rs of
-- crates/kiteframe-contract). The JSON Schema documents of a descriptor are left out: only the
-- schema validator reads them. A `BTreeSet` is a list; a `NonZeroU64` is a number.
use kiteframe.Base.{ℕ, String, Bool, Option, List, Eq, String-discrete}
use kiteframe.Contract.Diagnostic.{RetryClass}
use kiteframe.Contract.Refs.{Sha256Digest, NormalizedResourceSelector, Timestamp}

pub record CapabilityIdentity : Type 0 where
  pub name : String
  pub version : String

unfoldable pub CapabilityIdentity-discrete : Discrete CapabilityIdentity
CapabilityIdentity-discrete = hlevel String-discrete

instance abbrev pub identity_eq : Eq CapabilityIdentity
identity_eq = record { dec = CapabilityIdentity-discrete }

pub data ExecutionMode : Type 0 where
  immediate deferred suspendable : ExecutionMode

unfoldable pub ExecutionMode-discrete : Discrete ExecutionMode
ExecutionMode-discrete = hlevel

instance abbrev pub mode_eq : Eq ExecutionMode
mode_eq = record { dec = ExecutionMode-discrete }

pub data EffectClassification : Type 0 where
  read_only reversible_write irreversible_write external_side_effect : EffectClassification

unfoldable pub EffectClassification-discrete : Discrete EffectClassification
EffectClassification-discrete = hlevel

instance abbrev pub effect_eq : Eq EffectClassification
effect_eq = record { dec = EffectClassification-discrete }

-- The position of an effect in the derived order.
abbrev pub effect_rank : EffectClassification → ℕ
effect_rank read_only = 0
effect_rank reversible_write = 1
effect_rank irreversible_write = 2
effect_rank external_side_effect = 3

pub data IdempotencyScope : Type 0 where
  actor_capability_resource_operation : IdempotencyScope

pub data IdempotencyRequirement : Type 0 where
  none_required : IdempotencyRequirement
  required : IdempotencyScope → ℕ → IdempotencyRequirement

pub record FreshnessRequirement : Type 0 where
  pub max_admission_age_seconds : Option ℕ
  pub policy_revision_required : Bool
  pub max_input_age_seconds : Option ℕ

pub data PreconditionKind : Type 0 where
  entity_version etag : PreconditionKind

pub record PreconditionDescriptor : Type 0 where
  pub name : String
  pub kind : PreconditionKind
  pub required : Bool

unfoldable pub PreconditionDescriptor-discrete : Discrete PreconditionDescriptor
PreconditionDescriptor-discrete = hlevel String-discrete

instance abbrev pub precondition_eq : Eq PreconditionDescriptor
precondition_eq = record { dec = PreconditionDescriptor-discrete }

pub record EvidenceRequirement : Type 0 where
  pub kind : String
  pub issuer : Option String

unfoldable pub EvidenceRequirement-discrete : Discrete EvidenceRequirement
EvidenceRequirement-discrete = hlevel String-discrete

instance abbrev pub evidence_eq : Eq EvidenceRequirement
evidence_eq = record { dec = EvidenceRequirement-discrete }

pub data ConfirmationRequirement : Type 0 where
  none : ConfirmationRequirement
  required : EvidenceRequirement → ConfirmationRequirement

pub data ApprovalRequirement : Type 0 where
  none : ApprovalRequirement
  required : EvidenceRequirement → ApprovalRequirement

pub data ConsentRequirement : Type 0 where
  none : ConsentRequirement
  required : EvidenceRequirement → ConsentRequirement

unfoldable pub ConfirmationRequirement-discrete : Discrete ConfirmationRequirement
ConfirmationRequirement-discrete = hlevel EvidenceRequirement-discrete

unfoldable pub ApprovalRequirement-discrete : Discrete ApprovalRequirement
ApprovalRequirement-discrete = hlevel EvidenceRequirement-discrete

unfoldable pub ConsentRequirement-discrete : Discrete ConsentRequirement
ConsentRequirement-discrete = hlevel EvidenceRequirement-discrete

instance abbrev pub confirmation_eq : Eq ConfirmationRequirement
confirmation_eq = record { dec = ConfirmationRequirement-discrete }

instance abbrev pub approval_eq : Eq ApprovalRequirement
approval_eq = record { dec = ApprovalRequirement-discrete }

instance abbrev pub consent_eq : Eq ConsentRequirement
consent_eq = record { dec = ConsentRequirement-discrete }

pub record CapabilityErrorDescriptor : Type 0 where
  pub code : String
  pub category : String
  pub retry : RetryClass
  pub message : String

pub record CapabilityDescriptor : Type 0 where
  pub identity : CapabilityIdentity
  pub summary : String
  pub stable_errors : List CapabilityErrorDescriptor
  pub execution_modes : List ExecutionMode
  pub effect : EffectClassification
  pub idempotency : IdempotencyRequirement
  pub freshness : FreshnessRequirement
  pub preconditions : List PreconditionDescriptor
  pub confirmation : ConfirmationRequirement
  pub approval : ApprovalRequirement
  pub consent : ConsentRequirement
  pub descriptor_digest : Sha256Digest

-- A capability as the lock file pins it.
pub record LockedCapability : Type 0 where
  pub identity : CapabilityIdentity
  pub descriptor : CapabilityDescriptor
  pub descriptor_digest : Sha256Digest
  pub input_schema_digest : Sha256Digest
  pub output_schema_digest : Sha256Digest
  pub stable_error_set_digest : Sha256Digest
  pub safety_metadata_digest : Sha256Digest

pub record ResolvedCapabilityRequirement : Type 0 where
  pub locked_capability : LockedCapability
  pub required : Bool
  pub resources : List String

pub record RequiredEvidence : Type 0 where
  pub confirmation : ConfirmationRequirement
  pub approval : ApprovalRequirement
  pub consent : ConsentRequirement

pub record EffectiveCapabilityGrant : Type 0 where
  pub capability : CapabilityIdentity
  pub resources : List NormalizedResourceSelector
  pub execution_modes : List ExecutionMode
  pub maximum_effect : EffectClassification
  pub expires_at : Timestamp
  pub required_evidence : RequiredEvidence
  pub freshness : FreshnessRequirement
  pub preconditions : List PreconditionDescriptor

pub record CatalogIdentity : Type 0 where
  pub name : String
  pub revision : String

pub record StableCapabilityError : Type 0 where
  pub code : String
  pub category : String
  pub retry : RetryClass
  pub message : String
