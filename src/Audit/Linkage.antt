-- ===== src/Audit/Linkage.antt =====
-- The link between the records of a partition (`validate_record_linkage` of
-- crates/kiteframe-audit/src/chain.rs): an outcome refers to its authorization.
pub mod Outcomes
use Prim.Native.String.{◌++◌ as append}
use mathlib.Core.Option
use kiteframe.Base.{
  Bool, true, false, not, String, List, [], ◌∷◌, Option, none, some, Result, ok, err, ◌>>=◌, ◌>>◌,
  refuse_if, if◌then◌else◌, find, ◌==◌, string_eq, Eq,
}
use kiteframe.Contract.Diagnostic.{Diagnostic}
use kiteframe.Audit.{DurableAuditReceipt, unavailable}
use kiteframe.Audit.Codec.{Codec}
use kiteframe.Audit.Partition.{required}

-- `VerifiedAuditEntry`, over the type of JSON values.
pub record VerifiedAuditEntry (Value : Type 0) : Type 0 where
  pub receipt : DurableAuditReceipt
  pub record_value : Value

-- The fields in which an outcome agrees with its authorization.
abbrev pub correlation_fields : List String
correlation_fields =
    "tenantRef" ∷ "humanPrincipalRef" ∷ "workloadPrincipalRef" ∷ "runRef" ∷ "actor" ∷ "agent"
    ∷ "task" ∷ "session" ∷ "capability" ∷ "resource" ∷ "admissionId" ∷ "grantDigest"
    ∷ "catalogIdentity" ∷ "catalogDigest" ∷ "descriptorDigest" ∷ "authorityRevisionDigest"
    ∷ "invocationId" ∷ "statusId" ∷ "idempotencyKey" ∷ "proposalDigest" ∷ "portableDigest"
    ∷ "lockDigest" ∷ "bindingDigest" ∷ "resolvedDigest" ∷ "traceId" ∷ "spanId" ∷ "intendedEffect"
    ∷ []

-- Whether a JSON text is there and is the expected one.
abbrev pub is_text : String → Option String → Bool
is_text expected (some text) = text == expected
is_text expected none = false

module _ (codec : Codec) where
  abbrev pub same_value : codec.Value → codec.Value → Bool
  same_value a b = elim (codec.value_eq.dec a b) [ yes _ ↦ true | no _ ↦ false ]

  -- The loop over the fields that correlate an outcome with its authorization.
  unfoldable pub match_fields :
      codec.Object → codec.Object → List String → Result Diagnostic (Unit {0})
  match_fields authorization body [] = ok tt
  match_fields authorization body (name ∷ names) = do
    authorization_value ←
        required "authorization audit correlation is incomplete" (codec.field name authorization)
    outcome_value ← required "outcome audit correlation is incomplete" (codec.field name body)
    refuse_if (not (same_value authorization_value outcome_value))
        (unavailable (append "outcome audit correlation does not match authorization field " name))
    match_fields authorization body names

  -- A record is asked for its type and its body.
  abbrev pub record_type : codec.Value → Option String
  record_type value = Option.bind (codec.get "recordType" value) codec.as_str

  abbrev pub record_body : codec.Value → Option codec.Object
  record_body value = Option.bind (codec.get "record" value) codec.as_object

  abbrev pub text_field : String → codec.Object → Option String
  text_field name body = Option.bind (codec.field name body) codec.as_str

  -- The branch of an outcome: its authorization is an earlier entry, is one, and agrees with it.
  unfoldable pub validate_outcome :
      codec.Object → List (VerifiedAuditEntry codec.Value) → Result Diagnostic (Unit {0})
  unfolding match_fields Option.bind
  validate_outcome body prior = do
    authorization_id ←
        required "outcome audit authorization link is missing"
          (text_field "writeAheadRecordId" body)
    authorization ←
        required "outcome audit authorization link is not in this partition"
          (find (λ entry. entry.receipt.record_id == authorization_id) prior)
    authorization_body ← required "outcome audit link does not reference an authorization record" (
        if is_text "authorization" (record_type authorization.record_value)
        then record_body authorization.record_value
        else none)
    match_fields authorization_body body correlation_fields

  -- `validate_record_linkage`
  unfoldable pub validate_record_linkage :
      codec.Value → String → List (VerifiedAuditEntry codec.Value) → Result Diagnostic (Unit {0})
  unfolding validate_outcome Option.bind
  validate_record_linkage value partition prior = do
    kind ← required "audit record type is missing" (record_type value)
    body ← required "audit record body is missing" (record_body value)
    refuse_if (not (is_text partition (text_field "tenantRef" body)))
        (unavailable "audit record tenant does not match its partition")
    if kind == "authorization"
        then ok tt
        else if kind == "outcome"
        then validate_outcome body prior
        else err (unavailable "audit record type is unsupported")
