-- ===== src/Audit/Sample.antt =====
-- A small codec for the ledger's examples: JSON values of two levels, a checksum for the hash, and
-- a table of the entries that it writes, each as one byte.
use mathlib.Core.Path.{subst}
use kiteframe.Base.{
  ℕ, zero, suc, ◌+◌, ◌%◌, ◌≡◌, ◌<◌, refl, sym, ap, ◌∙◌, String, true, false, List, [], ◌∷◌, Option,
  none, some, All, length, is_empty, if◌then◌else◌, ◌==◌, Eq, String-discrete, string_eq, nat_eq,
  Bytes-discrete, arith, ℕ_discrete, some_injective, ==_of_eq, eq_of_==, Bool-cases, inl, inr,
  codes,
}
use kiteframe.Audit.{AuditRecord, AuthorizationAuditRecord, OutcomeAuditRecord, hex}
use kiteframe.Audit.Codec.{Codec, PersistedEntry, GivesDigests, ReadsBack, IsPrintable}

pub data Json : Type 0 where
  text : String → Json
  object : List (String × String) → Json
  tagged : String → List (String × String) → Json

unfoldable pub Json-discrete : Discrete Json
Json-discrete = hlevel String-discrete

instance abbrev pub json_eq : Eq Json
json_eq = record { dec = Json-discrete }

unfoldable pub Entry-discrete : Discrete (PersistedEntry Json)
Entry-discrete = hlevel (String-discrete, Bytes-discrete, Json-discrete, ℕ_discrete)

instance abbrev pub entry_eq : Eq (PersistedEntry Json)
entry_eq = record { dec = Entry-discrete }

abbrev pub find_field : String → List (String × String) → Option Json
find_field name [] = none
find_field name ((key, value) ∷ fields) =
    if key == name then some (text value) else find_field name fields

abbrev pub authorization_json : AuthorizationAuditRecord → Json
authorization_json r = tagged "authorization" (
    ("tenantRef", r.tenant_ref)
    ∷ ("humanPrincipalRef", r.human_principal_ref)
    ∷ ("workloadPrincipalRef", r.workload_principal_ref)
    ∷ ("runRef", r.run_ref)
    ∷ ("actor", r.actor)
    ∷ ("agent", r.agent)
    ∷ ("task", r.task)
    ∷ ("session", r.session)
    ∷ ("capability", r.capability.name)
    ∷ ("resource", r.resource)
    ∷ ("admissionId", r.admission_id)
    ∷ ("grantDigest", hex r.grant_digest)
    ∷ ("catalogIdentity", "catalog")
    ∷ ("catalogDigest", hex r.catalog_digest)
    ∷ ("descriptorDigest", hex r.descriptor_digest)
    ∷ ("authorityRevisionDigest", hex r.authority_revision_digest)
    ∷ ("invocationId", r.invocation_id)
    ∷ ("statusId", r.status_id)
    ∷ ("idempotencyKey", r.idempotency_key)
    ∷ ("proposalDigest", hex r.proposal_digest)
    ∷ ("portableDigest", hex r.portable_digest)
    ∷ ("lockDigest", hex r.lock_digest)
    ∷ ("bindingDigest", hex r.binding_digest)
    ∷ ("resolvedDigest", hex r.resolved_digest)
    ∷ ("traceId", r.trace_id)
    ∷ ("spanId", r.span_id)
    ∷ ("intendedEffect", "effect")
    ∷ [])

abbrev pub outcome_json : OutcomeAuditRecord → Json
outcome_json r = tagged "outcome" (
    ("writeAheadRecordId", r.write_ahead_record_id)
    ∷ ("tenantRef", r.tenant_ref)
    ∷ ("humanPrincipalRef", r.human_principal_ref)
    ∷ ("workloadPrincipalRef", r.workload_principal_ref)
    ∷ ("runRef", r.run_ref)
    ∷ ("actor", r.actor)
    ∷ ("agent", r.agent)
    ∷ ("task", r.task)
    ∷ ("session", r.session)
    ∷ ("capability", r.capability.name)
    ∷ ("resource", r.resource)
    ∷ ("admissionId", r.admission_id)
    ∷ ("grantDigest", hex r.grant_digest)
    ∷ ("catalogIdentity", "catalog")
    ∷ ("catalogDigest", hex r.catalog_digest)
    ∷ ("descriptorDigest", hex r.descriptor_digest)
    ∷ ("authorityRevisionDigest", hex r.authority_revision_digest)
    ∷ ("invocationId", r.invocation_id)
    ∷ ("statusId", r.status_id)
    ∷ ("idempotencyKey", r.idempotency_key)
    ∷ ("proposalDigest", hex r.proposal_digest)
    ∷ ("portableDigest", hex r.portable_digest)
    ∷ ("lockDigest", hex r.lock_digest)
    ∷ ("bindingDigest", hex r.binding_digest)
    ∷ ("resolvedDigest", hex r.resolved_digest)
    ∷ ("traceId", r.trace_id)
    ∷ ("spanId", r.span_id)
    ∷ ("intendedEffect", "effect")
    ∷ [])

abbrev pub to_json : AuditRecord → Json
to_json (AuditRecord.authorization r) = authorization_json r
to_json (AuditRecord.outcome r) = outcome_json r

-- The sum of the bytes, repeated.
abbrev pub sum : List ℕ → ℕ
sum [] = 0
sum (byte ∷ bytes) = byte + sum bytes

abbrev pub sum_bytes : ℕ → ℕ → List ℕ
sum_bytes zero n = []
sum_bytes (suc k) n = n % 256 ∷ sum_bytes k n

abbrev pub Table : Type 0
Table = List (PersistedEntry Json)

abbrev pub write_from : ℕ → Table → PersistedEntry Json → Option (List ℕ)
write_from n [] e = none
write_from n (t ∷ table) e = if t == e then some (n ∷ []) else write_from (suc n) table e

abbrev pub read_at : ℕ → Table → List ℕ → Option (PersistedEntry Json)
read_at n table [] = none
read_at n [] (byte ∷ bytes) = none
read_at n (t ∷ table) (byte ∷ bytes) =
    if byte == n then some t else read_at (suc n) table (byte ∷ bytes)

abbrev pub get_json : String → Json → Option Json
get_json key (tagged kind fields) =
    if key == "recordType"
    then some (text kind)
    else if key == "record"
    then some (object fields)
    else none
get_json key other = none

abbrev pub text_json : Json → Option String
text_json (text s) = some s
text_json other = none

abbrev pub object_json : Json → Option (List (String × String))
object_json (object fields) = some fields
object_json other = none

abbrev pub canonical_json : Json → List ℕ
canonical_json (text s) = codes s
canonical_json (object fields) = []
canonical_json (tagged kind fields) = codes kind

abbrev pub sample_codec : Table → Codec
sample_codec table = record {
  Value = Json;
  Object = List (String × String);
  value_eq = json_eq;
  get = get_json;
  as_str = text_json;
  as_object = object_json;
  field = find_field;
  to_value = λ r. some (to_json r);
  canonical = λ value. some (canonical_json value);
  write_entry = write_from 65 table;
  read_entry = read_at 65 table;
  is_utf8 = λ bytes. true;
  sha256 = λ bytes. sum_bytes 32 (sum bytes);
}

sum_bytes-IsDigest :
    (k n : ℕ) → (length (sum_bytes k n) ≡ k) × All (λ byte. byte < 256) (sum_bytes k n)
sum_bytes-IsDigest zero n = (refl, tt)
sum_bytes-IsDigest (suc k) n =
    let rest = sum_bytes-IsDigest k n in (ap suc rest.0, (omega arith, rest.1))

pub sample-GivesDigests : (table : Table) → GivesDigests (sample_codec table)
sample-GivesDigests table bytes = sum_bytes-IsDigest 32 (sum bytes)

other_byte : (n k : ℕ) → ((suc n + k) == n) ≡ false
other_byte n k = ground arith

plus_zero : (n : ℕ) → n ≡ n + 0
plus_zero n = omega arith

plus_suc : (n k : ℕ) → suc n + k ≡ n + suc k
plus_suc n k = omega arith

-- What a table writes is one byte from its number on, and is read back.
written_from :
    (n : ℕ) (table : Table) (e : PersistedEntry Json) (bytes : List ℕ)
    → write_from n table e ≡ some bytes
    → (k : ℕ) × (bytes ≡ (n + k) ∷ []) × (read_at n table bytes ≡ some e)
written_from n [] e bytes h = cc
written_from n (t ∷ table) e bytes h = elim (Bool-cases (t == e)) [
  | inl same ↦
      let first : n ∷ [] ≡ bytes = some_injective (sym (rw (same) refl) ∙ h) in
      (
        0,
        sym first ∙ ap (λ m. m ∷ []) (plus_zero n),
        subst (λ b. read_at n (t ∷ table) b ≡ some e) first
            (rw (==_of_eq {a = n} refl) (ap some (eq_of_== same))),
      )
  | inr different ↦
      let (k, is, back) = written_from (suc n) table e bytes (sym (rw (different) refl) ∙ h) in
      (
        suc k,
        is ∙ ap (λ m. m ∷ []) (plus_suc n k),
        subst (λ b. read_at (suc n) table b ≡ some e → read_at n (t ∷ table) b ≡ some e) (sym is)
            (λ h. rw (other_byte n k) h) back,
      )
]

pub sample-ReadsBack : (table : Table) → ReadsBack (sample_codec table)
sample-ReadsBack table e _ bytes h =
    let (k, is, back) = written_from 65 table e bytes h in
    (subst IsPrintable (sym is) (omega arith, tt), ap is_empty is, refl, back)
