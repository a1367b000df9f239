-- ===== src/Audit/SampleRun.antt =====
-- A small run of the audit ledger over the small codec: an authorization and its outcome.
use kiteframe.Base.{some, true, List, [], ◌∷◌, none, codes}
use kiteframe.Contract.Refs.{Sha256Digest, zero_bytes}
use kiteframe.Contract.Capability.{EffectClassification}
use kiteframe.Audit.{AuditRecord, completion, receipt_id, DurableAuditReceipt}
use kiteframe.Audit.Codec.{Codec, PersistedEntry}
use kiteframe.Audit.Partition.{Files, Io, complete, durable, torn}
use kiteframe.Audit.Linkage.{VerifiedAuditEntry}
use kiteframe.Audit.Ledger.{append_sync, record_hash}
use kiteframe.Audit.Sample.{Json, Table, sample_codec, to_json}

abbrev pub first_hash : Sha256Digest
first_hash = record_hash (sample_codec []) "t" 1 (zero_bytes 32) (codes "authorization")

abbrev pub second_hash : Sha256Digest
second_hash = record_hash (sample_codec []) "t" 2 first_hash (codes "outcome")

abbrev pub authorization_record : AuditRecord
authorization_record = AuditRecord.authorization (record {
  tenant_ref = "t";
  human_principal_ref = "h";
  workload_principal_ref = "w";
  run_ref = "r";
  actor = "a";
  agent = "g";
  task = "k";
  session = "s";
  capability = record { name = "c"; version = "1" };
  resource = "x";
  admission_id = "d";
  grant_digest = zero_bytes 1;
  catalog_identity = record { name = "l"; revision = "1" };
  catalog_digest = zero_bytes 1;
  descriptor_digest = zero_bytes 1;
  authority_revision_digest = zero_bytes 1;
  decision_reference = "p";
  invocation_id = "i";
  status_id = "u";
  idempotency_key = "y";
  precondition_refs = [];
  evidence_refs = [];
  proposal_digest = zero_bytes 1;
  portable_digest = zero_bytes 1;
  lock_digest = zero_bytes 1;
  binding_digest = zero_bytes 1;
  resolved_digest = zero_bytes 1;
  trace_id = "f";
  span_id = "e";
  intended_effect = EffectClassification.reversible_write;
  timestamp = 5;
})

abbrev pub outcome_record : AuditRecord
outcome_record = AuditRecord.outcome (record {
  write_ahead_record_id = receipt_id "t" 1 first_hash;
  outcome = completion;
  tenant_ref = "t";
  human_principal_ref = "h";
  workload_principal_ref = "w";
  run_ref = "r";
  actor = "a";
  agent = "g";
  task = "k";
  session = "s";
  capability = record { name = "c"; version = "1" };
  resource = "x";
  admission_id = "d";
  grant_digest = zero_bytes 1;
  catalog_identity = record { name = "l"; revision = "1" };
  catalog_digest = zero_bytes 1;
  descriptor_digest = zero_bytes 1;
  authority_revision_digest = zero_bytes 1;
  invocation_id = "i";
  status_id = "u";
  idempotency_key = "y";
  proposal_digest = zero_bytes 1;
  portable_digest = zero_bytes 1;
  lock_digest = zero_bytes 1;
  binding_digest = zero_bytes 1;
  resolved_digest = zero_bytes 1;
  trace_id = "f";
  span_id = "e";
  intended_effect = EffectClassification.reversible_write;
  safe_result = none;
  safe_error = none;
  timestamp = 6;
})

abbrev pub first_entry : PersistedEntry Json
first_entry = record {
  partition = "t";
  sequence = 1;
  previous_hash = zero_bytes 32;
  record_hash = first_hash;
  record_value = to_json authorization_record;
}

abbrev pub second_entry : PersistedEntry Json
second_entry = record {
  partition = "t";
  sequence = 2;
  previous_hash = first_hash;
  record_hash = second_hash;
  record_value = to_json outcome_record;
}

abbrev pub table : Table
table = first_entry ∷ second_entry ∷ []

abbrev pub codec : Codec
codec = sample_codec table

-- A codec that writes every entry.
abbrev pub plain_codec : Codec
plain_codec = record codec { write_entry = λ e. some (65 ∷ []) }

abbrev pub calm : Io
calm = record {
  finds = true;
  opens = true;
  locks = true;
  reading = complete;
  positions = true;
  writing = durable;
}

abbrev pub crash : Io
crash = record {
  finds = true;
  opens = true;
  locks = true;
  reading = complete;
  positions = true;
  writing = torn 1;
}

abbrev pub no_files : Files
no_files = λ name. none

abbrev pub first_receipt : DurableAuditReceipt
first_receipt = record {
  partition = "t";
  sequence = 1;
  previous_hash = zero_bytes 32;
  record_hash = first_hash;
  record_id = receipt_id "t" 1 first_hash;
}

abbrev pub second_receipt : DurableAuditReceipt
second_receipt = record {
  partition = "t";
  sequence = 2;
  previous_hash = first_hash;
  record_hash = second_hash;
  record_id = receipt_id "t" 2 second_hash;
}

abbrev pub one_file : Files
one_file = (append_sync codec calm no_files authorization_record).0

abbrev pub two_files : Files
two_files = (append_sync codec calm one_file outcome_record).0

abbrev pub first_entry_verified : VerifiedAuditEntry Json
first_entry_verified = record {
  receipt = first_receipt;
  record_value = to_json authorization_record;
}

abbrev pub steps : List (Io × AuditRecord)
steps = (calm, authorization_record) ∷ (calm, outcome_record) ∷ []

abbrev pub entries : List (VerifiedAuditEntry Json)
entries =
    first_entry_verified
    ∷ record { receipt = second_receipt; record_value = to_json outcome_record }
    ∷ []
