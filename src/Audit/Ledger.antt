-- ===== src/Audit/Ledger.antt =====
-- The hash-chained audit ledger (`FileAuditLedger` of crates/kiteframe-audit/src/chain.rs): the
-- verification of a partition and the append of a record, over a `Codec`. The lock of a partition
-- makes each operation one step on the files.
mod Lines
mod Runs
mod Sealed
mod Prepared
mod Reading
pub mod Appended
pub mod Durable
pub mod Chain
pub mod Tampering
pub mod Growing
pub mod Log
pub mod Accepting
use Prim.Native.String.{◌++◌ as append}
use kiteframe.Base.{
  ℕ, suc, Bool, true, false, not, ◌||◌, String, List, [], ◌∷◌, ◌++◌, Option, none, some, Result, ok,
  err, ◌>>=◌, ◌>>◌, refuse_if, map_err, is_empty, if◌then◌else◌, find, ◌==◌, Eq, ℕ_discrete, nat_eq,
  string_eq, bytes_eq, utf8,
}
use kiteframe.Contract.Diagnostic.{Diagnostic}
use kiteframe.Contract.Refs.{Sha256Digest, zero_bytes}
use kiteframe.Audit.{
  AuditRecord, audit_partition, DurableAuditReceipt, receipt_try_new, unavailable, hex,
}
use kiteframe.Audit.Codec.{Codec, PersistedEntry}
use kiteframe.Audit.Linkage.{VerifiedAuditEntry, validate_record_linkage}
use kiteframe.Audit.Partition.{
  Files, Io, ReadEnding, complete, unmeasured, unread_tail, unwound, broken, visible, take,
  required, validate_partition, to_be_bytes, audit_hash_domain, partition_file_domain, raw_lines,
  strip_cr, has_incomplete_tail, next_sequence, contents, write_file, written, write_result,
}

module _ (codec : Codec) where
  -- The fields that a partition's next entry continues from: its sequence and previous hash.
  abbrev pub position : List (VerifiedAuditEntry codec.Value) → Result Diagnostic (ℕ × Sha256Digest)
  position [] = ok (1, zero_bytes 32)
  position (entry ∷ []) = do
    sequence ← next_sequence entry.receipt.sequence
    ok (sequence, entry.receipt.record_hash)
  position (_ ∷ entry ∷ entries) = position (entry ∷ entries)

  -- `record_hash`
  unfoldable pub record_hash : String → ℕ → Sha256Digest → List ℕ → Sha256Digest
  unfolding utf8 to_be_bytes
  record_hash partition sequence previous_hash canonical_record = codec.sha256 (
      audit_hash_domain
      ++ (utf8 partition ++ (to_be_bytes sequence ++ (previous_hash ++ canonical_record))))

  -- `FileAuditLedger::partition_path`, below the directory.
  unfoldable pub partition_path : String → Result Diagnostic String
  partition_path partition = do
    validate_partition partition
    ok (append (hex (codec.sha256 (partition_file_domain ++ utf8 partition))) ".audit.jsonl")

  -- The two tests of an entry that is read: its place in the chain, and its hash.
  abbrev pub is_misplaced : String → ℕ → Sha256Digest → PersistedEntry codec.Value → Bool
  is_misplaced partition sequence previous_hash persisted =
      not (persisted.partition == partition)
      || not (persisted.sequence == sequence)
      || not (persisted.previous_hash == previous_hash)

  abbrev pub is_mishashed : String → List ℕ → PersistedEntry codec.Value → Bool
  is_mishashed partition canonical_record persisted = not (
      persisted.record_hash
      == record_hash partition persisted.sequence persisted.previous_hash canonical_record)

  -- The body of the loop of `read_and_verify` from the entry that is read to its result.
  unfoldable pub verify_entry :
      String
      → ℕ
      → Sha256Digest
      → List (VerifiedAuditEntry codec.Value)
      → PersistedEntry codec.Value
      → Result Diagnostic (VerifiedAuditEntry codec.Value)
  verify_entry partition sequence previous_hash verified persisted = do
    refuse_if (is_misplaced partition sequence previous_hash persisted)
        (unavailable "audit ledger partition sequence or previous hash is invalid")
    canonical_record ←
        required "persisted audit record cannot be canonicalized"
          (codec.canonical persisted.record_value)
    refuse_if (is_mishashed partition canonical_record persisted)
        (unavailable "audit ledger record hash verification failed")
    receipt ← map_err unavailable (
        receipt_try_new persisted.partition persisted.sequence persisted.previous_hash
          persisted.record_hash)
    validate_record_linkage codec persisted.record_value partition verified
    ok (record { receipt = receipt; record_value = persisted.record_value })

  -- The body of the loop of `read_and_verify` for a line, up to the count of the next sequence.
  unfoldable pub verify_line :
      String
      → ℕ
      → Sha256Digest
      → List (VerifiedAuditEntry codec.Value)
      → List ℕ
      → Result Diagnostic (VerifiedAuditEntry codec.Value)
  verify_line partition sequence previous_hash verified raw = do
    refuse_if (not (codec.is_utf8 (strip_cr raw))) (unavailable "audit ledger entry cannot be read")
    refuse_if (is_empty (strip_cr raw)) (unavailable "audit ledger contains an empty entry")
    persisted ← required "audit ledger entry is malformed" (codec.read_entry (strip_cr raw))
    verify_entry partition sequence previous_hash verified persisted

  -- The loop of `read_and_verify`, from a sequence and a previous hash.
  unfoldable pub verify_lines :
      String
      → ℕ
      → Sha256Digest
      → List (VerifiedAuditEntry codec.Value)
      → List (List ℕ)
      → Result Diagnostic (List (VerifiedAuditEntry codec.Value))
  verify_lines partition sequence previous_hash verified [] = ok verified
  verify_lines partition sequence previous_hash verified (line ∷ lines) = do
    entry ← verify_line partition sequence previous_hash verified line
    next ← next_sequence sequence
    verify_lines partition next entry.receipt.record_hash (verified ++ entry ∷ []) lines

  -- `read_and_verify`, as the reading of the file goes.
  unfoldable pub read_file :
      ReadEnding → String → List ℕ → Result Diagnostic (List (VerifiedAuditEntry codec.Value))
  read_file complete partition bytes = do
    refuse_if (has_incomplete_tail bytes) (unavailable "audit ledger has an incomplete final entry")
    verify_lines partition 1 (zero_bytes 32) [] (raw_lines bytes)
  read_file unmeasured partition bytes = err (unavailable "audit partition metadata cannot be read")
  read_file unread_tail partition [] = verify_lines partition 1 (zero_bytes 32) [] (raw_lines [])
  read_file unread_tail partition (byte ∷ bytes) =
      err (unavailable "audit partition tail cannot be read")
  read_file unwound partition bytes = do
    refuse_if (has_incomplete_tail bytes) (unavailable "audit ledger has an incomplete final entry")
    err (unavailable "audit partition cannot be read from its beginning")
  read_file (broken n) partition bytes = do
    refuse_if (has_incomplete_tail bytes) (unavailable "audit ledger has an incomplete final entry")
    _ ← verify_lines partition 1 (zero_bytes 32) [] (take n (raw_lines bytes))
    err (unavailable "audit ledger entry cannot be read")

  -- `read_and_verify`
  unfoldable pub read_and_verify :
      Io → String → List ℕ → Result Diagnostic (List (VerifiedAuditEntry codec.Value))
  unfolding read_file
  read_and_verify io partition bytes = read_file io.reading partition bytes

  -- What `verify_partition` does with the file that it sees.
  abbrev pub read_partition :
      Io → String → Option (List ℕ) → Result Diagnostic (List (VerifiedAuditEntry codec.Value))
  read_partition io partition none = ok []
  read_partition io partition (some bytes) = do
    refuse_if (not io.opens) (unavailable "audit partition cannot be opened")
    refuse_if (not io.locks) (unavailable "audit partition cannot be locked for verification")
    read_and_verify io partition bytes

  -- `FileAuditLedger::verify_partition`
  unfoldable pub verify_partition :
      Io → Files → String → Result Diagnostic (List (VerifiedAuditEntry codec.Value))
  verify_partition io files partition = do
    path ← partition_path partition
    read_partition io partition (visible io.finds (files path))

  -- `append_sync` from a record at its place to the receipt and the line that is written.
  unfoldable pub seal :
      Io
      → String
      → ℕ
      → Sha256Digest
      → codec.Value
      → Result Diagnostic (DurableAuditReceipt × List ℕ)
  seal io partition sequence previous_hash value = do
    canonical_record ← required "audit record cannot be canonicalized" (codec.canonical value)
    let hash = record_hash partition sequence previous_hash canonical_record
    receipt ← map_err unavailable (receipt_try_new partition sequence previous_hash hash)
    refuse_if (not io.positions) (unavailable "audit partition append position is unavailable")
    line ← required "audit ledger entry cannot be serialized" (
        codec.write_entry (record {
          partition = partition;
          sequence = sequence;
          previous_hash = previous_hash;
          record_hash = hash;
          record_value = value;
        }))
    ok (receipt, line ++ 10 ∷ [])

  -- `append_sync` from its lock to the receipt and the line that is written.
  unfoldable pub prepare :
      Io → String → List ℕ → AuditRecord → Result Diagnostic (DurableAuditReceipt × List ℕ)
  prepare io partition bytes entry = do
    refuse_if (not io.locks) (unavailable "audit partition cannot be locked for append")
    existing ← read_and_verify io partition bytes
    value ← required "audit record cannot be serialized" (codec.to_value entry)
    validate_record_linkage codec value partition existing
    (sequence, previous_hash) ← position existing
    seal io partition sequence previous_hash value

  -- The end of an append, at what its steps before the writing give: the file has been created, and
  -- the line is written behind its bytes.
  abbrev pub write_line :
      Io
      → Files
      → String
      → Result Diagnostic (DurableAuditReceipt × List ℕ)
      → Files × Result Diagnostic DurableAuditReceipt
  write_line io files path (err e) = (write_file path (contents (files path)) files, err e)
  write_line io files path (ok (receipt, line)) = (
    write_file path (contents (files path) ++ written io.writing line) files,
    write_result io.writing >> ok receipt,
  )

  -- What follows the opening of the file, unless it or the path before it fails.
  abbrev pub append_at :
      Io
      → Files
      → AuditRecord
      → Bool
      → Result Diagnostic String
      → Files × Result Diagnostic DurableAuditReceipt
  append_at io files entry opened (err e) = (files, err e)
  append_at io files entry false (ok path) =
      (files, err (unavailable "audit partition cannot be opened for append"))
  append_at io files entry true (ok path) =
      write_line io files path (prepare io (audit_partition entry) (contents (files path)) entry)

  -- `append_sync`: the files afterwards and the result.
  unfoldable pub append_sync :
      Io → Files → AuditRecord → Files × Result Diagnostic DurableAuditReceipt
  append_sync io files entry =
      append_at io files entry io.opens (partition_path (audit_partition entry))
