-- ===== src/Audit/Ledger/Accepting.antt =====
-- Appends that cannot be refused (`append_sync` of crates/kiteframe-audit/src/chain.rs).
use kiteframe.Base.{
  ℕ, suc, ◌≡◌, refl, sym, ap, ◌∙◌, Bool, true, false, ◌||◌, String, List, [], ◌∷◌, ◌++◌, some, ok,
  ◌>>◌, >>=-eq_ok, refuse_if-eq_ok, arith, length, ltb, ◌==◌, nat_eq, is_blank, any,
  is_ascii_control, is_ascii_whitespace, utf8,
}
use kiteframe.Contract.Refs.{Sha256Digest, zero_bytes}
use kiteframe.Audit.{AuditRecord, audit_partition, DurableAuditReceipt, receipt_try_new, receipt_id}
use kiteframe.Audit.Codec.{Codec, PersistedEntry, GivesDigests, zero_bytes-IsDigest}
use kiteframe.Audit.Partition.{
  Files, Io, durable, contents, validate_partition, raw_lines, write_result,
}
use kiteframe.Audit.Linkage.{VerifiedAuditEntry, validate_record_linkage}
use kiteframe.Audit.Ledger.{
  record_hash, position, partition_path, read_and_verify, verify_partition, seal, prepare,
  write_line, append_at, append_sync,
}
use kiteframe.Audit.Ledger.Runs.{verify_lines-append, verify_lines-Continues}
use kiteframe.Audit.Ledger.Prepared.{read_and_verify-lines}
use kiteframe.Audit.Ledger.Reading.{IsHealthy, verify_partition-contents, verify_partition-path}

-- A partition that the ledger accepts is one that a receipt accepts.
receipt_of_partition :
    (partition : String) (sequence : ℕ) (previous_hash record_hash : Sha256Digest)
    → validate_partition partition ≡ ok tt
    → (receipt : DurableAuditReceipt) × (receipt_try_new partition
          (suc sequence)
          previous_hash
          record_hash
        ≡ ok receipt)
      × (receipt.sequence ≡ suc sequence)
unfolding validate_partition receipt_try_new
receipt_of_partition partition sequence previous_hash record_hash h =
    let blank = is_blank partition in
    let odd = any (λ byte. is_ascii_control byte || is_ascii_whitespace byte) (utf8 partition) in
    let accepted = refuse_if-eq_ok (blank || ltb 512 (length (utf8 partition)) || odd) _ h in
    let given =
      without blank (ltb 512 (length (utf8 partition))) odd (suc sequence == 0) accepted
        (positive sequence) in
    (
      record {
        partition = partition;
        sequence = suc sequence;
        previous_hash = previous_hash;
        record_hash = record_hash;
        record_id = receipt_id partition (suc sequence) record_hash;
      },
      rw (given) refl,
      refl,
    )
  where
    positive : (n : ℕ) → (suc n == 0) ≡ false
    positive n = ground arith

    without :
        (blank long odd none_ : Bool)
        → (blank || long || odd) ≡ false
        → none_ ≡ false
        → (blank || odd || none_) ≡ false
    without blank long odd none_ h z = ground arith

module _ (codec : Codec) where
  partition_path-validate :
      (partition : String) {path : String}
      → partition_path codec partition ≡ ok path
      → validate_partition partition ≡ ok tt
  unfolding partition_path
  partition_path-validate partition h = (>>=-eq_ok (validate_partition partition) _ h).1

  -- The entries that were verified determine the place of the next.
  read_and_verify-position :
      (io : Io) (partition : String) (bytes : List ℕ)
      {verified : List (VerifiedAuditEntry codec.Value)}
      → GivesDigests codec
      → read_and_verify codec io partition bytes ≡ ok verified
      → (hash : Sha256Digest) × (position codec verified ≡ ok (suc (length verified), hash))
  read_and_verify-position io partition bytes {verified} d h =
      let read = read_and_verify-lines codec io partition bytes h in
      let (next, hash, _, count, there, _) =
        verify_lines-append codec partition 1 (zero_bytes 32) [] (raw_lines bytes) [] d
          (zero_bytes-IsDigest 32) refl read.1 in
      let (added, same, _, size) =
        verify_lines-Continues codec partition 1 (zero_bytes 32) [] (raw_lines bytes) read.1 in
      let sizes = ap (length {A = VerifiedAuditEntry codec.Value}) same in
      let number : next ≡ suc (length verified) = omega arith in
      (hash, there ∙ ap (λ n. ok (n, hash)) number)

  seal-accepts :
      (io : Io) (partition : String) (sequence : ℕ) (previous_hash : Sha256Digest)
      (value : codec.Value) (canonical_record : List ℕ)
      → io.positions ≡ true
      → validate_partition partition ≡ ok tt
      → codec.canonical value ≡ some canonical_record
      → ((e : PersistedEntry codec.Value) → (bytes : List ℕ) × (codec.write_entry e ≡ some bytes))
      → (receipt : DurableAuditReceipt) × (line : List ℕ) × (seal codec io partition
            (suc sequence)
            previous_hash
            value
          ≡ ok (receipt, line))
        × (receipt.sequence ≡ suc sequence)
  unfolding seal
  seal-accepts io partition sequence previous_hash value canonical_record p v c w =
      let hash = record_hash codec partition (suc sequence) previous_hash canonical_record in
      let (receipt, given, number) = receipt_of_partition partition sequence previous_hash hash v in
      let (text, written) = w (record {
        partition = partition;
        sequence = suc sequence;
        previous_hash = previous_hash;
        record_hash = hash;
        record_value = value;
      }) in
      (receipt, text ++ 10 ∷ [], rw (c, given, p, written) refl, number)

  prepare-accepts :
      (io : Io) (partition : String) (bytes : List ℕ) (entry : AuditRecord) (value : codec.Value)
      (canonical_record : List ℕ) {verified : List (VerifiedAuditEntry codec.Value)}
      → GivesDigests codec
      → io.locks ≡ true
      → io.positions ≡ true
      → validate_partition partition ≡ ok tt
      → read_and_verify codec io partition bytes ≡ ok verified
      → codec.to_value entry ≡ some value
      → validate_record_linkage codec value partition verified ≡ ok tt
      → codec.canonical value ≡ some canonical_record
      → ((e : PersistedEntry codec.Value) → (bytes : List ℕ) × (codec.write_entry e ≡ some bytes))
      → (receipt : DurableAuditReceipt) × (line : List ℕ) × (prepare codec io partition bytes entry
          ≡ ok (receipt, line))
        × (receipt.sequence ≡ suc (length verified))
  unfolding prepare
  prepare-accepts io partition bytes entry value canonical_record {verified} d l p v r t k c w =
      let (hash, place) = read_and_verify-position io partition bytes d r in
      let (receipt, line, sealed, number) =
        seal-accepts io partition (length verified) hash value canonical_record p v c w in
      (receipt, line, rw (r, t, k, place, sealed, l) refl, number)

  -- An append succeeds, and its receipt has the next sequence number, if the partition is verified,
  -- every call of the operating system succeeds, the record can be serialized and canonicalized and
  -- is linked to the entries before it, SHA-256 gives digests, and every entry can be written.
  pub append_sync-succeeds :
      (io : Io) (files : Files) (entry : AuditRecord) (value : codec.Value)
      (canonical_record : List ℕ) {verified : List (VerifiedAuditEntry codec.Value)}
      → GivesDigests codec
      → IsHealthy io
      → io.positions ≡ true
      → io.writing ≡ durable
      → verify_partition codec io files (audit_partition entry) ≡ ok verified
      → codec.to_value entry ≡ some value
      → validate_record_linkage codec value (audit_partition entry) verified ≡ ok tt
      → codec.canonical value ≡ some canonical_record
      → ((e : PersistedEntry codec.Value) → (bytes : List ℕ) × (codec.write_entry e ≡ some bytes))
      → (receipt : DurableAuditReceipt) × ((append_sync codec io files entry).1 ≡ ok receipt)
        × (receipt.sequence ≡ suc (length verified))
  unfolding append_sync
  append_sync-succeeds io files entry value canonical_record d h p x before t k c w =
      let (path, at) = verify_partition-path codec io files (audit_partition entry) before in
      let old =
        sym (verify_partition-contents codec io files (audit_partition entry) path h at) ∙ before in
      let (receipt, line, ready, number) =
        prepare-accepts io (audit_partition entry) (contents (files path)) entry value
          canonical_record d h.1 p (partition_path-validate (audit_partition entry) at) old t k c
          w in
      (
        receipt,
        ap
              (λ opened.
                (append_at codec io files entry opened
                  (partition_path codec (audit_partition entry))).1)
              h.0
            ∙ ap (λ path. (append_at codec io files entry true path).1) at
            ∙ ap (λ prepared. (write_line codec io files path prepared).1) ready
            ∙ ap (λ writing. write_result writing >> ok receipt) x,
        number,
      )
