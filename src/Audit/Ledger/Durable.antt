-- ===== src/Audit/Ledger/Durable.antt =====
-- Appends that succeed (`append_sync` of crates/kiteframe-audit/src/chain.rs) and the verification
-- of the partition afterwards.
use kiteframe.Base.{
  ℕ, suc, ◌≡◌, ◌≢◌, ◌<◌, refl, sym, ap, ◌∙◌, Bool, true, false, String, List, [], ◌∷◌, ◌++◌, some,
  Result, ok, err, ◌>>◌, ok-injective, err≢ok, u64_max, length, string_eq,
}
use kiteframe.Contract.Diagnostic.{Diagnostic}
use kiteframe.Audit.{AuditRecord, audit_partition, DurableAuditReceipt}
use kiteframe.Audit.Codec.{Codec, GivesDigests, ReadsBack}
use kiteframe.Audit.Partition.{
  Files, Io, Writing, durable, unsynced, torn, contents, write_file, written, write_result,
}
use kiteframe.Audit.Linkage.{VerifiedAuditEntry}
use kiteframe.Audit.Ledger.{
  partition_path, verify_partition, prepare, write_line, append_at, append_sync,
}
use kiteframe.Audit.Ledger.Prepared.{IsPrepared, prepare-IsPrepared, read_and_verify-of_IsPrepared}
use kiteframe.Audit.Ledger.Reading.{
  IsHealthy, write_file-other, verify_partition-contents, verify_partition-path,
  verify_partition-write, IsPrepared-verified, IsPrepared-last,
}

written_all :
    (writing : Writing) (line : List ℕ) (r : DurableAuditReceipt) {receipt : DurableAuditReceipt}
    → (write_result writing >> ok r) ≡ ok receipt
    → (written writing line ≡ line) × (r ≡ receipt)
written_all durable line r h = (refl, ok-injective h)
written_all unsynced line r h = absurd (err≢ok h)
written_all (torn n) line r h = absurd (err≢ok h)

module _ (codec : Codec) where
  -- What a successful append did.
  record IsAppended (io : Io) (files : Files) (entry : AuditRecord) (path : String) (after : Files)
      (receipt : DurableAuditReceipt) : Type 0 where
    line : List ℕ
    prepared :
        IsPrepared codec io (audit_partition entry) (contents (files path)) entry receipt line
    leaves : after ≡ write_file path (contents (files path) ++ line) files

  write_line-IsAppended :
      (io : Io) (files : Files) (entry : AuditRecord) (path : String) {after : Files}
      {receipt : DurableAuditReceipt} (prepared : Result Diagnostic (DurableAuditReceipt × List ℕ))
      → prepare codec io (audit_partition entry) (contents (files path)) entry ≡ prepared
      → write_line codec io files path prepared ≡ (after, ok receipt)
      → IsAppended io files entry path after receipt
  write_line-IsAppended io files entry path (err e) q h = absurd (err≢ok (ap (λ x. x.1) h))
  write_line-IsAppended io files entry path (ok (r, line)) q h =
      let all = written_all io.writing line r (ap (λ x. x.1) h) in
      record {
        line = line;
        prepared =
            prepare-IsPrepared codec io (audit_partition entry) (contents (files path)) entry
              (q ∙ ap (λ receipt. ok (receipt, line)) all.1);
        leaves =
            sym (ap (λ x. x.0) h)
            ∙ ap (λ l. write_file path (contents (files path) ++ l) files) all.0;
      }

  append_at-IsAppended :
      (io : Io) (files : Files) (entry : AuditRecord) (opened : Bool) (path : String)
      {after : Files} {receipt : DurableAuditReceipt}
      → append_at codec io files entry opened (ok path) ≡ (after, ok receipt)
      → IsAppended io files entry path after receipt
  append_at-IsAppended io files entry true path h =
      write_line-IsAppended io files entry path
        (prepare codec io (audit_partition entry) (contents (files path)) entry) refl h
  append_at-IsAppended io files entry false path h = absurd (err≢ok (ap (λ x. x.1) h))

  append_sync-IsAppended :
      (io : Io) (files : Files) (entry : AuditRecord) {path : String} {after : Files}
      {receipt : DurableAuditReceipt}
      → partition_path codec (audit_partition entry) ≡ ok path
      → append_sync codec io files entry ≡ (after, ok receipt)
      → IsAppended io files entry path after receipt
  unfolding append_sync
  append_sync-IsAppended io files entry {path} p h =
      append_at-IsAppended io files entry io.opens path
        (ap (append_at codec io files entry io.opens) (sym p) ∙ h)

  -- After an append that succeeds, a verification whose calls of the operating system succeed gives
  -- the entries that it gave before and behind them the receipt that the append returned with the
  -- serialized record, and every other file is as it was, if SHA-256 gives digests, entries are read
  -- back as they were written and two sequence numbers are left.
  pub append_sync-verify_partition :
      (io reader : Io) (files after : Files) (entry : AuditRecord) (receipt : DurableAuditReceipt)
      {verified : List (VerifiedAuditEntry codec.Value)}
      → GivesDigests codec
      → ReadsBack codec
      → IsHealthy reader
      → verify_partition codec reader files (audit_partition entry) ≡ ok verified
      → suc (length verified) < u64_max
      → append_sync codec io files entry ≡ (after, ok receipt)
      → ((value : codec.Value) × (codec.to_value entry ≡ some value)
          × (verify_partition codec reader after (audit_partition entry)
              ≡ ok (verified ++ record { receipt = receipt; record_value = value } ∷ [])))
        × ((name : String)
            → partition_path codec (audit_partition entry) ≢ ok name
            → after name ≡ files name)
  append_sync-verify_partition io reader files after entry receipt {verified} d r h before bound
        done =
      let partition = audit_partition entry in
      let (path, p) = verify_partition-path codec reader files partition before in
      let a = append_sync-IsAppended io files entry p done in
      let bytes = contents (files path) in
      let old = sym (verify_partition-contents codec reader files partition path h p) ∙ before in
      let same = IsPrepared-verified codec reader a.prepared old in
      let last = IsPrepared-last codec d a.prepared same bound in
      let new : VerifiedAuditEntry codec.Value = record {
        receipt = receipt;
        record_value = a.prepared.value;
      } in
      (
        (
          a.prepared.value,
          a.prepared.serializes,
          ap (λ f. verify_partition codec reader f partition) a.leaves
              ∙ verify_partition-write codec reader files partition path (bytes ++ a.line) h p
              ∙ read_and_verify-of_IsPrepared codec reader h.2 d r a.prepared last
              ∙ ap (λ v. ok (v ++ new ∷ [])) same,
        ),
        λ name other.
            ap (λ f. f name) a.leaves
            ∙ write_file-other path name (bytes ++ a.line) files (λ e. other (p ∙ ap ok e)),
      )
