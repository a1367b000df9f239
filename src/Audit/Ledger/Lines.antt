-- ===== src/Audit/Ledger/Lines.antt =====
-- The loop over the lines of a partition (`read_and_verify` of
-- crates/kiteframe-audit/src/chain.rs): what it accepts, and a line more.
use mathlib.Core.Path.{subst}
use kiteframe.Base.{
  ℕ, ◌≡◌, false, not, String, List, some, ok, >>=-eq_ok, after_refusal, is_empty, map_err,
  map_err-eq_ok, ok-injective, arith,
}
use kiteframe.Contract.Refs.{Sha256Digest}
use kiteframe.Audit.{DurableAuditReceipt, receipt_try_new, unavailable}
use kiteframe.Audit.Codec.{Codec, PersistedEntry}
use kiteframe.Audit.Partition.{required, required-eq_ok, strip_cr}
use kiteframe.Audit.Linkage.{VerifiedAuditEntry, validate_record_linkage}
use kiteframe.Audit.Ledger.{record_hash, is_misplaced, is_mishashed, verify_line, verify_entry}

module _ (codec : Codec) where
  -- An entry that continues a partition from a sequence, a previous hash and the entries before it.
  pub record IsAccepted (partition : String) (sequence : ℕ) (previous_hash : Sha256Digest)
      (prior : List (VerifiedAuditEntry codec.Value)) (entry : VerifiedAuditEntry codec.Value)
      : Type 0 where
    pub canonical_record : List ℕ
    pub canonicalizes : codec.canonical entry.record_value ≡ some canonical_record
    pub receipts :
        receipt_try_new partition sequence previous_hash
          (record_hash codec partition sequence previous_hash canonical_record)
        ≡ ok entry.receipt
    pub links : validate_record_linkage codec entry.record_value partition prior ≡ ok tt

  placed :
      (partition : String) (sequence : ℕ) (previous_hash : Sha256Digest)
      (persisted : PersistedEntry codec.Value)
      → is_misplaced codec partition sequence previous_hash persisted ≡ false
      → (persisted.partition ≡ partition)
        × (persisted.sequence ≡ sequence)
        × (persisted.previous_hash ≡ previous_hash)
  placed partition sequence previous_hash persisted h = ground arith

  hashed :
      (partition : String) (canonical_record : List ℕ) (persisted : PersistedEntry codec.Value)
      → is_mishashed codec partition canonical_record persisted ≡ false
      → persisted.record_hash
        ≡ record_hash codec partition persisted.sequence persisted.previous_hash canonical_record
  hashed partition canonical_record persisted h = ground arith

  accepted :
      {partition : String} {sequence : ℕ} {previous_hash : Sha256Digest}
      {prior : List (VerifiedAuditEntry codec.Value)} (persisted : PersistedEntry codec.Value)
      (canonical_record : List ℕ) (receipt : DurableAuditReceipt)
      (entry : VerifiedAuditEntry codec.Value)
      → is_misplaced codec partition sequence previous_hash persisted ≡ false
      → codec.canonical persisted.record_value ≡ some canonical_record
      → is_mishashed codec partition canonical_record persisted ≡ false
      → receipt_try_new persisted.partition persisted.sequence persisted.previous_hash
          persisted.record_hash
        ≡ ok receipt
      → validate_record_linkage codec persisted.record_value partition prior ≡ ok tt
      → ◌≡◌ {A = VerifiedAuditEntry codec.Value}
          (record { receipt = receipt; record_value = persisted.record_value })
          entry
      → IsAccepted partition sequence previous_hash prior entry
  accepted {partition} {sequence} {previous_hash} {prior} persisted canonical_record receipt entry p
        c h r l e =
      let place = placed partition sequence previous_hash persisted p in
      let hash = hashed partition canonical_record persisted h in
      subst (IsAccepted partition sequence previous_hash prior) e (record {
        canonical_record = canonical_record;
        canonicalizes = c;
        receipts = cc;
        links = l;
      })

  verify_entry-IsAccepted :
      (partition : String) (sequence : ℕ) (previous_hash : Sha256Digest)
      (prior : List (VerifiedAuditEntry codec.Value)) (persisted : PersistedEntry codec.Value)
      {entry : VerifiedAuditEntry codec.Value}
      → verify_entry codec partition sequence previous_hash prior persisted ≡ ok entry
      → IsAccepted partition sequence previous_hash prior entry
  unfolding verify_entry
  verify_entry-IsAccepted partition sequence previous_hash prior persisted {entry} h =
      let place_guard =
        after_refusal (is_misplaced codec partition sequence previous_hash persisted) _ h in
      let (canonical_record, h_canonical, h_hash) =
        >>=-eq_ok
          (required "persisted audit record cannot be canonicalized"
            (codec.canonical persisted.record_value))
          _ place_guard.1 in
      let hash_guard =
        after_refusal (is_mishashed codec partition canonical_record persisted) _ h_hash in
      let (receipt, h_receipt, h_link) =
        >>=-eq_ok
          (map_err unavailable (
            receipt_try_new persisted.partition persisted.sequence persisted.previous_hash
              persisted.record_hash))
          _ hash_guard.1 in
      let (_, linked, same) =
        >>=-eq_ok (validate_record_linkage codec persisted.record_value partition prior) _ h_link in
      accepted persisted canonical_record receipt entry place_guard.0
        (required-eq_ok _ (codec.canonical persisted.record_value) h_canonical) hash_guard.0
        (map_err-eq_ok unavailable _ h_receipt) linked (ok-injective same)

  pub verify_line-IsAccepted :
      (partition : String) (sequence : ℕ) (previous_hash : Sha256Digest)
      (prior : List (VerifiedAuditEntry codec.Value)) (raw : List ℕ)
      {entry : VerifiedAuditEntry codec.Value}
      → verify_line codec partition sequence previous_hash prior raw ≡ ok entry
      → IsAccepted partition sequence previous_hash prior entry
  unfolding verify_line
  verify_line-IsAccepted partition sequence previous_hash prior raw h =
      let utf8_guard = after_refusal (not (codec.is_utf8 (strip_cr raw))) _ h in
      let empty_guard = after_refusal (is_empty (strip_cr raw)) _ utf8_guard.1 in
      let (persisted, _, h_entry) =
        >>=-eq_ok (required "audit ledger entry is malformed" (codec.read_entry (strip_cr raw)))
          (verify_entry codec partition sequence previous_hash prior) empty_guard.1 in
      verify_entry-IsAccepted partition sequence previous_hash prior persisted h_entry
