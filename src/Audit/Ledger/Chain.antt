-- ===== src/Audit/Ledger/Chain.antt =====
-- The entries that a verification gives (`verify_partition` of
-- crates/kiteframe-audit/src/chain.rs): a chain of hashes, with the outcomes behind their
-- authorizations.
use mathlib.Core.Path.{subst}
use mathlib.Core.List.{append-nil, append_assoc}
use kiteframe.Base.{
  ℕ, suc, ◌≡◌, ◌<◌, sym, ap, ◌∙◌, String, List, [], ◌∷◌, ◌++◌, Option, none, some, ok, >>=-eq_ok,
  after_refusal, ok-injective, u64_max, not,
}
use kiteframe.Contract.Refs.{Sha256Digest, zero_bytes}
use kiteframe.Audit.{DurableAuditReceipt, receipt_id}
use kiteframe.Audit.Codec.{Codec}
use kiteframe.Audit.Partition.{Files, Io, visible, raw_lines}
use kiteframe.Audit.Linkage.{VerifiedAuditEntry, record_type, record_body, text_field}
use kiteframe.Audit.Linkage.Outcomes.{IsAuthorizedBy, validate_record_linkage-IsAuthorizedBy}
use kiteframe.Audit.Ledger.{read_partition, partition_path, record_hash, verify_partition}
use kiteframe.Audit.Ledger.Prepared.{read_and_verify-lines}
use kiteframe.Audit.Ledger.Lines.{IsAccepted}
use kiteframe.Audit.Ledger.Runs.{Continues, IsAccepted-receipt, verify_lines-Continues}

module _ (codec : Codec) where
  -- The receipt and the record of an entry fit its place in the chain.
  abbrev pub IsLink : String → ℕ → Sha256Digest → VerifiedAuditEntry codec.Value → Type 0
  IsLink partition sequence previous_hash entry =
      (entry.receipt.partition ≡ partition)
      × (entry.receipt.sequence ≡ sequence)
      × (entry.receipt.previous_hash ≡ previous_hash)
      × (entry.receipt.record_id ≡ receipt_id partition sequence entry.receipt.record_hash)
      × ((canonical_record : List ℕ) × (codec.canonical entry.record_value ≡ some canonical_record)
          × (entry.receipt.record_hash
              ≡ record_hash codec partition sequence previous_hash canonical_record))

  -- Entries whose sequence numbers count on and whose previous hashes are those before them.
  abbrev pub IsChain : String → ℕ → Sha256Digest → List (VerifiedAuditEntry codec.Value) → Type 0
  IsChain partition sequence previous_hash [] = Unit
  IsChain partition sequence previous_hash (entry ∷ entries) =
      IsLink partition sequence previous_hash entry
      × (sequence < u64_max)
      × IsChain partition (suc sequence) entry.receipt.record_hash entries

  IsAccepted-IsLink :
      {partition : String} {sequence : ℕ} {previous_hash : Sha256Digest}
      {prior : List (VerifiedAuditEntry codec.Value)} {entry : VerifiedAuditEntry codec.Value}
      → IsAccepted codec partition sequence previous_hash prior entry
      → IsLink partition sequence previous_hash entry
  IsAccepted-IsLink {partition} {sequence} a =
      let e = IsAccepted-receipt codec a in
      let hash = ap (λ (r : DurableAuditReceipt). r.record_hash) e in
      (
        sym (ap (λ (r : DurableAuditReceipt). r.partition) e),
        sym (ap (λ (r : DurableAuditReceipt). r.sequence) e),
        sym (ap (λ (r : DurableAuditReceipt). r.previous_hash) e),
        sym (ap (λ (r : DurableAuditReceipt). r.record_id) e)
            ∙ ap (receipt_id partition sequence) hash,
        (a.canonical_record, a.canonicalizes, sym hash),
      )

  Continues-IsChain :
      (partition : String) (sequence : ℕ) (previous_hash : Sha256Digest)
      (prior : List (VerifiedAuditEntry codec.Value))
      (entries : List (VerifiedAuditEntry codec.Value))
      → Continues codec partition sequence previous_hash prior entries
      → IsChain partition sequence previous_hash entries
  Continues-IsChain partition sequence previous_hash prior [] h = tt
  Continues-IsChain partition sequence previous_hash prior (entry ∷ entries) h = (
    IsAccepted-IsLink h.0,
    h.1,
    Continues-IsChain partition (suc sequence) entry.receipt.record_hash (prior ++ entry ∷ [])
        entries h.2,
  )

  verify_partition-Continues :
      (io : Io) (files : Files) (partition : String)
      {verified : List (VerifiedAuditEntry codec.Value)}
      → verify_partition codec io files partition ≡ ok verified
      → Continues codec partition 1 (zero_bytes 32) [] verified
  unfolding verify_partition
  verify_partition-Continues io files partition {verified} h =
      let (path, p, h1) = >>=-eq_ok (partition_path codec partition) _ h in
      go (visible io.finds (files path)) h1
    where
      go :
          (bytes : Option (List ℕ))
          → read_partition codec io partition bytes ≡ ok verified
          → Continues codec partition 1 (zero_bytes 32) [] verified
      go none e = subst (Continues codec partition 1 (zero_bytes 32) []) (ok-injective e) tt
      go (some bytes) e =
          let opened = after_refusal (not io.opens) _ e in
          let locked = after_refusal (not io.locks) _ opened.1 in
          let read = read_and_verify-lines codec io partition bytes locked.1 in
          let (added, same, run, _) =
            verify_lines-Continues codec partition 1 (zero_bytes 32) [] (raw_lines bytes) read.1 in
          subst (Continues codec partition 1 (zero_bytes 32) []) (sym same) run

  -- The entries of a partition that is verified are a chain: they carry the partition, their
  -- sequence numbers count from one and stay below the largest `u64`, each previous hash is the
  -- record hash before it, at first 32 zero bytes, each record hash is that of its canonical record
  -- at its place, and each record identifier names partition, sequence and record hash.
  pub verify_partition-IsChain :
      (io : Io) (files : Files) (partition : String)
      {verified : List (VerifiedAuditEntry codec.Value)}
      → verify_partition codec io files partition ≡ ok verified
      → IsChain partition 1 (zero_bytes 32) verified
  verify_partition-IsChain io files partition {verified} h =
      Continues-IsChain partition 1 (zero_bytes 32) [] verified
        (verify_partition-Continues io files partition h)

  Continues-at :
      (partition : String) (sequence : ℕ) (previous_hash : Sha256Digest)
      (prior : List (VerifiedAuditEntry codec.Value))
      (front : List (VerifiedAuditEntry codec.Value)) (entry : VerifiedAuditEntry codec.Value)
      (back : List (VerifiedAuditEntry codec.Value))
      → Continues codec partition sequence previous_hash prior (front ++ entry ∷ back)
      → (at : ℕ) × (hash : Sha256Digest) × IsAccepted codec partition at hash (prior ++ front) entry
  Continues-at partition sequence previous_hash prior [] entry back h = (
    sequence,
    previous_hash,
    subst (λ v. IsAccepted codec partition sequence previous_hash v entry) (sym (append-nil prior))
        h.0,
  )
  Continues-at partition sequence previous_hash prior (x ∷ front) entry back h =
      let (at, hash, accepted) =
        Continues-at partition (suc sequence) x.receipt.record_hash (prior ++ x ∷ []) front entry
          back h.2 in
      (
        at,
        hash,
        subst (λ v. IsAccepted codec partition at hash v entry) (append_assoc prior (x ∷ []) front)
            accepted,
      )

  -- Every entry of a partition that is verified belongs to the partition by the tenant of its record,
  -- and an outcome among them names an earlier entry that is an authorization and agrees with it on
  -- all twenty-seven correlated fields.
  pub verify_partition-IsAuthorizedBy :
      (io : Io) (files : Files) (partition : String) (front : List (VerifiedAuditEntry codec.Value))
      (entry : VerifiedAuditEntry codec.Value) (back : List (VerifiedAuditEntry codec.Value))
      → verify_partition codec io files partition ≡ ok (front ++ entry ∷ back)
      → (record_type codec entry.record_value ≡ some "outcome"
          → IsAuthorizedBy codec entry.record_value front)
        × ((body : codec.Object) × (record_body codec entry.record_value ≡ some body)
            × (text_field codec "tenantRef" body ≡ some partition))
  verify_partition-IsAuthorizedBy io files partition front entry back h =
      let (at, hash, accepted) =
        Continues-at partition 1 (zero_bytes 32) [] front entry back
          (verify_partition-Continues io files partition h) in
      validate_record_linkage-IsAuthorizedBy codec entry.record_value partition front accepted.links
