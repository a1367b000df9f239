-- ===== src/Audit/Ledger/Runs.antt =====
-- Runs of the loop of `read_and_verify` (crates/kiteframe-audit/src/chain.rs): the entries that it
-- adds, and lines behind those it has read.
use mathlib.Core.Path.{subst}
use mathlib.Core.List.{append-nil, append_assoc}
use kiteframe.Base.{
  ℕ, suc, ◌+◌, ◌≡◌, ◌<◌, refl, sym, ap, ◌∙◌, String, List, [], ◌∷◌, ◌++◌, ok, >>=-eq_ok, unrefused,
  ok-injective, arith, u64_max, length, utf8, ◌||◌, is_blank, any, is_ascii_control,
  is_ascii_whitespace, ◌==◌, nat_eq,
}
use kiteframe.Contract.Refs.{Sha256Digest}
use kiteframe.Audit.{DurableAuditReceipt, receipt_try_new, receipt_id}
use kiteframe.Audit.Codec.{Codec, GivesDigests, IsDigest}
use kiteframe.Audit.Partition.{next_sequence}
use kiteframe.Audit.Linkage.{VerifiedAuditEntry}
use kiteframe.Audit.Ledger.{verify_line, verify_lines, position, record_hash}
use kiteframe.Audit.Ledger.Lines.{IsAccepted, verify_line-IsAccepted}

pub receipt_try_new-eq_ok :
    (partition : String) (sequence : ℕ) (previous_hash record_hash : Sha256Digest)
    {receipt : DurableAuditReceipt}
    → receipt_try_new partition sequence previous_hash record_hash ≡ ok receipt
    → ◌≡◌ {A = DurableAuditReceipt}
        (record {
          partition = partition;
          sequence = sequence;
          previous_hash = previous_hash;
          record_hash = record_hash;
          record_id = receipt_id partition sequence record_hash;
        })
        receipt
unfolding receipt_try_new
receipt_try_new-eq_ok partition sequence previous_hash record_hash h =
    unrefused
      (is_blank partition
        || any (λ byte. is_ascii_control byte || is_ascii_whitespace byte) (utf8 partition)
        || sequence == 0)
      _ h

next_sequence-eq_ok : (n : ℕ) {m : ℕ} → next_sequence n ≡ ok m → (m ≡ suc n) × (n < u64_max)
unfolding next_sequence
next_sequence-eq_ok n h = ground arith

module _ (codec : Codec) where
  -- Entries that continue a partition, each of them accepted behind those before it.
  abbrev pub Continues :
      String
      → ℕ
      → Sha256Digest
      → List (VerifiedAuditEntry codec.Value)
      → List (VerifiedAuditEntry codec.Value)
      → Type 0
  Continues partition sequence previous_hash prior [] = Unit
  Continues partition sequence previous_hash prior (entry ∷ entries) =
      IsAccepted codec partition sequence previous_hash prior entry
      × (sequence < u64_max)
      × Continues partition (suc sequence) entry.receipt.record_hash (prior ++ entry ∷ []) entries

  verify_lines-cons :
      (partition : String) (sequence : ℕ) (previous_hash : Sha256Digest)
      (prior : List (VerifiedAuditEntry codec.Value)) (line : List ℕ) (lines : List (List ℕ))
      {verified : List (VerifiedAuditEntry codec.Value)}
      → verify_lines codec partition sequence previous_hash prior (line ∷ lines) ≡ ok verified
      → (entry : VerifiedAuditEntry codec.Value) × (verify_line codec partition sequence
            previous_hash prior line
          ≡ ok entry)
        × (next_sequence sequence ≡ ok (suc sequence))
        × (sequence < u64_max)
        × (verify_lines codec partition
              (suc sequence)
              entry.receipt.record_hash
              (prior ++ entry ∷ [])
              lines
            ≡ ok verified)
  unfolding verify_lines
  verify_lines-cons partition sequence previous_hash prior line lines {verified} h =
      let (entry, h_entry, h_next) =
        >>=-eq_ok (verify_line codec partition sequence previous_hash prior line) _ h in
      let (next, h_sequence, h_rest) = >>=-eq_ok (next_sequence sequence) _ h_next in
      let step = next_sequence-eq_ok sequence h_sequence in
      (
        entry,
        h_entry,
        h_sequence ∙ ap ok step.0,
        step.1,
        subst
            (λ n.
              verify_lines codec partition n entry.receipt.record_hash (prior ++ entry ∷ []) lines
              ≡ ok verified)
            step.0 h_rest,
      )

  -- What the loop adds to the entries it has.
  pub verify_lines-Continues :
      (partition : String) (sequence : ℕ) (previous_hash : Sha256Digest)
      (prior : List (VerifiedAuditEntry codec.Value)) (lines : List (List ℕ))
      {verified : List (VerifiedAuditEntry codec.Value)}
      → verify_lines codec partition sequence previous_hash prior lines ≡ ok verified
      → (added : List (VerifiedAuditEntry codec.Value)) × (verified ≡ prior ++ added)
        × Continues partition sequence previous_hash prior added
        × (length added ≡ length lines)
  unfolding verify_lines
  verify_lines-Continues partition sequence previous_hash prior [] h =
      ([], sym (ok-injective h) ∙ sym (append-nil prior), tt, refl)
  verify_lines-Continues partition sequence previous_hash prior (line ∷ lines) {verified} h =
      let (entry, h_entry, _, bound, h_rest) =
        verify_lines-cons partition sequence previous_hash prior line lines h in
      let (added, same, run, size) =
        verify_lines-Continues partition (suc sequence) entry.receipt.record_hash
          (prior ++ entry ∷ []) lines h_rest in
      (
        entry ∷ added,
        same ∙ append_assoc prior (entry ∷ []) added,
        (
          verify_line-IsAccepted codec partition sequence previous_hash prior line h_entry,
          bound,
          run,
        ),
        ap suc size,
      )

  position-append_one :
      (prior : List (VerifiedAuditEntry codec.Value)) (entry : VerifiedAuditEntry codec.Value)
      → position codec (prior ++ entry ∷ []) ≡ position codec (entry ∷ [])
  position-append_one [] entry = refl
  position-append_one (x ∷ []) entry = refl
  position-append_one (x ∷ y ∷ prior) entry = position-append_one (y ∷ prior) entry

  pub IsAccepted-receipt :
      {partition : String} {sequence : ℕ} {previous_hash : Sha256Digest}
      {prior : List (VerifiedAuditEntry codec.Value)} {entry : VerifiedAuditEntry codec.Value}
      → (a : IsAccepted codec partition sequence previous_hash prior entry)
      → let hash = record_hash codec partition sequence previous_hash a.canonical_record in
        ◌≡◌ {A = DurableAuditReceipt}
          (record {
            partition = partition;
            sequence = sequence;
            previous_hash = previous_hash;
            record_hash = hash;
            record_id = receipt_id partition sequence hash;
          })
          entry.receipt
  IsAccepted-receipt {partition} {sequence} {previous_hash} a =
      receipt_try_new-eq_ok partition sequence previous_hash
        (record_hash codec partition sequence previous_hash a.canonical_record) a.receipts

  accepted-position :
      (partition : String) (sequence : ℕ) (previous_hash : Sha256Digest)
      (prior : List (VerifiedAuditEntry codec.Value)) (entry : VerifiedAuditEntry codec.Value)
      → IsAccepted codec partition sequence previous_hash prior entry
      → next_sequence sequence ≡ ok (suc sequence)
      → position codec (prior ++ entry ∷ []) ≡ ok (suc sequence, entry.receipt.record_hash)
  accepted-position partition sequence previous_hash prior entry a h =
      position-append_one prior entry
      ∙ rw (sym (ap (λ (r : DurableAuditReceipt). r.sequence) (IsAccepted-receipt a)), h) refl

  accepted-IsDigest :
      {partition : String} {sequence : ℕ} {previous_hash : Sha256Digest}
      {prior : List (VerifiedAuditEntry codec.Value)} {entry : VerifiedAuditEntry codec.Value}
      → GivesDigests codec
      → IsAccepted codec partition sequence previous_hash prior entry
      → IsDigest entry.receipt.record_hash
  unfolding record_hash
  accepted-IsDigest d a =
      subst IsDigest (ap (λ (r : DurableAuditReceipt). r.record_hash) (IsAccepted-receipt a)) (d _)

  -- Lines behind those that were read are read from the position that the entries determine.
  pub verify_lines-append :
      (partition : String) (sequence : ℕ) (previous_hash : Sha256Digest)
      (prior : List (VerifiedAuditEntry codec.Value)) (lines more : List (List ℕ))
      {verified : List (VerifiedAuditEntry codec.Value)}
      → GivesDigests codec
      → IsDigest previous_hash
      → position codec prior ≡ ok (sequence, previous_hash)
      → verify_lines codec partition sequence previous_hash prior lines ≡ ok verified
      → (next : ℕ) × (hash : Sha256Digest) × IsDigest hash
        × (next ≡ length lines + sequence)
        × (position codec verified ≡ ok (next, hash))
        × (verify_lines codec partition sequence previous_hash prior (lines ++ more)
            ≡ verify_lines codec partition next hash verified more)
  unfolding verify_lines
  verify_lines-append partition sequence previous_hash prior [] more d digest at h = (
    sequence,
    previous_hash,
    digest,
    omega arith,
    ap (position codec) (sym (ok-injective h)) ∙ at,
    ap (λ v. verify_lines codec partition sequence previous_hash v more) (ok-injective h),
  )
  verify_lines-append partition sequence previous_hash prior (line ∷ lines) more d digest at h =
      let (entry, h_entry, h_sequence, bound, h_rest) =
        verify_lines-cons partition sequence previous_hash prior line lines h in
      let accepted =
        verify_line-IsAccepted codec partition sequence previous_hash prior line h_entry in
      let (next, hash, h_hash, count, there, run) =
        verify_lines-append partition (suc sequence) entry.receipt.record_hash (prior ++ entry ∷ [])
          lines more d (accepted-IsDigest d accepted)
          (accepted-position partition sequence previous_hash prior entry accepted h_sequence)
          h_rest in
      (next, hash, h_hash, omega arith, there, rw (h_entry, h_sequence) run)
