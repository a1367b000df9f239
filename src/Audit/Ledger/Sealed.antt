-- ===== src/Audit/Ledger/Sealed.antt =====
-- The line that `append_sync` (crates/kiteframe-audit/src/chain.rs) makes of a record at its place,
-- read back at that place.
use kiteframe.Base.{
  ℕ, suc, ◌≡◌, ◌<◌, refl, sym, ap, ◌∙◌, not, String, List, [], ◌∷◌, ◌++◌, some, ok, >>=-eq_ok,
  after_refusal, ok-injective, map_err, map_err-eq_ok, arith, u64_max, ==_of_eq,
}
use kiteframe.Contract.Refs.{Sha256Digest}
use kiteframe.Audit.{DurableAuditReceipt, receipt_try_new, unavailable}
use kiteframe.Audit.Codec.{Codec, GivesDigests, ReadsBack, IsDigest}
use kiteframe.Audit.Partition.{Io, required, required-eq_ok, next_sequence, raw_lines}
use kiteframe.Audit.Partition.Endings.{raw_lines-line, strip_cr_printable}
use kiteframe.Audit.Linkage.{VerifiedAuditEntry, validate_record_linkage}
use kiteframe.Audit.Ledger.{verify_entry, verify_line, verify_lines, seal, record_hash}

next_sequence_below : (n : ℕ) → n < u64_max → next_sequence n ≡ ok (suc n)
unfolding next_sequence
next_sequence_below n h = ground arith

module _ (codec : Codec) where
  -- The steps from a record at its place to its line.
  pub record IsSealed (partition : String) (sequence : ℕ) (previous_hash : Sha256Digest)
      (value : codec.Value) (receipt : DurableAuditReceipt) (line : List ℕ) : Type 0 where
    pub canonical_record : List ℕ
    pub text : List ℕ
    pub canonicalizes : codec.canonical value ≡ some canonical_record
    pub receipts :
        receipt_try_new partition sequence previous_hash
          (record_hash codec partition sequence previous_hash canonical_record)
        ≡ ok receipt
    pub writes :
        codec.write_entry (record {
          partition = partition;
          sequence = sequence;
          previous_hash = previous_hash;
          record_hash = record_hash codec partition sequence previous_hash canonical_record;
          record_value = value;
        })
        ≡ some text
    pub ends : line ≡ text ++ 10 ∷ []

  pub seal-IsSealed :
      (io : Io) (partition : String) (sequence : ℕ) (previous_hash : Sha256Digest)
      (value : codec.Value) {receipt : DurableAuditReceipt} {line : List ℕ}
      → seal codec io partition sequence previous_hash value ≡ ok (receipt, line)
      → IsSealed partition sequence previous_hash value receipt line
  unfolding seal
  seal-IsSealed io partition sequence previous_hash value {receipt} {line} h =
      let (canonical_record, canonicalizes, h1) =
        >>=-eq_ok (required "audit record cannot be canonicalized" (codec.canonical value)) _ h in
      let hash = record_hash codec partition sequence previous_hash canonical_record in
      let (given, receipts, h2) =
        >>=-eq_ok (map_err unavailable (receipt_try_new partition sequence previous_hash hash)) _
          h1 in
      let seek_guard = after_refusal (not io.positions) _ h2 in
      let (text, writes, h3) =
        >>=-eq_ok
          (required "audit ledger entry cannot be serialized" (
            codec.write_entry (record {
              partition = partition;
              sequence = sequence;
              previous_hash = previous_hash;
              record_hash = hash;
              record_value = value;
            })))
          _ seek_guard.1 in
      let same = ok-injective h3 in
      record {
        canonical_record = canonical_record;
        text = text;
        canonicalizes = required-eq_ok _ (codec.canonical value) canonicalizes;
        receipts = map_err-eq_ok unavailable _ receipts ∙ ap ok (ap (λ p. p.0) same);
        writes = required-eq_ok _ (codec.write_entry _) writes;
        ends = sym (ap (λ p. p.1) same);
      }

  pub record_hash-IsDigest :
      (partition : String) (sequence : ℕ) (previous_hash : Sha256Digest) (canonical : List ℕ)
      → GivesDigests codec
      → IsDigest (record_hash codec partition sequence previous_hash canonical)
  unfolding record_hash
  record_hash-IsDigest partition sequence previous_hash canonical d = d _

  -- A line that is sealed is accepted at its place.
  pub verify_line-of_IsSealed :
      {partition : String} {sequence : ℕ} {previous_hash : Sha256Digest} {value : codec.Value}
      {receipt : DurableAuditReceipt} {line : List ℕ}
      (prior : List (VerifiedAuditEntry codec.Value))
      → GivesDigests codec
      → ReadsBack codec
      → sequence < u64_max
      → IsDigest previous_hash
      → validate_record_linkage codec value partition prior ≡ ok tt
      → (s : IsSealed partition sequence previous_hash value receipt line)
      → (raw_lines line ≡ s.text ∷ [])
        × (verify_line codec partition sequence previous_hash prior s.text
            ≡ ok (record { receipt = receipt; record_value = value }))
  unfolding verify_line verify_entry
  verify_line-of_IsSealed {partition} {sequence} {previous_hash} prior d r bound digest links s =
      let hash = record_hash codec partition sequence previous_hash s.canonical_record in
      let hash_digest =
        record_hash-IsDigest partition sequence previous_hash s.canonical_record d in
      let back = r _ (omega arith, digest, hash_digest) s.text s.writes in
      (
        rw (s.ends) (raw_lines-line s.text back.0),
        rw
            (
              strip_cr_printable s.text back.0,
              back.2,
              back.1,
              back.3,
              ==_of_eq {a = partition} refl,
              ==_of_eq {a = sequence} refl,
              ==_of_eq {a = previous_hash} refl,
              s.canonicalizes,
              ==_of_eq {a = hash} refl,
              s.receipts,
              links,
            )
            refl,
      )

  pub verify_lines-one :
      (partition : String) (sequence : ℕ) (previous_hash : Sha256Digest)
      (prior : List (VerifiedAuditEntry codec.Value)) (line : List ℕ)
      (entry : VerifiedAuditEntry codec.Value)
      → sequence < u64_max
      → verify_line codec partition sequence previous_hash prior line ≡ ok entry
      → verify_lines codec partition sequence previous_hash prior (line ∷ [])
        ≡ ok (prior ++ entry ∷ [])
  unfolding verify_lines
  verify_lines-one partition sequence previous_hash prior line entry bound h =
      rw (h, next_sequence_below sequence bound) refl
