-- ===== src/Audit/Ledger/Prepared.antt =====
-- The line that `append_sync` (crates/kiteframe-audit/src/chain.rs) prepares for a record, read
-- back behind the lines of the partition.
use mathlib.Core.Path.{subst}
use mathlib.Core.List.{append_assoc}
use kiteframe.Base.{
  false, err≢ok, refl, ℕ, suc, ◌≡◌, ◌<◌, refl, sym, ap, ◌∙◌, not, String, List, [], ◌∷◌, ◌++◌, some,
  ok, >>=-eq_ok, after_refusal, ok-injective, arith, u64_max, length,
}
use kiteframe.Contract.Refs.{Sha256Digest, zero_bytes}
use kiteframe.Audit.{AuditRecord, DurableAuditReceipt}
use kiteframe.Audit.Codec.{
  Codec, GivesDigests, ReadsBack, IsDigest, IsPrintable, zero_bytes-IsDigest,
}
use kiteframe.Audit.Partition.{
  Io, ReadEnding, complete, unmeasured, unread_tail, unwound, broken, take, required,
  required-eq_ok, raw_lines, has_incomplete_tail,
}
use kiteframe.Audit.Partition.Endings.{raw_lines-append, tail_of_feed}
use kiteframe.Audit.Linkage.{VerifiedAuditEntry, validate_record_linkage}
use kiteframe.Audit.Ledger.{verify_lines, read_file, read_and_verify, prepare, position}
use kiteframe.Audit.Ledger.Runs.{verify_lines-append, verify_lines-Continues}
use kiteframe.Audit.Ledger.Sealed.{
  IsSealed, seal-IsSealed, record_hash-IsDigest, verify_line-of_IsSealed, verify_lines-one,
}

module _ (codec : Codec) where
  -- The steps of an append that succeed before it writes.
  pub record IsPrepared (io : Io) (partition : String) (bytes : List ℕ) (entry : AuditRecord)
      (receipt : DurableAuditReceipt) (line : List ℕ) : Type 0 where
    pub existing : List (VerifiedAuditEntry codec.Value)
    pub value : codec.Value
    pub sequence : ℕ
    pub previous_hash : Sha256Digest
    pub reads : read_and_verify codec io partition bytes ≡ ok existing
    pub serializes : codec.to_value entry ≡ some value
    pub links : validate_record_linkage codec value partition existing ≡ ok tt
    pub continues : position codec existing ≡ ok (sequence, previous_hash)
    pub seals : IsSealed codec partition sequence previous_hash value receipt line

  pub prepare-IsPrepared :
      (io : Io) (partition : String) (bytes : List ℕ) (entry : AuditRecord)
      {receipt : DurableAuditReceipt} {line : List ℕ}
      → prepare codec io partition bytes entry ≡ ok (receipt, line)
      → IsPrepared io partition bytes entry receipt line
  unfolding prepare
  prepare-IsPrepared io partition bytes entry {receipt} {line} h =
      let lock_guard = after_refusal (not io.locks) _ h in
      let (existing, reads, h1) =
        >>=-eq_ok (read_and_verify codec io partition bytes) _ lock_guard.1 in
      let (value, serializes, h2) =
        >>=-eq_ok (required "audit record cannot be serialized" (codec.to_value entry)) _ h1 in
      let (_, links, h3) =
        >>=-eq_ok (validate_record_linkage codec value partition existing) _ h2 in
      let (place, continues, h4) = >>=-eq_ok (position codec existing) _ h3 in
      record {
        existing = existing;
        value = value;
        sequence = place.0;
        previous_hash = place.1;
        reads = reads;
        serializes = required-eq_ok _ (codec.to_value entry) serializes;
        links = links;
        continues = continues;
        seals = seal-IsSealed codec io partition place.0 place.1 value h4;
      }

  -- A file that is verified is complete, and its lines are verified.
  pub read_and_verify-lines :
      (io : Io) (partition : String) (bytes : List ℕ)
      {verified : List (VerifiedAuditEntry codec.Value)}
      → read_and_verify codec io partition bytes ≡ ok verified
      → (has_incomplete_tail bytes ≡ false)
        × (verify_lines codec partition 1 (zero_bytes 32) [] (raw_lines bytes) ≡ ok verified)
  unfolding read_and_verify
  read_and_verify-lines io partition bytes {verified} h = go io.reading bytes h
    where
      go :
          (reading : ReadEnding) (bytes : List ℕ)
          → read_file codec reading partition bytes ≡ ok verified
          → (has_incomplete_tail bytes ≡ false)
            × (verify_lines codec partition 1 (zero_bytes 32) [] (raw_lines bytes) ≡ ok verified)
      go complete bytes h = unfold read_file in after_refusal (has_incomplete_tail bytes) _ h
      go unmeasured bytes h = unfold read_file in absurd (err≢ok h)
      go unread_tail [] h = unfold read_file has_incomplete_tail in (refl, h)
      go unread_tail (byte ∷ bytes) h = unfold read_file in absurd (err≢ok h)
      go unwound bytes h =
          unfold read_file in absurd (err≢ok (after_refusal (has_incomplete_tail bytes) _ h).1)
      go (broken n) bytes h =
          unfold read_file in
          let rest = (after_refusal (has_incomplete_tail bytes) _ h).1 in
          let (_, _, failed) =
            >>=-eq_ok (verify_lines codec partition 1 (zero_bytes 32) [] (take n (raw_lines bytes)))
              _ rest in
          absurd (err≢ok failed)

  -- A reading that goes to its end verifies the lines of a complete file.
  pub read_and_verify-complete :
      (reader : Io) (partition : String) (bytes : List ℕ)
      → reader.reading ≡ complete
      → has_incomplete_tail bytes ≡ false
      → read_and_verify codec reader partition bytes
        ≡ verify_lines codec partition 1 (zero_bytes 32) [] (raw_lines bytes)
  unfolding read_and_verify read_file
  read_and_verify-complete reader partition bytes h whole = rw (h, whole) refl

  -- A prepared line continues from a digest, and its sequence number counts the entries with it.
  pub IsPrepared-place :
      {io : Io} {partition : String} {bytes : List ℕ} {entry : AuditRecord}
      {receipt : DurableAuditReceipt} {line : List ℕ}
      → GivesDigests codec
      → (p : IsPrepared io partition bytes entry receipt line)
      → IsDigest p.previous_hash × (p.sequence ≡ suc (length p.existing))
  IsPrepared-place {io} {partition} {bytes} d p =
      let tail_guard = read_and_verify-lines io partition bytes p.reads in
      let (next, hash, digest, count, there, run) =
        verify_lines-append codec partition 1 (zero_bytes 32) [] (raw_lines bytes) [] d
          (zero_bytes-IsDigest 32) refl tail_guard.1 in
      let (added, same, _, size) =
        verify_lines-Continues codec partition 1 (zero_bytes 32) [] (raw_lines bytes)
          tail_guard.1 in
      let place = ok-injective (sym there ∙ p.continues) in
      let at = ap (λ q. q.0) place in
      let sizes = ap (length {A = VerifiedAuditEntry codec.Value}) same in
      (subst IsDigest (ap (λ q. q.1) place) digest, omega arith)

  -- The text of a prepared line is printable.
  pub IsPrepared-text :
      {io : Io} {partition : String} {bytes : List ℕ} {entry : AuditRecord}
      {receipt : DurableAuditReceipt} {line : List ℕ}
      → GivesDigests codec
      → ReadsBack codec
      → (p : IsPrepared io partition bytes entry receipt line) → p.sequence < u64_max
      → IsPrintable p.seals.text
  IsPrepared-text {partition = partition} d r p bound =
      let hash =
        record_hash-IsDigest codec partition p.sequence p.previous_hash p.seals.canonical_record
          d in
      (r _ (omega arith, (IsPrepared-place d p).0, hash) p.seals.text p.seals.writes).0

  -- A prepared line behind the bytes of its partition is one entry more.
  pub read_and_verify-of_IsPrepared :
      {io : Io} {partition : String} {bytes : List ℕ} {entry : AuditRecord}
      {receipt : DurableAuditReceipt} {line : List ℕ} (reader : Io)
      → reader.reading ≡ complete
      → GivesDigests codec
      → ReadsBack codec
      → (p : IsPrepared io partition bytes entry receipt line) → p.sequence < u64_max
      → read_and_verify codec reader partition (bytes ++ line)
        ≡ ok (p.existing ++ record { receipt = receipt; record_value = p.value } ∷ [])
  read_and_verify-of_IsPrepared {io} {partition} {bytes} {entry} {receipt} {line} reader
        complete_read d r p bound =
      let tail_guard = read_and_verify-lines io partition bytes p.reads in
      let (next, hash, digest, count, there, run) =
        verify_lines-append codec partition 1 (zero_bytes 32) [] (raw_lines bytes)
          (p.seals.text ∷ []) d (zero_bytes-IsDigest 32) refl tail_guard.1 in
      let same = ok-injective (sym there ∙ p.continues) in
      let read =
        verify_line-of_IsSealed codec p.existing d r bound (IsPrepared-place d p).0 p.links
          p.seals in
      let lines =
        raw_lines-append bytes line tail_guard.0 ∙ ap (λ more. raw_lines bytes ++ more) read.0 in
      let tail =
        ap has_incomplete_tail
          (ap (λ l. bytes ++ l) p.seals.ends ∙ sym (append_assoc bytes p.seals.text (10 ∷ [])))
        ∙ tail_of_feed (bytes ++ p.seals.text) in
      read_and_verify-complete reader partition (bytes ++ line) complete_read tail
      ∙ rw lines (
          run
          ∙ ap (λ q. verify_lines codec partition q.0 q.1 p.existing (p.seals.text ∷ [])) same
          ∙ verify_lines-one codec partition p.sequence p.previous_hash p.existing p.seals.text _
              bound read.1)
