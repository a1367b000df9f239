-- ===== src/Audit/Ledger/Appended.antt =====
-- Appends that end in any way, and verifications of the same partition afterwards (`append_sync`
-- and `verify_partition` of crates/kiteframe-audit/src/chain.rs).
use mathlib.Core.Path.{subst}
use mathlib.Core.List.{append-nil}
use kiteframe.Base.{
  ℕ, suc, ◌≡◌, ◌<◌, ◌⊎◌, inl, inr, refl, sym, ap, ◌∙◌, Bool, true, false, String, List, [], ◌∷◌,
  ◌++◌, Result, ok, err, u64_max, length, string_eq,
}
use kiteframe.Contract.Diagnostic.{Diagnostic}
use kiteframe.Audit.{AuditRecord, audit_partition, DurableAuditReceipt, unavailable}
use kiteframe.Audit.Codec.{Codec, GivesDigests, ReadsBack}
use kiteframe.Audit.Partition.{
  complete, Files, Io, Writing, durable, unsynced, torn, contents, written, take,
}
use kiteframe.Audit.Partition.Endings.{torn-cases}
use kiteframe.Audit.Linkage.{VerifiedAuditEntry}
use kiteframe.Audit.Ledger.{
  partition_path, read_and_verify, verify_partition, prepare, write_line, append_at, append_sync,
}
use kiteframe.Audit.Ledger.Prepared.{
  IsPrepared, IsPrepared-text, prepare-IsPrepared, read_and_verify-of_IsPrepared,
}
use kiteframe.Audit.Ledger.Reading.{
  IsHealthy, verify_partition-contents, incomplete, verify_partition-path, verify_partition-write,
  IsPrepared-verified, IsPrepared-last,
}

module _ (codec : Codec) where
  -- The entries of a partition are there as they were, or with one entry more, or the partition is
  -- refused for its incomplete end.
  abbrev pub IsIntact :
      Result Diagnostic (List (VerifiedAuditEntry codec.Value))
      → List (VerifiedAuditEntry codec.Value)
      → Type 0
  IsIntact result verified =
      (result ≡ ok verified)
      ⊎ (result ≡ err (unavailable "audit ledger has an incomplete final entry"))
      ⊎ ((entry : VerifiedAuditEntry codec.Value) × (result ≡ ok (verified ++ entry ∷ [])))

  whole-IsIntact :
      {io : Io} {partition : String} {bytes : List ℕ} {entry : AuditRecord}
      {receipt : DurableAuditReceipt} {line : List ℕ} (reader : Io)
      {verified : List (VerifiedAuditEntry codec.Value)}
      → GivesDigests codec
      → ReadsBack codec
      → IsPrepared codec io partition bytes entry receipt line
      → reader.reading ≡ complete
      → read_and_verify codec reader partition bytes ≡ ok verified
      → suc (length verified) < u64_max
      → IsIntact (read_and_verify codec reader partition (bytes ++ line)) verified
  whole-IsIntact {io} {partition} {bytes} {entry} {receipt} {line} reader d r p h before bound =
      let same = IsPrepared-verified codec reader p before in
      let last = IsPrepared-last codec d p same bound in
      let new : VerifiedAuditEntry codec.Value = record {
        receipt = receipt;
        record_value = p.value;
      } in
      inr (
        inr (
          new,
          read_and_verify-of_IsPrepared codec reader h d r p last
              ∙ ap (λ v. ok (v ++ new ∷ [])) same,
        ))

  written-IsIntact :
      (io reader : Io) (partition : String) (bytes : List ℕ) (entry : AuditRecord)
      (receipt : DurableAuditReceipt) (line : List ℕ)
      (verified : List (VerifiedAuditEntry codec.Value)) (writing : Writing)
      → GivesDigests codec
      → ReadsBack codec
      → IsPrepared codec io partition bytes entry receipt line
      → reader.reading ≡ complete
      → read_and_verify codec reader partition bytes ≡ ok verified
      → suc (length verified) < u64_max
      → IsIntact (read_and_verify codec reader partition (bytes ++ written writing line)) verified
  written-IsIntact io reader partition bytes entry receipt line verified durable d r p h before
        bound =
      whole-IsIntact reader d r p h before bound
  written-IsIntact io reader partition bytes entry receipt line verified unsynced d r p h before
        bound =
      whole-IsIntact reader d r p h before bound
  written-IsIntact io reader partition bytes entry receipt line verified (torn n) d r p h before
        bound =
      let last = IsPrepared-last codec d p (IsPrepared-verified codec reader p before) bound in
      let text = IsPrepared-text codec d r p last in
      subst (λ l. IsIntact (read_and_verify codec reader partition (bytes ++ take n l)) verified)
        (sym p.seals.ends)
        (elim (torn-cases n bytes p.seals.text text) [
          | inl whole ↦
              subst (λ l. IsIntact (read_and_verify codec reader partition (bytes ++ l)) verified)
                (p.seals.ends ∙ sym whole) (whole-IsIntact reader d r p h before bound)
          | inr (inl nothing) ↦ inl (
              ap (read_and_verify codec reader partition)
                (ap (λ l. bytes ++ l) nothing ∙ append-nil bytes)
              ∙ before)
          | inr (inr partial) ↦ inr (inl (incomplete codec reader partition _ h partial))
        ])

  write_line-IsIntact :
      (io reader : Io) (files : Files) (partition path : String) (entry : AuditRecord)
      {verified : List (VerifiedAuditEntry codec.Value)}
      (prepared : Result Diagnostic (DurableAuditReceipt × List ℕ))
      → GivesDigests codec
      → ReadsBack codec
      → IsHealthy reader
      → partition_path codec partition ≡ ok path
      → prepare codec io partition (contents (files path)) entry ≡ prepared
      → read_and_verify codec reader partition (contents (files path)) ≡ ok verified
      → suc (length verified) < u64_max
      → IsIntact
          (verify_partition codec reader (write_line codec io files path prepared).0 partition)
          verified
  write_line-IsIntact io reader files partition path entry (err e) d r h p q old bound =
      inl
        (verify_partition-write codec reader files partition path (contents (files path)) h p ∙ old)
  write_line-IsIntact io reader files partition path entry {verified} (ok (receipt, line)) d r h p q
        old bound =
      let more = contents (files path) ++ written io.writing line in
      subst (λ result. IsIntact result verified)
        (sym (verify_partition-write codec reader files partition path more h p))
        (written-IsIntact io reader partition (contents (files path)) entry receipt line verified
          io.writing d r (prepare-IsPrepared codec io partition (contents (files path)) entry q) h.2
          old bound)

  append_at-IsIntact :
      (io reader : Io) (files : Files) (entry : AuditRecord) (opened : Bool) (path : String)
      {verified : List (VerifiedAuditEntry codec.Value)}
      → GivesDigests codec
      → ReadsBack codec
      → IsHealthy reader
      → partition_path codec (audit_partition entry) ≡ ok path
      → verify_partition codec reader files (audit_partition entry) ≡ ok verified
      → suc (length verified) < u64_max
      → IsIntact
          (verify_partition codec reader
            (append_at codec io files entry opened (ok path)).0
            (audit_partition entry))
          verified
  append_at-IsIntact io reader files entry false path d r h p before bound = inl before
  append_at-IsIntact io reader files entry true path d r h p before bound =
      write_line-IsIntact io reader files (audit_partition entry) path entry
        (prepare codec io (audit_partition entry) (contents (files path)) entry) d r h p refl
        (sym (verify_partition-contents codec reader files (audit_partition entry) path h p)
          ∙ before)
        bound

  -- However an append goes and wherever it is torn, the verification afterwards gives the entries
  -- that were there, or these and one entry more, or refuses the partition for its incomplete end,
  -- if SHA-256 gives digests, entries are read back as they were written, the verification's own
  -- calls of the operating system succeed, and two sequence numbers are left.
  pub append_sync-IsIntact :
      (io reader : Io) (files : Files) (entry : AuditRecord)
      {verified : List (VerifiedAuditEntry codec.Value)}
      → GivesDigests codec
      → ReadsBack codec
      → IsHealthy reader
      → verify_partition codec reader files (audit_partition entry) ≡ ok verified
      → suc (length verified) < u64_max
      → IsIntact
          (verify_partition codec reader
            (append_sync codec io files entry).0
            (audit_partition entry))
          verified
  unfolding append_sync
  append_sync-IsIntact io reader files entry {verified} d r h before bound =
      let (path, p) = verify_partition-path codec reader files (audit_partition entry) before in
      subst
        (λ o.
          IsIntact
            (verify_partition codec reader (append_at codec io files entry io.opens o).0
              (audit_partition entry))
            verified)
        (sym p) (append_at-IsIntact io reader files entry io.opens path d r h p before bound)
