-- ===== src/Audit/Ledger/Reading.antt =====
-- A partition's file as a verification reads it and an append leaves it (`verify_partition` and
-- `append_sync` of crates/kiteframe-audit/src/chain.rs).
use kiteframe.Base.{
  ◌>>=◌, ℕ, suc, ◌≡◌, ◌≢◌, ◌<◌, refl, sym, ap, ◌∙◌, true, String, List, [], Option, none, some, ok,
  err, >>=-eq_ok, ok-injective, arith, u64_max, length, ==_of_eq, string_eq,
}
use kiteframe.Audit.{AuditRecord, DurableAuditReceipt, unavailable}
use kiteframe.Audit.Codec.{Codec, GivesDigests}
use kiteframe.Audit.Partition.{
  Files, Io, complete, visible, contents, write_file, has_incomplete_tail, raw_lines,
}
use kiteframe.Audit.Linkage.{VerifiedAuditEntry}
use kiteframe.Audit.Ledger.{
  read_partition, read_file, partition_path, read_and_verify, verify_partition, verify_lines,
}
use kiteframe.Audit.Ledger.Prepared.{IsPrepared, IsPrepared-place, read_and_verify-lines}

-- A verification whose calls of the operating system succeed.
abbrev pub IsHealthy : Io → Type 0
IsHealthy io = (io.opens ≡ true) × (io.locks ≡ true) × (io.reading ≡ complete) × (io.finds ≡ true)

pub write_file-same :
    (path : String) (bytes : List ℕ) (files : Files) → write_file path bytes files path ≡ some bytes
unfolding write_file
write_file-same path bytes files = rw (==_of_eq {a = path} refl) refl

pub write_file-other :
    (path name : String) (bytes : List ℕ) (files : Files)
    → path ≢ name
    → write_file path bytes files name ≡ files name
unfolding write_file
write_file-other path name bytes files h = ground arith

module _ (codec : Codec) where
  pub empty :
      (io : Io) (partition : String)
      → io.reading ≡ complete
      → read_and_verify codec io partition [] ≡ ok []
  unfolding read_and_verify read_file verify_lines raw_lines has_incomplete_tail
  empty io partition h = rw (h) refl

  read_partition-contents :
      (io : Io) (partition : String) (file : Option (List ℕ))
      → IsHealthy io
      → read_partition codec io partition file ≡ read_and_verify codec io partition (contents file)
  read_partition-contents io partition none h = sym (empty io partition h.2)
  read_partition-contents io partition (some bytes) h = rw (h.0, h.1) refl

  -- A healthy verification reads the bytes of the partition's file, none if it is missing.
  pub verify_partition-contents :
      (io : Io) (files : Files) (partition path : String)
      → IsHealthy io
      → partition_path codec partition ≡ ok path
      → verify_partition codec io files partition
        ≡ read_and_verify codec io partition (contents (files path))
  unfolding verify_partition
  verify_partition-contents io files partition path h p =
      ap
        (λ place.
          place >>= λ path. read_partition codec io partition (visible io.finds (files path)))
        p
      ∙ ap (λ found. read_partition codec io partition (visible found (files path))) h.3
      ∙ read_partition-contents io partition (files path) h

  pub incomplete :
      (io : Io) (partition : String) (bytes : List ℕ)
      → io.reading ≡ complete
      → has_incomplete_tail bytes ≡ true
      → read_and_verify codec io partition bytes
        ≡ err (unavailable "audit ledger has an incomplete final entry")
  unfolding read_and_verify read_file
  incomplete io partition bytes r h = rw (r, h) refl

  pub verify_partition-path :
      (io : Io) (files : Files) (partition : String)
      {verified : List (VerifiedAuditEntry codec.Value)}
      → verify_partition codec io files partition ≡ ok verified
      → (path : String) × (partition_path codec partition ≡ ok path)
  unfolding verify_partition
  verify_partition-path io files partition h =
      let (path, p, _) = >>=-eq_ok (partition_path codec partition) _ h in (path, p)

  pub verify_partition-write :
      (io : Io) (files : Files) (partition path : String) (bytes : List ℕ)
      → IsHealthy io
      → partition_path codec partition ≡ ok path
      → verify_partition codec io (write_file path bytes files) partition
        ≡ read_and_verify codec io partition bytes
  verify_partition-write io files partition path bytes h p =
      verify_partition-contents io (write_file path bytes files) partition path h p
      ∙ ap (λ o. read_and_verify codec io partition (contents o)) (write_file-same path bytes files)

  pub IsPrepared-verified :
      {io : Io} {partition : String} {bytes : List ℕ} {entry : AuditRecord}
      {receipt : DurableAuditReceipt} {line : List ℕ} (reader : Io)
      {verified : List (VerifiedAuditEntry codec.Value)}
      → (p : IsPrepared codec io partition bytes entry receipt line)
      → read_and_verify codec reader partition bytes ≡ ok verified
      → p.existing ≡ verified
  IsPrepared-verified {io} {partition} {bytes} reader p before =
      let lines = (read_and_verify-lines codec io partition bytes p.reads).1 in
      let again = (read_and_verify-lines codec reader partition bytes before).1 in
      ok-injective (sym lines ∙ again)

  pub IsPrepared-last :
      {io : Io} {partition : String} {bytes : List ℕ} {entry : AuditRecord}
      {receipt : DurableAuditReceipt} {line : List ℕ}
      {verified : List (VerifiedAuditEntry codec.Value)}
      → GivesDigests codec
      → (p : IsPrepared codec io partition bytes entry receipt line) → p.existing ≡ verified
      → suc (length verified) < u64_max
      → p.sequence < u64_max
  IsPrepared-last d p same bound =
      let count = (IsPrepared-place codec d p).1 in
      let sizes = ap (λ v. length v) same in omega arith
