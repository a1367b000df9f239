-- ===== src/Audit/Ledger/Growing.antt =====
-- One append and the receipts of a partition (`append_sync` of crates/kiteframe-audit/src/chain.rs):
-- of the record's own partition, and of another one.
use mathlib.Core.Path.{subst}
use mathlib.Core.List.{append-nil, map-append}
use kiteframe.Base.{
  ℕ, suc, ◌≡◌, ◌≢◌, ◌<◌, ◌≤◌, refl, sym, ap, ◌∙◌, Bool, true, false, String, List, [], ◌∷◌, ◌++◌,
  map, ◌>>◌, Result, ok, err, err≢ok, length, arith, u64_max, if◌then◌else◌, ◌==◌, string_eq,
  String-discrete, ==_of_eq,
}
use kiteframe.Base.Laws.{length-append_one}
use kiteframe.Contract.Diagnostic.{Diagnostic}
use kiteframe.Audit.{AuditRecord, audit_partition, DurableAuditReceipt}
use kiteframe.Audit.Codec.{Codec, GivesDigests, ReadsBack}
use kiteframe.Audit.Partition.{Files, Io, durable, contents, write_result}
use kiteframe.Audit.Linkage.{VerifiedAuditEntry}
use kiteframe.Audit.Ledger.{
  partition_path, read_and_verify, verify_partition, prepare, write_line, append_at, append_sync,
}
use kiteframe.Audit.Ledger.Reading.{
  IsHealthy, write_file-other, verify_partition-contents, verify_partition-path,
  verify_partition-write,
}
use kiteframe.Audit.Ledger.Durable.{append_sync-verify_partition}

-- The receipts among the results of a run that were returned for the records of a partition.
abbrev pub logged :
    String
    → List (Io × AuditRecord)
    → List (Result Diagnostic DurableAuditReceipt)
    → List DurableAuditReceipt
logged partition [] results = []
logged partition (step ∷ steps) [] = []
logged partition (step ∷ steps) (err e ∷ results) = logged partition steps results
logged partition (step ∷ steps) (ok receipt ∷ results) =
    let rest = logged partition steps results in
    if audit_partition step.1 == partition then receipt ∷ rest else rest

unlogged :
    (partition : String) (io : Io) (entry : AuditRecord)
    (result : Result Diagnostic DurableAuditReceipt)
    → audit_partition entry ≢ partition
    → logged partition ((io, entry) ∷ []) (result ∷ []) ≡ []
unlogged partition io entry (err e) n = refl
unlogged partition io entry (ok receipt) n = ground arith

pub logged-cons :
    (partition : String) (step : Io × AuditRecord) (steps : List (Io × AuditRecord))
    (result : Result Diagnostic DurableAuditReceipt)
    (results : List (Result Diagnostic DurableAuditReceipt))
    → logged partition (step ∷ steps) (result ∷ results)
      ≡ logged partition (step ∷ []) (result ∷ []) ++ logged partition steps results
logged-cons partition step steps (err e) results = refl
logged-cons partition step steps (ok receipt) results = ground arith

module _ (codec : Codec) where
  abbrev pub receipts : List (VerifiedAuditEntry codec.Value) → List DurableAuditReceipt
  receipts = map (λ entry. entry.receipt)

  write_line-unlogged :
      (io reader : Io) (files : Files) (partition path : String) {e : Diagnostic}
      (prepared : Result Diagnostic (DurableAuditReceipt × List ℕ))
      → io.writing ≡ durable
      → IsHealthy reader
      → partition_path codec partition ≡ ok path
      → (write_line codec io files path prepared).1 ≡ err e
      → verify_partition codec reader (write_line codec io files path prepared).0 partition
        ≡ verify_partition codec reader files partition
  write_line-unlogged io reader files partition path (err _) w h p x =
      verify_partition-write codec reader files partition path (contents (files path)) h p
      ∙ sym (verify_partition-contents codec reader files partition path h p)
  write_line-unlogged io reader files partition path (ok (receipt, line)) w h p x =
      absurd (err≢ok (sym x ∙ ap (λ writing. write_result writing >> ok receipt) w))

  append_at-unlogged :
      (io reader : Io) (files : Files) (entry : AuditRecord) (opened : Bool) (path : String)
      {e : Diagnostic}
      → io.writing ≡ durable
      → IsHealthy reader
      → partition_path codec (audit_partition entry) ≡ ok path
      → (append_at codec io files entry opened (ok path)).1 ≡ err e
      → verify_partition codec reader
          (append_at codec io files entry opened (ok path)).0
          (audit_partition entry)
        ≡ verify_partition codec reader files (audit_partition entry)
  append_at-unlogged io reader files entry false path w h p x = refl
  append_at-unlogged io reader files entry true path w h p x =
      write_line-unlogged io reader files (audit_partition entry) path
        (prepare codec io (audit_partition entry) (contents (files path)) entry) w h p x

  append_sync-at :
      (io : Io) (files : Files) (entry : AuditRecord) {path : String}
      → partition_path codec (audit_partition entry) ≡ ok path
      → append_sync codec io files entry ≡ append_at codec io files entry io.opens (ok path)
  unfolding append_sync
  append_sync-at io files entry p = ap (append_at codec io files entry io.opens) p

  append_sync-unlogged :
      (io reader : Io) (files : Files) (entry : AuditRecord) (path : String) {e : Diagnostic}
      → io.writing ≡ durable
      → IsHealthy reader
      → partition_path codec (audit_partition entry) ≡ ok path
      → (append_sync codec io files entry).1 ≡ err e
      → verify_partition codec reader (append_sync codec io files entry).0 (audit_partition entry)
        ≡ verify_partition codec reader files (audit_partition entry)
  append_sync-unlogged io reader files entry path {e} w h p x =
      subst
        (λ (out : Files × Result Diagnostic DurableAuditReceipt).
          out.1 ≡ err e
          → verify_partition codec reader out.0 (audit_partition entry)
            ≡ verify_partition codec reader files (audit_partition entry))
        (sym (append_sync-at io files entry p))
        (append_at-unlogged io reader files entry io.opens path w h p) x

  -- The partition is verified afterwards, and its receipts have grown by the ones given, at most one.
  abbrev pub Grows :
      Io
      → Files
      → String
      → List (VerifiedAuditEntry codec.Value)
      → List DurableAuditReceipt
      → Type 0
  Grows reader after partition verified added =
      (found : List (VerifiedAuditEntry codec.Value)) × (verify_partition codec reader after
          partition
        ≡ ok found)
      × (receipts found ≡ receipts verified ++ added)
      × (length found ≤ suc (length verified))

  append_sync-receipts :
      (io reader : Io) (files : Files) (entry : AuditRecord)
      {verified : List (VerifiedAuditEntry codec.Value)}
      (result : Result Diagnostic DurableAuditReceipt)
      → GivesDigests codec
      → ReadsBack codec
      → IsHealthy reader
      → io.writing ≡ durable
      → suc (length verified) < u64_max
      → verify_partition codec reader files (audit_partition entry) ≡ ok verified
      → (append_sync codec io files entry).1 ≡ result
      → Grows reader
          (append_sync codec io files entry).0
          (audit_partition entry)
          verified
          (logged (audit_partition entry) ((io, entry) ∷ []) (result ∷ []))
  append_sync-receipts io reader files entry {verified} (err e) d r h w bound before x =
      let (path, p) = verify_partition-path codec reader files (audit_partition entry) before in
      (
        verified,
        append_sync-unlogged io reader files entry path w h p x ∙ before,
        sym (append-nil (receipts verified)),
        omega arith,
      )
  append_sync-receipts io reader files entry {verified} (ok receipt) d r h w bound before x =
      let after = (append_sync codec io files entry).0 in
      let out : append_sync codec io files entry ≡ (after, ok receipt) = ap (λ y. (after, y)) x in
      let ((value, _, found), _) =
        append_sync-verify_partition codec io reader files after entry receipt d r h before bound
          out in
      let new : VerifiedAuditEntry codec.Value = record {
        receipt = receipt;
        record_value = value;
      } in
      (
        verified ++ new ∷ [],
        found,
        rw (==_of_eq {a = audit_partition entry} refl) (map-append _ verified (new ∷ [])),
        subst (λ n. n ≤ suc (length verified)) (sym (length-append_one verified new)) (omega arith),
      )

  write_line-elsewhere :
      (io : Io) (files : Files) (path name : String)
      (prepared : Result Diagnostic (DurableAuditReceipt × List ℕ))
      → path ≢ name
      → (write_line codec io files path prepared).0 name ≡ files name
  write_line-elsewhere io files path name (err e) n = write_file-other path name _ files n
  write_line-elsewhere io files path name (ok (receipt, line)) n =
      write_file-other path name _ files n

  append_at-elsewhere :
      (io : Io) (files : Files) (entry : AuditRecord) (opened : Bool)
      (path : Result Diagnostic String) (name : String)
      → ((other : String) → path ≡ ok other → other ≢ name)
      → (append_at codec io files entry opened path).0 name ≡ files name
  append_at-elsewhere io files entry opened (err e) name n = refl
  append_at-elsewhere io files entry false (ok path) name n = refl
  append_at-elsewhere io files entry true (ok path) name n =
      write_line-elsewhere io files path name _ (n path refl)

  append_sync-elsewhere :
      (io : Io) (files : Files) (entry : AuditRecord) (name : String)
      → ((other : String) → partition_path codec (audit_partition entry) ≡ ok other → other ≢ name)
      → (append_sync codec io files entry).0 name ≡ files name
  unfolding append_sync
  append_sync-elsewhere io files entry name n =
      append_at-elsewhere io files entry io.opens (partition_path codec (audit_partition entry))
        name n

  -- Another partition, in another file.
  abbrev pub IsApart : String → AuditRecord → Type 0
  IsApart partition entry =
      audit_partition entry ≢ partition
      → (name other : String) → partition_path codec partition ≡ ok name
      → partition_path codec (audit_partition entry) ≡ ok other
      → other ≢ name

  pub step-Grows :
      (io reader : Io) (files : Files) (partition : String) (entry : AuditRecord)
      {verified : List (VerifiedAuditEntry codec.Value)}
      → GivesDigests codec
      → ReadsBack codec
      → IsHealthy reader
      → io.writing ≡ durable
      → IsApart partition entry
      → suc (length verified) < u64_max
      → verify_partition codec reader files partition ≡ ok verified
      → Grows reader
          (append_sync codec io files entry).0
          partition
          verified
          (logged partition ((io, entry) ∷ []) ((append_sync codec io files entry).1 ∷ []))
  step-Grows io reader files partition entry {verified} d r h w apart bound before =
      elim (String-discrete (audit_partition entry) partition) [
        | yes same ↦
            subst
              (λ p.
                Grows reader (append_sync codec io files entry).0 p verified
                  (logged p ((io, entry) ∷ []) ((append_sync codec io files entry).1 ∷ [])))
              same
              (append_sync-receipts io reader files entry (append_sync codec io files entry).1 d r h
                w bound (ap (verify_partition codec reader files) same ∙ before) refl)
        | no different ↦
            let (path, p) = verify_partition-path codec reader files partition before in
            let after = (append_sync codec io files entry).0 in
            (
              verified,
              verify_partition-contents codec reader after partition path h p
                  ∙ ap (λ o. read_and_verify codec reader partition (contents o))
                      (append_sync-elsewhere io files entry path
                        (λ other q. apart different path other p q))
                  ∙ sym (verify_partition-contents codec reader files partition path h p)
                  ∙ before,
              sym (append-nil (receipts verified))
                  ∙ ap (λ l. receipts verified ++ l)
                      (sym (
                        unlogged partition io entry (append_sync codec io files entry).1
                          different)),
              omega arith,
            )
      ]
