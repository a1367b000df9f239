-- ===== src/Audit/Ledger/Log.antt =====
-- Runs of appends to the partitions of a ledger (`append_sync` of
-- crates/kiteframe-audit/src/chain.rs), compared with a log of receipts that only grows.
use mathlib.Core.List.{append-nil, append_assoc}
use kiteframe.Base.{
  ◌≡◌, ◌<◌, ◌+◌, sym, ap, ◌∙◌, String, List, [], ◌∷◌, ◌++◌, Result, ok, length, All, arith, u64_max,
  string_eq,
}
use kiteframe.Contract.Diagnostic.{Diagnostic}
use kiteframe.Audit.{AuditRecord, DurableAuditReceipt}
use kiteframe.Audit.Codec.{Codec, GivesDigests, ReadsBack}
use kiteframe.Audit.Partition.{Files, Io, durable}
use kiteframe.Audit.Linkage.{VerifiedAuditEntry}
use kiteframe.Audit.Ledger.{verify_partition, append_sync}
use kiteframe.Audit.Ledger.Reading.{IsHealthy}
use kiteframe.Audit.Ledger.Growing.{logged, logged-cons, receipts, IsApart, step-Grows}

module _ (codec : Codec) where
  -- Appends in their order, each with the way its calls of the operating system go.
  abbrev pub run :
      Files → List (Io × AuditRecord) → Files × List (Result Diagnostic DurableAuditReceipt)
  run files [] = (files, [])
  run files ((io, entry) ∷ steps) =
      let after = append_sync codec io files entry in
      let rest = run after.0 steps in (rest.0, after.1 ∷ rest.1)

  -- Over a run of appends to any partitions, a partition behaves as a log that only grows: its
  -- verification afterwards succeeds, and its receipts are those it had before, followed by exactly
  -- the receipts that the run returned for its records, in their order. An append that is refused,
  -- for the record or for a call of the operating system before the writing, leaves no trace. This
  -- holds if every line that is written becomes durable, other partitions are kept in other files,
  -- the verification's own calls of the operating system succeed, SHA-256 gives digests, entries are
  -- read back as they were written, and sequence numbers are left for all the records.
  pub run-receipts :
      (reader : Io) (files : Files) (partition : String) (steps : List (Io × AuditRecord))
      (verified : List (VerifiedAuditEntry codec.Value))
      → GivesDigests codec
      → ReadsBack codec
      → IsHealthy reader
      → All (λ step. step.0.writing ≡ durable) steps
      → All (λ step. IsApart codec partition step.1) steps
      → length verified + length steps < u64_max
      → verify_partition codec reader files partition ≡ ok verified
      → (found : List (VerifiedAuditEntry codec.Value)) × (verify_partition codec reader
            (run files steps).0
            partition
          ≡ ok found)
        × (receipts codec found
            ≡ receipts codec verified ++ logged partition steps (run files steps).1)
  run-receipts reader files partition [] verified d r h w apart bound before =
      (verified, before, sym (append-nil (receipts codec verified)))
  run-receipts reader files partition ((io, entry) ∷ steps) verified d r h w apart bound before =
      let after = append_sync codec io files entry in
      let (grown, verifies, same, size) =
        step-Grows codec io reader files partition entry d r h w.0 apart.0 (omega arith) before in
      let (found, there, more) =
        run-receipts reader after.0 partition steps grown d r h w.1 apart.1 (omega arith)
          verifies in
      let first = logged partition ((io, entry) ∷ []) (after.1 ∷ []) in
      let rest = logged partition steps (run after.0 steps).1 in
      (
        found,
        there,
        more
            ∙ ap (λ l. l ++ rest) same
            ∙ append_assoc (receipts codec verified) first rest
            ∙ ap (λ l. receipts codec verified ++ l)
                (sym (logged-cons partition (io, entry) steps after.1 (run after.0 steps).1)),
      )
