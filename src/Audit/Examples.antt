-- ===== src/Audit/Examples.antt =====
-- Tests and concrete runs of the audit ledger (crates/kiteframe-audit/src/chain.rs).
use mathlib.Core.Option
use kiteframe.Base.{
  ℕ, codes, ◌≡◌, ◌≢◌, ◌⊎◌, refl, ap, String, List, [], ◌∷◌, ◌++◌, Option, some, ok, String-discrete,
  ℕ_discrete, Bytes-discrete, arith, utf8, utf8_char, is_blank, is_whitespace, is_ascii_control,
  is_ascii_whitespace, dec_of_test,
}
use kiteframe.Contract.Diagnostic.{diagnostic_error}
use kiteframe.Contract.Refs.{zero_bytes}
use kiteframe.Audit.{
  DurableAuditReceipt, receipt_id, audit_partition, receipt_try_new, decimal, hex, unavailable,
}
use kiteframe.Audit.Decimal.{receipt_id-differs}
use kiteframe.Audit.Codec.{PersistedEntry}
use kiteframe.Audit.Partition.{
  validate_partition, raw_lines, strip_cr, has_incomplete_tail, next_sequence, to_be_bytes,
  write_file,
}
use kiteframe.Audit.Linkage.{
  VerifiedAuditEntry, record_type, record_body, text_field, validate_record_linkage,
  validate_outcome, match_fields,
}
use kiteframe.Audit.Linkage.Outcomes.{IsAuthorizedBy}
use kiteframe.Audit.Ledger.{
  append_sync, verify_partition, record_hash, partition_path, prepare, seal, read_and_verify,
  read_file, verify_lines, verify_line, verify_entry,
}
use kiteframe.Audit.Ledger.Appended.{IsIntact, append_sync-IsIntact}
use kiteframe.Audit.Ledger.Durable.{append_sync-verify_partition}
use kiteframe.Audit.Ledger.Accepting.{append_sync-succeeds}
use kiteframe.Audit.Ledger.Chain.{
  IsChain, verify_partition-IsChain, verify_partition-IsAuthorizedBy,
}
use kiteframe.Audit.Ledger.Tampering.{CollidesWithin, IsSame, verify_partition-IsSame}
use kiteframe.Audit.Ledger.Growing.{logged, receipts}
use kiteframe.Audit.Ledger.Log.{run, run-receipts}
use kiteframe.Audit.Sample.{
  Json, sample-GivesDigests, sample-ReadsBack, to_json, Json-discrete, Entry-discrete,
}
use kiteframe.Audit.SampleRun.{
  plain_codec, authorization_record, outcome_record, codec, calm, crash, no_files, first_receipt,
  second_receipt, one_file, two_files, entries, table, steps, first_entry_verified,
}

append_first_test : (append_sync codec calm no_files authorization_record).1 ≡ ok first_receipt
unfolding append_sync partition_path validate_partition prepare seal read_and_verify read_file
    verify_lines verify_line verify_entry validate_record_linkage validate_outcome match_fields
    record_hash raw_lines strip_cr has_incomplete_tail next_sequence to_be_bytes write_file
    receipt_try_new receipt_id decimal hex unavailable diagnostic_error audit_partition utf8
    utf8_char is_blank is_whitespace is_ascii_control is_ascii_whitespace Option.bind
    String-discrete dec_of_test ℕ_discrete Bytes-discrete Json-discrete Entry-discrete
append_first_test = refl

append_second_test : (append_sync codec calm one_file outcome_record).1 ≡ ok second_receipt
unfolding append_sync partition_path validate_partition prepare seal read_and_verify read_file
    verify_lines verify_line verify_entry validate_record_linkage validate_outcome match_fields
    record_hash raw_lines strip_cr has_incomplete_tail next_sequence to_be_bytes write_file
    receipt_try_new receipt_id decimal hex unavailable diagnostic_error audit_partition utf8
    utf8_char is_blank is_whitespace is_ascii_control is_ascii_whitespace Option.bind
    String-discrete dec_of_test ℕ_discrete Bytes-discrete Json-discrete Entry-discrete
append_second_test = refl

verify_test : verify_partition codec calm two_files "t" ≡ ok entries
unfolding append_sync partition_path validate_partition prepare seal read_and_verify read_file
    verify_lines verify_line verify_entry validate_record_linkage validate_outcome match_fields
    record_hash raw_lines strip_cr has_incomplete_tail next_sequence to_be_bytes write_file
    receipt_try_new receipt_id decimal hex unavailable diagnostic_error audit_partition utf8
    utf8_char is_blank is_whitespace is_ascii_control is_ascii_whitespace Option.bind
    String-discrete dec_of_test ℕ_discrete Bytes-discrete Json-discrete Entry-discrete
    verify_partition
verify_test = refl

verify_one_test : verify_partition codec calm one_file "t" ≡ ok (first_entry_verified ∷ [])
unfolding append_sync partition_path validate_partition prepare seal read_and_verify read_file
    verify_lines verify_line verify_entry validate_record_linkage validate_outcome match_fields
    record_hash raw_lines strip_cr has_incomplete_tail next_sequence to_be_bytes write_file
    receipt_try_new receipt_id decimal hex unavailable diagnostic_error audit_partition utf8
    utf8_char is_blank is_whitespace is_ascii_control is_ascii_whitespace Option.bind
    String-discrete dec_of_test ℕ_discrete Bytes-discrete Json-discrete Entry-discrete
    verify_partition
verify_one_test = refl

verify_none_test : verify_partition codec calm no_files "t" ≡ ok []
unfolding append_sync partition_path validate_partition prepare seal read_and_verify read_file
    verify_lines verify_line verify_entry validate_record_linkage validate_outcome match_fields
    record_hash raw_lines strip_cr has_incomplete_tail next_sequence to_be_bytes write_file
    receipt_try_new receipt_id decimal hex unavailable diagnostic_error audit_partition utf8
    utf8_char is_blank is_whitespace is_ascii_control is_ascii_whitespace Option.bind
    String-discrete dec_of_test ℕ_discrete Bytes-discrete Json-discrete Entry-discrete
    verify_partition
verify_none_test = refl

first_append : append_sync codec calm no_files authorization_record ≡ (one_file, ok first_receipt)
first_append = ap (λ result. (one_file, result)) append_first_test

second_append : append_sync codec calm one_file outcome_record ≡ (two_files, ok second_receipt)
second_append = ap (λ result. (two_files, result)) append_second_test

append_sync-verify_partition_example :
    ((value : Json) × (◌≡◌ {A = Option Json} (some (to_json outcome_record)) (some value))
      × (verify_partition codec calm two_files "t"
          ≡ ok (
              first_entry_verified
              ∷ record { receipt = second_receipt; record_value = value }
              ∷ [])))
    × ((name : String) → partition_path codec "t" ≢ ok name → two_files name ≡ one_file name)
unfolding audit_partition
append_sync-verify_partition_example =
    append_sync-verify_partition codec calm calm one_file two_files outcome_record second_receipt
      (sample-GivesDigests table) (sample-ReadsBack table) (refl, refl, refl, refl) verify_one_test
      (omega arith) second_append

append_sync-IsIntact_example :
    IsIntact codec
      (verify_partition codec calm (append_sync codec crash one_file outcome_record).0 "t")
      (first_entry_verified ∷ [])
unfolding audit_partition
append_sync-IsIntact_example =
    append_sync-IsIntact codec crash calm one_file outcome_record (sample-GivesDigests table)
      (sample-ReadsBack table) (refl, refl, refl, refl) verify_one_test (omega arith)

verify_partition-IsChain_example : IsChain codec "t" 1 (zero_bytes 32) entries
verify_partition-IsChain_example = verify_partition-IsChain codec calm two_files "t" verify_test

verify_partition-IsAuthorizedBy_example :
    (record_type codec (to_json outcome_record) ≡ some "outcome"
      → IsAuthorizedBy codec (to_json outcome_record) (first_entry_verified ∷ []))
    × ((body : List (String × String)) × (record_body codec (to_json outcome_record) ≡ some body)
        × (text_field codec "tenantRef" body ≡ some "t"))
verify_partition-IsAuthorizedBy_example =
    verify_partition-IsAuthorizedBy codec calm two_files "t" (first_entry_verified ∷ [])
      (record { receipt = second_receipt; record_value = to_json outcome_record }) [] verify_test

verify_partition-IsSame_example :
    CollidesWithin codec entries entries ⊎ IsSame codec entries entries
verify_partition-IsSame_example =
    verify_partition-IsSame codec calm calm two_files two_files "t" (sample-GivesDigests table)
      verify_test verify_test refl refl

run-receipts_example :
    (found : List (VerifiedAuditEntry Json)) × (verify_partition codec calm
        (run codec no_files steps).0
        "t"
      ≡ ok found)
    × (receipts codec found ≡ [] ++ logged "t" steps (run codec no_files steps).1)
unfolding audit_partition
run-receipts_example =
    run-receipts codec calm no_files "t" steps [] (sample-GivesDigests table)
      (sample-ReadsBack table) (refl, refl, refl, refl) (refl, (refl, tt))
      ((λ n. absurd (n refl)), ((λ n. absurd (n refl)), tt)) (omega arith) verify_none_test

verify_plain_test : verify_partition plain_codec calm no_files "t" ≡ ok []
unfolding append_sync partition_path validate_partition prepare seal read_and_verify read_file
    verify_lines verify_line verify_entry validate_record_linkage validate_outcome match_fields
    record_hash raw_lines strip_cr has_incomplete_tail next_sequence to_be_bytes write_file
    receipt_try_new receipt_id decimal hex unavailable diagnostic_error audit_partition utf8
    utf8_char is_blank is_whitespace is_ascii_control is_ascii_whitespace Option.bind
    String-discrete dec_of_test ℕ_discrete Bytes-discrete Json-discrete Entry-discrete
    verify_partition
verify_plain_test = refl

linked_test : validate_record_linkage plain_codec (to_json authorization_record) "t" [] ≡ ok tt
unfolding append_sync partition_path validate_partition prepare seal read_and_verify read_file
    verify_lines verify_line verify_entry validate_record_linkage validate_outcome match_fields
    record_hash raw_lines strip_cr has_incomplete_tail next_sequence to_be_bytes write_file
    receipt_try_new receipt_id decimal hex unavailable diagnostic_error audit_partition utf8
    utf8_char is_blank is_whitespace is_ascii_control is_ascii_whitespace Option.bind
    String-discrete dec_of_test ℕ_discrete Bytes-discrete Json-discrete Entry-discrete
    verify_partition
linked_test = refl

all_written :
    (e : PersistedEntry Json) → (bytes : List ℕ) × (plain_codec.write_entry e ≡ some bytes)
all_written e = (65 ∷ [], refl)

append_sync-succeeds_example :
    (receipt : DurableAuditReceipt) × ((append_sync plain_codec calm no_files
        authorization_record).1
      ≡ ok receipt)
    × (receipt.sequence ≡ 1)
unfolding audit_partition
append_sync-succeeds_example =
    append_sync-succeeds plain_codec calm no_files authorization_record
      (to_json authorization_record) (codes "authorization") (sample-GivesDigests table)
      (refl, refl, refl, refl) refl refl verify_plain_test refl linked_test refl all_written

receipt_id-differs_example :
    ¬ (receipt_id "tenant" 1 (zero_bytes 32) ≡ receipt_id "tenant" 11 (zero_bytes 32))
receipt_id-differs_example =
    receipt_id-differs "tenant" 1 11 (zero_bytes 32) (zero_bytes 32) (omega arith) (omega arith)
      (omega arith)
