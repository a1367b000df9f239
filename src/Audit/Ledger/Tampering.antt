-- ===== src/Audit/Ledger/Tampering.antt =====
-- Two verified contents of a partition that end in the same hash (crates/kiteframe-audit/src/chain.rs):
-- what was changed between them.
use mathlib.Core.List.{append_cancel_left}
use kiteframe.Base.{
  ℕ, suc, ◌≡◌, ◌≢◌, ◌⊎◌, inl, inr, refl, sym, ap, ◌∙◌, String, List, [], ◌∷◌, ◌++◌, some, ok,
  length, utf8, Bytes-discrete, arith,
}
use kiteframe.Contract.Refs.{Sha256Digest, zero_bytes}
use kiteframe.Audit.{DurableAuditReceipt, receipt_id}
use kiteframe.Audit.Codec.{Codec, GivesDigests}
use kiteframe.Audit.Partition.{Files, Io, audit_hash_domain, to_be_bytes}
use kiteframe.Audit.Linkage.{VerifiedAuditEntry}
use kiteframe.Audit.Ledger.{record_hash, verify_partition}
use kiteframe.Audit.Ledger.Sealed.{record_hash-IsDigest}
use kiteframe.Audit.Ledger.Chain.{IsLink, IsChain, verify_partition-IsChain}

receipt_eq :
    (x y : DurableAuditReceipt)
    → x.partition ≡ y.partition
    → x.sequence ≡ y.sequence
    → x.previous_hash ≡ y.previous_hash
    → x.record_hash ≡ y.record_hash
    → x.record_id ≡ y.record_id
    → x ≡ y
receipt_eq x y p s h r i = λ j. record {
  partition = p j;
  sequence = s j;
  previous_hash = h j;
  record_hash = r j;
  record_id = i j;
}

append-split : (a b c d : List ℕ) → length a ≡ length b → a ++ c ≡ b ++ d → (a ≡ b) × (c ≡ d)
append-split [] [] c d n h = (refl, h)
append-split [] (y ∷ b) c d n h = absurd (omega arith)
append-split (x ∷ a) [] c d n h = absurd (omega arith)
append-split (x ∷ a) (y ∷ b) c d n h =
    let rest = append-split a b c d (omega arith) (cc) in let first : x ≡ y = cc in (cc, rest.1)

module _ (codec : Codec) where
  -- The text of an entry whose hash is the entry's record hash.
  abbrev pub hashed_text : DurableAuditReceipt → List ℕ → List ℕ
  hashed_text receipt canonical_record =
      audit_hash_domain
      ++ (utf8 receipt.partition
          ++ (to_be_bytes receipt.sequence ++ (receipt.previous_hash ++ canonical_record)))

  -- The texts of two entries are a collision of SHA-256: they differ, and their hash is the record
  -- hash of both entries.
  abbrev pub Collides : VerifiedAuditEntry codec.Value → VerifiedAuditEntry codec.Value → Type 0
  Collides x y =
      (c : List ℕ) × (d : List ℕ) × (codec.canonical x.record_value ≡ some c)
      × (codec.canonical y.record_value ≡ some d)
      × (hashed_text x.receipt c ≢ hashed_text y.receipt d)
      × (codec.sha256 (hashed_text x.receipt c) ≡ x.receipt.record_hash)
      × (codec.sha256 (hashed_text y.receipt d) ≡ y.receipt.record_hash)
      × (x.receipt.record_hash ≡ y.receipt.record_hash)

  -- Two entries at one place are such a collision.
  abbrev pub CollidesWithin :
      List (VerifiedAuditEntry codec.Value) → List (VerifiedAuditEntry codec.Value) → Type 0
  CollidesWithin [] ys = ⊥
  CollidesWithin (x ∷ xs) [] = ⊥
  CollidesWithin (x ∷ xs) (y ∷ ys) = Collides x y ⊎ CollidesWithin xs ys

  -- The hash that a chain ends in.
  abbrev pub last_hash : Sha256Digest → List (VerifiedAuditEntry codec.Value) → Sha256Digest
  last_hash hash [] = hash
  last_hash hash (entry ∷ entries) = last_hash entry.receipt.record_hash entries

  -- The same receipts, for records with the same canonical texts.
  abbrev pub IsSame :
      List (VerifiedAuditEntry codec.Value) → List (VerifiedAuditEntry codec.Value) → Type 0
  IsSame [] [] = Unit
  IsSame [] (_ ∷ _) = ⊥
  IsSame (_ ∷ _) [] = ⊥
  IsSame (x ∷ xs) (y ∷ ys) =
      (x.receipt ≡ y.receipt)
      × (codec.canonical x.record_value ≡ codec.canonical y.record_value)
      × IsSame xs ys

  hashed_text-at :
      {partition : String} {sequence : ℕ} {h : Sha256Digest} (x : VerifiedAuditEntry codec.Value)
      (c : List ℕ)
      → IsLink codec partition sequence h x
      → hashed_text x.receipt c
        ≡ audit_hash_domain ++ (utf8 partition ++ (to_be_bytes sequence ++ (h ++ c)))
  hashed_text-at x c a =
      λ i. audit_hash_domain ++ (utf8 (a.0 i) ++ (to_be_bytes (a.1 i) ++ (a.2 i ++ c)))

  hashed_text-eq :
      {partition : String} {sequence : ℕ} {h k : Sha256Digest} {c d : List ℕ}
      (x y : VerifiedAuditEntry codec.Value)
      → IsLink codec partition sequence h x
      → IsLink codec partition sequence k y
      → length h ≡ length k
      → hashed_text x.receipt c ≡ hashed_text y.receipt d
      → (h ≡ k) × (c ≡ d)
  hashed_text-eq {partition} {sequence} {h} {k} {c} {d} x y a b n same =
      let text = sym (hashed_text-at x c a) ∙ same ∙ hashed_text-at y d b in
      append-split h k c d n (
        append_cancel_left (to_be_bytes sequence) (h ++ c) (k ++ d)
          (append_cancel_left (utf8 partition) _ _ (append_cancel_left audit_hash_domain _ _ text)))

  hash-at :
      {partition : String} {sequence : ℕ} {h : Sha256Digest} (x : VerifiedAuditEntry codec.Value)
      (c : List ℕ)
      → (a : IsLink codec partition sequence h x)
      → x.receipt.record_hash ≡ record_hash codec partition sequence h c
      → codec.sha256 (hashed_text x.receipt c) ≡ x.receipt.record_hash
  unfolding record_hash
  hash-at x c a hash = ap codec.sha256 (hashed_text-at x c a) ∙ sym hash

  same_receipt :
      {partition : String} {sequence : ℕ} {h k : Sha256Digest}
      (x y : VerifiedAuditEntry codec.Value)
      → IsLink codec partition sequence h x
      → IsLink codec partition sequence k y
      → h ≡ k
      → x.receipt.record_hash ≡ y.receipt.record_hash
      → x.receipt ≡ y.receipt
  same_receipt {partition} {sequence} x y a b e f =
      receipt_eq x.receipt y.receipt (a.0 ∙ sym b.0) (a.1 ∙ sym b.1) (a.2 ∙ e ∙ sym b.2) f
        (a.3 ∙ ap (receipt_id partition sequence) f ∙ sym b.3)

  link_size :
      {partition : String} {sequence : ℕ} {h : Sha256Digest} {x : VerifiedAuditEntry codec.Value}
      → GivesDigests codec
      → IsLink codec partition sequence h x
      → length x.receipt.record_hash ≡ 32
  link_size {partition} {sequence} {h} d a =
      let (c, _, hash) = a.4 in
      ap (length {A = ℕ}) hash ∙ (record_hash-IsDigest codec partition sequence h c d).0

  IsChain-IsSame :
      (partition : String) (sequence : ℕ) (h k : Sha256Digest)
      (xs ys : List (VerifiedAuditEntry codec.Value))
      → GivesDigests codec
      → length h ≡ length k
      → IsChain codec partition sequence h xs
      → IsChain codec partition sequence k ys
      → length xs ≡ length ys
      → last_hash h xs ≡ last_hash k ys
      → CollidesWithin xs ys ⊎ ((h ≡ k) × IsSame xs ys)
  IsChain-IsSame partition sequence h k [] [] d n a b l e = inr (e, tt)
  IsChain-IsSame partition sequence h k [] (y ∷ ys) d n a b l e = absurd (omega arith)
  IsChain-IsSame partition sequence h k (x ∷ xs) [] d n a b l e = absurd (omega arith)
  IsChain-IsSame partition sequence h k (x ∷ xs) (y ∷ ys) d n a b l e =
      let (c, x_text, x_hash) = a.0.4 in
      let (c', y_text, y_hash) = b.0.4 in
      elim (IsChain-IsSame partition (suc sequence) x.receipt.record_hash y.receipt.record_hash xs
        ys d (link_size d a.0 ∙ sym (link_size d b.0)) a.2 b.2 (omega arith) e) [
          | inl collision ↦ inl (inr collision)
          | inr (same, rest) ↦
              elim (Bytes-discrete (hashed_text x.receipt c) (hashed_text y.receipt c')) [
                | no different ↦ inl (
                    inl (
                      c,
                      c',
                      x_text,
                      y_text,
                      different,
                      hash-at x c a.0 x_hash,
                      hash-at y c' b.0 y_hash,
                      same,
                    ))
                | yes text ↦
                    let (before, records) = hashed_text-eq x y a.0 b.0 n text in
                    inr (
                      before,
                      (
                        same_receipt x y a.0 b.0 before same,
                        x_text ∙ ap some records ∙ sym y_text,
                        rest,
                      ),
                    )
              ]
        ]

  -- Two verified contents of a partition with as many entries and the same last record hash have
  -- the same receipts for records with the same canonical texts, or two entries at one place show a
  -- collision: the texts that are hashed for them differ and both have the entries' record hash.
  -- SHA-256 is assumed to give digests.
  pub verify_partition-IsSame :
      (io later : Io) (files changed : Files) (partition : String)
      {verified found : List (VerifiedAuditEntry codec.Value)}
      → GivesDigests codec
      → verify_partition codec io files partition ≡ ok verified
      → verify_partition codec later changed partition ≡ ok found
      → length verified ≡ length found
      → last_hash (zero_bytes 32) verified ≡ last_hash (zero_bytes 32) found
      → CollidesWithin verified found ⊎ IsSame verified found
  verify_partition-IsSame io later files changed partition {verified} {found} d a b n e =
      elim (IsChain-IsSame partition 1 (zero_bytes 32) (zero_bytes 32) verified found d refl
        (verify_partition-IsChain codec io files partition a)
        (verify_partition-IsChain codec later changed partition b) n e) [
          | inl collision ↦ inl collision
          | inr same ↦ inr same.1
        ]
