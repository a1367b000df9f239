-- ===== src/Audit/Codec.antt =====
-- What the ledger (crates/kiteframe-audit/src/chain.rs) calls of its libraries: JSON values and
-- their encodings (serde_json, serde_json_canonicalizer, the derived serialization of a record)
-- and SHA-256 (sha2). These are parameters; the predicates say what their documentation promises.
use kiteframe.Base.{
  ℕ, zero, suc, ◌≡◌, refl, ap, arith, ◌≤◌, ◌<◌, String, Bool, true, false, is_empty, List, Option,
  some, All, length, u64_max, Eq,
}
use kiteframe.Contract.Refs.{Sha256Digest, zero_bytes}
use kiteframe.Audit.{AuditRecord}

-- `PersistedEntry`, over the type of JSON values.
pub record PersistedEntry (Value : Type 0) : Type 0 where
  pub partition : String
  pub sequence : ℕ
  pub previous_hash : Sha256Digest
  pub record_hash : Sha256Digest
  pub record_value : Value

pub record Codec : Type 1 where
  -- `serde_json::Value` and `serde_json::Map`, with their equality and accessors.
  pub Value : Type 0
  pub Object : Type 0
  pub value_eq : Eq Value
  pub get : String → Value → Option Value
  pub as_str : Value → Option String
  pub as_object : Value → Option Object
  pub field : String → Object → Option Value
  -- `serde_json::to_value` of a record, and `serde_json_canonicalizer::to_vec`.
  pub to_value : AuditRecord → Option Value
  pub canonical : Value → Option (List ℕ)
  -- `serde_json::to_vec` and `serde_json::from_str` of an entry, the text as its UTF-8 bytes.
  pub write_entry : PersistedEntry Value → Option (List ℕ)
  pub read_entry : List ℕ → Option (PersistedEntry Value)
  -- Whether bytes are a text, as `BufRead::lines` asks.
  pub is_utf8 : List ℕ → Bool
  pub sha256 : List ℕ → Sha256Digest

-- The bytes of a digest.
abbrev pub IsDigest : Sha256Digest → Type 0
IsDigest d = (length d ≡ 32) × All (λ byte. byte < 256) d

pub zero_bytes-IsDigest :
    (n : ℕ) → (length (zero_bytes n) ≡ n) × All (λ byte. byte < 256) (zero_bytes n)
zero_bytes-IsDigest zero = (refl, tt)
zero_bytes-IsDigest (suc n) =
    let rest = zero_bytes-IsDigest n in (ap suc rest.0, (omega arith, rest.1))

-- A byte of compact JSON is no control character, because a text in it has them escaped.
abbrev pub IsPrintable : List ℕ → Type 0
IsPrintable bytes = All (λ byte. 32 ≤ byte) bytes

abbrev pub IsEntry : {Value : Type 0} → PersistedEntry Value → Type 0
IsEntry e = (e.sequence ≤ u64_max) × IsDigest e.previous_hash × IsDigest e.record_hash

-- SHA-256 gives 32 bytes.
abbrev pub GivesDigests : Codec → Type 0
GivesDigests c = (bytes : List ℕ) → IsDigest (c.sha256 bytes)

-- What is written of an entry is a line of text that is not empty, and is read back as the entry.
abbrev pub ReadsBack : Codec → Type 0
ReadsBack c =
    (e : PersistedEntry c.Value)
    → IsEntry e
    → (bytes : List ℕ) → c.write_entry e ≡ some bytes
    → IsPrintable bytes
      × (is_empty bytes ≡ false)
      × (c.is_utf8 bytes ≡ true)
      × (c.read_entry bytes ≡ some e)
