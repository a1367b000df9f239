-- ===== src/Audit/Partition.antt =====
-- The parts of the audit ledger (crates/kiteframe-audit/src/chain.rs) that ask nothing of a library:
-- the files of its directory as a function from their names to their bytes, how the calls of the
-- operating system go, the lines of a file, and the texts and numbers that a hash is made of.
pub mod Endings
use Prim.Native.String.{◌++◌ as string_append}
use kiteframe.Base.{
  ℕ, zero, suc, ◌+◌, ◌/◌, ◌%◌, ◌<◌, Bool, true, false, not, ◌||◌, String, List, [], ◌∷◌, ◌++◌,
  Option, none, some, Result, ok, err, ◌>>=◌, ◌>>◌, refuse_if, err≢ok, ok-injective, ◌≡◌, ap,
  map_err, ltb, if◌then◌else◌, is_blank, is_ascii_control, is_ascii_whitespace, utf8, length,
  is_empty, any, find, ◌==◌, Eq, ℕ_discrete, nat_eq, string_eq, u64_max, String-discrete,
}
use kiteframe.Contract.Diagnostic.{Diagnostic}
use kiteframe.Contract.Refs.{Sha256Digest, zero_bytes}
use kiteframe.Audit.{
  AuditRecord, audit_partition, DurableAuditReceipt, receipt_try_new, unavailable, hex,
}
use kiteframe.Audit.Codec.{Codec, PersistedEntry}

abbrev pub Files : Type 0
Files = String → Option (List ℕ)

-- How the writing of a line ends: everything is durable; it is written but `sync_data` fails; or
-- `write_all` fails, or the process ends, after so many of its bytes.
pub data Writing : Type 0 where
  durable : Writing
  unsynced : Writing
  torn : ℕ → Writing

-- How the reading of a file goes: to its end, or to the first call that fails. These are its
-- metadata, its last byte (which is read of a file that is not empty), its rewinding, and the
-- reading of the next line behind some lines.
pub data ReadEnding : Type 0 where
  complete : ReadEnding
  unmeasured : ReadEnding
  unread_tail : ReadEnding
  unwound : ReadEnding
  broken : ℕ → ReadEnding

-- How the calls of the operating system go.
pub record Io : Type 0 where
  pub finds : Bool
  pub opens : Bool
  pub locks : Bool
  pub reading : ReadEnding
  pub positions : Bool
  pub writing : Writing

-- `ok_or_else`
abbrev pub required : {A : Type 0} → String → Option A → Result Diagnostic A
required message (some a) = ok a
required message none = err (unavailable message)

-- `validate_partition`
unfoldable pub validate_partition : String → Result Diagnostic (Unit {0})
validate_partition partition =
    refuse_if
      (is_blank partition
        || ltb 512 (length (utf8 partition))
        || any (λ byte. is_ascii_control byte || is_ascii_whitespace byte) (utf8 partition))
      (unavailable "audit partition is invalid")

-- `u64::to_be_bytes`
unfoldable pub to_be_bytes : ℕ → List ℕ
to_be_bytes n = go 8 n []
  where
    go : ℕ → ℕ → List ℕ → List ℕ
    go zero n acc = acc
    go (suc k) n acc = go k (n / 256) (n % 256 ∷ acc)

-- `AUDIT_HASH_DOMAIN` and `PARTITION_FILE_DOMAIN`
abbrev pub audit_hash_domain : List ℕ
audit_hash_domain = utf8 "kiteframe:audit:v1" ++ 0 ∷ []

abbrev pub partition_file_domain : List ℕ
partition_file_domain = utf8 "kiteframe:audit-partition:v1" ++ 0 ∷ []

abbrev pub extend_first : ℕ → List (List ℕ) → List (List ℕ)
extend_first byte [] = (byte ∷ []) ∷ []
extend_first byte (line ∷ lines) = (byte ∷ line) ∷ lines

-- `BufRead::lines` before the end of a line is stripped: the bytes between line feeds.
unfoldable pub raw_lines : List ℕ → List (List ℕ)
raw_lines [] = []
raw_lines (byte ∷ bytes) =
    let rest = raw_lines bytes in if byte == 10 then [] ∷ rest else extend_first byte rest

-- `BufRead::lines` strips a carriage return in front of the line feed.
unfoldable pub strip_cr : List ℕ → List ℕ
strip_cr [] = []
strip_cr (byte ∷ []) = if byte == 13 then [] else byte ∷ []
strip_cr (byte ∷ next ∷ bytes) = byte ∷ strip_cr (next ∷ bytes)

-- The guard on the last byte of a file that is not empty.
unfoldable pub has_incomplete_tail : List ℕ → Bool
has_incomplete_tail [] = false
has_incomplete_tail (byte ∷ []) = not (byte == 10)
has_incomplete_tail (byte ∷ next ∷ bytes) = has_incomplete_tail (next ∷ bytes)

-- `checked_add(1)` of a `u64`.
unfoldable pub next_sequence : ℕ → Result Diagnostic ℕ
next_sequence n =
    if ltb n u64_max then ok (suc n) else err (unavailable "audit partition sequence exhausted")

-- The bytes of a file, none if it is missing.
abbrev pub contents : Option (List ℕ) → List ℕ
contents (some bytes) = bytes
contents none = []

-- What `Path::exists` sees of a file: nothing if the file's status cannot be read.
abbrev pub visible : Bool → Option (List ℕ) → Option (List ℕ)
visible true file = file
visible false file = none

-- A file with new bytes.
unfoldable pub write_file : String → List ℕ → Files → Files
unfolding String-discrete
write_file path bytes files name = if name == path then some bytes else files name

abbrev pub take {ℓ} : {A : Type ℓ} → ℕ → List A → List A
take zero xs = []
take (suc n) [] = []
take (suc n) (x ∷ xs) = x ∷ take n xs

-- How much of the bytes to be written is in the file, and whether they are durable.
abbrev pub written : Writing → List ℕ → List ℕ
written durable bytes = bytes
written unsynced bytes = bytes
written (torn n) bytes = take n bytes

abbrev pub write_result : Writing → Result Diagnostic (Unit {0})
write_result durable = ok tt
write_result unsynced = err (unavailable "audit ledger entry cannot be made durable")
write_result (torn n) = err (unavailable "audit ledger entry cannot be flushed")

pub required-eq_ok :
    {A : Type 0} (message : String) (o : Option A) {a : A} → required message o ≡ ok a → o ≡ some a
required-eq_ok message none h = absurd (err≢ok h)
required-eq_ok message (some a) h = ap some (ok-injective h)
