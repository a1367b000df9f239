-- ===== src/Contract/Refs.antt =====
-- The references, digests and time stamps of crates/kiteframe-contract (service.rs, digest.rs). A
-- newtype over `String` is a synonym here: its constructor is the only thing that checks it.
use kiteframe.Base.{
  ℕ, zero, suc, String, Option, List, [], ◌∷◌, Result, ok, err, is_blank, if◌then◌else◌,
}

abbrev pub ActorRef : Type 0
ActorRef = String

abbrev pub AgentRef : Type 0
AgentRef = String

abbrev pub TaskRef : Type 0
TaskRef = String

abbrev pub SessionRef : Type 0
SessionRef = String

abbrev pub AdmissionId : Type 0
AdmissionId = String

abbrev pub InvocationId : Type 0
InvocationId = String

abbrev pub IdempotencyKey : Type 0
IdempotencyKey = String

abbrev pub NormalizedResourceSelector : Type 0
NormalizedResourceSelector = String

abbrev pub ProtectedEvidenceRequestRef : Type 0
ProtectedEvidenceRequestRef = String

-- The opaque references by their kinds, a map.
abbrev pub EvidenceReferences : Type 0
EvidenceReferences = List (String × String)

-- `new` of the macro `string_ref!`, with the macro's message as its first argument.
unfoldable pub string_ref : String → String → Result String String
string_ref message value = if is_blank value then err message else ok value

-- Seconds since the epoch, a `u64`.
abbrev pub Timestamp : Type 0
Timestamp = ℕ

-- `Sha256Digest`: its bytes.
abbrev pub Sha256Digest : Type 0
Sha256Digest = List ℕ

abbrev pub zero_bytes : ℕ → Sha256Digest
zero_bytes zero = []
zero_bytes (suc n) = 0 ∷ zero_bytes n

pub record TraceContext : Type 0 where
  pub traceparent : String
  pub tracestate : Option String
  pub baggage : List (String × String)

pub record StatusRequest : Type 0 where
  pub invocation_id : InvocationId
  pub trace_context : TraceContext
