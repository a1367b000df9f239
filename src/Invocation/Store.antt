-- ===== src/Invocation/Store.antt =====
-- `InMemoryInvocationStore` of status.rs. The map of records is an association list: the methods
-- never depend on its order, since keys and invocation IDs are unique. Each method runs under one
-- lock, so it is one step on the list; the time that it reads from the clock before it takes the
-- lock is an argument, and no order of those times is assumed.
pub mod Consistent
pub mod Writing
pub mod Arrows
pub mod Steps
pub mod Keys
pub mod Idempotency
pub mod Lifecycle
pub mod Retries
pub mod Methods
use kiteframe.Base.{
  ◌+◌, Bool, not, ◌&&◌, ◌||◌, Option, none, some, List, [], ◌∷◌, ◌++◌, Result, ok, err, ◌>>=◌, ◌>>◌,
  refuse_if, any, find, retain, ltb, u64_max, if◌then◌else◌, ◌==◌, string_eq, bytes_eq,
}
use kiteframe.Contract.Diagnostic.{
  Diagnostic, diagnostic_error, diagnostic_outcome_unknown, invocation_denied, DiagnosticCategory,
  DiagnosticStage,
}
use kiteframe.Contract.Refs.{InvocationId, Timestamp, StatusRequest}
use kiteframe.Contract.Capability.{CapabilityDescriptor}
use kiteframe.Invocation.State.{
  outcome_unknown, abandoned, invocation_state_eq, InvocationTransition, invalid,
  state_fences_idempotency_scope,
}
use kiteframe.Invocation.Parts.{
  InvocationStatusContext, context_eq, InvocationAuditLink, link_kind_eq, AbandonmentAuthorization,
  link_from_transition,
}
use kiteframe.Invocation.Stored.{
  InvocationReservationInput, StoredInvocation, try_reserve, InvocationStatus, status_from_stored,
  ReservationKey, reservation_key_eq, key_from_invocation, same_scope,
}

abbrev pub Entry : Type 0
Entry = ReservationKey × StoredInvocation

abbrev pub Records : Type 0
Records = List Entry

unfoldable pub unauthorized : Diagnostic
unauthorized =
    diagnostic_error invocation_denied DiagnosticCategory.authorization DiagnosticStage.invoke
      "authenticated status context does not match the invocation"

unfoldable pub not_found : Diagnostic
not_found =
    diagnostic_error invocation_denied DiagnosticCategory.authorization DiagnosticStage.invoke
      "invocation status is unavailable"

-- `outcome_unknown` of status.rs
unfoldable pub outcome_unknown_error : Diagnostic
outcome_unknown_error =
    diagnostic_outcome_unknown
      "a prior invocation in this idempotency scope has an unknown outcome; query status first"

-- `BTreeMap::get` and `BTreeMap::insert`
abbrev pub get : ReservationKey → Records → Option StoredInvocation
get key [] = none
get key ((k, stored) ∷ records) = if k == key then some stored else get key records

abbrev pub insert : ReservationKey → StoredInvocation → Records → Records
insert key stored [] = (key, stored) ∷ []
insert key stored ((k, s) ∷ records) =
    if k == key then (k, stored) ∷ records else (k, s) ∷ insert key stored records

abbrev pub has_id : InvocationId → Entry → Bool
has_id id (key, stored) = stored.invocation_id == id

-- A write through the reference that `values_mut().find(…)` returns.
abbrev pub write : InvocationId → StoredInvocation → Records → Records
write id stored [] = []
write id stored ((k, s) ∷ records) =
    if s.invocation_id == id then (k, stored) ∷ records else (k, s) ∷ write id stored records

-- The test of `retain` in `reserve_or_get`.
abbrev pub is_retained : Timestamp → Entry → Bool
is_retained now (key, stored) =
    ltb now stored.retention_until || state_fences_idempotency_scope stored.state

unfoldable pub purge : Timestamp → Records → Records
purge now records = retain (is_retained now) records

abbrev pub fences_scope : ReservationKey → Entry → Bool
fences_scope key (existing_key, stored) =
    same_scope existing_key key && state_fences_idempotency_scope stored.state

pub data ReservationKind : Type 0 where
  reserved existing : ReservationKind

pub record InvocationReservation : Type 0 where
  pub kind : ReservationKind
  pub status : InvocationStatus

-- `InvocationReservation::from_stored`
unfoldable pub reservation_from_stored : ReservationKind → StoredInvocation → InvocationReservation
reservation_from_stored kind stored = record { kind = kind; status = status_from_stored stored }

-- The answer of `reserve_or_get` where the key is bound already.
unfoldable pub answer_existing :
    StoredInvocation → StoredInvocation → Result Diagnostic InvocationReservation
answer_existing bound invocation = do
  refuse_if (not (bound.status_context == invocation.status_context)) unauthorized
  refuse_if (not (bound.request_digest == invocation.request_digest))
      (invalid "idempotency key is already bound to a different request")
  ok (reservation_from_stored ReservationKind.existing bound)

-- The part of `reserve_or_get` behind the call of `retain`.
unfoldable pub reserve :
    StoredInvocation → Records → Records × Result Diagnostic InvocationReservation
unfolding answer_existing
reserve invocation records =
    let key = key_from_invocation invocation in
    elim (get key records) [
      | some bound ↦ (records, answer_existing bound invocation)
      | none ↦
          if any (fences_scope key) records
          then (records, err outcome_unknown_error)
          else if any (has_id invocation.invocation_id) records
          then (records, err (invalid "invocation ID is already reserved"))
          else (
            insert key invocation records,
            ok (reservation_from_stored ReservationKind.reserved invocation),
          )
    ]

unfoldable pub reserve_or_get :
    Timestamp
    → InvocationReservationInput
    → CapabilityDescriptor
    → Timestamp
    → Records
    → Records × Result Diagnostic InvocationReservation
unfolding purge reserve
reserve_or_get now input descriptor retention_until records =
    elim (try_reserve input descriptor now retention_until) [
      | err diagnostic ↦ (records, err diagnostic)
      | ok invocation ↦ reserve invocation (purge now records)
    ]

abbrev pub is_linked : InvocationAuditLink → InvocationAuditLink → Bool
is_linked link other = other.kind == link.kind && other.record_id == link.record_id

abbrev pub attach :
    Option InvocationAuditLink
    → List InvocationAuditLink
    → Result Diagnostic (List InvocationAuditLink)
attach none links = ok links
attach (some link) links = do
  refuse_if (any (is_linked link) links)
      (invalid "audit record is already linked to this invocation")
  ok (links ++ link ∷ [])

-- What `transition` does to the record that it finds.
unfoldable pub apply_transition :
    Timestamp → InvocationTransition → StoredInvocation → Result Diagnostic StoredInvocation
apply_transition now transition stored = do
  refuse_if (not (stored.state == transition.expected))
      (invalid "invocation state compare-and-swap failed")
  refuse_if (ltb now stored.updated_at) (invalid "trusted invocation-store clock moved backwards")
  link ← link_from_transition transition.audit_record now
  links ← attach link stored.audit_links
  ok (record stored { audit_links = links; state = transition.next; updated_at = now })

-- What `abandon` does to the record that it finds.
unfoldable pub apply_abandon :
    InvocationStatusContext
    → AbandonmentAuthorization
    → StoredInvocation
    → Result Diagnostic StoredInvocation
apply_abandon context authorization stored = do
  refuse_if (not (stored.status_context == context)) unauthorized
  refuse_if (not (stored.state == outcome_unknown))
      (invalid "only an outcome-unknown invocation can be abandoned")
  ok (record stored {
    abandonment = some authorization;
    state = abandoned;
    updated_at = if ltb stored.updated_at u64_max then stored.updated_at + 1 else u64_max;
  })

-- Nothing is written on an error.
abbrev pub commit :
    InvocationId
    → Records
    → Result Diagnostic StoredInvocation
    → Records × Result Diagnostic (Unit {0})
commit id records (err diagnostic) = (records, err diagnostic)
commit id records (ok stored) = (write id stored records, ok tt)

-- Find a record by its invocation ID and change it, as `transition` and `abandon` do.
unfoldable pub modify :
    InvocationId
    → (StoredInvocation → Result Diagnostic StoredInvocation)
    → Records
    → Records × Result Diagnostic (Unit {0})
modify id change records = elim (find (has_id id) records) [
  | none ↦ (records, err not_found)
  | some (key, stored) ↦ commit id records (change stored)
]

unfoldable pub transition :
    Timestamp
    → InvocationId
    → InvocationTransition
    → Records
    → Records × Result Diagnostic (Unit {0})
unfolding modify apply_transition
transition now id t = modify id (apply_transition now t)

unfoldable pub abandon :
    InvocationId
    → InvocationStatusContext
    → AbandonmentAuthorization
    → Records
    → Records × Result Diagnostic (Unit {0})
unfolding modify apply_abandon
abandon id context authorization = modify id (apply_abandon context authorization)

unfoldable pub status :
    StatusRequest → InvocationStatusContext → Records → Result Diagnostic InvocationStatus
status request context records = elim (find (has_id request.invocation_id) records) [
  | none ↦ err not_found
  | some (key, stored) ↦
      if stored.status_context == context then ok (status_from_stored stored) else err unauthorized
]
