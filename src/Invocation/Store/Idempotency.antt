-- ===== src/Invocation/Store/Idempotency.antt =====
-- Requests whose key is bound, and idempotency scopes (`reserve_or_get` of status.rs).
use kiteframe.Base.{
  ◌≡◌, ◌≢◌, sym, ap, ◌∙◌, true, none, some, any, arith, Result, ok, err, inl, inr, ◌⊎◌,
  Bytes-discrete,
}
use kiteframe.Contract.Diagnostic.{Diagnostic}
use kiteframe.Contract.Refs.{Timestamp}
use kiteframe.Contract.Capability.{CapabilityDescriptor}
use kiteframe.Invocation.State.{state_fences_idempotency_scope, invalid}
use kiteframe.Invocation.Parts.{InvocationStatusContext-discrete}
use kiteframe.Invocation.Stored.{
  InvocationReservationInput, StoredInvocation, ReservationKey, reservation_key_eq, try_reserve,
  reserved_record, key_from_invocation, status_from_stored,
}
use kiteframe.Invocation.Store.{
  Records, get, insert, is_retained, purge, fences_scope, unauthorized, outcome_unknown_error,
  ReservationKind, InvocationReservation, answer_existing, reserve, reserve_or_get,
  reservation_from_stored,
}
use kiteframe.Invocation.Store.Keys.{get-purge, get-insert, fences-purge}
use kiteframe.Invocation.Store.Steps.{try_reserve_inv}

-- The key that a reservation asks for.
abbrev pub requested_key : InvocationReservationInput → ReservationKey
requested_key input = record {
  actor = input.scope.actor;
  capability_name = input.scope.capability.name;
  capability_version = input.scope.capability.version;
  normalized_resource = input.scope.normalized_resource;
  semantic_operation = input.scope.semantic_operation;
  idempotency_key = input.idempotency_key;
}

module _ (now : Timestamp) (input : InvocationReservationInput) (descriptor : CapabilityDescriptor)
    (until : Timestamp) {s : StoredInvocation}
    (accepted : try_reserve input descriptor now until ≡ ok s) where
  pub accepted_fields :
      (key_from_invocation s ≡ requested_key input)
      × (s.status_context ≡ input.status_context)
      × (s.request_digest ≡ input.request_digest)
      × (s.invocation_id ≡ input.invocation_id)
      × (state_fences_idempotency_scope s.state ≡ true)
  unfolding reserved_record key_from_invocation state_fences_idempotency_scope
  accepted_fields =
      let (same, _) = try_reserve_inv input descriptor now until accepted in
      (
        ap key_from_invocation same,
        ap (λ x. x.status_context) same,
        ap (λ x. x.request_digest) same,
        ap (λ x. x.invocation_id) same,
        ap (λ x. state_fences_idempotency_scope x.state) same,
      )

  after_retain :
      (records : Records)
      → reserve_or_get now input descriptor until records ≡ reserve s (purge now records)
  unfolding reserve_or_get
  after_retain records = rw (accepted, reserve_or_get)

answer_other_context :
    (bound s : StoredInvocation)
    → bound.status_context ≢ s.status_context
    → answer_existing bound s ≡ err unauthorized
unfolding answer_existing
answer_other_context bound s h = ground arith

answer_other_request :
    (bound s : StoredInvocation)
    → bound.status_context ≡ s.status_context
    → bound.request_digest ≢ s.request_digest
    → answer_existing bound s
      ≡ err (invalid "idempotency key is already bound to a different request")
unfolding answer_existing
answer_other_request bound s h d = ground arith

pub answer_same :
    (bound s : StoredInvocation)
    → bound.status_context ≡ s.status_context
    → bound.request_digest ≡ s.request_digest
    → answer_existing bound s
      ≡ ok (record { kind = ReservationKind.existing; status = status_from_stored bound })
unfolding answer_existing reservation_from_stored
answer_same bound s h d = ground arith

pub bound_answer :
    (now : Timestamp) (input : InvocationReservationInput) (descriptor : CapabilityDescriptor)
    (until : Timestamp) {s : StoredInvocation} (bound : StoredInvocation) (records : Records)
    → try_reserve input descriptor now until ≡ ok s
    → get (requested_key input) records ≡ some bound
    → is_retained now (requested_key input, bound) ≡ true
    → reserve_or_get now input descriptor until records
      ≡ (purge now records, answer_existing bound s)
bound_answer now input descriptor until {s} bound records accepted g kept =
    after_retain now input descriptor until accepted records
    ∙ go (
        rw (accepted_fields now input descriptor until accepted).0
          (get-purge now (requested_key input) bound records kept g))
  where
    go :
        get (key_from_invocation s) (purge now records) ≡ some bound
        → reserve s (purge now records) ≡ (purge now records, answer_existing bound s)
    go h = unfold reserve in rw (h, reserve)

-- The three ends of a reservation whose key is bound: another context is refused as unauthorized;
-- the same context with another request is refused as invalid; the same context and request get
-- the status of that record. No record is added.
abbrev pub BoundAnswer :
    Timestamp
    → InvocationReservationInput
    → CapabilityDescriptor
    → Timestamp
    → StoredInvocation
    → Records
    → Type 0
BoundAnswer now input descriptor until bound records =
    (bound.status_context ≢ input.status_context)
      × (reserve_or_get now input descriptor until records ≡ (purge now records, err unauthorized))
    ⊎ (bound.status_context ≡ input.status_context)
      × (bound.request_digest ≢ input.request_digest)
      × (reserve_or_get now input descriptor until records ≡ (
        purge now records,
        err (invalid "idempotency key is already bound to a different request"),
      ))
    ⊎ (bound.status_context ≡ input.status_context)
      × (bound.request_digest ≡ input.request_digest)
      × (reserve_or_get now input descriptor until records ≡ (
        purge now records,
        ok (record { kind = ReservationKind.existing; status = status_from_stored bound }),
      ))

-- Where the key is bound to a retained record, an accepted reservation ends in one of three ways,
-- and adds no record: another context is refused as unauthorized; the same context with another
-- request is refused as invalid; the same context and request get the status of that record.
pub reserve_or_get_bound :
    (now : Timestamp) (input : InvocationReservationInput) (descriptor : CapabilityDescriptor)
    (until : Timestamp) {s : StoredInvocation} (bound : StoredInvocation) (records : Records)
    → try_reserve input descriptor now until ≡ ok s
    → get (requested_key input) records ≡ some bound
    → is_retained now (requested_key input, bound) ≡ true
    → BoundAnswer now input descriptor until bound records
reserve_or_get_bound now input descriptor until {s} bound records accepted g kept =
    let whole = bound_answer now input descriptor until bound records accepted g kept in
    let (_, context, digest, _, _) = accepted_fields now input descriptor until accepted in
    let answer = λ (a : Result Diagnostic InvocationReservation) (p : answer_existing bound s ≡ a).
      whole ∙ ap (λ b. (purge now records, b)) p in
    elim (InvocationStatusContext-discrete bound.status_context input.status_context) [
      | no c ↦ inl (c, answer _ (answer_other_context bound s (λ e. c (e ∙ context))))
      | yes c ↦ elim (Bytes-discrete bound.request_digest input.request_digest) [
        | no d ↦ inr (
            inl (
              c,
              d,
              answer _ (answer_other_request bound s (c ∙ sym context) (λ e. d (e ∙ digest))),
            ))
        | yes d ↦
            inr (inr (c, d, answer _ (answer_same bound s (c ∙ sym context) (d ∙ sym digest))))
      ]
    ]

bound_by_insert :
    (key : ReservationKey) (s : StoredInvocation) (records : Records)
    → get key (insert key s records) ≡ some s
bound_by_insert key s records = ground (arith, get-insert key key s records)

reserve_inv :
    (s : StoredInvocation) (records records' : Records) (r : InvocationReservation)
    → reserve s records ≡ (records', ok r)
    → r.kind ≡ ReservationKind.reserved
    → (records' ≡ insert (key_from_invocation s) s records) × (r.status ≡ status_from_stored s)
unfolding reserve reservation_from_stored
reserve_inv s records records' r h k = ground arith

-- A reservation that is given its own record has stored it, unsettled.
pub reserve_or_get-stores :
    (now : Timestamp) (input : InvocationReservationInput) (descriptor : CapabilityDescriptor)
    (until : Timestamp) {s : StoredInvocation} (records records' : Records)
    (r : InvocationReservation)
    → try_reserve input descriptor now until ≡ ok s
    → reserve_or_get now input descriptor until records ≡ (records', ok r)
    → r.kind ≡ ReservationKind.reserved
    → (get (requested_key input) records' ≡ some s) × (r.status ≡ status_from_stored s)
reserve_or_get-stores now input descriptor until {s} records records' r accepted h k =
    let (stored, same) =
      reserve_inv s (purge now records) records' r
        (sym (after_retain now input descriptor until accepted records) ∙ h) k in
    let key = (accepted_fields now input descriptor until accepted).0 in
    (rw stored (rw key (bound_by_insert (requested_key input) s (purge now records))), same)

-- While another record of the idempotency scope is unsettled, a reservation under a new key is
-- refused with the outcome-unknown diagnostic and makes no record.
pub reserve_or_get_fenced :
    (now : Timestamp) (input : InvocationReservationInput) (descriptor : CapabilityDescriptor)
    (until : Timestamp) {s : StoredInvocation} (records : Records)
    → try_reserve input descriptor now until ≡ ok s
    → get (requested_key input) (purge now records) ≡ none
    → any (fences_scope (requested_key input)) records ≡ true
    → reserve_or_get now input descriptor until records
      ≡ (purge now records, err outcome_unknown_error)
reserve_or_get_fenced now input descriptor until {s} records accepted g f =
    let key = (accepted_fields now input descriptor until accepted).0 in
    after_retain now input descriptor until accepted records
    ∙ refused (rw key g) (rw key (fences-purge now (requested_key input) records ∙ f))
  where
    refused :
        get (key_from_invocation s) (purge now records) ≡ none
        → any (fences_scope (key_from_invocation s)) (purge now records) ≡ true
        → reserve s (purge now records) ≡ (purge now records, err outcome_unknown_error)
    refused g f = unfold reserve in rw (g, f, reserve)
