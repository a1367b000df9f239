-- ===== src/Invocation/Store/Retries.antt =====
-- A request that is repeated after other calls of the store (`reserve_or_get` of status.rs).
use kiteframe.Base.{
  some_injective, ◌≡◌, ◌<◌, refl, sym, ap, ◌∙◌, true, some, ok, ◌⊎◌, inl, inr, arith, subst,
}
use kiteframe.Contract.Refs.{Timestamp}
use kiteframe.Contract.Capability.{CapabilityDescriptor}
use kiteframe.Invocation.State.{state_fences_idempotency_scope}
use kiteframe.Invocation.Stored.{
  InvocationReservationInput, StoredInvocation, ReservationKey, try_reserve, reserved_record,
  status_from_stored,
}
use kiteframe.Invocation.Store.{
  Records, get, is_retained, purge, ReservationKind, InvocationReservation, reserve_or_get,
}
use kiteframe.Invocation.Store.Steps.{try_reserve_inv, Reach, here, next}
use kiteframe.Invocation.Store.Idempotency.{
  requested_key, accepted_fields, bound_answer, answer_same, reserve_or_get-stores,
}
use kiteframe.Invocation.Store.Lifecycle.{IsBefore, IsSameInvocation, Step-Evolves}

-- The key is bound to an unsettled record.
abbrev pub IsUnsettled : ReservationKey → Records → Type 0
IsUnsettled key records =
    (bound : StoredInvocation) × (get key records ≡ some bound)
    × (state_fences_idempotency_scope bound.state ≡ true)

-- Every reservation among the calls is made before the end of a retention, or while the key is
-- bound to an unsettled record.
abbrev pub IsKept :
    ReservationKey → Timestamp → {records records' : Records} → Reach records records' → Type 0
IsKept key deadline here = Unit
IsKept key deadline (next {r} before step) =
    IsKept key deadline before × (IsBefore deadline step ⊎ IsUnsettled key r)

-- The key is bound to a record of the same invocation.
abbrev IsBound : ReservationKey → StoredInvocation → Records → Type 0
IsBound key s records =
    (bound : StoredInvocation) × (get key records ≡ some bound) × IsSameInvocation s bound

Reach-IsBound :
    (key : ReservationKey) (s : StoredInvocation) {records records' : Records}
    (calls : Reach records records')
    → IsKept key s.retention_until calls
    → get key records ≡ some s
    → IsBound key s records'
Reach-IsBound key s here kept g = (
  s,
  g,
  record { same_id = refl; same_context = refl; same_digest = refl; same_retention = refl },
)
Reach-IsBound key s (next {r} before step) kept g =
    let (bound, at, same) = Reach-IsBound key s before kept.0 g in
    let evolved =
      Step-Evolves key bound step
        (elim kept.1 [
          | inl early ↦ inl (subst (λ t. IsBefore t step) (sym same.same_retention) early)
          | inr (other, there, fence) ↦ inr (
              subst (λ x. state_fences_idempotency_scope x.state ≡ true)
                (some_injective (sym there ∙ at)) fence)
        ])
        at in
    elim evolved [
      | inl unchanged ↦ (bound, unchanged, same)
      | inr (moved, new, _, again) ↦ (
        moved,
        new,
        record {
          same_id = again.same_id ∙ same.same_id;
          same_context = again.same_context ∙ same.same_context;
          same_digest = again.same_digest ∙ same.same_digest;
          same_retention = again.same_retention ∙ same.same_retention;
        },
      )
    ]

kept_now :
    (key : ReservationKey) (later : Timestamp) (s bound : StoredInvocation) (records : Records)
    → get key records ≡ some bound
    → bound.retention_until ≡ s.retention_until
    → (later < s.retention_until) ⊎ IsUnsettled key records
    → is_retained later (key, bound) ≡ true
kept_now key later s bound records at same (inl early) = ground arith
kept_now key later s bound records at same (inr (other, there, fence)) =
    let found = some_injective (sym there ∙ at) in
    let fences = subst (λ x. state_fences_idempotency_scope x.state ≡ true) found fence in
    ground arith

retained_until :
    (now : Timestamp) (input : InvocationReservationInput) (descriptor : CapabilityDescriptor)
    (until : Timestamp) {s : StoredInvocation}
    → try_reserve input descriptor now until ≡ ok s
    → until ≡ s.retention_until
unfolding reserved_record
retained_until now input descriptor until accepted =
    ap (λ x. x.retention_until) (sym (try_reserve_inv input descriptor now until accepted).0)

-- A request that made a reservation and is repeated, both times as `try_reserve` accepts it, finds
-- its own first reservation, whatever calls of the store come between: it is given the status of a
-- record of the same invocation, to which its key is bound, and no second record is made, if every
-- reservation between them, and the repeated one, is made before the retention of the first ends,
-- or while its key is bound to an unsettled record.
pub reserve_or_get_retry :
    (now later : Timestamp) (input : InvocationReservationInput) (descriptor : CapabilityDescriptor)
    (until until' : Timestamp) {s s' : StoredInvocation} (records : Records)
    {records' records'' : Records} (r : InvocationReservation)
    → try_reserve input descriptor now until ≡ ok s
    → try_reserve input descriptor later until' ≡ ok s'
    → reserve_or_get now input descriptor until records ≡ (records', ok r)
    → r.kind ≡ ReservationKind.reserved
    → (calls : Reach records' records'') → IsKept (requested_key input) until calls
    → (later < until) ⊎ IsUnsettled (requested_key input) records''
    → (bound : StoredInvocation) × (get (requested_key input) records'' ≡ some bound)
      × (bound.invocation_id ≡ r.status.invocation_id)
      × (reserve_or_get later input descriptor until' records'' ≡ (
        purge later records'',
        ok (record { kind = ReservationKind.existing; status = status_from_stored bound }),
      ))
unfolding status_from_stored
reserve_or_get_retry now later input descriptor until until' {s} {s'} records {records'} {records''}
      r first second h k calls kept kept_last =
    let key = requested_key input in
    let (there, status) =
      reserve_or_get-stores now input descriptor until records records' r first h k in
    let retention : until ≡ s.retention_until = retained_until now input descriptor until first in
    let (bound, at, same) =
      Reach-IsBound key s calls (subst (λ t. IsKept key t calls) retention kept) there in
    let retained =
      kept_now key later s bound records'' at same.same_retention
        (subst (λ t. (later < t) ⊎ IsUnsettled key records'') retention kept_last) in
    let (_, context, digest, _, _) = accepted_fields now input descriptor until first in
    let (_, context', digest', _, _) = accepted_fields later input descriptor until' second in
    (
      bound,
      at,
      same.same_id ∙ sym (ap (λ x. x.invocation_id) status),
      bound_answer later input descriptor until' bound records'' second at retained
          ∙ ap (λ a. (purge later records'', a))
              (answer_same bound s' (same.same_context ∙ context ∙ sym context')
                (same.same_digest ∙ digest ∙ sym digest')),
    )
