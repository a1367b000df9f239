-- ===== src/Invocation/Examples.antt =====
-- The theorems about invocations at one invocation: reserved at 100 s, started at 110 s, and of
-- unknown outcome from 120 s on.
use kiteframe.Base.{
  inl, inr, ◌≡◌, ◌↔◌, refl, sym, ap, true, none, some, [], ◌∷◌, ok, err, arith, is_blank,
  String-discrete,
}
use kiteframe.Contract.Diagnostic.{never}
use kiteframe.Contract.Refs.{StatusRequest}
use kiteframe.Contract.Capability.{
  CapabilityIdentity, CapabilityIdentity-discrete, CapabilityDescriptor, immediate,
  reversible_write, IdempotencyRequirement, actor_capability_resource_operation,
  ConfirmationRequirement, ApprovalRequirement, ConsentRequirement,
}
use kiteframe.Invocation.State.{
  InvocationState-discrete, InvocationState, TransitionAuditRecord, InvocationTransition,
  transition_try_new, allowed_transition, audit_matches_transition, state_fences_idempotency_scope,
}
use kiteframe.Invocation.State.Diagram.{
  Arrow, IsNamed, transition_try_new_iff, allowed_transition_iff,
}
use kiteframe.Invocation.Parts.{
  InvocationAuditLinkKind, link_from_transition, InvocationStatusContext, AbandonmentAuthorization,
}
use kiteframe.Invocation.Stored.{
  key_from_invocation, same_scope, InvocationReservationInput, StoredInvocation,
  ReservationKey-discrete, try_reserve, input_validate, reserved_record, status_from_stored,
}
use kiteframe.Invocation.Store.{
  transition, apply_transition, modify, Entry, ReservationKind, get, purge, reserve_or_get,
  outcome_unknown_error, reservation_from_stored,
}
use kiteframe.Invocation.Store.Consistent.{IsConsistent}
use kiteframe.Invocation.Store.Steps.{Reach, here, next, reserving, transiting, Reach-IsConsistent}
use kiteframe.Invocation.Store.Idempotency.{
  BoundAnswer, requested_key, reserve_or_get_bound, reserve_or_get_fenced,
}
use kiteframe.Invocation.Store.Retries.{IsUnsettled, reserve_or_get_retry}
use kiteframe.Invocation.Store.Lifecycle.{settled_is_final, unsettled_survives}
use kiteframe.Invocation.Store.Writing.{Found}
use kiteframe.Invocation.Store.Methods.{
  TransitionEnd, AbandonEnd, StatusAnswer, transition_exact, abandon_exact, status_exact,
}

abbrev close_case : CapabilityIdentity
close_case = record { name = "case.close"; version = "1.0.0" }

abbrev descriptor : CapabilityDescriptor
descriptor = record {
  identity = close_case;
  summary = "Close a case";
  stable_errors = [];
  execution_modes = immediate ∷ [];
  effect = reversible_write;
  idempotency = IdempotencyRequirement.required actor_capability_resource_operation 60;
  freshness = record {
    max_admission_age_seconds = none;
    policy_revision_required = true;
    max_input_age_seconds = none;
  };
  preconditions = [];
  confirmation = ConfirmationRequirement.none;
  approval = ApprovalRequirement.none;
  consent = ConsentRequirement.none;
  descriptor_digest = 7 ∷ [];
}

abbrev context : InvocationStatusContext
context = record {
  tenant_ref = "tenant";
  human_ref = "human";
  workload_ref = "workload";
  run_ref = "run";
  actor_ref = "actor";
  agent_ref = "agent";
  task_ref = "task";
  session_ref = "session";
  admission_ref = "admission";
}

abbrev input : InvocationReservationInput
input = record {
  invocation_id = "invocation-1";
  status_id = "status-1";
  scope = record {
    actor = "actor";
    capability = close_case;
    normalized_resource = "case:1";
    semantic_operation = "case.close";
  };
  idempotency_key = "key-1";
  request_digest = 1 ∷ [];
  admission_id = "admission";
  grant_digest = 2 ∷ [];
  catalog_identity = record { name = "catalog"; revision = "r1" };
  catalog_digest = 3 ∷ [];
  authority_revision_digest = 4 ∷ [];
  status_context = context;
  proposal_digest = 5 ∷ [];
  protected_evidence_refs = "vault://e1" ∷ [];
}

-- The same scope under another key.
abbrev other_input : InvocationReservationInput
other_input = record input { invocation_id = "invocation-2"; idempotency_key = "key-2" }

abbrev stored : StoredInvocation
stored = reserved_record input descriptor 100 200

abbrev entry : Entry
entry = (requested_key input, stored)

abbrev start_record : TransitionAuditRecord
start_record = TransitionAuditRecord.authorization "record-1"

abbrev start_transition : InvocationTransition
start_transition = record {
  expected = InvocationState.reserved;
  next = InvocationState.pending;
  audit_record = start_record;
}

accepted : try_reserve input descriptor 100 200 ≡ ok stored
unfolding try_reserve input_validate String-discrete CapabilityIdentity-discrete
accepted = refl

accepted_later :
    try_reserve input descriptor 150 300 ≡ ok (reserved_record input descriptor 150 300)
unfolding try_reserve input_validate String-discrete CapabilityIdentity-discrete
accepted_later = refl

accepted_other :
    try_reserve other_input descriptor 150 300 ≡ ok (reserved_record other_input descriptor 150 300)
unfolding try_reserve input_validate String-discrete CapabilityIdentity-discrete
accepted_other = refl

built :
    transition_try_new InvocationState.reserved InvocationState.pending start_record
    ≡ ok start_transition
unfolding transition_try_new is_blank allowed_transition audit_matches_transition
built = refl

first_reservation : reserve_or_get 100 input descriptor 200 [] ≡ (
  entry ∷ [],
  ok (record { kind = ReservationKind.reserved; status = status_from_stored stored }),
)
unfolding reserve_or_get reservation_from_stored try_reserve input_validate String-discrete
    CapabilityIdentity-discrete key_from_invocation
first_reservation = refl

allowed_transition_iff_example :
    (allowed_transition InvocationState.pending InvocationState.outcome_unknown ≡ true) ↔ (
      (a : TransitionAuditRecord) × Arrow InvocationState.pending InvocationState.outcome_unknown a)
allowed_transition_iff_example =
    allowed_transition_iff InvocationState.pending InvocationState.outcome_unknown

transition_try_new_iff_example :
    (transition_try_new InvocationState.reserved InvocationState.pending start_record
      ≡ ok start_transition)
    ↔ ((start_transition ≡ start_transition)
        × IsNamed start_record
        × Arrow InvocationState.reserved InvocationState.pending start_record)
transition_try_new_iff_example =
    transition_try_new_iff InvocationState.reserved InvocationState.pending start_record
      start_transition

first-Reach : Reach [] (entry ∷ [])
first-Reach =
    next here
      (reserving 100 input descriptor 200 (omega arith) (sym (ap (λ p. p.0) first_reservation)))

Reach-IsConsistent_example : IsConsistent (entry ∷ [])
Reach-IsConsistent_example = Reach-IsConsistent first-Reach

-- The reservation has become a pending invocation by the time of the retry, which comes after the
-- end of the retention.
abbrev pending_entry : Entry
pending_entry = (
  requested_key input,
  record stored {
    audit_links =
        record {
          kind = InvocationAuditLinkKind.authorization;
          record_id = "record-1";
          attached_at = 110;
        }
        ∷ [];
    state = InvocationState.pending;
    updated_at = 110;
  },
)

accepted_late : try_reserve input descriptor 250 400 ≡ ok (reserved_record input descriptor 250 400)
unfolding try_reserve input_validate String-discrete CapabilityIdentity-discrete
accepted_late = refl

started : pending_entry ∷ [] ≡ (transition 110 "invocation-1" start_transition (entry ∷ [])).0
unfolding transition modify apply_transition String-discrete reserved_record
    InvocationState-discrete link_from_transition is_blank
started = refl

pending_late : IsUnsettled (requested_key input) (pending_entry ∷ [])
unfolding state_fences_idempotency_scope
pending_late = (pending_entry.1, ground arith, refl)

reserve_or_get_retry_example :
    (bound : StoredInvocation) × (get (requested_key input) (pending_entry ∷ []) ≡ some bound)
    × (bound.invocation_id ≡ "invocation-1")
    × (reserve_or_get 250 input descriptor 400 (pending_entry ∷ []) ≡ (
      purge 250 (pending_entry ∷ []),
      ok (record { kind = ReservationKind.existing; status = status_from_stored bound }),
    ))
unfolding status_from_stored reserved_record
reserve_or_get_retry_example =
    reserve_or_get_retry 100 250 input descriptor 200 400 []
      (record { kind = ReservationKind.reserved; status = status_from_stored stored }) accepted
      accepted_late first_reservation refl
      (next here (
        transiting 110 "invocation-1" InvocationState.reserved InvocationState.pending start_record
          start_transition (omega arith) built started))
      (tt, inl tt) (inr pending_late)

bound_here : get (requested_key input) (entry ∷ []) ≡ some stored
bound_here = ground arith

reserve_or_get_bound_example : BoundAnswer 150 input descriptor 300 stored (entry ∷ [])
unfolding reserved_record
reserve_or_get_bound_example =
    reserve_or_get_bound 150 input descriptor 300 stored (entry ∷ []) accepted_later bound_here refl

reserve_or_get_fenced_example :
    reserve_or_get 150 other_input descriptor 300 (entry ∷ [])
    ≡ (purge 150 (entry ∷ []), err outcome_unknown_error)
unfolding purge state_fences_idempotency_scope ReservationKey-discrete String-discrete same_scope
    reserved_record
reserve_or_get_fenced_example =
    reserve_or_get_fenced 150 other_input descriptor 300 (entry ∷ []) accepted_other refl refl

here-Found : Found "invocation-1" entry (entry ∷ [])
unfolding String-discrete reserved_record
here-Found = refl

transition_exact_example :
    TransitionEnd 110 "invocation-1" InvocationState.reserved InvocationState.pending start_record
      start_transition entry
      (entry ∷ [])
transition_exact_example =
    transition_exact 110 "invocation-1" InvocationState.reserved InvocationState.pending
      start_record start_transition entry (entry ∷ []) built here-Found

abbrev operator : AbandonmentAuthorization
operator = record { authorization_record_id = "a"; authorized_by = "operator" }

abandon_exact_example : AbandonEnd "invocation-1" context operator entry (entry ∷ [])
abandon_exact_example = abandon_exact "invocation-1" context operator entry (entry ∷ []) here-Found

abbrev request : StatusRequest
request = record {
  invocation_id = "invocation-1";
  trace_context = record { traceparent = "t"; tracestate = none; baggage = [] };
}

status_exact_example : StatusAnswer request context (entry ∷ [])
status_exact_example = status_exact request context (entry ∷ [])

-- A settled record: the invocation was denied at 110 s.
abbrev settled : StoredInvocation
settled = record stored {
  state = InvocationState.denied (record {
    code = "KF";
    category = "authorization";
    retry = never;
    message = "invocation was denied";
  });
  updated_at = 110;
}

settled_is_final_example :
    get
      (requested_key input)
      (reserve_or_get 150 other_input descriptor 300 ((requested_key input, settled) ∷ [])).0
    ≡ some settled
unfolding state_fences_idempotency_scope reserved_record ReservationKey-discrete String-discrete
settled_is_final_example =
    settled_is_final (requested_key input) settled
      (reserving 150 other_input descriptor 300 (omega arith) refl) (omega arith) (ground arith)
      refl

unsettled_survives_example :
    (s' : StoredInvocation) × (get
        (requested_key input)
        (reserve_or_get 900 other_input descriptor 990 (entry ∷ [])).0
      ≡ some s')
    × (s'.invocation_id ≡ "invocation-1")
unfolding state_fences_idempotency_scope reserved_record
unsettled_survives_example =
    unsettled_survives (requested_key input) stored
      (reserving 900 other_input descriptor 990 (omega arith) refl) bound_here refl
