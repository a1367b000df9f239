-- ===== src/Invocation/Store/Methods.antt =====
-- The exact effect of `transition`, `abandon` and `status` on the record that they find.
use mathlib.Core.Path.{subst}
use kiteframe.Base.{
  ◌+◌, ◌≡◌, ◌≢◌, ◌≤◌, refl, sym, ap, ◌∙◌, none, some, arith, Result, ok, err, inl, inr, ◌⊎◌, ltb,
  u64_max, if◌then◌else◌, find, Option-cases,
}
use kiteframe.Contract.Diagnostic.{Diagnostic}
use kiteframe.Contract.Refs.{InvocationId, Timestamp, StatusRequest}
use kiteframe.Invocation.State.{
  InvocationState, InvocationState-discrete, outcome_unknown, abandoned, TransitionAuditRecord,
  InvocationTransition, transition_try_new, invalid,
}
use kiteframe.Invocation.State.Diagram.{IsNamed, transition_try_new_iff}
use kiteframe.Invocation.Parts.{
  InvocationStatusContext, InvocationStatusContext-discrete, AbandonmentAuthorization,
  link_from_transition,
}
use kiteframe.Invocation.Stored.{StoredInvocation, status_from_stored}
use kiteframe.Invocation.Store.{
  Entry, Records, write, modify, commit, apply_transition, apply_abandon, transition, abandon,
  status, has_id, unauthorized, not_found,
}
use kiteframe.Invocation.Store.Arrows.{IsFresh, moved, apply_transition_inv}
use kiteframe.Invocation.Store.Writing.{Found}

modify-Found :
    (id : InvocationId) (change : StoredInvocation → Result Diagnostic StoredInvocation) (e : Entry)
    (records : Records)
    → Found id e records
    → modify id change records ≡ commit id records (change e.1)
unfolding modify
modify-Found id change e records f = rw (f, modify)

apply_transition_complete :
    (e n : InvocationState) (a : TransitionAuditRecord) (now : Timestamp) (s : StoredInvocation)
    → IsNamed a
    → s.state ≡ e
    → s.updated_at ≤ now
    → IsFresh s.audit_links now a
    → apply_transition now (record { expected = e; next = n; audit_record = a }) s
      ≡ ok (moved n a now s)
unfolding apply_transition link_from_transition
apply_transition_complete e n TransitionAuditRecord.none now s named at ordered fresh = ground arith
apply_transition_complete e n (TransitionAuditRecord.authorization r) now s named at ordered fresh =
    ground arith
apply_transition_complete e n (TransitionAuditRecord.outcome r) now s named at ordered fresh =
    ground arith

-- What a transition asks of the record that it finds: the expected state, a clock that has not gone
-- back, and an audit record that is not linked yet.
pub record IsDue (e : InvocationState) (a : TransitionAuditRecord) (now : Timestamp)
    (s : StoredInvocation) : Type 0 where
  pub at : s.state ≡ e
  pub ordered : s.updated_at ≤ now
  pub fresh : IsFresh s.audit_links now a

-- The two ends of a transition: it is due and written, or not due and refused.
abbrev pub TransitionEnd :
    Timestamp
    → InvocationId
    → InvocationState
    → InvocationState
    → TransitionAuditRecord
    → InvocationTransition
    → Entry
    → Records
    → Type 0
TransitionEnd now id e n a t x records =
    IsDue e a now x.1
      × (transition now id t records ≡ (write id (moved n a now x.1) records, ok tt))
    ⊎ (¬ IsDue e a now x.1) × ((d : Diagnostic) × (transition now id t records ≡ (records, err d)))

-- A transition compares and swaps. Either it is due, and the record that it found gets the next
-- state, the time and the new audit link, with no other field changed; or it is not due, no record
-- changes and the answer is an error.
pub transition_exact :
    (now : Timestamp) (id : InvocationId) (e n : InvocationState) (a : TransitionAuditRecord)
    (t : InvocationTransition) (x : Entry) (records : Records)
    → transition_try_new e n a ≡ ok t
    → Found id x records
    → TransitionEnd now id e n a t x records
unfolding transition
transition_exact now id e n a t x records built f = split (apply_transition now t x.1) refl
  where
    same : t ≡ record { expected = e; next = n; audit_record = a }
    same = ((transition_try_new_iff e n a t).0 built).0

    found : transition now id t records ≡ commit id records (apply_transition now t x.1)
    found = modify-Found id (apply_transition now t) x records f

    applied : IsDue e a now x.1 → apply_transition now t x.1 ≡ ok (moved n a now x.1)
    applied due =
        subst (λ u. apply_transition now u x.1 ≡ ok (moved n a now x.1)) (sym same)
          (apply_transition_complete e n a now x.1 ((transition_try_new_iff e n a t).0 built).1
            due.at due.ordered due.fresh)

    split :
        (r : Result Diagnostic StoredInvocation)
        → apply_transition now t x.1 ≡ r
        → TransitionEnd now id e n a t x records
    split (err d) p = inr (λ due. cc (applied due), (d, found ∙ ap (commit id records) p))
    split (ok s') p =
        let (_, at, ordered, fresh) =
          apply_transition_inv e n a now x.1 s'
            (subst (λ u. apply_transition now u x.1 ≡ ok s') same p) in
        let due : IsDue e a now x.1 = record { at = at; ordered = ordered; fresh = fresh } in
        inl (due, found ∙ ap (commit id records) (applied due))

-- The record behind an abandonment, one second later as far as a `u64` goes.
abbrev pub given_up : AbandonmentAuthorization → StoredInvocation → StoredInvocation
given_up authorization s = record s {
  abandonment = some authorization;
  state = abandoned;
  updated_at = if ltb s.updated_at u64_max then s.updated_at + 1 else u64_max;
}

module _ (context : InvocationStatusContext) (authorization : AbandonmentAuthorization)
    (s : StoredInvocation) where
  abandon_other_context :
      s.status_context ≢ context → apply_abandon context authorization s ≡ err unauthorized
  unfolding apply_abandon
  abandon_other_context h = ground arith

  abandon_other_state :
      s.status_context ≡ context
      → s.state ≢ outcome_unknown
      → apply_abandon context authorization s
        ≡ err (invalid "only an outcome-unknown invocation can be abandoned")
  unfolding apply_abandon
  abandon_other_state h k = ground arith

  abandon_given_up :
      s.status_context ≡ context
      → s.state ≡ outcome_unknown
      → apply_abandon context authorization s ≡ ok (given_up authorization s)
  unfolding apply_abandon
  abandon_given_up h k = ground arith

-- The three ends of an abandonment.
abbrev pub AbandonEnd :
    InvocationId → InvocationStatusContext → AbandonmentAuthorization → Entry → Records → Type 0
AbandonEnd id context authorization x records =
    (x.1.status_context ≢ context)
      × (abandon id context authorization records ≡ (records, err unauthorized))
    ⊎ (x.1.status_context ≡ context)
      × (x.1.state ≢ outcome_unknown)
      × (abandon id context authorization records
          ≡ (records, err (invalid "only an outcome-unknown invocation can be abandoned")))
    ⊎ (x.1.status_context ≡ context)
      × (x.1.state ≡ outcome_unknown)
      × (abandon id context authorization records
          ≡ (write id (given_up authorization x.1) records, ok tt))

-- An abandonment of a record that the search by ID finds has three ends: another context is
-- refused as unauthorized; a record whose outcome is not unknown is refused as invalid; otherwise
-- the record becomes abandoned, with the authorization, one second later. Only then it is written.
pub abandon_exact :
    (id : InvocationId) (context : InvocationStatusContext)
    (authorization : AbandonmentAuthorization) (x : Entry) (records : Records)
    → Found id x records
    → AbandonEnd id context authorization x records
unfolding abandon
abandon_exact id context authorization x records f =
    rw (modify-Found id (apply_abandon context authorization) x records f)
      (elim (InvocationStatusContext-discrete x.1.status_context context) [
        | no c ↦ inl (c, ap (commit id records) (abandon_other_context context authorization x.1 c))
        | yes c ↦ elim (InvocationState-discrete x.1.state outcome_unknown) [
          | no k ↦ inr (
              inl
                (c, k, ap (commit id records) (abandon_other_state context authorization x.1 c k)))
          | yes k ↦
              inr (
                inr (c, k, ap (commit id records) (abandon_given_up context authorization x.1 c k)))
        ]
      ])

-- The three answers to a status request.
abbrev pub StatusAnswer : StatusRequest → InvocationStatusContext → Records → Type 0
StatusAnswer request context records =
    (status request context records ≡ err not_found)
      × (find (has_id request.invocation_id) records ≡ none)
    ⊎ ((x : Entry) × Found request.invocation_id x records
        × (x.1.status_context ≢ context)
        × (status request context records ≡ err unauthorized))
    ⊎ ((x : Entry) × Found request.invocation_id x records
        × (x.1.status_context ≡ context)
        × (status request context records ≡ ok (status_from_stored x.1)))

-- A client is shown the status of a record only with the context that the record was reserved
-- with; without a record, or with another context, it gets a denial.
pub status_exact :
    (request : StatusRequest) (context : InvocationStatusContext) (records : Records)
    → StatusAnswer request context records
unfolding status
status_exact request context records =
    elim (Option-cases (find (has_id request.invocation_id) records)) [
      | inl n ↦ inl (rw (n, status), n)
      | inr (x, f) ↦ elim (InvocationStatusContext-discrete x.1.status_context context) [
        | no c ↦ inr (inl (x, f, c, rw (f, status) (ground arith)))
        | yes c ↦ inr (inr (x, f, c, rw (f, status) (ground arith)))
      ]
    ]
