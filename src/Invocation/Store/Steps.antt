-- ===== src/Invocation/Store/Steps.antt =====
-- The calls of the store's methods (status.rs) as steps, and the stores that clients can reach.
use mathlib.Core.Path.{subst}
use mathlib.Core.Bool.{false≢true}
use kiteframe.Base.{
  String, ◌≡◌, ◌≤◌, refl, sym, some, [], ◌∷◌, Result, ok, err, any, arith, Bool-cases, Option-cases,
  inl, inr, u64_max, ltb, ◌+◌, if◌then◌else◌,
}
use kiteframe.Base.Laws.{All-append, Pairwise-append_one}
use kiteframe.Contract.Diagnostic.{Diagnostic}
use kiteframe.Contract.Refs.{InvocationId, Timestamp}
use kiteframe.Contract.Capability.{CapabilityDescriptor}
use kiteframe.Invocation.State.{
  InvocationState, TransitionAuditRecord, InvocationTransition, transition_try_new, outcome_unknown,
  abandoned, state_fences_idempotency_scope,
}
use kiteframe.Invocation.State.Diagram.{transition_try_new_iff}
use kiteframe.Invocation.Parts.{
  InvocationStatusContext, AbandonmentAuthorization, abandonment_try_new,
}
use kiteframe.Invocation.Stored.{
  InvocationReservationInput, StoredInvocation, ReservationKey, try_reserve, reserved_record,
  key_from_invocation,
}
use kiteframe.Invocation.Store.{
  Records, get, has_id, fences_scope, purge, reserve, reserve_or_get, apply_transition,
  apply_abandon, transition, abandon,
}
use kiteframe.Invocation.Store.Consistent.{IsWellFormed, IsApart, IsConsistent}
use kiteframe.Invocation.Store.Arrows.{apply_transition_inv, moved-IsWellFormed, moved-Replaces}
use kiteframe.Invocation.Store.Writing.{
  Replaces, modify-IsConsistent, purge-IsConsistent, insert-append, reserve-IsApart,
}

-- A reservation that is accepted is stored as given, and is retained from its creation on.
pub try_reserve_inv :
    (input : InvocationReservationInput) (descriptor : CapabilityDescriptor) (now until : Timestamp)
    {s : StoredInvocation}
    → try_reserve input descriptor now until ≡ ok s
    → (s ≡ reserved_record input descriptor now until) × (now ≤ until)
unfolding try_reserve
try_reserve_inv input descriptor now until h = ground arith

reserved_record-IsWellFormed :
    (input : InvocationReservationInput) (descriptor : CapabilityDescriptor) (now until : Timestamp)
    → now ≤ until
    → now ≤ u64_max
    → let s = reserved_record input descriptor now until in IsWellFormed (key_from_invocation s, s)
unfolding reserved_record
reserved_record-IsWellFormed input descriptor now until h b = record {
  key_matches = refl;
  created_first = omega arith;
  bounded = b;
  retained = h;
  authorized = λ e. cc;
  concluded = λ e. cc;
  abandonment_recorded = refl;
  links_distinct = tt;
}

reserve-IsConsistent :
    (s : StoredInvocation) (records : Records)
    → IsWellFormed (key_from_invocation s, s)
    → IsConsistent records
    → IsConsistent (reserve s records).0
unfolding reserve
reserve-IsConsistent s records w h = elim (Option-cases (get key records)) [
  | inr (bound, g) ↦ rw (g, reserve) h
  | inl g ↦ elim (Bool-cases (any (fences_scope key) records)) [
    | inl f ↦ rw (g, f, reserve) h
    | inr f ↦ elim (Bool-cases (any (has_id s.invocation_id) records)) [
      | inl i ↦ rw (g, f, i, reserve) h
      | inr i ↦
          rw (g, f, i, reserve)
            (rw (insert-append key s records g) (record {
              well_formed = All-append IsWellFormed records ((key, s) ∷ []) h.well_formed (w, tt);
              apart =
                  Pairwise-append_one IsApart records (key, s) h.apart
                    (reserve-IsApart key s records g f i);
            }))
    ]
  ]
]
  where
    key : ReservationKey
    key = key_from_invocation s

pub reserve_or_get-IsConsistent :
    (now : Timestamp) (input : InvocationReservationInput) (descriptor : CapabilityDescriptor)
    (until : Timestamp) (records : Records)
    → now ≤ u64_max
    → IsConsistent records
    → IsConsistent (reserve_or_get now input descriptor until records).0
unfolding reserve_or_get
reserve_or_get-IsConsistent now input descriptor until records b h =
    go (try_reserve input descriptor now until) refl
  where
    go :
        (r : Result Diagnostic StoredInvocation)
        → try_reserve input descriptor now until ≡ r
        → IsConsistent (reserve_or_get now input descriptor until records).0
    go (err d) e = rw (e, reserve_or_get) h
    go (ok s) e =
        let (same, r) = try_reserve_inv input descriptor now until e in
        rw (e, reserve_or_get)
          (reserve-IsConsistent s (purge now records)
            (subst (λ x. IsWellFormed (key_from_invocation x, x)) (sym same)
              (reserved_record-IsWellFormed input descriptor now until r b))
            (purge-IsConsistent now records h))

transition-IsConsistent :
    (now : Timestamp) (id : InvocationId) (e n : InvocationState) (a : TransitionAuditRecord)
    (t : InvocationTransition) (records : Records)
    → now ≤ u64_max
    → transition_try_new e n a ≡ ok t
    → IsConsistent records
    → IsConsistent (transition now id t records).0
unfolding transition
transition-IsConsistent now id e n a t records b built h =
    modify-IsConsistent id (apply_transition now t) records
      (λ x s' applied well.
        let (same, _, arrow) = (transition_try_new_iff e n a t).0 built in
        let (moves, at, ordered, fresh) =
          apply_transition_inv e n a now x.1 s'
            (subst (λ u. apply_transition now u x.1 ≡ ok s') same applied) in
        (
          subst (λ y. IsWellFormed (x.0, y)) (sym moves)
              (moved-IsWellFormed now x.0 x.1 arrow at ordered b fresh well),
          subst (Replaces x.1) (sym moves) (moved-Replaces now x.1 arrow at),
        ))
      h

-- An abandoned record was one of unknown outcome that the same context asked for.
pub apply_abandon_inv :
    (context : InvocationStatusContext) (authorization : AbandonmentAuthorization)
    (s s' : StoredInvocation)
    → apply_abandon context authorization s ≡ ok s'
    → (s.status_context ≡ context)
      × (s.state ≡ outcome_unknown)
      × (s' ≡ record s {
        abandonment = some authorization;
        state = abandoned;
        updated_at = if ltb s.updated_at u64_max then s.updated_at + 1 else u64_max;
      })
unfolding apply_abandon
apply_abandon_inv context authorization s s' h = ground arith

abandoned-IsWellFormed :
    (authorization : AbandonmentAuthorization) (k : ReservationKey) (s : StoredInvocation)
    → s.state ≡ outcome_unknown
    → IsWellFormed (k, s)
    → IsWellFormed (
      k,
      record s {
        abandonment = some authorization;
        state = abandoned;
        updated_at = if ltb s.updated_at u64_max then s.updated_at + 1 else u64_max;
      },
    )
unfolding key_from_invocation
abandoned-IsWellFormed authorization k s at w = record {
  key_matches = w.key_matches;
  created_first = ground (arith, w.created_first, w.bounded);
  bounded = ground (arith, w.bounded);
  retained = w.retained;
  authorized = λ _. w.authorized (rw at refl);
  concluded = λ e. cc;
  abandonment_recorded = refl;
  links_distinct = w.links_distinct;
}

abandon-IsConsistent :
    (id : InvocationId) (context : InvocationStatusContext)
    (authorization : AbandonmentAuthorization) (records : Records)
    → IsConsistent records
    → IsConsistent (abandon id context authorization records).0
unfolding abandon state_fences_idempotency_scope
abandon-IsConsistent id context authorization records h =
    modify-IsConsistent id (apply_abandon context authorization) records
      (λ x s' applied well.
        let (_, at, same) = apply_abandon_inv context authorization x.1 s' applied in
        (
          subst (λ y. IsWellFormed (x.0, y)) (sym same)
              (abandoned-IsWellFormed authorization x.0 x.1 at well),
          subst (Replaces x.1) (sym same)
              (record { same_id = refl; same_fence = λ e. absurd (false≢true e) }),
        ))
      h

-- One call of a method that may write. The time is what its clock read. A transition and an
-- abandonment come from their checked constructors.
pub data Step (records records' : Records) : Type 0 where
  reserving :
      (now : Timestamp) (input : InvocationReservationInput) (descriptor : CapabilityDescriptor)
      (until : Timestamp)
      → now ≤ u64_max
      → records' ≡ (reserve_or_get now input descriptor until records).0
      → Step records records'
  transiting :
      (now : Timestamp) (id : InvocationId) (e n : InvocationState) (a : TransitionAuditRecord)
      (t : InvocationTransition)
      → now ≤ u64_max
      → transition_try_new e n a ≡ ok t
      → records' ≡ (transition now id t records).0
      → Step records records'
  abandoning :
      (id : InvocationId) (context : InvocationStatusContext) (record_id authorized_by : String)
      (authorization : AbandonmentAuthorization)
      → abandonment_try_new record_id authorized_by ≡ ok authorization
      → records' ≡ (abandon id context authorization records).0
      → Step records records'

-- Any number of calls, in any order.
pub data Reach (records : Records) : Records → Type 0 where
  here : Reach records records
  next : {r r' : Records} → Reach records r → Step r r' → Reach records r'

-- Every call keeps a consistent store consistent, whatever it answers.
pub Step-IsConsistent : {r r' : Records} → Step r r' → IsConsistent r → IsConsistent r'
Step-IsConsistent {r} (reserving now input descriptor until b same) h =
    rw same (reserve_or_get-IsConsistent now input descriptor until r b h)
Step-IsConsistent {r} (transiting now id e n a t b built same) h =
    rw same (transition-IsConsistent now id e n a t r b built h)
Step-IsConsistent {r} (abandoning id context record_id by authorization built same) h =
    rw same (abandon-IsConsistent id context authorization r h)

-- Every store that calls of its methods lead to from the empty one is consistent.
pub Reach-IsConsistent : {r : Records} → Reach [] r → IsConsistent r
Reach-IsConsistent here = record { well_formed = tt; apart = tt }
Reach-IsConsistent (next before step) = Step-IsConsistent step (Reach-IsConsistent before)
