-- ===== src/Invocation/Store/Lifecycle.antt =====
-- What becomes of a record over the calls of the store (status.rs).
use mathlib.Core.Path.{subst}
use kiteframe.Base.{◌≡◌, ◌<◌, refl, true, false, some, arith, Result, ok, err, inl, inr, ◌⊎◌, ap}
use kiteframe.Contract.Diagnostic.{Diagnostic}
use kiteframe.Contract.Refs.{Timestamp}
use kiteframe.Contract.Capability.{CapabilityDescriptor}
use kiteframe.Invocation.State.{
  InvocationState, TransitionAuditRecord, InvocationTransition, transition_try_new,
  state_fences_idempotency_scope,
}
use kiteframe.Invocation.State.Diagram.{ends-Arrow, transition_try_new_iff}
use kiteframe.Invocation.Parts.{InvocationStatusContext, AbandonmentAuthorization}
use kiteframe.Invocation.Stored.{
  InvocationReservationInput, StoredInvocation, ReservationKey, key_from_invocation, try_reserve,
}
use kiteframe.Invocation.Store.{
  Records, get, is_retained, purge, reserve, reserve_or_get, apply_transition, apply_abandon,
  transition, abandon,
}
use kiteframe.Invocation.Store.Arrows.{apply_transition_inv}
use kiteframe.Invocation.Store.Keys.{get-purge, get-insert, get-modify}
use kiteframe.Invocation.Store.Steps.{Step, reserving, transiting, abandoning, apply_abandon_inv}

-- A reservation that is made before this time, or another call.
abbrev pub IsBefore : Timestamp → {r r' : Records} → Step r r' → Type 0
IsBefore deadline (reserving now input descriptor until b same) = now < deadline
IsBefore deadline _ = Unit

reserve-get :
    (s : StoredInvocation) (key : ReservationKey) (t : StoredInvocation) (records : Records)
    → get key records ≡ some t
    → get key (reserve s records).0 ≡ some t
unfolding reserve
reserve-get s key t records g = ground (arith, get-insert (key_from_invocation s) key s records)

reserve_or_get-get :
    (now : Timestamp) (input : InvocationReservationInput) (descriptor : CapabilityDescriptor)
    (until : Timestamp) (key : ReservationKey) (s : StoredInvocation) (records : Records)
    → is_retained now (key, s) ≡ true
    → get key records ≡ some s
    → get key (reserve_or_get now input descriptor until records).0 ≡ some s
reserve_or_get-get now input descriptor until key s records k g =
    go (try_reserve input descriptor now until) refl
  where
    go :
        (r : Result Diagnostic StoredInvocation)
        → try_reserve input descriptor now until ≡ r
        → get key (reserve_or_get now input descriptor until records).0 ≡ some s
    go (err d) e = unfold reserve_or_get in rw (e, reserve_or_get) g
    go (ok t) e =
        unfold reserve_or_get in
        rw (e, reserve_or_get)
          (reserve-get t key s (purge now records) (get-purge now key s records k g))

-- The same invocation: what no call changes in a record.
pub record IsSameInvocation (s s' : StoredInvocation) : Type 0 where
  pub same_id : s'.invocation_id ≡ s.invocation_id
  pub same_context : s'.status_context ≡ s.status_context
  pub same_digest : s'.request_digest ≡ s.request_digest
  pub same_retention : s'.retention_until ≡ s.retention_until

-- A transition accepts only an unsettled record, and leaves its invocation.
transition_effect :
    (now : Timestamp) (e n : InvocationState) (a : TransitionAuditRecord) (t : InvocationTransition)
    (s s' : StoredInvocation)
    → transition_try_new e n a ≡ ok t
    → apply_transition now t s ≡ ok s'
    → (state_fences_idempotency_scope s.state ≡ true) × IsSameInvocation s s'
transition_effect now e n a t s s' built applied =
    let (same, _, arrow) = (transition_try_new_iff e n a t).0 built in
    let (moves, at, _, _) =
      apply_transition_inv e n a now s s'
        (subst (λ u. apply_transition now u s ≡ ok s') same applied) in
    (
      rw at (ends-Arrow arrow).0,
      record {
        same_id = ap (λ x. x.invocation_id) moves;
        same_context = ap (λ x. x.status_context) moves;
        same_digest = ap (λ x. x.request_digest) moves;
        same_retention = ap (λ x. x.retention_until) moves;
      },
    )

abandon_effect :
    (context : InvocationStatusContext) (authorization : AbandonmentAuthorization)
    (s s' : StoredInvocation)
    → apply_abandon context authorization s ≡ ok s'
    → (state_fences_idempotency_scope s.state ≡ true) × IsSameInvocation s s'
unfolding state_fences_idempotency_scope
abandon_effect context authorization s s' applied =
    let (_, at, same) = apply_abandon_inv context authorization s s' applied in
    (
      rw at refl,
      record {
        same_id = ap (λ x. x.invocation_id) same;
        same_context = ap (λ x. x.status_context) same;
        same_digest = ap (λ x. x.request_digest) same;
        same_retention = ap (λ x. x.retention_until) same;
      },
    )

-- The key is bound to the same record, or to another record of the same invocation that has taken
-- the place of an unsettled one.
abbrev pub Evolves : ReservationKey → StoredInvocation → Records → Type 0
Evolves key s r' =
    (get key r' ≡ some s)
    ⊎ ((s' : StoredInvocation) × (get key r' ≡ some s')
        × (state_fences_idempotency_scope s.state ≡ true)
        × IsSameInvocation s s')

pub Step-Evolves :
    (key : ReservationKey) (s : StoredInvocation) {r r' : Records} (step : Step r r')
    → IsBefore s.retention_until step ⊎ (state_fences_idempotency_scope s.state ≡ true)
    → get key r ≡ some s
    → Evolves key s r'
Step-Evolves key s {r} (reserving now input descriptor until b same) kept g = rw same (
    inl (
      reserve_or_get-get now input descriptor until key s r
        (elim kept [ inl before ↦ ground arith | inr fence ↦ ground arith ]) g))
Step-Evolves key s {r} (transiting now id e n a t b built same) kept g =
    rw same (elim (get-modify id (apply_transition now t) key s r g) [
      | inl old ↦ inl (unfold transition in old)
      | inr (s', new, applied) ↦
          let (fence, id') = transition_effect now e n a t s s' built applied in
          inr (s', (unfold transition in new), fence, id')
    ])
Step-Evolves key s {r} (abandoning id context record_id by authorization built same) kept g =
    rw same (elim (get-modify id (apply_abandon context authorization) key s r g) [
      | inl old ↦ inl (unfold abandon in old)
      | inr (s', new, applied) ↦
          let (fence, id') = abandon_effect context authorization s s' applied in
          inr (s', (unfold abandon in new), fence, id')
    ])

-- A settled record never changes and is not dropped before its retention ends: any call leaves its
-- key bound to it, but for a reservation made at or behind the end of its retention.
pub settled_is_final :
    (key : ReservationKey) (s : StoredInvocation) {r r' : Records} (step : Step r r')
    → IsBefore s.retention_until step
    → get key r ≡ some s
    → state_fences_idempotency_scope s.state ≡ false
    → get key r' ≡ some s
settled_is_final key s step before g settled = elim (Step-Evolves key s step (inl before) g) [
  | inl same ↦ same
  | inr (_, _, fence, _) ↦ cc
]

-- An unsettled record is never lost, whatever its retention: behind any call its key is bound to a
-- record of the same invocation.
pub unsettled_survives :
    (key : ReservationKey) (s : StoredInvocation) {r r' : Records}
    → Step r r'
    → get key r ≡ some s
    → state_fences_idempotency_scope s.state ≡ true
    → (s' : StoredInvocation) × (get key r' ≡ some s') × (s'.invocation_id ≡ s.invocation_id)
unsettled_survives key s step g fence = elim (Step-Evolves key s step (inr fence) g) [
  | inl same ↦ (s, same, refl)
  | inr (s', new, _, invocation) ↦ (s', new, invocation.same_id)
]
