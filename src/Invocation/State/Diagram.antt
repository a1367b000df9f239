-- ===== src/Invocation/State/Diagram.antt =====
-- The transition diagram of an invocation, as a relation, and what the guards of status.rs decide.
use kiteframe.Base.{String, ◌≡◌, ◌↔◌, refl, sym, ap, ◌∙◌, true, false, ok, is_blank, arith}
use kiteframe.Invocation.State.{
  InvocationState, reserved, pending, suspended, succeeded, failed, denied, outcome_unknown,
  abandoned, Suspension, StatusSafeResult, StatusSafeError, TransitionAuditRecord, none,
  authorization, outcome, InvocationTransition, allowed_transition, audit_matches_transition,
  state_fences_idempotency_scope, transition_try_new,
}

-- One arrow of the diagram, with the audit record that it must carry.
pub data Arrow : InvocationState → InvocationState → TransitionAuditRecord → Type 0 where
  start : (r : String) → Arrow reserved pending (authorization r)
  resume : (s : Suspension) (r : String) → Arrow (suspended s) pending (authorization r)
  suspend_reserved : (s : Suspension) → Arrow reserved (suspended s) none
  suspend_pending : (s : Suspension) → Arrow pending (suspended s) none
  deny_reserved : (e : StatusSafeError) → Arrow reserved (denied e) none
  deny_pending : (e : StatusSafeError) → Arrow pending (denied e) none
  deny_suspended : (s : Suspension) (e : StatusSafeError) → Arrow (suspended s) (denied e) none
  deny_unknown : (e : StatusSafeError) → Arrow outcome_unknown (denied e) none
  succeed : (x : StatusSafeResult) (r : String) → Arrow pending (succeeded x) (outcome r)
  fail : (e : StatusSafeError) (r : String) → Arrow pending (failed e) (outcome r)
  lose : Arrow pending outcome_unknown none
  lose_recorded : (r : String) → Arrow pending outcome_unknown (outcome r)
  reconcile_success :
      (x : StatusSafeResult) (r : String) → Arrow outcome_unknown (succeeded x) (outcome r)
  reconcile_failure :
      (e : StatusSafeError) (r : String) → Arrow outcome_unknown (failed e) (outcome r)

ruleset arrows = (
  start, resume, suspend_reserved, suspend_pending, deny_reserved, deny_pending, deny_suspended,
  deny_unknown, succeed, fail, lose, lose_recorded, reconcile_success, reconcile_failure,
)

-- The audit record's reference is not blank.
abbrev pub IsNamed : TransitionAuditRecord → Type 0
IsNamed none = Unit
IsNamed (authorization r) = is_blank r ≡ false
IsNamed (outcome r) = is_blank r ≡ false

match-Arrow :
    (e n : InvocationState) (a : TransitionAuditRecord)
    → audit_matches_transition e n a ≡ true
    → Arrow e n a
unfolding audit_matches_transition
match-Arrow reserved pending (authorization r) h = start r
match-Arrow _ _ _ h = grind (arith, arrows)

Arrow-matches :
    {e n : InvocationState} {a : TransitionAuditRecord}
    → Arrow e n a
    → (allowed_transition e n ≡ true) × (audit_matches_transition e n a ≡ true)
unfolding allowed_transition audit_matches_transition
Arrow-matches (start r) = (refl, refl)
Arrow-matches _ = (refl, refl)

matched :
    (e n : InvocationState) (a : TransitionAuditRecord) (t : InvocationTransition)
    → transition_try_new e n a ≡ ok t
    → (audit_matches_transition e n a ≡ true)
      × IsNamed a
      × (t ≡ record { expected = e; next = n; audit_record = a })
unfolding transition_try_new
matched e n none t h = ground arith
matched e n (authorization r) t h = ground arith
matched e n (outcome r) t h = ground arith

-- An arrow whose record is named builds the transition.
built :
    (e n : InvocationState) (a : TransitionAuditRecord)
    → audit_matches_transition e n a ≡ true
    → allowed_transition e n ≡ true
    → IsNamed a
    → transition_try_new e n a ≡ ok (record { expected = e; next = n; audit_record = a })
unfolding transition_try_new
built e n none m w h = ground arith
built e n (authorization r) m w h = ground arith
built e n (outcome r) m w h = ground arith

-- A transition can be built exactly when its audit record is named and the diagram has its arrow,
-- and it then holds what it was built from.
pub transition_try_new_iff :
    (e n : InvocationState) (a : TransitionAuditRecord) (t : InvocationTransition)
    → (transition_try_new e n a ≡ ok t)
      ↔ ((t ≡ record { expected = e; next = n; audit_record = a }) × IsNamed a × Arrow e n a)
transition_try_new_iff e n a t = (
  λ h. let (m, named, same) = matched e n a t h in (same, named, match-Arrow e n a m),
  λ (same, named, arrow).
      let (w, m) = Arrow-matches arrow in built e n a m w named ∙ ap ok (sym same),
)

-- The kind of audit record that a transition to this state carries.
expected_audit : InvocationState → TransitionAuditRecord
expected_audit pending = authorization ""
expected_audit (succeeded x) = outcome ""
expected_audit (failed e) = outcome ""
expected_audit _ = none

expected_audit-matches :
    (e n : InvocationState)
    → allowed_transition e n ≡ true
    → audit_matches_transition e n (expected_audit n) ≡ true
unfolding allowed_transition audit_matches_transition expected_audit
expected_audit-matches reserved pending h = refl
expected_audit-matches _ _ h = ground arith

-- Two states are an allowed transition exactly when some audit record gives an arrow between them.
pub allowed_transition_iff :
    (e n : InvocationState)
    → (allowed_transition e n ≡ true) ↔ ((a : TransitionAuditRecord) × Arrow e n a)
allowed_transition_iff e n = (
  λ h. (expected_audit n, match-Arrow e n _ (expected_audit-matches e n h)),
  λ h. (Arrow-matches h.1).0,
)

-- Only a state that fences its idempotency scope has an arrow, and no arrow ends in `abandoned`.
pub ends-Arrow :
    {e n : InvocationState} {a : TransitionAuditRecord}
    → Arrow e n a
    → (state_fences_idempotency_scope e ≡ true) × ¬ (n ≡ abandoned)
unfolding state_fences_idempotency_scope
ends-Arrow (start r) = (refl, λ h. cc)
ends-Arrow _ = (refl, λ h. cc)
