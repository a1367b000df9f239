-- ===== src/Invocation/Store/Arrows.antt =====
-- A transition that the store applies (`transition` of status.rs): its arrow, its audit links and its
-- record.
use kiteframe.Base.{
  String, ◌≡◌, ◌≤◌, refl, Bool, true, false, ◌||◌, List, [], ◌∷◌, ◌++◌, ok, any, All, Pairwise,
  arith, u64_max, ◌==◌,
}
use kiteframe.Base.Laws.{Pairwise-append_one}
use kiteframe.Contract.Refs.{Timestamp}
use kiteframe.Invocation.State.{InvocationState, TransitionAuditRecord}
use kiteframe.Invocation.State.Diagram.{
  Arrow, start, resume, suspend_reserved, suspend_pending, deny_reserved, deny_pending,
  deny_suspended, deny_unknown, succeed, fail, reconcile_success, reconcile_failure, ends-Arrow,
}
use kiteframe.Invocation.Parts.{
  InvocationAuditLinkKind, link_kind_eq, InvocationAuditLink, link_from_transition,
}
use kiteframe.Invocation.Stored.{StoredInvocation, ReservationKey, key_from_invocation}
use kiteframe.Invocation.Store.{apply_transition, is_linked}
use kiteframe.Invocation.Store.Consistent.{
  needs_authorization, needs_outcome, is_abandoned, has_link, IsWellFormed, Unlinked,
}
use kiteframe.Invocation.Store.Writing.{Replaces}

abbrev pub authorization_link : String → Timestamp → InvocationAuditLink
authorization_link r now = record {
  kind = InvocationAuditLinkKind.authorization;
  record_id = r;
  attached_at = now;
}

abbrev pub outcome_link : String → Timestamp → InvocationAuditLink
outcome_link r now = record {
  kind = InvocationAuditLinkKind.outcome;
  record_id = r;
  attached_at = now;
}

-- The links of a record behind a transition with this audit record.
abbrev pub linked :
    List InvocationAuditLink → Timestamp → TransitionAuditRecord → List InvocationAuditLink
linked links now TransitionAuditRecord.none = links
linked links now (TransitionAuditRecord.authorization r) = links ++ authorization_link r now ∷ []
linked links now (TransitionAuditRecord.outcome r) = links ++ outcome_link r now ∷ []

-- The audit record is not linked yet.
abbrev pub IsFresh : List InvocationAuditLink → Timestamp → TransitionAuditRecord → Type 0
IsFresh links now TransitionAuditRecord.none = Unit
IsFresh links now (TransitionAuditRecord.authorization r) =
    any (is_linked (authorization_link r now)) links ≡ false
IsFresh links now (TransitionAuditRecord.outcome r) =
    any (is_linked (outcome_link r now)) links ≡ false

-- The record behind a transition.
abbrev pub moved :
    InvocationState → TransitionAuditRecord → Timestamp → StoredInvocation → StoredInvocation
moved n a now s = record s { audit_links = linked s.audit_links now a; state = n; updated_at = now }

-- An accepted transition found the expected state and a fresh audit record.
pub apply_transition_inv :
    (e n : InvocationState) (a : TransitionAuditRecord) (now : Timestamp) (s s' : StoredInvocation)
    → apply_transition now (record { expected = e; next = n; audit_record = a }) s ≡ ok s'
    → (s' ≡ moved n a now s) × (s.state ≡ e) × (s.updated_at ≤ now) × IsFresh s.audit_links now a
unfolding apply_transition link_from_transition
apply_transition_inv e n TransitionAuditRecord.none now s s' h = ground arith
apply_transition_inv e n (TransitionAuditRecord.authorization r) now s s' h = ground arith
apply_transition_inv e n (TransitionAuditRecord.outcome r) now s s' h = ground arith

any-append_one :
    {A : Type 0} (test : A → Bool) (x : A) (xs : List A)
    → any test (xs ++ x ∷ []) ≡ any test xs || test x
any-append_one test x [] = ground arith
any-append_one test x (y ∷ xs) = ground (arith, any-append_one test x xs)

-- A link of this kind stays, and a new one is found.
has_link-linked :
    (kind : InvocationAuditLinkKind) (links : List InvocationAuditLink) (now : Timestamp)
    (a : TransitionAuditRecord)
    → has_link kind links ≡ true
    → has_link kind (linked links now a) ≡ true
has_link-linked kind links now TransitionAuditRecord.none h = h
has_link-linked kind links now (TransitionAuditRecord.authorization r) h =
    ground (arith, any-append_one (λ l. l.kind == kind) (authorization_link r now) links)
has_link-linked kind links now (TransitionAuditRecord.outcome r) h =
    ground (arith, any-append_one (λ l. l.kind == kind) (outcome_link r now) links)

has_authorization :
    (links : List InvocationAuditLink) (now : Timestamp) (r : String)
    → has_link InvocationAuditLinkKind.authorization
        (linked links now (TransitionAuditRecord.authorization r))
      ≡ true
has_authorization links now r = ground (
  arith,
  any-append_one (λ l. l.kind == InvocationAuditLinkKind.authorization) (authorization_link r now)
      links,
)

has_outcome :
    (links : List InvocationAuditLink) (now : Timestamp) (r : String)
    → has_link InvocationAuditLinkKind.outcome (linked links now (TransitionAuditRecord.outcome r))
      ≡ true
has_outcome links now r = ground (
  arith,
  any-append_one (λ l. l.kind == InvocationAuditLinkKind.outcome) (outcome_link r now) links,
)

-- An arrow into a state that needs an authorization carries one, or starts from such a state.
authorized-Arrow :
    {e n : InvocationState} {a : TransitionAuditRecord} (links : List InvocationAuditLink)
    (now : Timestamp)
    → Arrow e n a
    → (needs_authorization e ≡ true → has_link InvocationAuditLinkKind.authorization links ≡ true)
    → needs_authorization n ≡ true
    → has_link InvocationAuditLinkKind.authorization (linked links now a) ≡ true
authorized-Arrow links now (start r) h n = has_authorization links now r
authorized-Arrow links now (resume s r) h n = has_authorization links now r
authorized-Arrow links now (suspend_reserved s) h n = cc
authorized-Arrow links now (suspend_pending s) h n = cc
authorized-Arrow links now (deny_reserved e) h n = cc
authorized-Arrow links now (deny_pending e) h n = cc
authorized-Arrow links now (deny_suspended s e) h n = cc
authorized-Arrow links now (deny_unknown e) h n = cc
authorized-Arrow {a} links now _ h n =
    has_link-linked InvocationAuditLinkKind.authorization links now a (h refl)

-- An arrow into a state that needs an outcome record carries one.
concluded-Arrow :
    {e n : InvocationState} {a : TransitionAuditRecord} (links : List InvocationAuditLink)
    (now : Timestamp)
    → Arrow e n a
    → needs_outcome n ≡ true
    → has_link InvocationAuditLinkKind.outcome (linked links now a) ≡ true
concluded-Arrow links now (succeed x r) n = has_outcome links now r
concluded-Arrow links now (fail e r) n = has_outcome links now r
concluded-Arrow links now (reconcile_success x r) n = has_outcome links now r
concluded-Arrow links now (reconcile_failure e r) n = has_outcome links now r
concluded-Arrow links now _ n = cc

abandonment-Arrow :
    {e n : InvocationState} {a : TransitionAuditRecord}
    → Arrow e n a
    → (is_abandoned e ≡ false) × (is_abandoned n ≡ false)
abandonment-Arrow (start r) = (refl, refl)
abandonment-Arrow _ = (refl, refl)

attach_distinct :
    (link : InvocationAuditLink) (links : List InvocationAuditLink)
    → any (is_linked link) links ≡ false
    → All (λ l. Unlinked l link) links
attach_distinct link [] h = tt
attach_distinct link (l ∷ links) h = (ground arith, attach_distinct link links (ground arith))

linked_distinct :
    (links : List InvocationAuditLink) (now : Timestamp) (a : TransitionAuditRecord)
    → IsFresh links now a
    → Pairwise Unlinked links
    → Pairwise Unlinked (linked links now a)
linked_distinct links now TransitionAuditRecord.none f h = h
linked_distinct links now (TransitionAuditRecord.authorization r) f h =
    Pairwise-append_one Unlinked links (authorization_link r now) h
      (attach_distinct (authorization_link r now) links f)
linked_distinct links now (TransitionAuditRecord.outcome r) f h =
    Pairwise-append_one Unlinked links (outcome_link r now) h
      (attach_distinct (outcome_link r now) links f)

pub moved-IsWellFormed :
    {e n : InvocationState} {a : TransitionAuditRecord} (now : Timestamp) (k : ReservationKey)
    (s : StoredInvocation)
    → Arrow e n a
    → s.state ≡ e
    → s.updated_at ≤ now
    → now ≤ u64_max
    → IsFresh s.audit_links now a
    → IsWellFormed (k, s)
    → IsWellFormed (k, moved n a now s)
unfolding key_from_invocation
moved-IsWellFormed {a} now k s arrow at ordered b fresh w = record {
  key_matches = w.key_matches;
  created_first = omega arith;
  bounded = b;
  retained = w.retained;
  authorized = authorized-Arrow s.audit_links now arrow (λ e. w.authorized (rw at e));
  concluded = concluded-Arrow s.audit_links now arrow;
  abandonment_recorded = ground (arith, abandonment-Arrow arrow, w.abandonment_recorded);
  links_distinct = linked_distinct s.audit_links now a fresh w.links_distinct;
}

pub moved-Replaces :
    {e n : InvocationState} {a : TransitionAuditRecord} (now : Timestamp) (s : StoredInvocation)
    → Arrow e n a
    → s.state ≡ e
    → Replaces s (moved n a now s)
moved-Replaces now s arrow at = record {
  same_id = refl;
  same_fence = λ _. rw at (ends-Arrow arrow).0;
}
