-- ===== src/Invocation/Store/Consistent.antt =====
-- What holds of the records between two calls of the store.
use kiteframe.Base.{
  ◌≡◌, ◌≢◌, ◌≤◌, Bool, true, false, ◌&&◌, Option, none, some, List, any, All, Pairwise, u64_max,
  ◌==◌,
}
use kiteframe.Invocation.State.{
  InvocationState, pending, succeeded, failed, outcome_unknown, abandoned,
  state_fences_idempotency_scope,
}
use kiteframe.Invocation.Parts.{InvocationAuditLinkKind, link_kind_eq, InvocationAuditLink}
use kiteframe.Invocation.Stored.{key_from_invocation, same_scope}
use kiteframe.Invocation.Store.{Entry, Records, is_linked}

-- The states behind the arrow that carries a write-ahead authorization.
abbrev pub needs_authorization : InvocationState → Bool
needs_authorization pending = true
needs_authorization (succeeded r) = true
needs_authorization (failed e) = true
needs_authorization outcome_unknown = true
needs_authorization abandoned = true
needs_authorization _ = false

abbrev pub needs_outcome : InvocationState → Bool
needs_outcome (succeeded r) = true
needs_outcome (failed e) = true
needs_outcome _ = false

abbrev pub is_abandoned : InvocationState → Bool
is_abandoned abandoned = true
is_abandoned _ = false

abbrev pub is_some {ℓ} : {A : Type ℓ} → Option A → Bool
is_some none = false
is_some (some a) = true

abbrev pub has_link : InvocationAuditLinkKind → List InvocationAuditLink → Bool
has_link kind links = any (λ link. link.kind == kind) links

-- Two links that do not name one record, the earlier first.
abbrev pub Unlinked : InvocationAuditLink → InvocationAuditLink → Type 0
Unlinked earlier later = is_linked later earlier ≡ false

pub record IsWellFormed (e : Entry) : Type 0 where
  pub key_matches : e.0 ≡ key_from_invocation e.1
  pub created_first : e.1.created_at ≤ e.1.updated_at
  pub bounded : e.1.updated_at ≤ u64_max
  pub retained : e.1.created_at ≤ e.1.retention_until
  pub authorized :
      needs_authorization e.1.state ≡ true
      → has_link InvocationAuditLinkKind.authorization e.1.audit_links ≡ true
  pub concluded :
      needs_outcome e.1.state ≡ true
      → has_link InvocationAuditLinkKind.outcome e.1.audit_links ≡ true
  pub abandonment_recorded : is_abandoned e.1.state ≡ is_some e.1.abandonment
  pub links_distinct : Pairwise Unlinked e.1.audit_links

-- Two records differ in key and invocation ID, and do not both fence one idempotency scope.
pub record IsApart (e f : Entry) : Type 0 where
  pub keys : e.0 ≢ f.0
  pub ids : e.1.invocation_id ≢ f.1.invocation_id
  pub fence :
      same_scope e.0 f.0 ≡ true
      → (state_fences_idempotency_scope e.1.state && state_fences_idempotency_scope f.1.state)
        ≡ false

pub record IsConsistent (records : Records) : Type 0 where
  pub well_formed : All IsWellFormed records
  pub apart : Pairwise IsApart records
