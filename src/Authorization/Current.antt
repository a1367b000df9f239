-- ===== src/Authorization/Current.antt =====
-- `require_current_authorization` (crates/kiteframe-provider/src/authorization.rs) and the answers of
-- its backend.
use kiteframe.Base.{
  String, Result, ok, err, ◌≡◌, ◌>>=◌, ◌∙◌, ap, ◌↔◌, err≢ok, arith, refl, sym, ==_of_eq,
}
use kiteframe.Contract.Diagnostic.{Diagnostic}
use kiteframe.Contract.Refs.{Timestamp}
use kiteframe.Authorization.{
  AuthorityRevisionSet, revisions_eq, NarrowedAuthorizationConditions, AuthorizationDecision, allow,
  deny, InvocationAuthorizationRequest, AuthorizationBackend, accept_current,
  require_current_authorization,
}

-- An allow that was decided at the backend's current revisions.
abbrev pub IsCurrentAllow :
    AuthorizationBackend → InvocationAuthorizationRequest → AuthorizationDecision → Type 0
IsCurrentAllow backend request decision =
    (reference : String) × (revisions : AuthorityRevisionSet) × (decided_at : Timestamp)
    × (conditions : NarrowedAuthorizationConditions) × (decision
        ≡ allow reference revisions decided_at conditions)
    × (backend.revisions ≡ ok revisions)
    × (backend.check request ≡ ok decision)

accept_current-eq_ok :
    (current : AuthorityRevisionSet) (reference : String) (revisions : AuthorityRevisionSet)
    (decided_at : Timestamp) (conditions : NarrowedAuthorizationConditions)
    {decision : AuthorizationDecision}
    → accept_current current (allow reference revisions decided_at conditions) ≡ ok decision
    → (revisions ≡ current) × (allow reference revisions decided_at conditions ≡ decision)
unfolding accept_current
accept_current-eq_ok current reference revisions decided_at conditions h = ground arith

current_of_ok :
    (backend : AuthorizationBackend) (request : InvocationAuthorizationRequest)
    (decision : AuthorizationDecision)
    → require_current_authorization backend request ≡ ok decision
    → IsCurrentAllow backend request decision
unfolding require_current_authorization accept_current
current_of_ok backend request decision h = go backend.revisions (backend.check request) refl refl h
  where
    go :
        (r : Result Diagnostic AuthorityRevisionSet) (c : Result Diagnostic AuthorizationDecision)
        → backend.revisions ≡ r
        → backend.check request ≡ c
        → (r >>= λ current. c >>= λ d. accept_current current d) ≡ ok decision
        → IsCurrentAllow backend request decision
    go (err e) c hr hc k = absurd (err≢ok k)
    go (ok r) (err e) hr hc k = absurd (err≢ok k)
    go (ok r) (ok (deny reason reference)) hr hc k = absurd (err≢ok k)
    go (ok r) (ok (allow reference revisions decided_at conditions)) hr hc k =
        let same = accept_current-eq_ok r reference revisions decided_at conditions k in
        (
          reference,
          revisions,
          decided_at,
          conditions,
          sym same.1,
          hr ∙ ap ok (sym same.0),
          hc ∙ ap ok same.1,
        )

accepted :
    (revisions : AuthorityRevisionSet) (reference : String) (decided_at : Timestamp)
    (conditions : NarrowedAuthorizationConditions)
    → accept_current revisions (allow reference revisions decided_at conditions)
      ≡ ok (allow reference revisions decided_at conditions)
unfolding accept_current
accepted revisions reference decided_at conditions = rw (==_of_eq {a = revisions} refl) refl

ok_of_current :
    (backend : AuthorizationBackend) (request : InvocationAuthorizationRequest)
    (decision : AuthorizationDecision)
    → IsCurrentAllow backend request decision
    → require_current_authorization backend request ≡ ok decision
unfolding require_current_authorization
ok_of_current backend request decision (reference, revisions, decided_at, conditions, d, r, c) =
    rw (r, c, d) (accepted revisions reference decided_at conditions)

-- The required authorization gives a decision exactly when it is the backend's own answer to the
-- request, an allow, and was decided at the revisions that the backend reported.
pub require_current_authorization_iff :
    (backend : AuthorizationBackend) (request : InvocationAuthorizationRequest)
    (decision : AuthorizationDecision)
    → (require_current_authorization backend request ≡ ok decision)
      ↔ IsCurrentAllow backend request decision
require_current_authorization_iff backend request decision =
    (current_of_ok backend request decision, ok_of_current backend request decision)
