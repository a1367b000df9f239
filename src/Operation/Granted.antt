-- ===== src/Operation/Granted.antt =====
-- Executions in a checked context (`InvocationContext::try_new` and `OperationRegistry::execute` of
-- crates/kiteframe-provider/src/operation.rs).
use mathlib.Core.Path.{subst}
use kiteframe.Base.{
  String, some, ◌≡◌, ◌<◌, sym, ◌∙◌, Bool, true, false, not, ◌||◌, List, ok, after_refusal,
  ok-injective, ◌==◌, eq_of_==, arith,
}
use kiteframe.Contract.Refs.{Timestamp}
use kiteframe.Contract.Capability.{identity_eq}
use kiteframe.Authorization.{
  AuthorityRevisionSet, NarrowedAuthorizationConditions, allow, AuthorizationBackend,
}
use kiteframe.Operation.{
  Precondition, InvocationContext, CapabilityOperation, Schemas, is_granted,
  invocation_context_try_new,
}
use kiteframe.Operation.Registry.{OperationRegistry, authorization_request, execute}
use kiteframe.Operation.Covered.{IsGranted, is_granted_iff}
use kiteframe.Operation.Permitted.{execute_exact}

three : (a b c : Bool) → (not a || not b || not c) ≡ false → (a ≡ true) × (b ≡ true) × (c ≡ true)
three a b c h = (ground arith, ground arith, ground arith)

-- A context for one capability, with a resource that the grant reaches.
record IsExact (context : InvocationContext) : Type 0 where
  is_locked : context.locked_capability.identity ≡ context.capability
  is_grant : context.effective_grant.capability ≡ context.capability
  reaches : IsGranted context.selected_resource context.effective_grant.resources

try_new-IsExact :
    (value : InvocationContext) {context : InvocationContext}
    → invocation_context_try_new value ≡ ok context
    → IsExact context
unfolding invocation_context_try_new
try_new-IsExact value h =
    let locked = value.locked_capability.identity == value.capability in
    let granted = value.effective_grant.capability == value.capability in
    let reaches = is_granted value.selected_resource value.effective_grant.resources in
    let (guard, same) = after_refusal (not locked || not granted || not reaches) _ h in
    let parts = three locked granted reaches guard in
    subst IsExact (ok-injective same) (record {
      is_locked = eq_of_== parts.0;
      is_grant = eq_of_== parts.1;
      reaches = (is_granted_iff value.selected_resource value.effective_grant.resources).0 parts.2;
    })

module _ {Value : Type 0} where
  -- The allow that the frozen backend decided for the invocation at its current revisions: of a
  -- time before the grant, the principals and the allow's own conditions expire, for resources that
  -- cover the selected one.
  pub record IsAllowed (registry : OperationRegistry Value) (context : InvocationContext)
      : Type 0 where
    pub backend : AuthorizationBackend
    pub is_frozen : registry.authorization_backend ≡ some backend
    pub reference : String
    pub revisions : AuthorityRevisionSet
    pub decided_at : Timestamp
    pub conditions : NarrowedAuthorizationConditions
    pub is_current : backend.revisions ≡ ok revisions
    pub decides :
        backend.check (authorization_request Value context)
        ≡ ok (allow reference revisions decided_at conditions)
    pub before_grant : decided_at < context.effective_grant.expires_at
    pub before_principals : decided_at < context.principals.expires_at
    pub before_conditions : decided_at < conditions.expires_at
    pub covers : IsGranted context.selected_resource conditions.resources

-- An output in a checked context is one of an operation of the granted capability, for a resource
-- that a resource of the grant covers, under an allow that the frozen backend decided for this
-- invocation at its current revisions, of a time before the grant, the principals and the allow's
-- conditions expire, whose resources cover the selected one too.
pub execute-IsGranted :
    (Value : Type 0) (schemas : Schemas Value) (registry : OperationRegistry Value)
    (value context : InvocationContext) (preconditions : List (Precondition Value))
    (arguments output : Value)
    → invocation_context_try_new value ≡ ok context
    → execute Value schemas registry context preconditions arguments ≡ ok output
    → (operation : CapabilityOperation Value) × (operation.execute context arguments ≡ ok output)
      × (operation.identity ≡ context.effective_grant.capability)
      × IsGranted context.selected_resource context.effective_grant.resources
      × IsAllowed registry context
execute-IsGranted Value schemas registry value context preconditions arguments output h e =
    let exact = try_new-IsExact value h in
    let (operation, p, answer, _) =
      ((execute_exact Value schemas registry context preconditions arguments).0 output).0 e in
    (
      operation,
      answer,
      p.is_locked ∙ exact.is_locked ∙ sym exact.is_grant,
      exact.reaches,
      record {
        backend = p.backend;
        is_frozen = p.is_frozen;
        reference = p.reference;
        revisions = p.revisions;
        decided_at = p.decided_at;
        conditions = p.conditions;
        is_current = p.is_current;
        decides = p.is_allowed;
        before_grant = p.is_covered.before_grant;
        before_principals = p.is_covered.before_principals;
        before_conditions = p.is_covered.before_conditions;
        covers = p.is_covered.grants;
      },
    )
