-- ===== src/Operation/Registry.antt =====
-- `OperationRegistry` (crates/kiteframe-provider/src/operation.rs). Its `BTreeMap` is the list of
-- its keys and values, of which only the lookup is used. `register` changes the registry or leaves
-- it, so it gives the registry afterwards with its result.
use kiteframe.Base.{
  Bool, true, false, not, String, List, [], ◌∷◌, Option, none, some, Result, ok, err, ◌>>=◌, ◌>>◌,
  refuse_if, map_err, find, if◌then◌else◌, ◌==◌,
}
use mathlib.Core.Option
use kiteframe.Contract.Diagnostic.{Diagnostic}
use kiteframe.Contract.Capability.{
  CapabilityIdentity, identity_eq, CapabilityDescriptor, effect_eq, read_only,
}
use kiteframe.Authorization.{
  AuthorizationBackend, InvocationAuthorizationRequest, require_current_authorization,
}
use kiteframe.Operation.{
  Precondition, InvocationContext, OperationFailure, stable, diagnostic, CapabilityOperation,
  Schemas, runtime_error, validate_stable_error, validate_current_authorization,
}

abbrev pub is_some : {A : Type 0} → Option A → Bool
is_some (some a) = true
is_some none = false

-- `ok_or_else`
abbrev pub required : {A : Type 0} → String → Option A → Result Diagnostic A
required message (some a) = ok a
required message none = err (runtime_error message)

module _ (Value : Type 0) where
  pub record OperationRegistry : Type 0 where
    pub operations : List (CapabilityIdentity × CapabilityOperation Value)
    pub authorization_backend : Option AuthorizationBackend

  -- `OperationRegistry::new`
  abbrev pub new_registry : OperationRegistry
  new_registry = record { operations = []; authorization_backend = none }

  -- `operations.get(identity)`
  unfoldable pub lookup :
      CapabilityIdentity → OperationRegistry → Option (CapabilityOperation Value)
  lookup identity registry =
      Option.map (λ entry. entry.1) (find (λ entry. entry.0 == identity) registry.operations)

  -- `OperationRegistry::is_frozen`
  abbrev pub is_frozen : OperationRegistry → Bool
  is_frozen registry = is_some registry.authorization_backend

  -- `OperationRegistry::register`
  unfoldable pub register :
      CapabilityOperation Value
      → OperationRegistry
      → OperationRegistry × Result Diagnostic (Unit {0})
  register operation registry =
      if is_frozen registry
      then (registry, err (runtime_error "operation registry is frozen"))
      else if is_some (lookup operation.identity registry)
      then (
        registry,
        err (runtime_error "operation registry contains a duplicate exact capability identity"),
      )
      else (
        record registry { operations = (operation.identity, operation) ∷ registry.operations },
        ok tt,
      )

  -- `OperationRegistry::freeze`
  unfoldable pub freeze :
      AuthorizationBackend → OperationRegistry → Result Diagnostic OperationRegistry
  freeze backend registry = ok (record registry { authorization_backend = some backend })

  -- `OperationRegistry::resolve`
  unfoldable pub resolve :
      CapabilityIdentity → OperationRegistry → Result Diagnostic (CapabilityOperation Value)
  resolve identity registry = do
    refuse_if (not (is_frozen registry))
        (runtime_error "operation registry must be frozen before invocation")
    required "no trusted operation is registered for the exact capability identity"
        (lookup identity registry)

  -- `OperationRegistry::authorization_backend`
  unfoldable pub registry_backend : OperationRegistry → Result Diagnostic AuthorizationBackend
  registry_backend registry =
      required "operation registry must be frozen before invocation" registry.authorization_backend

  -- The request that `execute` sends to the backend.
  abbrev pub authorization_request : InvocationContext → InvocationAuthorizationRequest
  authorization_request context = record {
    principals = context.principals;
    capability = context.capability;
    selected_resource = context.selected_resource;
    grant_digest = context.grant_digest;
    loaded_authority_revisions = context.loaded_authority_revisions;
  }

  module _ (schemas : Schemas Value) where
    -- `OperationRegistry::execute` before it runs the operation.
    unfoldable pub permit :
        OperationRegistry
        → InvocationContext
        → List (Precondition Value)
        → Value
        → Result Diagnostic (CapabilityOperation Value)
    permit registry context preconditions arguments = do
      refuse_if (not (context.locked_capability.descriptor.effect == read_only))
          (runtime_error "effect operations require the durable invocation enforcement plane")
      backend ←
          required "operation registry must be frozen with an authorization backend before use"
            registry.authorization_backend
      operation ←
          required "no trusted operation is registered for the exact capability identity"
            (lookup context.capability registry)
      refuse_if (not (operation.identity == context.locked_capability.identity))
          (runtime_error "registered operation does not match the locked capability identity")
      authorization ← require_current_authorization backend (authorization_request context)
      validate_current_authorization context authorization preconditions
      schemas.validate_input context.locked_capability.descriptor arguments
      operation.validate_preconditions context preconditions
      ok operation

    -- The `match` on what the operation answers.
    unfoldable pub conclude :
        CapabilityDescriptor → Result OperationFailure Value → Result OperationFailure Value
    conclude descriptor (ok output) = do
      map_err diagnostic (schemas.validate_output descriptor output)
      ok output
    conclude descriptor (err (stable error)) = do
      map_err diagnostic (validate_stable_error descriptor error)
      err (stable error)
    conclude descriptor (err (diagnostic d)) = err (diagnostic d)

    -- `OperationRegistry::execute`
    unfoldable pub execute :
        OperationRegistry
        → InvocationContext
        → List (Precondition Value)
        → Value
        → Result OperationFailure Value
    execute registry context preconditions arguments = do
      operation ← map_err diagnostic (permit registry context preconditions arguments)
      conclude context.locked_capability.descriptor (operation.execute context arguments)
