-- ===== src/Operation/Registered.antt =====
-- Registrations, one after another, and the frozen registry
-- (crates/kiteframe-provider/src/operation.rs), compared with a search of the operations given.
use kiteframe.Base.{
  ◌≡◌, refl, sym, ap, ◌∙◌, Bool, true, false, List, [], ◌∷◌, Option, none, some, ok, err, find,
  if◌then◌else◌, ◌==◌, eq_of_==, Bool-cases, Option-cases, inl, inr,
}
use kiteframe.Contract.Capability.{CapabilityIdentity, identity_eq}
use kiteframe.Authorization.{AuthorizationBackend}
use kiteframe.Operation.{CapabilityOperation, runtime_error}
use kiteframe.Operation.Registry.{
  OperationRegistry, new_registry, lookup, is_frozen, register, freeze, required, resolve,
}

-- The first of two answers.
abbrev or_else : {A : Type 0} → Option A → Option A → Option A
or_else (some a) other = some a
or_else none other = other

or_else_none : {A : Type 0} (o : Option A) → or_else o none ≡ o
or_else_none (some a) = refl
or_else_none none = refl

or_else_if :
    {A : Type 0} (o : Option A) (b : Bool) (a : A) (rest : Option A)
    → or_else (or_else o (if b then some a else none)) rest ≡ or_else o (if b then some a else rest)
or_else_if (some x) b a rest = refl
or_else_if none true a rest = refl
or_else_if none false a rest = refl

prefer :
    {A : Type 0} (key identity : CapabilityIdentity) (a : A) (found : CapabilityIdentity → Option A)
    → found key ≡ none
    → (if key == identity then some a else found identity)
      ≡ or_else (found identity) (if key == identity then some a else none)
prefer key identity a found h = elim (Bool-cases (key == identity)) [
  | inl same ↦ rw (same, sym (ap found (eq_of_== same)), h) refl
  | inr other ↦ rw (other) (sym (or_else_none (found identity)))
]

keep :
    {A : Type 0} (key identity : CapabilityIdentity) (a other : A)
    (found : CapabilityIdentity → Option A)
    → found key ≡ some other
    → found identity ≡ or_else (found identity) (if key == identity then some a else none)
keep key identity a other found h = elim (Bool-cases (key == identity)) [
  | inl same ↦ rw (sym (ap found (eq_of_== same)), h) refl
  | inr different ↦ rw (different) (sym (or_else_none (found identity)))
]

module _ (Value : Type 0) where
  -- Registrations in their order, whatever their results.
  abbrev pub register_all :
      List (CapabilityOperation Value) → OperationRegistry Value → OperationRegistry Value
  register_all [] registry = registry
  register_all (operation ∷ operations) registry =
      register_all operations (register Value operation registry).0

  -- The first of the operations with an identity.
  abbrev pub first_with :
      CapabilityIdentity → List (CapabilityOperation Value) → Option (CapabilityOperation Value)
  first_with identity operations = find (λ operation. operation.identity == identity) operations

  register-fresh :
      (operation : CapabilityOperation Value) (registry : OperationRegistry Value)
      → is_frozen Value registry ≡ false
      → lookup Value operation.identity registry ≡ none
      → register Value operation registry ≡ (
        record registry { operations = (operation.identity, operation) ∷ registry.operations },
        ok tt,
      )
  unfolding register
  register-fresh operation registry h fresh = rw (h, fresh) refl

  register-taken :
      (operation : CapabilityOperation Value) (registry : OperationRegistry Value)
      {other : CapabilityOperation Value}
      → is_frozen Value registry ≡ false
      → lookup Value operation.identity registry ≡ some other
      → register Value operation registry ≡ (
        registry,
        err (runtime_error "operation registry contains a duplicate exact capability identity"),
      )
  unfolding register
  register-taken operation registry h taken = rw (h, taken) refl

  register-frozen :
      (operation : CapabilityOperation Value) (registry : OperationRegistry Value)
      → is_frozen Value registry ≡ true
      → register Value operation registry
        ≡ (registry, err (runtime_error "operation registry is frozen"))
  unfolding register
  register-frozen operation registry h = rw (h) refl

  lookup-insert :
      (operation : CapabilityOperation Value) (registry : OperationRegistry Value)
      (identity : CapabilityIdentity)
      → lookup Value identity
          (record registry { operations = (operation.identity, operation) ∷ registry.operations })
        ≡ (if operation.identity == identity
            then some operation
            else lookup Value identity registry)
  unfolding lookup
  lookup-insert operation registry identity = elim (Bool-cases (operation.identity == identity)) [
    | inl same ↦ rw (same) refl
    | inr other ↦ rw (other) refl
  ]

  -- What is found after a registration: what was there, or else the operation.
  register-lookup :
      (operation : CapabilityOperation Value) (registry : OperationRegistry Value)
      (identity : CapabilityIdentity)
      → is_frozen Value registry ≡ false
      → (is_frozen Value (register Value operation registry).0 ≡ false)
        × (lookup Value identity (register Value operation registry).0
            ≡ or_else
                (lookup Value identity registry)
                (if operation.identity == identity then some operation else none))
  register-lookup operation registry identity h =
      elim (Option-cases (lookup Value operation.identity registry)) [
        | inl fresh ↦
            let e = ap (λ x. x.0) (register-fresh operation registry h fresh) in
            (
              ap (is_frozen Value) e ∙ h,
              ap (lookup Value identity) e
                  ∙ lookup-insert operation registry identity
                  ∙ prefer operation.identity identity operation (λ id. lookup Value id registry)
                      fresh,
            )
        | inr (other, taken) ↦
            let e = ap (λ x. x.0) (register-taken operation registry h taken) in
            (
              ap (is_frozen Value) e ∙ h,
              ap (lookup Value identity) e
                  ∙ keep operation.identity identity operation other
                      (λ id. lookup Value id registry) taken,
            )
      ]

  register_all-lookup :
      (operations : List (CapabilityOperation Value)) (registry : OperationRegistry Value)
      (identity : CapabilityIdentity)
      → is_frozen Value registry ≡ false
      → lookup Value identity (register_all operations registry)
        ≡ or_else (lookup Value identity registry) (first_with identity operations)
  register_all-lookup [] registry identity h = sym (or_else_none (lookup Value identity registry))
  register_all-lookup (operation ∷ operations) registry identity h =
      let (open_, now) = register-lookup operation registry identity h in
      register_all-lookup operations (register Value operation registry).0 identity open_
      ∙ ap (λ o. or_else o (first_with identity operations)) now
      ∙ or_else_if (lookup Value identity registry) (operation.identity == identity) operation
          (first_with identity operations)

  -- After any registrations, a registry that is frozen resolves every identity to the first
  -- operation that was given with it, and refuses it if there was none; and it refuses every further
  -- registration and stays as it is.
  pub resolve-register_all :
      (operations : List (CapabilityOperation Value)) (backend : AuthorizationBackend)
      → (frozen : OperationRegistry Value) × (freeze Value backend
            (register_all operations (new_registry Value))
          ≡ ok frozen)
        × ((identity : CapabilityIdentity)
            → resolve Value identity frozen
              ≡ required "no trusted operation is registered for the exact capability identity"
                  (first_with identity operations))
        × ((operation : CapabilityOperation Value)
            → register Value operation frozen
              ≡ (frozen, err (runtime_error "operation registry is frozen")))
  unfolding freeze resolve lookup
  resolve-register_all operations backend =
      let registry = register_all operations (new_registry Value) in
      (
        record registry { authorization_backend = some backend },
        refl,
        λ identity.
            ap (required "no trusted operation is registered for the exact capability identity")
              (register_all-lookup operations (new_registry Value) identity refl),
        λ operation.
            register-frozen operation (record registry { authorization_backend = some backend })
              refl,
      )
