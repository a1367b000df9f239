-- ===== src/Authority/Intersect/Granted.antt =====
-- What `intersect_authority` grants (crates/kiteframe-provider/src/authority.rs) against the
-- requirement and the terms.
use mathlib.Core.Option.{none-ne-some}
use kiteframe.Base.{
  Bool, true, false, ◌||◌, Option, none, some, List, [], ◌∷◌, String, Result, ok, any, is_empty,
  if◌then◌else◌, ◌≡◌, Path, ◌∙◌, sym, ap, refl, arith, subst, >>=-eq_ok, ok-injective,
  map_err-eq_ok, some_injective, unrefused,
}
use kiteframe.Contract.Diagnostic.{Diagnostic}
use kiteframe.Contract.Refs.{string_ref}
use kiteframe.Contract.Capability.{
  ExecutionMode, RequiredEvidence, EffectiveCapabilityGrant, ResolvedCapabilityRequirement,
  identity_eq, precondition_eq,
}
use kiteframe.Authority.Resources.{denied_by, narrow_resources}
use kiteframe.Authority.Intersect.{
  AuthorityTerm, is_explicit_deny, allow_values, sorted_parts, shared_parts, demanded_evidence,
  grant_try_new, normalized, non_empty_set, shared_modes, joint_evidence, grant_shared,
  intersect_grants, names_another, intersect_authority,
}

string_ref-eq_ok :
    (message value : String) {v : String} → string_ref message value ≡ ok v → v ≡ value
unfolding string_ref
string_ref-eq_ok message value h = ground arith

normalized-eq_ok : (xs : List String) {ys : List String} → normalized xs ≡ ok ys → ys ≡ xs
unfolding normalized
normalized-eq_ok [] h = sym (ok-injective h)
normalized-eq_ok (x ∷ xs) h =
    let first = >>=-eq_ok (string_ref _ x) _ h in
    let rest = >>=-eq_ok (normalized xs) _ first.2 in
    sym (ok-injective rest.2) ∙ rw (string_ref-eq_ok _ x first.1, normalized-eq_ok xs rest.1) refl

non_empty_set-eq_ok :
    (modes : List ExecutionMode) {set : List ExecutionMode}
    → non_empty_set modes ≡ ok set
    → set ≡ modes
unfolding non_empty_set
non_empty_set-eq_ok modes h = sym (unrefused (is_empty modes) _ h)

grant_try_new-eq_ok :
    (parts : EffectiveCapabilityGrant) {granted : EffectiveCapabilityGrant}
    → grant_try_new parts ≡ ok granted
    → granted ≡ sorted_parts parts
unfolding grant_try_new
grant_try_new-eq_ok parts h = sym (unrefused (is_empty (sorted_parts parts).resources) _ h)

-- The intersection's parts, when it grants.
pub record Granted (requirement : ResolvedCapabilityRequirement) (g : EffectiveCapabilityGrant)
    (gs : List EffectiveCapabilityGrant) (granted : EffectiveCapabilityGrant) : Type 0 where
  pub shared : List String
  pub narrowed : narrow_resources requirement.resources (g ∷ gs) ≡ ok (some shared)
  pub evidence : RequiredEvidence
  pub joint :
      joint_evidence (demanded_evidence requirement.locked_capability.descriptor) (g ∷ gs)
      ≡ ok evidence
  pub whole :
      granted
      ≡ sorted_parts (
          shared_parts requirement shared
            (shared_modes requirement.locked_capability.descriptor.execution_modes (g ∷ gs))
            evidence
            g
            gs)

grant_shared-Granted :
    (requirement : ResolvedCapabilityRequirement) (resources : List String)
    (g : EffectiveCapabilityGrant) (gs : List EffectiveCapabilityGrant)
    {granted : EffectiveCapabilityGrant}
    → narrow_resources requirement.resources (g ∷ gs) ≡ ok (some resources)
    → grant_shared requirement resources g gs ≡ ok (some granted)
    → Granted requirement g gs granted
unfolding grant_shared
grant_shared-Granted requirement resources g gs {granted} n h =
    let descriptor = requirement.locked_capability.descriptor in
    let modes = shared_modes descriptor.execution_modes (g ∷ gs) in
    let demanded = demanded_evidence descriptor in
    let e = >>=-eq_ok (joint_evidence demanded (g ∷ gs)) _ (some_of (is_empty modes) _ h) in
    let s = >>=-eq_ok (denied_by (normalized resources)) _ e.2 in
    let m = >>=-eq_ok (denied_by (non_empty_set modes)) _ s.2 in
    let parts = shared_parts requirement s.0 m.0 e.0 g gs in
    let t = >>=-eq_ok (denied_by (grant_try_new parts)) _ m.2 in
    let selectors = normalized-eq_ok resources (map_err-eq_ok _ (normalized resources) s.1) in
    let set = non_empty_set-eq_ok modes (map_err-eq_ok _ (non_empty_set modes) m.1) in
    let built = grant_try_new-eq_ok parts (map_err-eq_ok _ (grant_try_new parts) t.1) in
    record {
      shared = resources;
      narrowed = n;
      evidence = e.0;
      joint = e.1;
      whole =
          sym (some_injective (ok-injective t.2))
          ∙ built
          ∙ ap (λ r. sorted_parts (shared_parts requirement r m.0 e.0 g gs)) selectors
          ∙ ap (λ k. sorted_parts (shared_parts requirement resources k e.0 g gs)) set;
    }
  where
    some_of :
        (b : Bool) (m : Result (List Diagnostic) (Option EffectiveCapabilityGrant))
        → (if b then ok none else m) ≡ ok (some granted)
        → m ≡ ok (some granted)
    some_of true m k = absurd (none-ne-some granted (ok-injective k))
    some_of false m k = k

-- ------------------------------------------------------------------ the terms

-- A grant comes of terms that all allow the requirement's capability.
pub record Allowed (requirement : ResolvedCapabilityRequirement) (terms : List AuthorityTerm)
    (granted : EffectiveCapabilityGrant) : Type 0 where
  pub g : EffectiveCapabilityGrant
  pub gs : List EffectiveCapabilityGrant
  pub no_deny : any is_explicit_deny terms ≡ false
  pub allowed : allow_values terms ≡ g ∷ gs
  pub named : names_another requirement (g ∷ gs) ≡ false
  pub parts : Granted requirement g gs granted

intersect_grants-Granted :
    (requirement : ResolvedCapabilityRequirement) (grants : List EffectiveCapabilityGrant)
    {granted : EffectiveCapabilityGrant}
    → intersect_grants requirement grants ≡ ok (some granted)
    → (g : EffectiveCapabilityGrant) × (gs : List EffectiveCapabilityGrant) × (grants ≡ g ∷ gs)
      × Granted requirement g gs granted
unfolding intersect_grants
intersect_grants-Granted requirement [] h = absurd (none-ne-some _ (ok-injective h))
intersect_grants-Granted requirement (g ∷ gs) {granted} h =
    let n = >>=-eq_ok (narrow_resources requirement.resources (g ∷ gs)) _ h in
    (g, gs, refl, go n.0 n.1 n.2)
  where
    go :
        (o : Option (List String))
        → narrow_resources requirement.resources (g ∷ gs) ≡ ok o
        → (elim o [ none ↦ ok none | some resources ↦ grant_shared requirement resources g gs ])
          ≡ ok (some granted)
        → Granted requirement g gs granted
    go none n k = absurd (none-ne-some granted (ok-injective k))
    go (some resources) n k = grant_shared-Granted requirement resources g gs n k

pub intersect_authority-Allowed :
    (requirement : ResolvedCapabilityRequirement) (terms : List AuthorityTerm)
    {granted : EffectiveCapabilityGrant}
    → intersect_authority requirement terms ≡ ok (some granted)
    → Allowed requirement terms granted
unfolding intersect_authority
intersect_authority-Allowed requirement terms {granted} h =
    let grants = allow_values terms in
    let first = some_of (is_empty terms || any is_explicit_deny terms) _ h in
    let second = some_of (is_empty grants || names_another requirement grants) _ first.1 in
    let parts = intersect_grants-Granted requirement grants second.1 in
    record {
      g = parts.0;
      gs = parts.1;
      no_deny = or_false_right (is_empty terms) _ first.0;
      allowed = parts.2;
      named =
          subst (λ k. names_another requirement k ≡ false) parts.2
            (or_false_right (is_empty grants) _ second.0);
      parts = parts.3;
    }
  where
    some_of :
        (b : Bool) (m : Result (List Diagnostic) (Option EffectiveCapabilityGrant))
        → Path
            (Result (List Diagnostic) (Option EffectiveCapabilityGrant))
            (if b then ok none else m)
            (ok (some granted))
        → (b ≡ false) × (m ≡ ok (some granted))
    some_of true m k = absurd (none-ne-some granted (ok-injective k))
    some_of false m k = (refl, k)

    or_false_right : (a b : Bool) → (a || b) ≡ false → b ≡ false
    or_false_right a b k = ground arith
