-- ===== src/Authority/Intersect.antt =====
-- The intersection of authority terms (crates/kiteframe-provider/src/authority.rs,
-- crates/kiteframe-contract/src/service.rs and ir.rs).
pub mod Bounded
pub mod Granted
pub mod Preconditions
pub mod Shared
pub mod Monotone
use Prim.Native.String.{compare}
use kiteframe.Base.{
  ℕ, Bool, true, false, not, ◌&&◌, ◌||◌, Option, none, some, List, [], ◌∷◌, ◌++◌, String, Result,
  ok, err, ◌>>=◌, ◌>>◌, refuse_if, map_err, any, all, is_empty, ◌==◌, if◌then◌else◌, leb,
}
use kiteframe.Base.Ordered.{sort_dedup}
use kiteframe.Contract.Diagnostic.{Diagnostic}
use kiteframe.Contract.Refs.{NormalizedResourceSelector, Timestamp, string_ref}
use kiteframe.Contract.Capability.{
  CapabilityDescriptor, ExecutionMode, EffectClassification, effect_rank, FreshnessRequirement,
  PreconditionDescriptor, RequiredEvidence, EffectiveCapabilityGrant, ResolvedCapabilityRequirement,
  identity_eq, precondition_eq,
}
use kiteframe.Authority.Bounds.{
  denied, intersect_evidence, intersect_freshness, min, min_effect, intersect_modes, modes_subset,
  compare_precondition, evidence_is_at_least, freshness_is_at_least,
}
use kiteframe.Authority.Resources.{denied_by, narrow_resources, reaches}

pub data AuthorityTerm : Type 0 where
  allow : EffectiveCapabilityGrant → AuthorityTerm
  deny : String → AuthorityTerm

-- `AuthorityTerm::is_explicit_deny`
unfoldable pub is_explicit_deny : AuthorityTerm → Bool
is_explicit_deny (allow grant) = false
is_explicit_deny (deny name) = true

-- `AuthorityTerm::allow_value`, over a list as `filter_map` runs it.
unfoldable pub allow_values : List AuthorityTerm → List EffectiveCapabilityGrant
allow_values [] = []
allow_values (allow grant ∷ terms) = grant ∷ allow_values terms
allow_values (deny name ∷ terms) = allow_values terms

-- The parts of a grant with its lists sorted, without repetitions.
unfoldable pub sorted_parts : EffectiveCapabilityGrant → EffectiveCapabilityGrant
sorted_parts parts = record {
  capability = parts.capability;
  resources = sort_dedup compare parts.resources;
  execution_modes = parts.execution_modes;
  maximum_effect = parts.maximum_effect;
  expires_at = parts.expires_at;
  required_evidence = parts.required_evidence;
  freshness = parts.freshness;
  preconditions = sort_dedup compare_precondition parts.preconditions;
}

-- `EffectiveCapabilityGrant::try_new`
unfoldable pub grant_try_new : EffectiveCapabilityGrant → Result String EffectiveCapabilityGrant
unfolding sorted_parts
grant_try_new parts = do
  refuse_if (is_empty (sorted_parts parts).resources)
      "effective capability grant must have at least one resource selector"
  ok (sorted_parts parts)

-- `NormalizedResourceSelector::new` on every resource, up to the first that fails.
unfoldable pub normalized : List String → Result String (List NormalizedResourceSelector)
normalized [] = ok []
normalized (r ∷ resources) = do
  first ← string_ref "resource selector is required" r
  rest ← normalized resources
  ok (first ∷ rest)

-- `NonEmptySet::try_new`
unfoldable pub non_empty_set : List ExecutionMode → Result String (List ExecutionMode)
non_empty_set values = refuse_if (is_empty values) "set must not be empty" >> ok values

-- ------------------------------------------------------------------ the folds over the grants

-- A bound, met with the bound of every grant in turn.
abbrev pub meet_all :
    {B : Type 0}
    → (B → B → B)
    → (EffectiveCapabilityGrant → B)
    → B
    → List EffectiveCapabilityGrant
    → B
meet_all meet bound b [] = b
meet_all meet bound b (g ∷ gs) = meet_all meet bound (meet b (bound g)) gs

unfoldable pub shared_modes :
    List ExecutionMode → List EffectiveCapabilityGrant → List ExecutionMode
shared_modes = meet_all intersect_modes (λ g. g.execution_modes)

unfoldable pub least_effect :
    EffectClassification → List EffectiveCapabilityGrant → EffectClassification
least_effect = meet_all min_effect (λ g. g.maximum_effect)

-- `min` of a non-empty iterator, the first grant apart.
unfoldable pub earliest : Timestamp → List EffectiveCapabilityGrant → Timestamp
earliest = meet_all min (λ g. g.expires_at)

unfoldable pub joint_evidence :
    RequiredEvidence → List EffectiveCapabilityGrant → Result (List Diagnostic) RequiredEvidence
joint_evidence evidence [] = ok evidence
joint_evidence evidence (g ∷ gs) =
    intersect_evidence evidence g.required_evidence >>= λ joint. joint_evidence joint gs

unfoldable pub joint_freshness :
    FreshnessRequirement → List EffectiveCapabilityGrant → FreshnessRequirement
joint_freshness = meet_all intersect_freshness (λ g. g.freshness)

unfoldable pub all_preconditions :
    List PreconditionDescriptor → List EffectiveCapabilityGrant → List PreconditionDescriptor
all_preconditions = meet_all (λ xs ys. xs ++ ys) (λ g. g.preconditions)

-- ------------------------------------------------------------------ the intersection

-- The evidence that a descriptor demands.
abbrev pub demanded_evidence : CapabilityDescriptor → RequiredEvidence
demanded_evidence descriptor = record {
  confirmation = descriptor.confirmation;
  approval = descriptor.approval;
  consent = descriptor.consent;
}

-- The parts of the grant that `intersect_authority` builds, the first grant apart.
unfoldable pub shared_parts :
    ResolvedCapabilityRequirement
    → List NormalizedResourceSelector
    → List ExecutionMode
    → RequiredEvidence
    → EffectiveCapabilityGrant
    → List EffectiveCapabilityGrant
    → EffectiveCapabilityGrant
shared_parts requirement selectors modes evidence g gs =
    let descriptor = requirement.locked_capability.descriptor in
    record {
      capability = requirement.locked_capability.identity;
      resources = selectors;
      execution_modes = modes;
      maximum_effect = least_effect descriptor.effect (g ∷ gs);
      expires_at = earliest g.expires_at gs;
      required_evidence = evidence;
      freshness = joint_freshness descriptor.freshness (g ∷ gs);
      preconditions =
          sort_dedup compare_precondition (all_preconditions descriptor.preconditions (g ∷ gs));
    }

-- `intersect_authority` from the shared resources on.
unfoldable pub grant_shared :
    ResolvedCapabilityRequirement
    → List String
    → EffectiveCapabilityGrant
    → List EffectiveCapabilityGrant
    → Result (List Diagnostic) (Option EffectiveCapabilityGrant)
unfolding shared_parts
grant_shared requirement resources g gs =
    let descriptor = requirement.locked_capability.descriptor in
    let modes = shared_modes descriptor.execution_modes (g ∷ gs) in
    if is_empty modes then ok none else (do
      evidence ← joint_evidence (demanded_evidence descriptor) (g ∷ gs)
      selectors ← denied_by (normalized resources)
      set ← denied_by (non_empty_set modes)
      grant ← denied_by (grant_try_new (shared_parts requirement selectors set evidence g gs))
      ok (some grant))

-- `intersect_authority` behind its guards.
unfoldable pub intersect_grants :
    ResolvedCapabilityRequirement
    → List EffectiveCapabilityGrant
    → Result (List Diagnostic) (Option EffectiveCapabilityGrant)
unfolding grant_shared
intersect_grants requirement [] = ok none
intersect_grants requirement (g ∷ gs) =
    narrow_resources requirement.resources (g ∷ gs) >>= λ shared. elim shared [
      | none ↦ ok none
      | some resources ↦ grant_shared requirement resources g gs
    ]

-- Some grant is for another capability.
abbrev pub names_another : ResolvedCapabilityRequirement → List EffectiveCapabilityGrant → Bool
names_another requirement grants =
    any (λ g. not (g.capability == requirement.locked_capability.identity)) grants

-- `intersect_authority`
unfoldable pub intersect_authority :
    ResolvedCapabilityRequirement
    → List AuthorityTerm
    → Result (List Diagnostic) (Option EffectiveCapabilityGrant)
unfolding intersect_grants
intersect_authority requirement terms =
    if is_empty terms || any is_explicit_deny terms
    then ok none
    else if is_empty (allow_values terms) || names_another requirement (allow_values terms)
    then ok none
    else intersect_grants requirement (allow_values terms)

-- `EffectiveGrantSubset::is_subset_of`
unfoldable pub is_subset_of : EffectiveCapabilityGrant → EffectiveCapabilityGrant → Bool
is_subset_of grant other =
    grant.capability == other.capability
    && all (λ r. reaches r other.resources) grant.resources
    && modes_subset grant.execution_modes other.execution_modes
    && leb (effect_rank grant.maximum_effect) (effect_rank other.maximum_effect)
    && leb grant.expires_at other.expires_at
    && evidence_is_at_least grant.required_evidence other.required_evidence
    && freshness_is_at_least grant.freshness other.freshness
    && all (λ required. any (λ p. p == required) grant.preconditions) other.preconditions
