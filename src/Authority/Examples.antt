-- ===== src/Authority/Examples.antt =====
-- Concrete selectors, grants and terms on which the theorems about authority apply.
use mathlib.Core.Option
use kiteframe.Base.{
  true, false, none, some, List, [], ◌∷◌, ok, refl, ◌≡◌, ◌&&◌, all, Char-discrete, Chars-discrete,
  String-discrete, ℕ_discrete, is_blank,
}
use kiteframe.Contract.Refs.{string_ref, zero_bytes}
use kiteframe.Contract.Capability.{
  CapabilityIdentity, CapabilityDescriptor, ExecutionMode, EffectClassification,
  FreshnessRequirement, PreconditionKind, PreconditionDescriptor, ConfirmationRequirement,
  ApprovalRequirement, ConsentRequirement, RequiredEvidence, EffectiveCapabilityGrant,
  ResolvedCapabilityRequirement, none_required, CapabilityIdentity-discrete, ExecutionMode-discrete,
  PreconditionDescriptor-discrete, EvidenceRequirement-discrete,
}
use kiteframe.Authority.Selector.{
  ParsedSelector, parse, render, contains, begins_with, scan, is_separator, is_partial_wildcard,
  resource_selector_is_subset, intersect_resource_selectors, intersect_parsed, intersect_segments,
  meet_segment, push_segment, same_shape, parsed_is_subset, all_covered, render_chars, render_rest,
}
use kiteframe.Authority.Selector.Text.{IsSelector, parse-render, parse-IsSelector}
use kiteframe.Authority.Selector.Meet.{contained_in, intersect_resource_selectors-meet}
use kiteframe.Authority.Selector.Preorder.{subset_trans}
use kiteframe.Authority.Resources.{
  reaches, intersect_resource_sets, intersect_with_each, intersect_each, narrow_resources,
  validate_selector,
}
use kiteframe.Authority.Bounds.{
  intersect_evidence, confirmation_intersection, approval_intersection, consent_intersection,
  intersect_modes, min_effect, intersect_freshness, minimum_bound, compare_precondition,
}
use kiteframe.Authority.Intersect.{
  AuthorityTerm, allow, intersect_authority, intersect_grants, grant_shared, shared_parts,
  sorted_parts, grant_try_new, normalized, non_empty_set, shared_modes, least_effect, earliest,
  joint_evidence, joint_freshness, all_preconditions, is_explicit_deny, allow_values,
}
use kiteframe.Authority.Intersect.Shared.{term_reaches, intersect_authority-reaches}
use kiteframe.Authority.Intersect.Monotone.{
  term_contains, WithinRequirement, intersect_authority-subset, intersect_authority-within,
}

-- ------------------------------------------------------------------ selectors

intersect_resource_selectors-meet_example :
    contained_in "docs/7:read" (intersect_resource_selectors "docs/*:read" "*/7:read") ≡ (
      resource_selector_is_subset "docs/7:read" "docs/*:read"
      && resource_selector_is_subset "docs/7:read" "*/7:read")
intersect_resource_selectors-meet_example =
    intersect_resource_selectors-meet "docs/7:read" "docs/*:read" "*/7:read"

-- The two selectors of the witness have a selector in common.
intersection_test : intersect_resource_selectors "docs/*:read" "*/7:read" ≡ ok (some "docs/7:read")
unfolding intersect_resource_selectors parse contains begins_with scan is_separator
    is_partial_wildcard intersect_parsed intersect_segments meet_segment push_segment same_shape
    render render_chars render_rest Char-discrete Chars-discrete ℕ_discrete Option.map
intersection_test = refl

subset_test : resource_selector_is_subset "docs/7" "docs/*" ≡ true
unfolding resource_selector_is_subset parse contains begins_with scan is_separator
    is_partial_wildcard parsed_is_subset same_shape all_covered Char-discrete Chars-discrete
    ℕ_discrete
subset_test = refl

subset_test_wide : resource_selector_is_subset "docs/*" "*/*" ≡ true
unfolding resource_selector_is_subset parse contains begins_with scan is_separator
    is_partial_wildcard parsed_is_subset same_shape all_covered Char-discrete Chars-discrete
    ℕ_discrete
subset_test_wide = refl

subset_trans_example : resource_selector_is_subset "docs/7" "*/*" ≡ true
subset_trans_example = subset_trans "docs/7" "docs/*" "*/*" subset_test subset_test_wide

abbrev docs : ParsedSelector
docs = record { segments = ("d" ∷ "o" ∷ []) ∷ ("*" ∷ []) ∷ []; separators = "/" ∷ [] }

parse_test : parse "do/*" ≡ ok docs
unfolding parse contains begins_with scan is_separator is_partial_wildcard Char-discrete
    Chars-discrete ℕ_discrete
parse_test = refl

parse-IsSelector_example : IsSelector docs × (render docs ≡ "do/*")
parse-IsSelector_example = parse-IsSelector "do/*" parse_test

parse-render_example : parse (render docs) ≡ ok docs
parse-render_example = parse-render docs parse-IsSelector_example.0

-- ------------------------------------------------------------------ authority

abbrev identity : CapabilityIdentity
identity = record { name = "docs.edit"; version = "1" }

abbrev no_freshness : FreshnessRequirement
no_freshness = record {
  max_admission_age_seconds = none;
  policy_revision_required = false;
  max_input_age_seconds = none;
}

abbrev descriptor : CapabilityDescriptor
descriptor = record {
  identity = identity;
  summary = "edit";
  stable_errors = [];
  execution_modes = ExecutionMode.immediate ∷ ExecutionMode.deferred ∷ [];
  effect = EffectClassification.irreversible_write;
  idempotency = none_required;
  freshness = no_freshness;
  preconditions = [];
  confirmation = ConfirmationRequirement.none;
  approval = ApprovalRequirement.none;
  consent = ConsentRequirement.none;
  descriptor_digest = zero_bytes 32;
}

abbrev requirement : ResolvedCapabilityRequirement
requirement = record {
  locked_capability = record {
    identity = identity;
    descriptor = descriptor;
    descriptor_digest = zero_bytes 32;
    input_schema_digest = zero_bytes 32;
    output_schema_digest = zero_bytes 32;
    stable_error_set_digest = zero_bytes 32;
    safety_metadata_digest = zero_bytes 32;
  };
  required = true;
  resources = "docs/*" ∷ [];
}

abbrev evidence : ConfirmationRequirement → RequiredEvidence
evidence confirmation = record {
  confirmation = confirmation;
  approval = ApprovalRequirement.none;
  consent = ConsentRequirement.none;
}

abbrev signed : ConfirmationRequirement
signed = ConfirmationRequirement.required (record { kind = "signature"; issuer = none })

abbrev etag : PreconditionDescriptor
etag = record { name = "etag"; kind = PreconditionKind.etag; required = true }

abbrev wide_grant : EffectiveCapabilityGrant
wide_grant = record {
  capability = identity;
  resources = "*/7" ∷ "notes/1" ∷ [];
  execution_modes = ExecutionMode.immediate ∷ ExecutionMode.suspendable ∷ [];
  maximum_effect = EffectClassification.external_side_effect;
  expires_at = 90;
  required_evidence = evidence signed;
  freshness = no_freshness;
  preconditions = [];
}

abbrev narrow_grant : EffectiveCapabilityGrant
narrow_grant = record {
  capability = identity;
  resources = "docs/7" ∷ "docs/8" ∷ [];
  execution_modes = ExecutionMode.immediate ∷ [];
  maximum_effect = EffectClassification.reversible_write;
  expires_at = 60;
  required_evidence = evidence ConfirmationRequirement.none;
  freshness = record {
    max_admission_age_seconds = some 30;
    policy_revision_required = true;
    max_input_age_seconds = none;
  };
  preconditions = etag ∷ [];
}

abbrev terms : List AuthorityTerm
terms = allow wide_grant ∷ allow narrow_grant ∷ []

abbrev granted : EffectiveCapabilityGrant
granted = record {
  capability = identity;
  resources = "docs/7" ∷ [];
  execution_modes = ExecutionMode.immediate ∷ [];
  maximum_effect = EffectClassification.reversible_write;
  expires_at = 60;
  required_evidence = evidence signed;
  freshness = narrow_grant.freshness;
  preconditions = etag ∷ [];
}

intersect_authority_test : intersect_authority requirement terms ≡ ok (some granted)
unfolding intersect_authority intersect_grants grant_shared shared_parts sorted_parts grant_try_new
    normalized non_empty_set string_ref shared_modes least_effect earliest joint_evidence
    joint_freshness all_preconditions is_explicit_deny allow_values intersect_evidence
    confirmation_intersection approval_intersection consent_intersection intersect_modes min_effect
    intersect_freshness minimum_bound compare_precondition narrow_resources intersect_resource_sets
    intersect_each intersect_with_each validate_selector intersect_resource_selectors parse contains
    begins_with scan is_separator is_partial_wildcard intersect_parsed intersect_segments
    meet_segment push_segment same_shape render render_chars render_rest Char-discrete
    Chars-discrete ℕ_discrete Option.map String-discrete CapabilityIdentity-discrete
    ExecutionMode-discrete PreconditionDescriptor-discrete EvidenceRequirement-discrete is_blank
intersect_authority_test = refl

intersect_authority-reaches_example :
    reaches "docs/7" granted.resources
    ≡ (reaches "docs/7" requirement.resources && all (term_reaches "docs/7") terms)
intersect_authority-reaches_example =
    intersect_authority-reaches "docs/7" requirement terms intersect_authority_test

intersect_authority-subset_example : all (term_contains granted) terms ≡ true
intersect_authority-subset_example =
    intersect_authority-subset requirement terms intersect_authority_test

intersect_authority-within_example : WithinRequirement granted requirement
intersect_authority-within_example =
    intersect_authority-within requirement terms intersect_authority_test
