-- ===== src/Authority/Bounds.antt =====
-- The bounds of a grant other than its resources (crates/kiteframe-provider/src/authority.rs): how
-- each is intersected, and the test that one is at least as strict as another.
use Prim.Native.Nat.{Ordering, compare as compare_ℕ}
use Prim.Native.String.{compare, then as first_of}
use kiteframe.Base.{
  ℕ, Bool, true, false, not, ◌&&◌, ◌||◌, Option, none, some, List, [], ◌∷◌, String, Result, ok, err,
  ◌>>=◌, any, all, retain, ◌==◌, if◌then◌else◌, leb,
}
use kiteframe.Contract.Diagnostic.{
  Diagnostic, DiagnosticCode, DiagnosticCategory, DiagnosticStage, diagnostic_error,
}
use kiteframe.Contract.Capability.{
  ExecutionMode, EffectClassification, effect_rank, FreshnessRequirement, PreconditionKind,
  PreconditionDescriptor, ConfirmationRequirement, ApprovalRequirement, ConsentRequirement,
  RequiredEvidence, mode_eq, precondition_eq, evidence_eq, confirmation_eq, approval_eq, consent_eq,
}

-- `denied`
unfoldable pub denied : String → Diagnostic
unfolding diagnostic_error
denied message =
    diagnostic_error DiagnosticCode.admission_denied DiagnosticCategory.authorization
      DiagnosticStage.admit message

-- ------------------------------------------------------------------ evidence

-- `confirmation_intersection`
unfoldable pub confirmation_intersection :
    ConfirmationRequirement
    → ConfirmationRequirement
    → Result (List Diagnostic) ConfirmationRequirement
confirmation_intersection ConfirmationRequirement.none value = ok value
confirmation_intersection (ConfirmationRequirement.required left) ConfirmationRequirement.none =
    ok (ConfirmationRequirement.required left)
confirmation_intersection (ConfirmationRequirement.required left)
      (ConfirmationRequirement.required right) =
    if left == right
    then ok (ConfirmationRequirement.required left)
    else err (denied "confirmation evidence requirements conflict" ∷ [])

-- `approval_intersection`
unfoldable pub approval_intersection :
    ApprovalRequirement → ApprovalRequirement → Result (List Diagnostic) ApprovalRequirement
approval_intersection ApprovalRequirement.none value = ok value
approval_intersection (ApprovalRequirement.required left) ApprovalRequirement.none =
    ok (ApprovalRequirement.required left)
approval_intersection (ApprovalRequirement.required left) (ApprovalRequirement.required right) =
    if left == right
    then ok (ApprovalRequirement.required left)
    else err (denied "approval evidence requirements conflict" ∷ [])

-- `consent_intersection`
unfoldable pub consent_intersection :
    ConsentRequirement → ConsentRequirement → Result (List Diagnostic) ConsentRequirement
consent_intersection ConsentRequirement.none value = ok value
consent_intersection (ConsentRequirement.required left) ConsentRequirement.none =
    ok (ConsentRequirement.required left)
consent_intersection (ConsentRequirement.required left) (ConsentRequirement.required right) =
    if left == right
    then ok (ConsentRequirement.required left)
    else err (denied "consent evidence requirements conflict" ∷ [])

-- `intersect_evidence`
unfoldable pub intersect_evidence :
    RequiredEvidence → RequiredEvidence → Result (List Diagnostic) RequiredEvidence
intersect_evidence left right = do
  confirmation ← confirmation_intersection left.confirmation right.confirmation
  approval ← approval_intersection left.approval right.approval
  consent ← consent_intersection left.consent right.consent
  ok (record { confirmation = confirmation; approval = approval; consent = consent })

-- `confirmation_is_at_least`
unfoldable pub confirmation_is_at_least : ConfirmationRequirement → ConfirmationRequirement → Bool
confirmation_is_at_least effective ConfirmationRequirement.none = true
confirmation_is_at_least effective (ConfirmationRequirement.required e) =
    effective == ConfirmationRequirement.required e

-- `approval_is_at_least`
unfoldable pub approval_is_at_least : ApprovalRequirement → ApprovalRequirement → Bool
approval_is_at_least effective ApprovalRequirement.none = true
approval_is_at_least effective (ApprovalRequirement.required e) =
    effective == ApprovalRequirement.required e

-- `consent_is_at_least`
unfoldable pub consent_is_at_least : ConsentRequirement → ConsentRequirement → Bool
consent_is_at_least effective ConsentRequirement.none = true
consent_is_at_least effective (ConsentRequirement.required e) =
    effective == ConsentRequirement.required e

-- `evidence_is_at_least`
unfoldable pub evidence_is_at_least : RequiredEvidence → RequiredEvidence → Bool
evidence_is_at_least effective baseline =
    confirmation_is_at_least effective.confirmation baseline.confirmation
    && approval_is_at_least effective.approval baseline.approval
    && consent_is_at_least effective.consent baseline.consent

-- ------------------------------------------------------------------ freshness

abbrev pub min : ℕ → ℕ → ℕ
min a b = if leb a b then a else b

-- `minimum_bound`
unfoldable pub minimum_bound : Option ℕ → Option ℕ → Option ℕ
minimum_bound (some left) (some right) = some (min left right)
minimum_bound (some value) none = some value
minimum_bound none value = value

-- `intersect_freshness`
unfoldable pub intersect_freshness :
    FreshnessRequirement → FreshnessRequirement → FreshnessRequirement
unfolding minimum_bound
intersect_freshness left right = record {
  max_admission_age_seconds =
      minimum_bound left.max_admission_age_seconds right.max_admission_age_seconds;
  policy_revision_required = left.policy_revision_required || right.policy_revision_required;
  max_input_age_seconds = minimum_bound left.max_input_age_seconds right.max_input_age_seconds;
}

-- `bound_is_at_least`
unfoldable pub bound_is_at_least : Option ℕ → Option ℕ → Bool
bound_is_at_least effective none = true
bound_is_at_least (some effective) (some baseline) = leb effective baseline
bound_is_at_least none (some baseline) = false

-- `freshness_is_at_least`
unfoldable pub freshness_is_at_least : FreshnessRequirement → FreshnessRequirement → Bool
unfolding bound_is_at_least
freshness_is_at_least effective baseline =
    bound_is_at_least effective.max_admission_age_seconds baseline.max_admission_age_seconds
    && bound_is_at_least effective.max_input_age_seconds baseline.max_input_age_seconds
    && (not baseline.policy_revision_required || effective.policy_revision_required)

-- ------------------------------------------------------------------ the sets and the effect

-- `effect.min(other)` in the derived order of `EffectClassification`.
unfoldable pub min_effect : EffectClassification → EffectClassification → EffectClassification
min_effect a b = if leb (effect_rank a) (effect_rank b) then a else b

-- `BTreeSet::intersection`
unfoldable pub intersect_modes : List ExecutionMode → List ExecutionMode → List ExecutionMode
intersect_modes left right = retain (λ m. any (λ other. other == m) right) left

-- `BTreeSet::is_subset`
unfoldable pub modes_subset : List ExecutionMode → List ExecutionMode → Bool
modes_subset modes others = all (λ m. any (λ other. other == m) others) modes

abbrev pub kind_rank : PreconditionKind → ℕ
kind_rank PreconditionKind.entity_version = 0
kind_rank PreconditionKind.etag = 1

abbrev pub flag_rank : Bool → ℕ
flag_rank false = 0
flag_rank true = 1

-- The derived order of `PreconditionDescriptor`: field by field.
unfoldable pub compare_precondition : PreconditionDescriptor → PreconditionDescriptor → Ordering
compare_precondition a b = first_of (compare a.name b.name) (
    first_of (compare_ℕ (kind_rank a.kind) (kind_rank b.kind))
      (compare_ℕ (flag_rank a.required) (flag_rank b.required)))
