-- ===== src/Authority/Intersect/Bounded.antt =====
-- Each bound of an intersected grant (crates/kiteframe-provider/src/authority.rs) against the bound
-- it starts from and those of the grants.
use kiteframe.Base.{
  ℕ, Bool, true, List, [], ◌∷◌, ok, All, leb, ◌≡◌, refl, arith, subst, >>=-eq_ok, ok-injective,
  ==_of_eq,
}
use kiteframe.Base.Within.{member, within-retain, all-retain}
use kiteframe.Contract.Capability.{
  ExecutionMode, EffectClassification, effect_rank, FreshnessRequirement, RequiredEvidence,
  ConfirmationRequirement, ApprovalRequirement, ConsentRequirement, EffectiveCapabilityGrant,
  mode_eq, precondition_eq, evidence_eq, confirmation_eq, approval_eq, consent_eq,
}
use kiteframe.Authority.Bounds.{
  confirmation_intersection, approval_intersection, consent_intersection, confirmation_is_at_least,
  approval_is_at_least, consent_is_at_least, intersect_evidence, intersect_freshness, min,
  min_effect, intersect_modes, modes_subset, evidence_is_at_least, freshness_is_at_least,
}
use kiteframe.Authority.Intersect.{meet_all, joint_evidence}

-- ------------------------------------------------------------------ any bound

module _ {B : Type 0} (le : B → B → Bool) (le_refl : (b : B) → le b b ≡ true)
    (le_trans : (a b c : B) → le a b ≡ true → le b c ≡ true → le a c ≡ true) (meet : B → B → B)
    (left : (a b : B) → le (meet a b) a ≡ true) (right : (a b : B) → le (meet a b) b ≡ true)
    (bound : EffectiveCapabilityGrant → B) where
  pub meet_all_start :
      (b : B) (gs : List EffectiveCapabilityGrant) → le (meet_all meet bound b gs) b ≡ true
  meet_all_start b [] = le_refl b
  meet_all_start b (g ∷ gs) =
      le_trans (meet_all meet bound (meet b (bound g)) gs) (meet b (bound g)) b
        (meet_all_start (meet b (bound g)) gs) (left b (bound g))

  pub meet_all_each :
      (b : B) (gs : List EffectiveCapabilityGrant)
      → All (λ g. le (meet_all meet bound b gs) (bound g) ≡ true) gs
  meet_all_each b [] = tt
  meet_all_each b (g ∷ gs) = (
    le_trans (meet_all meet bound (meet b (bound g)) gs) (meet b (bound g)) (bound g)
        (meet_all_start (meet b (bound g)) gs) (right b (bound g)),
    meet_all_each (meet b (bound g)) gs,
  )

-- ------------------------------------------------------------------ numbers and effects

abbrev pub effect_le : EffectClassification → EffectClassification → Bool
effect_le a b = leb (effect_rank a) (effect_rank b)

pub leb_refl : (a : ℕ) → leb a a ≡ true
leb_refl a = ground arith

pub leb_trans : (a b c : ℕ) → leb a b ≡ true → leb b c ≡ true → leb a c ≡ true
leb_trans a b c h k = ground arith

pub min_left : (a b : ℕ) → leb (min a b) a ≡ true
min_left a b = ground arith

pub min_right : (a b : ℕ) → leb (min a b) b ≡ true
min_right a b = ground arith

pub min_effect_left : (a b : EffectClassification) → effect_le (min_effect a b) a ≡ true
unfolding min_effect
min_effect_left a b = ground arith

pub min_effect_right : (a b : EffectClassification) → effect_le (min_effect a b) b ≡ true
unfolding min_effect
min_effect_right a b = ground arith

-- ------------------------------------------------------------------ freshness

pub freshness_refl : (a : FreshnessRequirement) → freshness_is_at_least a a ≡ true
unfolding freshness_is_at_least
freshness_refl a = ground arith

pub freshness_trans :
    (a b c : FreshnessRequirement)
    → freshness_is_at_least a b ≡ true
    → freshness_is_at_least b c ≡ true
    → freshness_is_at_least a c ≡ true
unfolding freshness_is_at_least
freshness_trans a b c h k = ground arith

pub freshness_left :
    (a b : FreshnessRequirement) → freshness_is_at_least (intersect_freshness a b) a ≡ true
unfolding freshness_is_at_least intersect_freshness
freshness_left a b = ground arith

pub freshness_right :
    (a b : FreshnessRequirement) → freshness_is_at_least (intersect_freshness a b) b ≡ true
unfolding freshness_is_at_least intersect_freshness
freshness_right a b = ground arith

-- ------------------------------------------------------------------ execution modes

pub modes_left : (a b : List ExecutionMode) → modes_subset (intersect_modes a b) a ≡ true
unfolding modes_subset intersect_modes
modes_left a b = within-retain (λ m. member m b) a

pub modes_right : (a b : List ExecutionMode) → modes_subset (intersect_modes a b) b ≡ true
unfolding modes_subset intersect_modes
modes_right a b = all-retain (λ m. member m b) a

-- ------------------------------------------------------------------ evidence

confirmation_refl : (a : ConfirmationRequirement) → confirmation_is_at_least a a ≡ true
unfolding confirmation_is_at_least
confirmation_refl ConfirmationRequirement.none = refl
confirmation_refl (ConfirmationRequirement.required e) =
    ==_of_eq {a = ConfirmationRequirement.required e} refl

confirmation_trans :
    (a b c : ConfirmationRequirement)
    → confirmation_is_at_least a b ≡ true
    → confirmation_is_at_least b c ≡ true
    → confirmation_is_at_least a c ≡ true
unfolding confirmation_is_at_least
confirmation_trans a b c h k = ground arith

confirmation_meet :
    (a b c : ConfirmationRequirement)
    → confirmation_intersection a b ≡ ok c
    → (confirmation_is_at_least c a ≡ true) × (confirmation_is_at_least c b ≡ true)
unfolding confirmation_is_at_least confirmation_intersection
confirmation_meet a b c h = ground arith

approval_refl : (a : ApprovalRequirement) → approval_is_at_least a a ≡ true
unfolding approval_is_at_least
approval_refl ApprovalRequirement.none = refl
approval_refl (ApprovalRequirement.required e) = ==_of_eq {a = ApprovalRequirement.required e} refl

approval_trans :
    (a b c : ApprovalRequirement)
    → approval_is_at_least a b ≡ true
    → approval_is_at_least b c ≡ true
    → approval_is_at_least a c ≡ true
unfolding approval_is_at_least
approval_trans a b c h k = ground arith

approval_meet :
    (a b c : ApprovalRequirement)
    → approval_intersection a b ≡ ok c
    → (approval_is_at_least c a ≡ true) × (approval_is_at_least c b ≡ true)
unfolding approval_is_at_least approval_intersection
approval_meet a b c h = ground arith

consent_refl : (a : ConsentRequirement) → consent_is_at_least a a ≡ true
unfolding consent_is_at_least
consent_refl ConsentRequirement.none = refl
consent_refl (ConsentRequirement.required e) = ==_of_eq {a = ConsentRequirement.required e} refl

consent_trans :
    (a b c : ConsentRequirement)
    → consent_is_at_least a b ≡ true
    → consent_is_at_least b c ≡ true
    → consent_is_at_least a c ≡ true
unfolding consent_is_at_least
consent_trans a b c h k = ground arith

consent_meet :
    (a b c : ConsentRequirement)
    → consent_intersection a b ≡ ok c
    → (consent_is_at_least c a ≡ true) × (consent_is_at_least c b ≡ true)
unfolding consent_is_at_least consent_intersection
consent_meet a b c h = ground arith

-- The three parts at once.
evidence_parts :
    (a b : RequiredEvidence)
    → evidence_is_at_least a b ≡ true
    → (confirmation_is_at_least a.confirmation b.confirmation ≡ true)
      × (approval_is_at_least a.approval b.approval ≡ true)
      × (consent_is_at_least a.consent b.consent ≡ true)
unfolding evidence_is_at_least
evidence_parts a b h = ground arith

evidence_refl : (a : RequiredEvidence) → evidence_is_at_least a a ≡ true
unfolding evidence_is_at_least
evidence_refl a =
    rw (confirmation_refl a.confirmation, approval_refl a.approval, consent_refl a.consent) refl

evidence_trans :
    (a b c : RequiredEvidence)
    → evidence_is_at_least a b ≡ true
    → evidence_is_at_least b c ≡ true
    → evidence_is_at_least a c ≡ true
unfolding evidence_is_at_least
evidence_trans a b c h k =
    let ab = evidence_parts a b h in
    let bc = evidence_parts b c k in
    rw
      (
        confirmation_trans a.confirmation b.confirmation c.confirmation ab.0 bc.0,
        approval_trans a.approval b.approval c.approval ab.1 bc.1,
        consent_trans a.consent b.consent c.consent ab.2 bc.2,
      )
      refl

evidence_meet :
    (a b c : RequiredEvidence)
    → intersect_evidence a b ≡ ok c
    → (evidence_is_at_least c a ≡ true) × (evidence_is_at_least c b ≡ true)
unfolding intersect_evidence evidence_is_at_least
evidence_meet a b c h =
    let x = >>=-eq_ok (confirmation_intersection a.confirmation b.confirmation) _ h in
    let y = >>=-eq_ok (approval_intersection a.approval b.approval) _ x.2 in
    let z = >>=-eq_ok (consent_intersection a.consent b.consent) _ y.2 in
    let p = confirmation_meet a.confirmation b.confirmation x.0 x.1 in
    let q = approval_meet a.approval b.approval y.0 y.1 in
    let r = consent_meet a.consent b.consent z.0 z.1 in
    subst (λ d. (evidence_is_at_least d a ≡ true) × (evidence_is_at_least d b ≡ true))
      (ok-injective z.2) (rw (p.0, q.0, r.0) refl, rw (p.1, q.1, r.1) refl)

-- The joint evidence is at least what it starts from, and what every grant demands.
pub joint_evidence_each :
    (a : RequiredEvidence) (gs : List EffectiveCapabilityGrant) {e : RequiredEvidence}
    → joint_evidence a gs ≡ ok e
    → (evidence_is_at_least e a ≡ true)
      × All (λ g. evidence_is_at_least e g.required_evidence ≡ true) gs
unfolding joint_evidence
joint_evidence_each a [] {e} h =
    (subst (λ b. evidence_is_at_least b a ≡ true) (ok-injective h) (evidence_refl a), tt)
joint_evidence_each a (g ∷ gs) {e} h =
    let step =
      >>=-eq_ok (intersect_evidence a g.required_evidence) (λ joint. joint_evidence joint gs) h in
    let met = evidence_meet a g.required_evidence step.0 step.1 in
    let rest = joint_evidence_each step.0 gs step.2 in
    (
      evidence_trans e step.0 a rest.0 met.0,
      (evidence_trans e step.0 g.required_evidence rest.0 met.1, rest.1),
    )
