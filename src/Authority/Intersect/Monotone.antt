-- ===== src/Authority/Intersect/Monotone.antt =====
-- `intersect_authority` (crates/kiteframe-provider/src/authority.rs) against `is_subset_of` and the
-- requirement.
use kiteframe.Base.{
  Bool, true, false, not, some, List, [], ◌∷◌, String, ok, all, All, ◌==◌, leb, ◌≡◌, ◌∙◌, sym, ap,
  refl, arith, subst, eq_of_==, ==_of_eq, and-eq_true,
}
use kiteframe.Base.Laws.{any-eq_false}
use kiteframe.Base.Within.{within, within_refl, within_trans}
use kiteframe.Contract.Capability.{
  effect_rank, EffectiveCapabilityGrant, ResolvedCapabilityRequirement, identity_eq, mode_eq,
  precondition_eq,
}
use kiteframe.Authority.Bounds.{evidence_is_at_least, freshness_is_at_least, modes_subset}
use kiteframe.Authority.Resources.{reaches}
use kiteframe.Authority.Intersect.{
  demanded_evidence, sorted_parts, shared_parts, shared_modes, least_effect, earliest,
  joint_freshness, all_preconditions, AuthorityTerm, allow, deny, names_another,
  intersect_authority, is_subset_of,
}
use kiteframe.Authority.Intersect.Bounded.{
  meet_all_start, meet_all_each, effect_le, leb_refl, leb_trans, min_left, min_right,
  min_effect_left, min_effect_right, freshness_refl, freshness_trans, freshness_left,
  freshness_right, modes_left, modes_right, joint_evidence_each,
}
use kiteframe.Authority.Intersect.Preconditions.{
  within-sorted, preconditions_each, preconditions_start,
}
use kiteframe.Authority.Intersect.Granted.{Granted, intersect_authority-Allowed}
use kiteframe.Authority.Intersect.Shared.{all_terms, Granted-reaches, all_within}

-- The parts of `is_subset_of` against every grant of a list.
subset_all :
    (granted : EffectiveCapabilityGrant) (ks : List EffectiveCapabilityGrant)
    → All (λ k. (granted.capability == k.capability) ≡ true) ks
    → All (λ k. all (λ r. reaches r k.resources) granted.resources ≡ true) ks
    → All (λ k. modes_subset granted.execution_modes k.execution_modes ≡ true) ks
    → All (λ k. effect_le granted.maximum_effect k.maximum_effect ≡ true) ks
    → All (λ k. leb granted.expires_at k.expires_at ≡ true) ks
    → All (λ k. evidence_is_at_least granted.required_evidence k.required_evidence ≡ true) ks
    → All (λ k. freshness_is_at_least granted.freshness k.freshness ≡ true) ks
    → All (λ k. within k.preconditions granted.preconditions ≡ true) ks
    → all (is_subset_of granted) ks ≡ true
unfolding is_subset_of
subset_all granted [] a b c d e f g h = refl
subset_all granted (k ∷ ks) a b c d e f g h =
    rw (a.0, b.0, c.0, d.0, e.0, f.0, g.0, h.0)
      (subset_all granted ks a.1 b.1 c.1 d.1 e.1 f.1 g.1 h.1)

same_capability :
    (requirement : ResolvedCapabilityRequirement) (ks : List EffectiveCapabilityGrant)
    → All (λ k. not (k.capability == requirement.locked_capability.identity) ≡ false) ks
    → All (λ k. (requirement.locked_capability.identity == k.capability) ≡ true) ks
same_capability requirement [] h = tt
same_capability requirement (k ∷ ks) h = (
  ==_of_eq {a = requirement.locked_capability.identity} {b = k.capability}
      (sym (eq_of_== {a = k.capability} (not_false _ h.0))),
  same_capability requirement ks h.1,
)
  where
    not_false : (b : Bool) → not b ≡ false → b ≡ true
    not_false b e = ground arith

module _ (requirement : ResolvedCapabilityRequirement) (g granted : EffectiveCapabilityGrant)
    (gs : List EffectiveCapabilityGrant) (p : Granted requirement g gs granted) where
  reaches_each :
      (ks : List EffectiveCapabilityGrant)
      → ((c : String)
          → reaches c granted.resources ≡ true
          → all (λ k. reaches c k.resources) ks ≡ true)
      → All (λ k. all (λ r. reaches r k.resources) granted.resources ≡ true) ks
  reaches_each [] f = tt
  reaches_each (k ∷ ks) f = (
    all_within requirement g granted gs k.resources p
        (λ c h. (and-eq_true {a = reaches c k.resources} (f c h)).0),
    reaches_each ks (λ c h. (and-eq_true {a = reaches c k.resources} (f c h)).1),
  )

  within_requirement_and_grants :
      (c : String)
      → reaches c granted.resources ≡ true
      → (reaches c requirement.resources ≡ true)
        × (all (λ k. reaches c k.resources) (g ∷ gs) ≡ true)
  within_requirement_and_grants c h =
      and-eq_true (sym (Granted-reaches c requirement g granted gs p) ∙ h)

  sorted_preconditions :
      (ks : List EffectiveCapabilityGrant)
      → All
          (λ k.
            within k.preconditions
              (all_preconditions requirement.locked_capability.descriptor.preconditions (g ∷ gs))
            ≡ true)
          ks
      → All (λ k. within k.preconditions granted.preconditions ≡ true) ks
  unfolding sorted_parts shared_parts
  sorted_preconditions [] h = tt
  sorted_preconditions (k ∷ ks) h = (
    subst (λ d. within k.preconditions d.preconditions ≡ true) (sym p.whole)
        (within-sorted k.preconditions _ (within-sorted k.preconditions _ h.0)),
    sorted_preconditions ks h.1,
  )

  -- Every bound of the grant is within those of every grant that was met.
  granted_subset :
      names_another requirement (g ∷ gs) ≡ false → all (is_subset_of granted) (g ∷ gs) ≡ true
  unfolding sorted_parts shared_parts shared_modes least_effect earliest joint_freshness
      modes_subset
  granted_subset named =
      let d = requirement.locked_capability.descriptor in
      subset_all granted (g ∷ gs)
        (subst (λ m. All (λ k. (m.capability == k.capability) ≡ true) (g ∷ gs)) (sym p.whole)
          (same_capability requirement (g ∷ gs) (any-eq_false _ (g ∷ gs) named)))
        (reaches_each (g ∷ gs) (λ c h. (within_requirement_and_grants c h).1))
        (subst (λ m. All (λ k. modes_subset m.execution_modes k.execution_modes ≡ true) (g ∷ gs))
          (sym p.whole)
          (meet_all_each modes_subset within_refl within_trans _ modes_left modes_right _
            d.execution_modes (g ∷ gs)))
        (subst (λ m. All (λ k. effect_le m.maximum_effect k.maximum_effect ≡ true) (g ∷ gs))
          (sym p.whole)
          (meet_all_each effect_le (λ b. leb_refl (effect_rank b))
            (λ a b c h k. leb_trans (effect_rank a) (effect_rank b) (effect_rank c) h k) _
            min_effect_left min_effect_right _ d.effect (g ∷ gs)))
        (subst (λ m. All (λ k. leb m.expires_at k.expires_at ≡ true) (g ∷ gs)) (sym p.whole)
          (
            meet_all_start leb leb_refl leb_trans _ min_left min_right _ g.expires_at gs,
            meet_all_each leb leb_refl leb_trans _ min_left min_right _ g.expires_at gs,
          ))
        (subst
          (λ m.
            All (λ k. evidence_is_at_least m.required_evidence k.required_evidence ≡ true) (g ∷ gs))
          (sym p.whole) (joint_evidence_each _ (g ∷ gs) p.joint).1)
        (subst (λ m. All (λ k. freshness_is_at_least m.freshness k.freshness ≡ true) (g ∷ gs))
          (sym p.whole)
          (meet_all_each freshness_is_at_least freshness_refl freshness_trans _ freshness_left
            freshness_right _ d.freshness (g ∷ gs)))
        (sorted_preconditions (g ∷ gs) (preconditions_each d.preconditions (g ∷ gs)))

-- A term grants everything that the grant holds.
abbrev pub term_contains : EffectiveCapabilityGrant → AuthorityTerm → Bool
term_contains granted (allow grant) = is_subset_of granted grant
term_contains granted (deny name) = false

-- When `intersect_authority` grants, no term is a denial, and by `is_subset_of` the grant is a
-- subset of every allowed one: in its capability, resources, modes, effect, expiry, evidence,
-- freshness and preconditions.
pub intersect_authority-subset :
    (requirement : ResolvedCapabilityRequirement) (terms : List AuthorityTerm)
    {granted : EffectiveCapabilityGrant}
    → intersect_authority requirement terms ≡ ok (some granted)
    → all (term_contains granted) terms ≡ true
intersect_authority-subset requirement terms {granted} h =
    let a = intersect_authority-Allowed requirement terms h in
    all_terms (term_contains granted) (is_subset_of granted) terms (λ g. refl) a.no_deny
    ∙ ap (all (is_subset_of granted)) a.allowed
    ∙ granted_subset requirement a.g granted a.gs a.parts a.named

-- The bounds of the requirement itself.
abbrev pub WithinRequirement : EffectiveCapabilityGrant → ResolvedCapabilityRequirement → Type 0
WithinRequirement granted requirement =
    (granted.capability ≡ requirement.locked_capability.identity)
    × (all (λ r. reaches r requirement.resources) granted.resources ≡ true)
    × (modes_subset granted.execution_modes requirement.locked_capability.descriptor.execution_modes
        ≡ true)
    × (effect_le granted.maximum_effect requirement.locked_capability.descriptor.effect ≡ true)
    × (evidence_is_at_least granted.required_evidence
          (demanded_evidence requirement.locked_capability.descriptor)
        ≡ true)
    × (freshness_is_at_least granted.freshness requirement.locked_capability.descriptor.freshness
        ≡ true)
    × (within requirement.locked_capability.descriptor.preconditions granted.preconditions ≡ true)

Granted-Within :
    (requirement : ResolvedCapabilityRequirement) (g granted : EffectiveCapabilityGrant)
    (gs : List EffectiveCapabilityGrant)
    → Granted requirement g gs granted
    → WithinRequirement granted requirement
unfolding sorted_parts shared_parts shared_modes least_effect joint_freshness modes_subset
Granted-Within requirement g granted gs p =
    let d = requirement.locked_capability.descriptor in
    (
      ap (λ m. m.capability) p.whole,
      all_within requirement g granted gs requirement.resources p
          (λ c h. (within_requirement_and_grants requirement g granted gs p c h).0),
      subst (λ m. modes_subset m.execution_modes d.execution_modes ≡ true) (sym p.whole)
          (meet_all_start modes_subset within_refl within_trans _ modes_left modes_right _
            d.execution_modes (g ∷ gs)),
      subst (λ m. effect_le m.maximum_effect d.effect ≡ true) (sym p.whole)
          (meet_all_start effect_le (λ b. leb_refl (effect_rank b))
            (λ a b c h k. leb_trans (effect_rank a) (effect_rank b) (effect_rank c) h k) _
            min_effect_left min_effect_right _ d.effect (g ∷ gs)),
      subst (λ m. evidence_is_at_least m.required_evidence (demanded_evidence d) ≡ true)
          (sym p.whole) (joint_evidence_each (demanded_evidence d) (g ∷ gs) p.joint).0,
      subst (λ m. freshness_is_at_least m.freshness d.freshness ≡ true) (sym p.whole)
          (meet_all_start freshness_is_at_least freshness_refl freshness_trans _ freshness_left
            freshness_right _ d.freshness (g ∷ gs)),
      subst (λ m. within d.preconditions m.preconditions ≡ true) (sym p.whole)
          (within-sorted d.preconditions _
            (within-sorted d.preconditions _ (preconditions_start d.preconditions (g ∷ gs)))),
    )

-- When `intersect_authority` grants, the grant is for the required capability, and its resources,
-- modes, effect, evidence, freshness and preconditions are within those of the requirement.
pub intersect_authority-within :
    (requirement : ResolvedCapabilityRequirement) (terms : List AuthorityTerm)
    {granted : EffectiveCapabilityGrant}
    → intersect_authority requirement terms ≡ ok (some granted)
    → WithinRequirement granted requirement
intersect_authority-within requirement terms {granted} h =
    let a = intersect_authority-Allowed requirement terms h in
    Granted-Within requirement a.g granted a.gs a.parts
