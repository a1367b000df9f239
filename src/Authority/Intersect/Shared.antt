-- ===== src/Authority/Intersect/Shared.antt =====
-- The resources of an intersected grant (crates/kiteframe-provider/src/authority.rs).
use Prim.Native.String.{compare}
use text.Mathlib.TextEquality.{path_by_compare}
use kiteframe.Base.{
  Bool, true, false, ◌&&◌, some, List, [], ◌∷◌, String, ok, any, all, ◌≡◌, ◌∙◌, sym, ap, refl,
}
use kiteframe.Base.Ordered.{any-sort_dedup, all-sort_dedup}
use kiteframe.Contract.Capability.{
  EffectiveCapabilityGrant, ResolvedCapabilityRequirement, identity_eq, mode_eq, precondition_eq,
}
use kiteframe.Authority.Selector.{resource_selector_is_subset}
use kiteframe.Authority.Resources.{reaches}
use kiteframe.Authority.Resources.Narrow.{narrow_resources-reaches, narrow_selectors, all_reached}
use kiteframe.Authority.Intersect.{
  sorted_parts, shared_parts, AuthorityTerm, allow, deny, is_explicit_deny, allow_values,
  intersect_authority,
}
use kiteframe.Authority.Intersect.Granted.{Granted, intersect_authority-Allowed}

-- A term lets a resource through.
abbrev pub term_reaches : String → AuthorityTerm → Bool
term_reaches c (allow grant) = reaches c grant.resources
term_reaches c (deny name) = false

pub all_terms :
    (t : AuthorityTerm → Bool) (u : EffectiveCapabilityGrant → Bool) (terms : List AuthorityTerm)
    → ((g : EffectiveCapabilityGrant) → t (allow g) ≡ u g)
    → any is_explicit_deny terms ≡ false
    → all t terms ≡ all u (allow_values terms)
unfolding is_explicit_deny allow_values
all_terms t u [] f h = refl
all_terms t u (allow g ∷ terms) f h = rw (f g, all_terms t u terms f h) refl
all_terms t u (deny name ∷ terms) f h = cc

pub Granted-reaches :
    (c : String) (requirement : ResolvedCapabilityRequirement)
    (g granted : EffectiveCapabilityGrant) (gs : List EffectiveCapabilityGrant)
    → Granted requirement g gs granted
    → reaches c granted.resources
      ≡ (reaches c requirement.resources && all (λ k. reaches c k.resources) (g ∷ gs))
unfolding sorted_parts shared_parts
Granted-reaches c requirement g granted gs p =
    ap (λ k. reaches c k.resources) p.whole
    ∙ any-sort_dedup compare path_by_compare (λ allowed. resource_selector_is_subset c allowed)
        p.shared
    ∙ narrow_resources-reaches c requirement.resources (g ∷ gs) p.narrowed

-- When `intersect_authority` grants, the grant reaches exactly the resources that the requirement
-- and every term reach, where a denial reaches none.
pub intersect_authority-reaches :
    (c : String) (requirement : ResolvedCapabilityRequirement) (terms : List AuthorityTerm)
    {granted : EffectiveCapabilityGrant}
    → intersect_authority requirement terms ≡ ok (some granted)
    → reaches c granted.resources ≡ (reaches c requirement.resources && all (term_reaches c) terms)
intersect_authority-reaches c requirement terms {granted} h =
    let a = intersect_authority-Allowed requirement terms h in
    Granted-reaches c requirement a.g granted a.gs a.parts
    ∙ ap (λ b. reaches c requirement.resources && b)
        (ap (all (λ k. reaches c k.resources)) (sym a.allowed)
          ∙ sym
              (all_terms (term_reaches c) (λ k. reaches c k.resources) terms (λ g. refl) a.no_deny))

-- Every resource of the grant lies in a set that reaches whatever the grant reaches.
pub all_within :
    (requirement : ResolvedCapabilityRequirement) (g granted : EffectiveCapabilityGrant)
    (gs : List EffectiveCapabilityGrant) (others : List String)
    → Granted requirement g gs granted
    → ((c : String) → reaches c granted.resources ≡ true → reaches c others ≡ true)
    → all (λ r. reaches r others) granted.resources ≡ true
unfolding sorted_parts shared_parts
all_within requirement g granted gs others p f =
    ap (λ k. all (λ r. reaches r others) k.resources) p.whole
    ∙ all-sort_dedup compare path_by_compare (λ r. reaches r others) p.shared
    ∙ all_reached p.shared others (narrow_selectors requirement.resources g gs p.narrowed) (λ c k.
      f c (
        ap (λ m. reaches c m.resources) p.whole
        ∙ any-sort_dedup compare path_by_compare (λ allowed. resource_selector_is_subset c allowed)
            p.shared
        ∙ k))
