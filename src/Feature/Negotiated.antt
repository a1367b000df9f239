-- ===== src/Feature/Negotiated.antt =====
-- The outcome of `negotiate_features` (crates/kiteframe-resolver/src/feature.rs).
use mathlib.Core.Bool.{false≢true}
use kiteframe.Base.{
  ap, not-eq_true, Bool, true, false, not, List, [], ◌∷◌, Result, ok, err, map, retain, is_empty,
  ◌==◌, nat_eq, chars_eq, ◌≡◌, ◌≢◌, ◌↔◌, sym, ◌∙◌, refl, Bool-cases, inl, inr, Elem, eq_of_==,
  ==_of_eq, and-eq_true,
}
use kiteframe.Base.Within.{any-Elem, any_of_Elem}
use kiteframe.Contract.Diagnostic.{Diagnostic}
use kiteframe.Feature.{
  FeatureId, FeatureSet, FeatureNegotiation, feature_name, feature_major, compatible,
  difference_compatible, intersection_compatible, required_feature_diagnostic, negotiate_features,
}

-- A supported feature has the same name and the same major version.
abbrev pub IsSupported : FeatureSet → FeatureId → Type 0
IsSupported supported f =
    (candidate : FeatureId) × Elem candidate supported
    × (feature_name candidate ≡ feature_name f)
    × (feature_major candidate ≡ feature_major f)

compatible-IsSupported :
    (f : FeatureId) (supported : FeatureSet)
    → compatible f supported ≡ true
    → IsSupported supported f
unfolding compatible
compatible-IsSupported f supported h =
    let (candidate, e, same) = any-Elem _ supported h in
    let (name, major) = and-eq_true {a = feature_name candidate == feature_name f} same in
    (candidate, e, eq_of_== name, eq_of_== major)

compatible-of_IsSupported :
    (f : FeatureId) (supported : FeatureSet)
    → IsSupported supported f
    → compatible f supported ≡ true
unfolding compatible
compatible-of_IsSupported f supported (candidate, e, name, major) =
    any_of_Elem _ candidate supported e (rw (==_of_eq name, ==_of_eq major) refl)

compatible-eq_false :
    (f : FeatureId) (supported : FeatureSet)
    → (compatible f supported ≡ false) ↔ (¬ IsSupported supported f)
compatible-eq_false f supported = (
  λ h s. absurd (false≢true (sym h ∙ compatible-of_IsSupported f supported s)),
  λ n. elim (Bool-cases (compatible f supported)) [
    | inl y ↦ absurd (n (compatible-IsSupported f supported y))
    | inr h ↦ h
  ],
)

-- What `retain` keeps.
retain-Elem :
    (t : FeatureId → Bool) (f : FeatureId) (xs : FeatureSet)
    → Elem f (retain t xs)
    → Elem f xs × (t f ≡ true)
retain-Elem t f [] e = absurd e
retain-Elem t f (x ∷ xs) e = elim (Bool-cases (t x)) [
  | inl kept ↦
      let found : Elem f (x ∷ retain t xs) = rw (kept) at e in
      elim found [
        | inl same ↦ (inl same, ap t (sym same) ∙ kept)
        | inr rest ↦ let (there, holds) = retain-Elem t f xs rest in (inr there, holds)
      ]
  | inr dropped ↦ let (there, holds) = retain-Elem t f xs (rw (dropped) at e) in (inr there, holds)
]

retain-Elem_of :
    (t : FeatureId → Bool) (f : FeatureId) (xs : FeatureSet)
    → Elem f xs
    → t f ≡ true
    → Elem f (retain t xs)
retain-Elem_of t f [] e h = absurd e
retain-Elem_of t f (x ∷ xs) (inl same) h = rw (ap t same ∙ h) (inl same)
retain-Elem_of t f (x ∷ xs) (inr e) h = elim (Bool-cases (t x)) [
  | inl kept ↦ rw (kept) (inr (retain-Elem_of t f xs e h))
  | inr dropped ↦ rw (dropped) (retain-Elem_of t f xs e h)
]

intersection_compatible-Elem :
    (f : FeatureId) (left right : FeatureSet)
    → Elem f (intersection_compatible left right) ↔ (Elem f left × IsSupported right f)
unfolding intersection_compatible
intersection_compatible-Elem f left right = (
  λ e.
      let (there, h) = retain-Elem (λ g. compatible g right) f left e in
      (there, compatible-IsSupported f right h),
  λ (there, s).
      retain-Elem_of (λ g. compatible g right) f left there (compatible-of_IsSupported f right s),
)

difference_compatible-Elem :
    (f : FeatureId) (left right : FeatureSet)
    → Elem f (difference_compatible left right) ↔ (Elem f left × (¬ IsSupported right f))
unfolding difference_compatible
difference_compatible-Elem f left right = (
  λ e.
      let (there, h) = retain-Elem (λ g. not (compatible g right)) f left e in
      (there, (compatible-eq_false f right).0 (not-eq_true (compatible f right) h)),
  λ (there, n).
      retain-Elem_of (λ g. not (compatible g right)) f left there
        (rw ((compatible-eq_false f right).1 n) refl),
)

-- The two ends of a negotiation. No required feature is without a supported one, and a feature is
-- enabled if it is optional and has one, and omitted if it is optional and has none. Or there is a
-- diagnostic for each of the missing features, at least one, which are the required ones without a
-- supported one.
abbrev pub IsNegotiated :
    FeatureSet → FeatureSet → FeatureSet → Result (List Diagnostic) FeatureNegotiation → Type 0
IsNegotiated required optional supported (ok n) =
    ((f : FeatureId)
      → (¬ (Elem f required × (¬ IsSupported supported f)))
        × (Elem f n.enabled_optional ↔ (Elem f optional × IsSupported supported f))
        × (Elem f n.omitted_optional ↔ (Elem f optional × (¬ IsSupported supported f))))
IsNegotiated required optional supported (err diagnostics) =
    (missing : FeatureSet) × (missing ≢ [])
    × (diagnostics ≡ map required_feature_diagnostic missing)
    × ((f : FeatureId) → Elem f missing ↔ (Elem f required × (¬ IsSupported supported f)))

is_empty-Elem : (f : FeatureId) (xs : FeatureSet) → is_empty xs ≡ true → ¬ Elem f xs
is_empty-Elem f [] h e = e
is_empty-Elem f (x ∷ xs) h e = cc

is_empty-eq_false : (xs : FeatureSet) → is_empty xs ≡ false → xs ≢ []
is_empty-eq_false xs h e = absurd (false≢true (sym h ∙ ap (λ ys. is_empty {A = FeatureId} ys) e))

-- A negotiation succeeds exactly when every required feature has a supported one of the same name
-- and the same major version. Then a feature is enabled exactly when it is optional and has one,
-- and omitted exactly when it is optional and has none. Otherwise the result is a diagnostic for
-- each required feature that has none, at least one.
pub negotiate_features-IsNegotiated :
    (required optional supported : FeatureSet)
    → IsNegotiated required optional supported (negotiate_features required optional supported)
unfolding negotiate_features
negotiate_features-IsNegotiated required optional supported =
    let missing = difference_compatible required supported in
    elim (Bool-cases (is_empty missing)) [
      | inl none_missing ↦ rw (none_missing) (λ f. (
        (λ m.
            is_empty-Elem f missing none_missing
              ((difference_compatible-Elem f required supported).1 m)),
        intersection_compatible-Elem f optional supported,
        difference_compatible-Elem f optional supported,
      ))
      | inr some_missing ↦ rw (some_missing) (
        missing,
        is_empty-eq_false missing some_missing,
        refl,
        λ f. difference_compatible-Elem f required supported,
      )
    ]
